-- ===== src/Engine/Secure/Frames.antt =====
-- The frames of a client that exchanges keys and then sends an encrypted command, those of the
-- answers, and how the client opens them.
use servd.Base.{ℕ, true, false, List, [], length}
use servd.Protocol.{
  FrameHeader, ClientFrame, ResponseFrame, cmd_key_exchange, cmd_encrypted_message,
}
use servd.Session.{Session}
use servd.Connection.{u32}
use servd.Encrypted.{DecryptedMessage}

-- The frame of a client's public key, and that of an encrypted message.
abbrev pub key_frame : ℕ → List ℕ → ClientFrame
key_frame sid public = record {
  header = record {
    command_id = cmd_key_exchange;
    flags = 0;
    payload_length = 32;
    session_id = sid;
  };
  payload = public;
}

abbrev pub sealed_frame : ℕ → List ℕ → ClientFrame
sealed_frame sid sealed = record {
  header = record {
    command_id = cmd_encrypted_message;
    flags = 0;
    payload_length = u32 (length sealed);
    session_id = sid;
  };
  payload = sealed;
}

abbrev pub key_header : ℕ → FrameHeader
key_header sid = record {
  command_id = cmd_key_exchange;
  flags = 0;
  payload_length = 32;
  session_id = sid;
}

abbrev pub answer_header : ℕ → ResponseFrame → List ℕ → FrameHeader
answer_header sid response out = record {
  command_id = cmd_encrypted_message;
  flags = response.flags;
  payload_length = u32 (length out);
  session_id = sid;
}

abbrev pub opened_as : List ℕ → ℕ → List ℕ → DecryptedMessage
opened_as key cmd payload = record { cipher = key; inner_cmd = cmd; inner_payload = payload }

-- What a client with a key decrypts by.
abbrev pub client_session : ℕ → List ℕ → Session
client_session sid key = record {
  id = sid;
  authenticated = false;
  has_aes_key = true;
  aes_key = key;
  user_identifier = [];
}
