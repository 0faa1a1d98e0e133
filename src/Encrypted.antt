-- ===== src/Encrypted.antt =====
-- src/UringEngine/EncryptedHandler.cpp: commands that travel inside an AES-GCM message,
-- nonce (12 bytes), tag (16 bytes), ciphertext; the plaintext is a command id and a payload.
pub mod Channel
pub mod Reply
pub mod Trust
pub mod Keeping
mod Tests
use servd.Base.{
  ℕ, ◌+◌, ◌-◌, Bool, not, ◌||◌, Option, none, some, List, [], ◌++◌, length, take, drop, le_bytes,
  of_le_bytes, ltb, if◌then◌else◌,
}
use servd.Result
use servd.Result.{Result, ok, err}
use servd.Protocol.{ClientFrame, cmd_encrypted_message}
use servd.Session.{Session}
use servd.Context.{Context}
use servd.Router.{Endpoint, get}
use servd.Crypto.{Botan, make_cipher, encrypt, decrypt, key_size, nonce_size, tag_size}
use servd.Exec.{Env, Exec, pure, lift, ◌>>=◌, ◌>>◌, get_session, get_locals, draw}
use servd.Connection.{Connection, transport_type, send_frame, u32}
use servd.Access.{Dispatcher, permitted, refreshed, call_handler}

pub record DecryptedMessage : Type 0 where
  pub cipher : List ℕ
  pub inner_cmd : ℕ
  pub inner_payload : List ℕ

-- The plaintext is split; a failed decryption is caught.
parse_plaintext : List ℕ → Result (List ℕ) → Option DecryptedMessage
parse_plaintext cipher (err e) = none
parse_plaintext cipher (ok pt) =
    if ltb (length pt) 2
    then none
    else some
        (record { cipher = cipher; inner_cmd = of_le_bytes (take 2 pt); inner_payload = drop 2 pt })

unfoldable pub do_decrypt : Botan → List ℕ → Session → Result (Option DecryptedMessage)
unfolding parse_plaintext
do_decrypt botan payload session =
    if not session.has_aes_key || ltb (length payload) (nonce_size + tag_size)
    then ok none
    else let iv = take nonce_size payload in
      let tag = take tag_size (drop nonce_size payload) in
      let ct = drop (nonce_size + tag_size) payload in
      Result.◌>>=◌ (make_cipher botan session.aes_key key_size)
        (λ cipher. ok (parse_plaintext cipher (decrypt botan cipher (ct ++ tag) [] iv)))

-- The tag is moved in front of the ciphertext.
unfoldable pub seal_message : Botan → List ℕ → List ℕ → ℕ → List ℕ → Result (List ℕ)
seal_message botan cipher iv_out inner_cmd resp =
    let inner = le_bytes 2 inner_cmd ++ resp in
    Result.◌>>=◌ (encrypt botan cipher inner [] iv_out)
      (λ enc. let cl = length enc - tag_size in ok (iv_out ++ (drop cl enc ++ take cl enc)))

module _ (env : Env) (d : Dispatcher) (conn : Connection) where
  encrypted_reply : DecryptedMessage → Endpoint → Context → Exec (Unit {0})
  encrypted_reply msg ep ctx = do
    resp ← call_handler env conn ep ctx
    k ← draw
    out ←
        lift
          (seal_message env.botan msg.cipher (env.random k nonce_size) msg.inner_cmd resp.payload)
    session ← get_session
    send_frame env conn
        (record {
          command_id = cmd_encrypted_message;
          flags = resp.flags;
          payload_length = u32 (length out);
          session_id = session.id;
        })
        out

  route_found : DecryptedMessage → Option Endpoint → Exec (Unit {0})
  unfolding encrypted_reply
  route_found msg none = pure tt
  route_found msg (some ep) = do
    session ← get_session
    locals ← get_locals
    let ctx : Context = record {
      header = record {
        command_id = msg.inner_cmd;
        flags = 0;
        payload_length = u32 (length msg.inner_payload);
        session_id = session.id;
      };
      payload = msg.inner_payload;
      session = session;
      transport = transport_type conn;
      locals = locals;
    }
    allowed ← permitted env conn d.authenticate ep ctx
    now ← refreshed ctx
    if allowed then encrypted_reply msg ep now else pure tt

  unfoldable pub do_route_and_send : DecryptedMessage → Exec (Unit {0})
  unfolding route_found
  do_route_and_send msg = route_found msg (get d.router msg.inner_cmd)

  route_decrypted : Option DecryptedMessage → Exec (Unit {0})
  unfolding do_route_and_send
  route_decrypted none = pure tt
  route_decrypted (some msg) = do_route_and_send msg

  unfoldable pub handle_encrypted_message : ClientFrame → Exec (Unit {0})
  unfolding route_decrypted
  handle_encrypted_message frame = do
    session ← get_session
    msg ← lift (do_decrypt env.botan frame.payload session)
    route_decrypted msg
