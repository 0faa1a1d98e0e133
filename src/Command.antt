-- ===== src/Command.antt =====
-- src/UringEngine/CommandRoute.cpp: the key exchange, plain commands, and the choice between them.
pub mod Guard
pub mod Confined
pub mod Reply
pub mod Exchange
pub mod Keeping
mod Tests
use servd.Base.{ℕ, Bool, not, Option, none, some, List, length, ◌==◌, if◌then◌else◌}
use servd.Protocol.{ClientFrame, cmd_key_exchange, cmd_encrypted_message}
use servd.Session.{set_aes_key}
use servd.Context.{Context}
use servd.Router.{Endpoint, get}
use servd.Crypto.{generate_private, public_key, shared_secret}
use servd.Exec.{Env, Exec, pure, lift, ◌>>=◌, ◌>>◌, get_session, get_locals, put_session, draw}
use servd.Connection.{Connection, transport_type, send_frame, u32}
use servd.Access.{Dispatcher, permitted, refreshed, call_handler}
use servd.Encrypted.{handle_encrypted_message}

module _ (env : Env) where
  -- The session takes the shared key, and the client is sent the public one.
  confirm : Connection → List ℕ → List ℕ → Exec (Unit {0})
  confirm connection server_pub shared = do
    session ← get_session
    put_session (set_aes_key session shared)
    send_frame env connection
        (record {
          command_id = cmd_key_exchange;
          flags = 0;
          payload_length = 32;
          session_id = session.id;
        })
        server_pub

  exchange : Connection → List ℕ → Exec (Unit {0})
  unfolding confirm
  exchange connection client_pub = do
    k ← draw
    let server_priv = generate_private env.botan k
    let server_pub = public_key env.botan server_priv
    shared ← lift (shared_secret env.botan server_priv client_pub)
    confirm connection server_pub shared

  unfoldable pub handle_key_exchange : ClientFrame → Connection → Exec (Unit {0})
  unfolding exchange
  handle_key_exchange frame connection =
      if not (length frame.payload == 32) then pure tt else exchange connection frame.payload

module _ (env : Env) (d : Dispatcher) where
  reply : ClientFrame → Connection → Endpoint → Context → Exec (Unit {0})
  reply frame connection endpoint ctx = do
    response ← call_handler env connection endpoint ctx
    session ← get_session
    send_frame env connection
        (record {
          command_id = frame.header.command_id;
          flags = response.flags;
          payload_length = u32 (length response.payload);
          session_id = session.id;
        })
        response.payload

  route : ClientFrame → Connection → Option Endpoint → Exec (Unit {0})
  unfolding reply
  route frame connection none = pure tt
  route frame connection (some endpoint) = do
    session ← get_session
    locals ← get_locals
    let ctx : Context = record {
      header = frame.header;
      payload = frame.payload;
      session = session;
      transport = transport_type connection;
      locals = locals;
    }
    allowed ← permitted env connection d.authenticate endpoint ctx
    now ← refreshed ctx
    if allowed then reply frame connection endpoint now else pure tt

  unfoldable pub handle_normal_command : ClientFrame → Connection → Exec (Unit {0})
  unfolding route
  handle_normal_command frame connection =
      route frame connection (get d.router frame.header.command_id)

  unfoldable pub process_command : ClientFrame → Connection → Exec (Unit {0})
  unfolding handle_normal_command
  process_command frame connection =
      if frame.header.command_id == cmd_key_exchange
      then handle_key_exchange env frame connection
      else if frame.header.command_id == cmd_encrypted_message
      then handle_encrypted_message env d connection frame
      else handle_normal_command frame connection
