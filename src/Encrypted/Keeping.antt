-- ===== src/Encrypted/Keeping.antt =====
-- src/UringEngine/EncryptedHandler.cpp: predicates over whole requests.
use servd.Base.{Option, none, some, length}
use servd.Protocol.{ClientFrame}
use servd.Context.{Context}
use servd.Router.{Endpoint, get}
use servd.Exec.{Env, Io, get_session, get_locals, draw, lift}
use servd.Exec.Laws.{Keeps, Keeps-pure, Keeps-lift, Keeps-bind}
use servd.Connection.{Connection, transport_type, u32}
use servd.Access.{Dispatcher, permitted, refreshed, call_handler}
use servd.Access.Keeping.{
  IsClosed, Keeps-if, Keeps-get_session, Keeps-get_locals, Keeps-refreshed, permitted-Keeps,
  Keeps-draw, Keeps-send_frame, call_handler-Keeps,
}
use servd.Encrypted.{
  DecryptedMessage, encrypted_reply, route_found, route_decrypted, handle_encrypted_message,
}

module _ (env : Env) (d : Dispatcher) (c : Connection) {P : Io → Type 0} (closed : IsClosed P) where
  encrypted_reply-Keeps :
      (msg : DecryptedMessage) (ep : Endpoint) (ctx : Context)
      → Keeps P (encrypted_reply env d c msg ep ctx)
  unfolding encrypted_reply
  encrypted_reply-Keeps msg ep ctx =
      Keeps-bind (call_handler env c ep ctx) _ (call_handler-Keeps env c closed ep ctx) λ resp.
        Keeps-bind draw _ (Keeps-draw env c closed) λ k.
          Keeps-bind (lift _) _ (Keeps-lift _) λ out.
            Keeps-bind get_session _ Keeps-get_session λ s. Keeps-send_frame env c closed _ out

  route_found-Keeps :
      (msg : DecryptedMessage) (o : Option Endpoint) → Keeps P (route_found env d c msg o)
  unfolding route_found
  route_found-Keeps msg none = Keeps-pure tt
  route_found-Keeps msg (some ep) = Keeps-bind get_session _ Keeps-get_session λ s.
      Keeps-bind get_locals _ Keeps-get_locals λ locals.
        let ctx : Context = record {
          header = record {
            command_id = msg.inner_cmd;
            flags = 0;
            payload_length = u32 (length msg.inner_payload);
            session_id = s.id;
          };
          payload = msg.inner_payload;
          session = s;
          transport = transport_type c;
          locals = locals;
        } in
        Keeps-bind (permitted env c d.authenticate ep ctx) _
          (permitted-Keeps env c closed d.authenticate ep ctx)
          λ allowed.
            Keeps-bind (refreshed ctx) _ (Keeps-refreshed ctx)
              λ now. Keeps-if allowed _ _ (encrypted_reply-Keeps msg ep now) (Keeps-pure tt)

  route_decrypted-Keeps : (o : Option DecryptedMessage) → Keeps P (route_decrypted env d c o)
  unfolding route_decrypted
  route_decrypted-Keeps none = Keeps-pure tt
  route_decrypted-Keeps (some msg) = route_found-Keeps msg (get d.router msg.inner_cmd)

  pub handle_encrypted_message-Keeps :
      (frame : ClientFrame) → Keeps P (handle_encrypted_message env d c frame)
  unfolding handle_encrypted_message
  handle_encrypted_message-Keeps frame =
      Keeps-bind get_session _ Keeps-get_session
        λ s. Keeps-bind (lift _) _ (Keeps-lift _) route_decrypted-Keeps
