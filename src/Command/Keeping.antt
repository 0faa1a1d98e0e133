-- ===== src/Command/Keeping.antt =====
-- src/UringEngine/CommandRoute.cpp: predicates over whole requests.
use servd.Base.{ℕ, Option, none, some, List, ◌==◌}
use servd.Protocol.{ClientFrame, cmd_key_exchange}
use servd.Crypto.{generate_private, public_key, shared_secret}
use servd.Session.{set_aes_key}
use servd.Context.{Context}
use servd.Router.{Endpoint, get}
use servd.Exec.{Env, Io, get_session, get_locals, draw, lift}
use servd.Exec.Laws.{Keeps, Keeps-pure, Keeps-lift, Keeps-bind}
use servd.Connection.{Connection, transport_type}
use servd.Access.{Dispatcher, permitted, refreshed, call_handler}
use servd.Access.Keeping.{
  IsClosed, Keeps-if, Keeps-get_session, Keeps-get_locals, Keeps-refreshed, permitted-Keeps,
  Keeps-draw, Keeps-send_frame, call_handler-Keeps,
}
use servd.Encrypted.Keeping.{handle_encrypted_message-Keeps}
use servd.Command.{confirm, exchange, handle_key_exchange, reply, route, process_command}

module _ (env : Env) (d : Dispatcher) (c : Connection) {P : Io → Type 0} (closed : IsClosed P) where
  confirm-Keeps : (server_pub shared : List ℕ) → Keeps P (confirm env c server_pub shared)
  unfolding confirm
  confirm-Keeps server_pub shared = record {
    at = λ io h.
        (Keeps-send_frame env c closed
            (record {
              command_id = cmd_key_exchange;
              flags = 0;
              payload_length = 32;
              session_id = io.session.id;
            })
            server_pub).at
          (record io { session = set_aes_key io.session shared }) (closed.on_key io shared h);
  }

  exchange-Keeps : (client_pub : List ℕ) → Keeps P (exchange env c client_pub)
  unfolding exchange
  exchange-Keeps client_pub = Keeps-bind draw _ (Keeps-draw env c closed) λ k.
      Keeps-bind (lift (shared_secret env.botan (generate_private env.botan k) client_pub)) _
        (Keeps-lift _)
        λ shared. confirm-Keeps (public_key env.botan (generate_private env.botan k)) shared

  reply-Keeps :
      (frame : ClientFrame) (ep : Endpoint) (ctx : Context) → Keeps P (reply env d frame c ep ctx)
  unfolding reply
  reply-Keeps frame ep ctx =
      Keeps-bind (call_handler env c ep ctx) _ (call_handler-Keeps env c closed ep ctx) λ response.
        Keeps-bind get_session _ Keeps-get_session λ s. Keeps-send_frame env c closed _ _

  route-Keeps : (frame : ClientFrame) (o : Option Endpoint) → Keeps P (route env d frame c o)
  unfolding route
  route-Keeps frame none = Keeps-pure tt
  route-Keeps frame (some ep) = Keeps-bind get_session _ Keeps-get_session λ s.
      Keeps-bind get_locals _ Keeps-get_locals λ locals.
        let ctx : Context = record {
          header = frame.header;
          payload = frame.payload;
          session = s;
          transport = transport_type c;
          locals = locals;
        } in
        Keeps-bind (permitted env c d.authenticate ep ctx) _
          (permitted-Keeps env c closed d.authenticate ep ctx)
          λ allowed.
            Keeps-bind (refreshed ctx) _ (Keeps-refreshed ctx)
              λ now. Keeps-if allowed _ _ (reply-Keeps frame ep now) (Keeps-pure tt)

  pub process_command-Keeps : (frame : ClientFrame) → Keeps P (process_command env d frame c)
  unfolding process_command handle_key_exchange
  process_command-Keeps frame =
      Keeps-if (frame.header.command_id == _) _ _
        (Keeps-if _ _ _ (Keeps-pure tt) (exchange-Keeps frame.payload))
        (Keeps-if (frame.header.command_id == _) _ _
          (handle_encrypted_message-Keeps env d c closed frame)
          (route-Keeps frame (get d.router frame.header.command_id)))
