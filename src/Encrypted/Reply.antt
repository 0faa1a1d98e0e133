-- ===== src/Encrypted/Reply.antt =====
-- The answer to an encrypted command: src/UringEngine/EncryptedHandler.cpp, do_route_and_send.
use servd.Base.{ℕ, ◌+◌, ◌^◌, ◌<◌, ◌≡◌, true, some, List, length}
use servd.Result.{ok}
use servd.Protocol.{FrameHeader, ResponseFrame, cmd_encrypted_message}
use servd.Session.{Session}
use servd.Context.{Context, Action, Handler}
use servd.Router.{Endpoint, get}
use servd.Crypto.{IsBotan}
use servd.Exec.{Env, SendsAll, FillsRandom, Io}
use servd.Connection.{Connection, peer_of, frame_bytes, u32}
use servd.Connection.Wire.{after_write, send_frame_whole}
use servd.Access.{Dispatcher, refreshed}
use servd.Access.Guard.{Allowed, checked, permitted_complete}
use servd.Command.Reply.{acted, id-acted, call_handler_ok}
use servd.Encrypted.{DecryptedMessage, do_decrypt, do_route_and_send}
use servd.Encrypted.Channel.{do_decrypt-seal_message}
use servd.Encrypted.Trust.{inner_context}

abbrev pub sealed_header : Io → ResponseFrame → List ℕ → FrameHeader
sealed_header io response out = record {
  command_id = cmd_encrypted_message;
  flags = response.flags;
  payload_length = u32 (length out);
  session_id = io.session.id;
}

-- `io` after the nonce was drawn.
abbrev pub drawn : Io → Io
drawn io = record io { draws = io.draws + 1 }

-- The same with a name for what the authenticator left.
pub do_route_and_send_behind :
    (env : Env) (d : Dispatcher) (c : Connection) (msg : DecryptedMessage) (io : Io) (ep : Endpoint)
    (handler : Handler) (actions : List Action) (response : ResponseFrame) (client : Session)
    (behind : Io)
    → IsBotan env.botan
    → SendsAll env
    → FillsRandom env
    → get d.router msg.inner_cmd ≡ some ep
    → Allowed d.authenticate ep (inner_context env d c msg io)
    → ep.handler ≡ some handler
    → checked env c d.authenticate ep (inner_context env d c msg io) io ≡ behind
    → handler
        (record (inner_context env d c msg io) { session = behind.session; locals = behind.locals })
      ≡ (actions, ok response)
    → client.has_aes_key ≡ true
    → client.aes_key ≡ msg.cipher
    → length client.aes_key ≡ 32
    → msg.inner_cmd < 256 ^ 2
    → (out : List ℕ) × (do_route_and_send env d c msg io ≡ (
      ok tt,
      after_write
          (drawn (acted env c actions behind))
          (peer_of c)
          (frame_bytes c (sealed_header behind response out) out),
    ))
      × (do_decrypt env.botan out client
          ≡ ok (
              some (record {
                cipher = client.aes_key;
                inner_cmd = msg.inner_cmd;
                inner_payload = response.payload;
              })))
unfolding do_route_and_send refreshed
do_route_and_send_behind env d c msg io ep handler actions response client behind v whole fills
      found allowed there left answers keyed same size fits =
    let ctx = inner_context env d c msg io in
    let now : Context = record ctx { session = behind.session; locals = behind.locals } in
    let nonce = env.random (acted env c actions behind).draws 12 in
    let (out, sealed, opened) =
      do_decrypt-seal_message env.botan v client nonce msg.inner_cmd response.payload keyed size
        (fills (acted env c actions behind).draws 12) fits in
    (
      out,
      rw
          (
            found,
            permitted_complete env c d.authenticate ep ctx io whole allowed,
            left,
            call_handler_ok env c ep handler now behind actions response whole there answers,
            rw same at sealed,
            id-acted env c actions behind,
          )
          (send_frame_whole env c (sealed_header behind response out) out
            (drawn (acted env c actions behind)) whole),
      opened,
    )
