-- ===== src/Engine/Secure/Answers.antt =====
-- The two requests of such a client as commands: src/UringEngine/CommandRoute.cpp and
-- EncryptedHandler.cpp.
use servd.Base.{ℕ, ◌^◌, ◌<◌, ◌≡◌, refl, ap, ◌∙◌, true, false, inl, some, List, [], length}
use servd.Result.{ok}
use servd.Protocol.{ResponseFrame, any}
use servd.Session.{Session}
use servd.Context.{Context, Handler}
use servd.Router.{Endpoint, get}
use servd.Crypto.{IsBotan, generate_private, public_key, shared_secret}
use servd.Exec.{Env, SendsAll, FillsRandom, Io}
use servd.Connection.{Connection, peer_of, frame_bytes}
use servd.Connection.Wire.{after_write}
use servd.Access.{Dispatcher, perform_all}
use servd.Encrypted.{DecryptedMessage, do_decrypt, seal_message, handle_encrypted_message}
use servd.Encrypted.Channel.{do_decrypt-seal_message}
use servd.Encrypted.Trust.{inner_context}
use servd.Encrypted.Reply.{sealed_header, drawn, do_route_and_send_behind}
use servd.Command.{process_command}
use servd.Command.Exchange.{exchange_header, keyed, handle_key_exchange_agrees}
use servd.Engine.Secure.Frames.{key_frame, sealed_frame, opened_as}

module _ (env : Env) (d : Dispatcher) (c : Connection) (v : IsBotan env.botan)
    (whole : SendsAll env) where
  -- The client's key makes the session's.
  pub process_command-key_frame :
      (io : Io) (sid : ℕ) (client_priv : List ℕ)
      → length client_priv ≡ 32
      → let server_pub = public_key env.botan (generate_private env.botan io.draws) in
        (s : List ℕ) × (length s ≡ 32)
        × (shared_secret env.botan client_priv server_pub ≡ ok s)
        × (process_command env d (key_frame sid (public_key env.botan client_priv)) c io ≡ (
          ok tt,
          after_write (keyed io s) (peer_of c) (frame_bytes c (exchange_header io) server_pub),
        ))
  unfolding process_command
  process_command-key_frame io sid client_priv size =
      handle_key_exchange_agrees env (key_frame sid (public_key env.botan client_priv)) c io
        client_priv v whole size refl

  module _ (fills : FillsRandom env) (ep : Endpoint) (handler : Handler)
      (response : Context → ResponseFrame) (unrestricted : ep.requires_auth ≡ false)
      (anywhere : ep.allowed_transport ≡ any) (there : ep.handler ≡ some handler)
      (answers : (ctx : Context) → handler ctx ≡ ([], ok (response ctx))) where
    -- A message sealed with the session's key is answered under that key.
    pub process_command-sealed_frame :
        (io : Io) (client : Session) (sid : ℕ) (nonce : List ℕ) (cmd : ℕ) (payload : List ℕ)
        → client.has_aes_key ≡ true
        → client.aes_key ≡ io.session.aes_key
        → io.session.has_aes_key ≡ true
        → length io.session.aes_key ≡ 32
        → length nonce ≡ 12
        → cmd < 256 ^ 2
        → get d.router cmd ≡ some ep
        → let key = io.session.aes_key in
          let msg : DecryptedMessage = record {
            cipher = key;
            inner_cmd = cmd;
            inner_payload = payload;
          } in
          let answer = response (inner_context env d c msg io) in
          (sealed : List ℕ) × (seal_message env.botan key nonce cmd payload ≡ ok sealed)
          × (out : List ℕ) × (process_command env d (sealed_frame sid sealed) c io ≡ (
            ok tt,
            after_write (drawn io) (peer_of c) (frame_bytes c (sealed_header io answer out) out),
          ))
          × (do_decrypt env.botan out client
              ≡ ok
                  (some (record { cipher = key; inner_cmd = cmd; inner_payload = answer.payload })))
    unfolding process_command handle_encrypted_message perform_all
    process_command-sealed_frame io client sid nonce cmd payload held same has size nonced fits
          found =
        let key = io.session.aes_key in
        let msg : DecryptedMessage = record {
          cipher = key;
          inner_cmd = cmd;
          inner_payload = payload;
        } in
        let ctx = inner_context env d c msg io in
        let (sealed, made, opened) =
          do_decrypt-seal_message env.botan v io.session nonce cmd payload has size nonced fits in
        let (out, sent, readable) =
          do_route_and_send_behind env d c msg io ep handler [] (response ctx) client io v whole
            fills found (inl unrestricted, inl anywhere) there (rw unrestricted) (answers ctx) held
            same (rw same size) fits in
        (
          sealed,
          made,
          out,
          rw opened sent,
          readable ∙ ap (λ k. ok (some (opened_as k cmd (response ctx).payload))) same,
        )
