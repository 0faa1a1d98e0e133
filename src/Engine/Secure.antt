-- ===== src/Engine/Secure.antt =====
-- A client that exchanges keys and then sends an encrypted command, from the table of sessions to
-- the answer: src/UringEngine/ClientHandlers.cpp, CommandRoute.cpp and EncryptedHandler.cpp.
mod Frames
mod Answers
use servd.Base.{
  ℕ, ◌^◌, ◌<◌, ◌≡◌, refl, ap, ◌∙◌, true, false, inl, some, List, [], ◌∷◌, ◌++◌, length,
}
use servd.Result.{ok}
use servd.Protocol.{
  FrameHeader, ClientFrame, ResponseFrame, any, cmd_key_exchange, cmd_encrypted_message,
}
use servd.Session.{Session, set_aes_key, ISessionStore}
use servd.Context.{Context, Handler}
use servd.Router.{Endpoint, get}
use servd.Crypto.{IsBotan, generate_private, public_key, shared_secret}
use servd.Exec.{Env, SendsAll, FillsRandom, Io}
use servd.Connection.{Connection, peer_of, frame_bytes, u32}
use servd.Connection.Wire.{after_write}
use servd.Access.{Dispatcher, perform_all}
use servd.Encrypted.{DecryptedMessage, do_decrypt, seal_message, handle_encrypted_message}
use servd.Encrypted.Channel.{do_decrypt-seal_message}
use servd.Encrypted.Trust.{inner_context}
use servd.Encrypted.Reply.{sealed_header, drawn}
use servd.Command.{process_command}
use servd.Command.Exchange.{exchange_header, keyed, handle_key_exchange_agrees}
use servd.Engine.Table.{registered_engine}
use servd.Engine.{begun, Engine, Client, connection_of, serve_frame}
use servd.Engine.Requests.{connection_moved, after_command, serve_frame_returns, session_saved}
use Frames.{key_frame, sealed_frame, key_header, answer_header, opened_as, client_session}
use Answers.{process_command-key_frame, process_command-sealed_frame}

-- A client sends its public key on a session, and then a command that it sealed with the key that it
-- computed from the answer: both requests return; the first is answered with the server's public
-- key, and the second with one frame, whose payload the client opens, with its key, to the command
-- and the handler's response to the payload that was sealed.
abbrev pub Secured :
    (env : Env) (d : Dispatcher) (c : Connection) (response : Context → ResponseFrame)
    (stores : ISessionStore)
    → Engine stores.State
    → Client
    → ℕ
    → List ℕ
    → List ℕ
    → ℕ
    → List ℕ
    → Type 0
Secured env d c response stores e client sid client_priv nonce cmd payload =
    let hello = key_frame sid (public_key env.botan client_priv) in
    let first = serve_frame stores env d e client hello in
    let server_pub = public_key env.botan (generate_private env.botan e.draws) in
    (first.0 ≡ ok tt)
    × (first.1.wrote
        ≡ e.wrote
          ++ (record { peer = peer_of c; accepted = frame_bytes c (key_header sid) server_pub }
              ∷ []))
    × (key : List ℕ) × (shared_secret env.botan client_priv server_pub ≡ ok key)
    × (sealed : List ℕ) × (seal_message env.botan key nonce cmd payload ≡ ok sealed)
    × (ctx : Context) × (ctx.payload ≡ payload)
    × (out : List ℕ) × ((serve_frame stores env d first.1 first.2 (sealed_frame sid sealed)).0
        ≡ ok tt)
    × ((serve_frame stores env d first.1 first.2 (sealed_frame sid sealed)).1.wrote
        ≡ first.1.wrote
          ++ (record {
            peer = peer_of c;
            accepted = frame_bytes c (answer_header sid (response ctx) out) out;
          }
              ∷ []))
    × (do_decrypt env.botan out (client_session sid key)
        ≡ ok (
            some
              (record { cipher = key; inner_cmd = cmd; inner_payload = (response ctx).payload })))

module _ (env : Env) (d : Dispatcher) (c : Connection) (v : IsBotan env.botan)
    (whole : SendsAll env) where
  module _ (fills : FillsRandom env) (ep : Endpoint) (handler : Handler)
      (response : Context → ResponseFrame) (unrestricted : ep.requires_auth ≡ false)
      (anywhere : ep.allowed_transport ≡ any) (there : ep.handler ≡ some handler)
      (answers : (ctx : Context) → handler ctx ≡ ([], ok (response ctx))) where
    -- The second request, on a session that the store holds.
    pub serve_frame-sealed_frame :
        (stores : ISessionStore) (e : Engine stores.State) (client : Client) (store : stores.State)
        (session : Session) (sid : ℕ) (nonce : List ℕ) (cmd : ℕ) (payload : List ℕ)
        → connection_of client ≡ c
        → e.store ≡ some store
        → (stores.get_or_create store sid).0 ≡ session
        → session.id ≡ sid
        → session.has_aes_key ≡ true
        → length session.aes_key ≡ 32
        → length nonce ≡ 12
        → cmd < 256 ^ 2
        → get d.router cmd ≡ some ep
        → let key = session.aes_key in
          (sealed : List ℕ) × (seal_message env.botan key nonce cmd payload ≡ ok sealed)
          × (ctx : Context) × (ctx.payload ≡ payload)
          × (out : List ℕ) × ((serve_frame stores env d e client (sealed_frame sid sealed)).0
              ≡ ok tt)
          × ((serve_frame stores env d e client (sealed_frame sid sealed)).1.wrote
              ≡ e.wrote
                ++ (record {
                  peer = peer_of c;
                  accepted = frame_bytes c (answer_header sid (response ctx) out) out;
                }
                    ∷ []))
          × (do_decrypt env.botan out (client_session sid key)
              ≡ ok (some (opened_as key cmd (response ctx).payload)))
    serve_frame-sealed_frame stores e client store session sid nonce cmd payload conn there' held
          named has size nonced fits found =
        let io =
          begun stores (registered_engine stores e client (sealed_frame sid []))
            (stores.get_or_create store sid).1 session in
        let ctx = inner_context env d c (opened_as session.aes_key cmd payload) io in
        let (sealed, made, out, runs, readable) =
          process_command-sealed_frame env d c v whole fills ep handler response unrestricted
            anywhere there answers io (client_session sid session.aes_key) sid nonce cmd payload
            refl refl has size nonced fits found in
        let served =
          serve_frame_returns stores env d e client (sealed_frame sid sealed) store
            (after_write (drawn io) (peer_of c)
              (frame_bytes c (sealed_header io (response ctx) out) out))
            there' (rw (held, conn) runs) in
        (
          sealed,
          made,
          ctx,
          refl,
          out,
          ap (λ r. r.0) served,
          ap (λ r. r.1.wrote) served
              ∙ ap
                  (λ k.
                    e.wrote
                    ++ (record {
                      peer = peer_of c;
                      accepted = frame_bytes c (answer_header k (response ctx) out) out;
                    }
                        ∷ []))
                  named,
          readable,
        )

    -- Where Botan behaves as documented, writes are taken whole and randomness fills its buffer: a
    -- client that exchanges keys on a session and then sends an encrypted command, which is open to
    -- everybody and whose handler only answers, gets an answer that it opens with the raw secret of the
    -- exchange, which it computed and took for its key without a hash, for any nonce of 12 bytes.
    pub secure_session :
        (stores : ISessionStore) (e : Engine stores.State) (client : Client) (store : stores.State)
        (sid : ℕ) (client_priv nonce : List ℕ) (cmd : ℕ) (payload : List ℕ)
        → connection_of client ≡ c
        → e.store ≡ some store
        → stores.IsValid store
        → length client_priv ≡ 32
        → length nonce ≡ 12
        → cmd < 256 ^ 2
        → get d.router cmd ≡ some ep
        → Secured env d c response stores e client sid client_priv nonce cmd payload
    unfolding set_aes_key
    secure_session stores e client store sid client_priv nonce cmd payload conn there' valid size
          nonced fits found =
        let (session, store') = stores.get_or_create store sid in
        let named = stores.id-get_or_create store sid valid in
        let io =
          begun stores (registered_engine stores e client (key_frame sid [])) store' session in
        let (key, length_key, agreed, runs) =
          process_command-key_frame env d c v whole io sid client_priv size in
        let server_pub = public_key env.botan (generate_private env.botan e.draws) in
        let io' =
          after_write (keyed io key) (peer_of c) (frame_bytes c (exchange_header io) server_pub) in
        let served =
          serve_frame_returns stores env d e client
            (key_frame sid (public_key env.botan client_priv)) store io' there' (rw conn runs) in
        let (sealed, made, ctx, same, out, returns, wrote, readable) =
          serve_frame-sealed_frame stores (after_command stores env d e client sid store' io')
            (record client { current_sid = sid }) (stores.save store' io'.session) io'.session sid
            nonce cmd payload (connection_moved client sid ∙ conn) refl
            (session_saved stores env d store' io'.session sid named) named refl length_key nonced
            fits found in
        rw served (
          refl,
          ap
              (λ k.
                e.wrote
                ++ (record { peer = peer_of c; accepted = frame_bytes c (key_header k) server_pub }
                    ∷ []))
              named,
          key,
          agreed,
          sealed,
          made,
          ctx,
          same,
          out,
          returns,
          wrote,
          readable,
        )
