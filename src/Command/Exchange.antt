-- ===== src/Command/Exchange.antt =====
-- The X25519 handshake: src/UringEngine/CommandRoute.cpp.
use servd.Base.{ℕ, ◌+◌, ◌≡◌, ◌≢◌, List, length, arith}
use servd.Result.{ok}
use servd.Protocol.{ClientFrame, FrameHeader, cmd_key_exchange}
use servd.Session.{set_aes_key}
use servd.Crypto.{IsBotan, generate_private, public_key, shared_secret}
use servd.Crypto.Keys.{shared_secret_agrees, public_key-eq, length-generate_private}
use servd.Exec.{Env, SendsAll, Io}
use servd.Connection.{Connection, peer_of, frame_bytes}
use servd.Connection.Wire.{after_write, send_frame_whole}
use servd.Command.{handle_key_exchange}

abbrev pub exchange_header : Io → FrameHeader
exchange_header io = record {
  command_id = cmd_key_exchange;
  flags = 0;
  payload_length = 32;
  session_id = io.session.id;
}

-- `io` after a handshake that agreed on `s`.
abbrev pub keyed : Io → List ℕ → Io
keyed io s = record io { session = set_aes_key io.session s; draws = io.draws + 1 }

-- Where Botan behaves as documented and writes are taken whole: a client that sends its X25519 public
-- key is answered with the server's, and the raw secret that it computes from the answer, without a
-- hash, is the key that its session now holds; the other fields of the session are as they were.
pub handle_key_exchange_agrees :
    (env : Env) (frame : ClientFrame) (c : Connection) (io : Io) (client_priv : List ℕ)
    → IsBotan env.botan
    → SendsAll env
    → length client_priv ≡ 32
    → frame.payload ≡ public_key env.botan client_priv
    → let server_pub = public_key env.botan (generate_private env.botan io.draws) in
      (s : List ℕ) × (length s ≡ 32)
      × (shared_secret env.botan client_priv server_pub ≡ ok s)
      × (handle_key_exchange env frame c io ≡ (
        ok tt,
        after_write (keyed io s) (peer_of c) (frame_bytes c (exchange_header io) server_pub),
      ))
unfolding handle_key_exchange set_aes_key
handle_key_exchange_agrees env frame c io client_priv v whole size payload =
    let fits : length frame.payload ≡ 32 =
      rw (payload, public_key-eq env.botan v client_priv size)
        (v.length-public_value client_priv size) in
    let server_priv = generate_private env.botan io.draws in
    let (s, shared_size, theirs, ours) =
      shared_secret_agrees env.botan v client_priv server_priv size
        (length-generate_private env.botan v io.draws) in
    (
      s,
      shared_size,
      theirs,
      rw (fits, payload, ours)
          (send_frame_whole env c (exchange_header io) (public_key env.botan server_priv)
            (keyed io s) whole),
    )

-- A public key of another size changes nothing: no key, no draw, no answer.
pub handle_key_exchange_wrong_size :
    (env : Env) (frame : ClientFrame) (c : Connection) (io : Io)
    → length frame.payload ≢ 32
    → handle_key_exchange env frame c io ≡ (ok tt, io)
unfolding handle_key_exchange
handle_key_exchange_wrong_size env frame c io h = ground arith
