-- ===== src/Connection/Wire.antt =====
-- What reaches the peer: src/UringEngine/ConnectionImpl.cpp and UdpConnection.cpp.
use servd.Base.{ℕ, ◌<◌, ◌≡◌, pos, List, [], ◌∷◌, ◌++◌, arith, length, take, take-all, length-take}
use native.Mathlib.Nat.{le_refl}
use servd.Result.{ok}
use servd.Protocol.{FrameHeader}
use servd.Exec.{Peer, Env, SendsAll, Io}
use servd.Connection.{Connection, peer_of, await_resume, frame_bytes, send_frame}

-- `io` after the buffer was taken whole.
abbrev pub after_write : Io → Peer → List ℕ → Io
after_write io peer buffer = record io {
  wrote = io.wrote ++ (record { peer = peer; accepted = buffer } ∷ []);
}

pub send_frame_whole :
    (env : Env) (c : Connection) (h : FrameHeader) (payload : List ℕ) (io : Io)
    → SendsAll env
    → send_frame env c h payload io ≡ (ok tt, after_write io (peer_of c) (frame_bytes c h payload))
unfolding send_frame await_resume
send_frame_whole env c h payload io all = rw (
  all (length io.wrote) (length (frame_bytes c h payload)),
  take-all _ (frame_bytes c h payload) (le_refl _),
)

-- A write that the kernel takes in part is reported as a success: the peer is left with a proper
-- prefix of the frame, and nothing sends the rest.
send_frame_short :
    (env : Env) (c : Connection) (h : FrameHeader) (payload : List ℕ) (io : Io) (n : ℕ)
    → env.send_result (length io.wrote) (length (frame_bytes c h payload)) ≡ pos n
    → n < length (frame_bytes c h payload)
    → (send_frame env c h payload io
        ≡ (ok tt, after_write io (peer_of c) (take n (frame_bytes c h payload))))
      × (length (take n (frame_bytes c h payload)) < length (frame_bytes c h payload))
unfolding send_frame await_resume
send_frame_short env c h payload io n part short =
    (rw part, omega (arith, length-take n (frame_bytes c h payload)))

pub send_frame_ok :
    (env : Env) (c : Connection) (h : FrameHeader) (payload : List ℕ) (io : Io)
    → SendsAll env
    → send_frame env c h payload io ≡ (ok tt, (send_frame env c h payload io).1)
send_frame_ok env c h payload io all = rw (send_frame_whole env c h payload io all)
