-- ===== src/Datagram/Frames.antt =====
-- Datagrams of start_udp_loop in src/UringEngine/ClientHandlers.cpp.
use servd.Base.{
  ℕ, ◌+◌, ◌-◌, ◌%◌, ◌^◌, ◌≤◌, ◌<◌, ◌≡◌, refl, sym, false, Option, none, some, List, ◌++◌, arith,
  length, take, drop, min, ltb, length-append, length-take, length-drop, drop-append, take-append,
  Bool-cases, inl, inr, subst,
}
use servd.Protocol.{IsFrameHeader, ClientFrame, encode_header, decode_header}
use servd.Protocol.RoundTrip.{length-encode_header, decode_header-encode_header}
use servd.Session.{ISessionStore}
use servd.Exec.{Env}
use servd.Access.{Dispatcher}
use servd.Engine.{Engine}
use servd.Engine.Table.{Steady, saved_keeps}
use servd.Datagram.{udp_frame, udp_served, udp_dispatch, udp_round}

-- A datagram that holds a header and at least the payload that the header announces is read as the
-- frame of that header and that much payload; bytes behind it are ignored.
pub udp_frame_reads :
    (frame : ClientFrame) (extra : List ℕ)
    → IsFrameHeader frame.header
    → frame.header.payload_length ≡ length frame.payload
    → length frame.payload + length extra < 2 ^ 32
    → udp_frame (encode_header frame.header ++ (frame.payload ++ extra)) ≡ some frame
unfolding udp_frame
udp_frame_reads frame extra v size fits =
    let h = frame.header in
    let body = frame.payload ++ extra in
    let total : length (encode_header h ++ body) ≡ 16 + (length frame.payload + length extra) =
      omega (
        arith,
        length-append (encode_header h) body,
        length-append frame.payload extra,
        length-encode_header h,
      ) in
    let long : ltb (length (encode_header h ++ body)) 16 ≡ false = ground arith in
    let cut : min h.payload_length ((length (encode_header h ++ body) - 16) % 2 ^ 32)
        ≡ length frame.payload =
      omega arith in
    rw (
      long,
      decode_header-encode_header h body v,
      cut,
      drop-append 16 (encode_header h) body (length-encode_header h),
      take-append (length frame.payload) frame.payload extra refl,
      sym size,
    )

-- What `udp_frame-Consistent` says of a frame.
abbrev pub Consistent : List ℕ → ClientFrame → Type 0
Consistent received frame =
    (16 ≤ length received)
    × (frame.header.payload_length ≡ length frame.payload)
    × (frame.header.payload_length ≤ (decode_header received).payload_length)
    × (frame.payload ≡ take (length frame.payload) (drop 16 received))

-- The frame of a long enough datagram.
abbrev cut_frame : List ℕ → ClientFrame
cut_frame received =
    let header = decode_header received in
    let pl = min header.payload_length ((length received - 16) % 2 ^ 32) in
    record { header = record header { payload_length = pl }; payload = take pl (drop 16 received) }

cut_frame-Consistent :
    (received : List ℕ) → 16 ≤ length received → Consistent received (cut_frame received)
cut_frame-Consistent received long =
    let pl = min (decode_header received).payload_length ((length received - 16) % 2 ^ 32) in
    let size : length (take pl (drop 16 received)) ≡ pl =
      omega (arith, length-drop 16 received, length-take pl (drop 16 received)) in
    (long, sym size, omega arith, rw size)

some_injective : {x y : ClientFrame} → some x ≡ some y → x ≡ y
some_injective h = cc

-- A frame that is read from a datagram has as much payload as its header says, at most as much as
-- the sender announced, and the payload is the part of the datagram right behind the header.
pub udp_frame-Consistent :
    (received : List ℕ) (frame : ClientFrame)
    → udp_frame received ≡ some frame
    → Consistent received frame
unfolding udp_frame
udp_frame-Consistent received frame h = elim (Bool-cases (ltb (length received) 16)) [
  | inl short ↦ absurd (cc (rw short at h))
  | inr long ↦
      let same : cut_frame received ≡ frame = some_injective (rw long at h) in
      subst (Consistent received) same (cut_frame-Consistent received (ground arith))
]

module _ (stores : ISessionStore) (env : Env) (d : Dispatcher) (udp_fd addr : ℕ) where
  steady : (e : Engine stores.State) → Steady e e
  steady e = record {
    sessions = refl;
    active_connections = refl;
    max_clients = refl;
    respond_to_clients = refl;
  }

  udp_served-Steady :
      (e : Engine stores.State) (frame : ClientFrame) (o : Option stores.State)
      → Steady e (udp_served stores env d udp_fd addr e frame o)
  unfolding udp_served
  udp_served-Steady e frame none = steady e
  udp_served-Steady e frame (some store) = saved_keeps stores env d e _ _

  udp_dispatch-Steady :
      (e : Engine stores.State) (o : Option ClientFrame)
      → Steady e (udp_dispatch stores env d udp_fd addr e o)
  unfolding udp_dispatch
  udp_dispatch-Steady e none = steady e
  udp_dispatch-Steady e (some frame) = udp_served-Steady e frame e.store

  -- A datagram, whatever it holds, changes neither the session table nor the connection count, the
  -- client limit and the discovery switch.
  udp_round-Steady :
      (e : Engine stores.State) (received : List ℕ)
      → Steady e (udp_round stores env d udp_fd addr e received)
  unfolding udp_round
  udp_round-Steady e received = udp_dispatch-Steady e (udp_frame received)
