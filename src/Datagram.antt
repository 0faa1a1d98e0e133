-- ===== src/Datagram.antt =====
-- start_udp_loop of src/UringEngine/ClientHandlers.cpp: one datagram is one frame.
pub mod Frames
mod Tests
use servd.Base.{ℕ, ◌-◌, Option, none, some, List, length, take, drop, min, ltb, if◌then◌else◌}
use servd.Result.{Result}
use servd.Protocol.{FrameHeader, ClientFrame, header_size, decode_header}
use servd.Session.{ISessionStore}
use servd.Exec.{Env, Io}
use servd.Connection.{udp_connection, u32}
use servd.Access.{Dispatcher}
use servd.Command.{process_command}
use servd.Engine.{Engine, begun, saved}

-- The header with its length cut to what arrived, and that much payload; shorter ones are dropped.
unfoldable pub udp_frame : List ℕ → Option ClientFrame
udp_frame received =
    if ltb (length received) header_size
    then none
    else let header = decode_header received in
      let pl = min header.payload_length (u32 (length received - header_size)) in
      some (record {
        header = record header { payload_length = pl };
        payload = take pl (drop header_size received);
      })

module _ (stores : ISessionStore) (env : Env) (d : Dispatcher) (udp_fd addr : ℕ) where
  udp_served : Engine stores.State → ClientFrame → Option stores.State → Engine stores.State
  udp_served e frame none = e
  udp_served e frame (some store) =
      let (session, store') = stores.get_or_create store frame.header.session_id in
      saved stores env d e store'
        (process_command env d frame (udp_connection udp_fd addr) (begun stores e store' session))

  udp_dispatch : Engine stores.State → Option ClientFrame → Engine stores.State
  unfolding udp_served
  udp_dispatch e none = e
  udp_dispatch e (some frame) = udp_served e frame e.store

  -- One round: an exception is logged, and the loop goes on.
  unfoldable pub udp_round : Engine stores.State → List ℕ → Engine stores.State
  unfolding udp_dispatch
  udp_round e received = udp_dispatch e (udp_frame received)
