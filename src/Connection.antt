-- ===== src/Connection.antt =====
-- include/servd/interfaces/IConnection.hpp with its three classes (src/UringEngine/ConnectionImpl.cpp
-- and UdpConnection.cpp), and the result of a completed operation (src/detail/Engine.hpp).
pub mod Wire
mod Tests
use servd.Base.{
  ℕ, suc, ◌+◌, ◌%◌, ◌^◌, ℤ, pos, negsuc, pos_part, List, [], ◌∷◌, ◌++◌, length, take, decimal, ◌==◌,
  if◌then◌else◌,
}
use servd.Result.{Result, ok, err, system_error}
use servd.Protocol.{FrameHeader, TransportType, tcp, udp, encode_header}
use servd.Exec.{Write, Peer, to_fd, to_addr, Env, Io, Exec, pure, ◌>>=◌, ◌>>◌}

-- UringTcpConnection, TextTcpConnection and UringUdpConnection.
pub data Connection : Type 0 where
  tcp_connection : ℕ → Connection
  text_connection : ℕ → Connection
  udp_connection : ℕ → ℕ → Connection

unfoldable pub transport_type : Connection → TransportType
transport_type (tcp_connection fd) = tcp
transport_type (text_connection fd) = tcp
transport_type (udp_connection fd addr) = udp

abbrev pub peer_of : Connection → Peer
peer_of (tcp_connection fd) = to_fd fd
peer_of (text_connection fd) = to_fd fd
peer_of (udp_connection fd addr) = to_addr fd addr

-- UringOperation::await_resume. 62 is ETIME.
unfoldable pub await_resume : ℤ → Result ℤ
await_resume (pos n) = ok (pos n)
await_resume (negsuc n) = if suc n == 62 then ok (negsuc n) else err (system_error (suc n))

-- The text frame that `TextTcpConnection::send_frame` streams together.
unfoldable pub text_frame : FrameHeader → List ℕ → List ℕ
text_frame header payload =
    decimal header.command_id
    ++ (b' '
        ∷ (decimal header.flags
            ++ (b' ' ∷ (decimal header.session_id ++ (10 ∷ (payload ++ (10 ∷ [])))))))

-- The header and the payload in one buffer.
unfoldable pub binary_frame : FrameHeader → List ℕ → List ℕ
binary_frame header payload = encode_header header ++ payload

unfoldable pub frame_bytes : Connection → FrameHeader → List ℕ → List ℕ
frame_bytes (tcp_connection fd) header payload = binary_frame header payload
frame_bytes (text_connection fd) header payload = text_frame header payload
frame_bytes (udp_connection fd addr) header payload = binary_frame header payload

-- io_uring's send and sendmsg: the kernel takes as much of the buffer as its result says.
unfoldable pub kernel_send : Env → Peer → List ℕ → List Write → Result ℤ × List Write
kernel_send env peer buffer wrote =
    let res = env.send_result (length wrote) (length buffer) in
    let write : Write = record { peer = peer; accepted = take (pos_part res) buffer } in
    (await_resume res, wrote ++ (write ∷ []))

-- async_write and async_sendto.
unfoldable pub async_write : Env → Peer → List ℕ → Exec ℤ
unfolding kernel_send
async_write env peer buffer io =
    let (result, wrote) = kernel_send env peer buffer io.wrote in
    (result, record io { wrote = wrote })

-- The number of bytes that were taken is dropped.
unfoldable pub send_frame : Env → Connection → FrameHeader → List ℕ → Exec (Unit {0})
unfolding async_write frame_bytes
send_frame env connection header payload = do
  async_write env (peer_of connection) (frame_bytes connection header payload)
  pure tt

-- static_cast<uint32_t>(payload.size())
abbrev pub u32 : ℕ → ℕ
u32 n = n % 2 ^ 32
