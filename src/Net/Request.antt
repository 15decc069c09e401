-- ===== src/Net/Request.antt =====
-- linux_c++_6_4/nginx/net/ngx_c_socket_request.cxx: recv() and send() with their errors, and the read
-- handler of a client's connection.
use linux_c_study.Prelude.{
  ℕ, List, [], ◌∷◌, Option, none, some, ◌||◌, ◌==◌, Bool, false, if◌then◌else◌, ℤ, pos, negsuc,
}
use linux_c_study.Net.Recv.{receive}
use linux_c_study.Net.Socket.{Socket, Server, update, in_recy_connect_queue, close_fd}

-- errno on Linux; EWOULDBLOCK is EAGAIN.
abbrev pub eintr : ℕ
eintr = 4

abbrev pub eagain : ℕ
eagain = 11

-- What recv() did: n >= 0 bytes, or -1 with errno.
pub data RecvResult : Type 0 where
  received : List ℕ → RecvResult
  recv_error : ℕ → RecvResult

-- The descriptor is closed, and the connection waits for its release.
unfoldable pub drop_client : ℕ → ℕ → Socket → Socket
unfolding close_fd in_recy_connect_queue
drop_client now p s = in_recy_connect_queue now p (close_fd ((s.conns p).fd) s)

-- The bytes that came, or `none` where the function returns -1.
unfoldable pub recvproc : ℕ → ℕ → RecvResult → Socket → Option (List ℕ) × Socket
unfolding drop_client
recvproc now p (received []) s = (none, drop_client now p s)
recvproc now p (received (b ∷ bs)) s = (some (b ∷ bs), s)
recvproc now p (recv_error errno) s =
    if errno == eagain || errno == eintr then (none, s) else (none, drop_client now p s)

-- `receive` on the connection at p.
unfoldable pub receive_at : ℕ → (ℕ → ℕ) → ℕ → List ℕ → Server → Server
unfolding receive
receive_at p fill now bytes s =
    let x =
      receive p fill now bytes
        (record { conn = s.socket.conns p; memory = s.memory; pool = s.pool }) in
    record {
      socket = record (s.socket) { conns = update s.socket.conns p x.conn };
      memory = x.memory;
      pool = x.pool;
    }

unfoldable pub ngx_wait_request_handler : (ℕ → ℕ) → ℕ → RecvResult → ℕ → Server → Server
unfolding recvproc receive_at
ngx_wait_request_handler fill now r p s =
    let (reco, socket') = recvproc now p r s.socket in
    let t : Server = record s { socket = socket' } in
    elim reco [ none ↦ t | some bytes ↦ receive_at p fill now bytes t ]

pub data SendResult : Type 0 where
  sent : ℕ → SendResult
  send_error : ℕ → SendResult

-- What sendproc returns for a send() that was not interrupted.
unfoldable pub send_outcome : SendResult → ℤ
send_outcome (sent n) = pos n
send_outcome (send_error errno) = if errno == eagain then negsuc 0 else negsuc 1

abbrev pub interrupted : SendResult → Bool
interrupted (sent n) = false
interrupted (send_error errno) = errno == eintr

-- The results of the calls of send(), in turn; `none` while the loop has not ended.
unfoldable pub sendproc : List SendResult → Option ℤ
unfolding send_outcome
sendproc [] = none
sendproc (r ∷ rs) = let rest = sendproc rs in if interrupted r then rest else some (send_outcome r)
