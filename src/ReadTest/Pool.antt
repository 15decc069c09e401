-- ===== src/ReadTest/Pool.antt =====
-- read_test/net/ngx_c_socket_conn.cxx: what the connection pool of the second server does otherwise than the
-- first one's, and the two ways to close a connection at once.
pub mod Drift
pub mod Runs
pub mod Starved
use linux_c_study.Prelude.{
  ℕ, zero, suc, ◌+◌, ◌-◌, ◌%◌, ◌^◌, none, some, Bool, true, false, ◌==◌, if◌then◌else◌, length,
  dec32, pos32,
}
use linux_c_study.Net.Memory.{remove}
use linux_c_study.Net.Socket.{
  Server, update, ngx_free_connection, close_fd, due, first_due, free_all_round,
}

-- -1, where it is kept in the `fd` of a connection.
abbrev pub no_fd : ℕ
no_fd = 2 ^ 32 - 1

-- Its caller is ngx_event_accept.
unfoldable pub ngx_close_accepted_connection : ℕ → Server → Server
unfolding ngx_free_connection close_fd
ngx_close_accepted_connection p s =
    let fd = (s.socket.conns p).fd in
    let t = ngx_free_connection p s in
    record t {
      socket = close_fd fd (record (t.socket) {
        conns = update t.socket.conns p (record (t.socket.conns p) { fd = no_fd });
      });
    }

-- The loop behind lblRRTD counts the pool down, not the queue.
unfoldable pub leave_queue_due : ℕ → Server → Server
unfolding remove
leave_queue_due p s = record s {
  socket = record (s.socket) {
    total_connection_n = dec32 s.socket.total_connection_n;
    recyconnection_list = remove p s.socket.recyconnection_list;
  };
}

unfoldable pub release : ℕ → Server → Server
unfolding ngx_free_connection leave_queue_due
release p s = ngx_free_connection p (leave_queue_due p s)

unfoldable pub release_due : ℕ → ℕ → ℕ → Server → Server
unfolding release first_due due
release_due zero stop now s = s
release_due (suc fuel) stop now s =
    elim (first_due (due stop now s.socket) s.socket.recyconnection_list) [
      | none ↦ s
      | some p ↦ release_due fuel stop now (release p s)
    ]

-- What the thread does in every round, under `m_total_connection_n > 0`.
unfoldable pub release_round : ℕ → ℕ → Server → Server
unfolding release_due
release_round stop now s =
    if pos32 s.socket.total_connection_n
    then release_due (suc (length s.socket.recyconnection_list)) stop now s
    else s

-- One round of ServerRecyConnectionThread behind its sleep, and whether the thread ends with it.
unfoldable pub recy_connection_round : ℕ → ℕ → Server → Server × Bool
unfolding release_round free_all_round
recy_connection_round stop now s =
    let t = release_round stop now s in if stop == 1 then (free_all_round t, true) else (t, false)
