-- ===== src/Net/Start.antt =====
-- linux_c++_6_4/nginx/net/ngx_c_socket.cxx: ngx_epoll_init, by which a worker process gets its pool of
-- connections and one of them for each listening socket.
pub mod Listeners
use Prim.Native.Nat.{bit_or}
use linux_c_study.Prelude.{
  ℕ, ◌+◌, List, [], ◌∷◌, Option, none, some, Bool, if◌then◌else◌, ℤ, pos, negsuc,
}
use linux_c_study.Net.Conn.{event_accept}
use linux_c_study.Net.Socket.{Socket, update, initconnection, ngx_get_connection}
use linux_c_study.Net.Epoll.{epoll_ctl_add, epollin, epollrdhup, ngx_epoll_oper_event}
use linux_c_study.Net.Listen.{Listening}

-- The connection at p points to the i-th listening socket.
abbrev pub set_listening : ℕ → ℕ → Socket → Socket
set_listening i p s = record s {
  conns =
      update s.conns p (record (s.conns p) { listening = some i; rhandler = some event_accept });
}

abbrev pub add_item :
    Listening → Option (List Listening × Socket) → Option (List Listening × Socket)
add_item l none = none
add_item l (some (ls, s)) = some (l ∷ ls, s)

-- The loop over m_ListenSocketList, from its i-th element on; `none` where the process ends with exit(2).
-- `ctl fd events` is whether epoll_ctl() takes the events for the descriptor.
unfoldable pub listen_on :
    (ℕ → ℕ → Bool) → ℕ → List Listening → Socket → Option (List Listening × Socket)
unfolding ngx_get_connection ngx_epoll_oper_event
listen_on ctl i [] s = some ([], s)
listen_on ctl i (l ∷ ls) s =
    let (p, t) = ngx_get_connection l.fd s in
    let (u, ret) =
      ngx_epoll_oper_event (ctl l.fd) epoll_ctl_add (bit_or epollin epollrdhup) 0 p
        (set_listening i p t) in
    let rest = add_item (record l { connection = some p }) (listen_on ctl (i + 1) ls u) in
    elim ret [ pos n ↦ rest | negsuc n ↦ none ]

-- `created` is whether epoll_create() succeeds.
unfoldable pub ngx_epoll_init :
    Bool → (ℕ → ℕ → Bool) → List Listening → Socket → Option (List Listening × Socket)
unfolding initconnection listen_on
ngx_epoll_init created ctl items s =
    if created then listen_on ctl 0 items (initconnection s) else none
