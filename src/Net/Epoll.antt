-- ===== src/Net/Epoll.antt =====
-- linux_c++_6_4/nginx/net/ngx_c_socket.cxx: the events that epoll watches on a connection.
use Prim.Native.Nat.{bit_and, bit_or}
use linux_c_study.Prelude.{
  ℕ, ◌-◌, ◌^◌, Option, none, some, Bool, ◌==◌, if◌then◌else◌, ℤ, pos, negsuc,
}
use linux_c_study.Net.Socket.{Socket, update}

abbrev pub epoll_ctl_add : ℕ
epoll_ctl_add = 1

abbrev pub epoll_ctl_mod : ℕ
epoll_ctl_mod = 3

abbrev pub epollin : ℕ
epollin = 1

abbrev pub epollout : ℕ
epollout = 4

abbrev pub epollrdhup : ℕ
epollrdhup = 0x2000

-- ev.events, from those that the connection has; `none` for an operation that is not done.
unfoldable pub oper_events : ℕ → ℕ → ℕ → ℕ → Option ℕ
oper_events eventtype flag bcaction events =
    if eventtype == epoll_ctl_add
    then some flag
    else if eventtype == epoll_ctl_mod
    then some (
        if bcaction == 0
        then bit_or events flag
        else if bcaction == 1
        then bit_and events (2 ^ 32 - 1 - flag)
        else flag)
    else none

abbrev pub set_events : ℕ → ℕ → Socket → Socket
set_events p events s = record s {
  conns = update s.conns p (record (s.conns p) { events = events });
}

-- `ctl events` is whether epoll_ctl() takes the events; the connection keeps them in any case.
unfoldable pub ngx_epoll_oper_event : (ℕ → Bool) → ℕ → ℕ → ℕ → ℕ → Socket → Socket × ℤ
unfolding oper_events
ngx_epoll_oper_event ctl eventtype flag bcaction p s =
    elim (oper_events eventtype flag bcaction ((s.conns p).events)) [
      | none ↦ (s, pos 1)
      | some events ↦ (set_events p events s, if ctl events then pos 1 else negsuc 0)
    ]
