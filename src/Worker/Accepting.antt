-- ===== src/Worker/Accepting.antt =====
-- Who owns the blocks of messages, through the acceptance of clients.
use Prim.Native.Nat.{bit_or, bit_and}
use linux_c_study.Prelude.{
  ℕ, List, Bool, Option-cases, refl, true, false, Bool-cases, inl, inr, Option, none, some, ◌==◌,
}
use linux_c_study.Net.Conn.{Handler, event_accept, wait_request_handler}
use linux_c_study.Net.Socket.{Socket, Server, ngx_get_connection}
use linux_c_study.Net.Socket.Invariant.{IsValid, InUse}
use linux_c_study.Net.Socket.Lifecycle.{Taken, ngx_get_connection-Taken}
use linux_c_study.Net.Epoll.{
  oper_events, set_events, ngx_epoll_oper_event, epoll_ctl_add, epollin, epollrdhup,
}
use linux_c_study.Net.Accept.{
  AcceptResult, accepted, accept_error, Kernel, watch_client, take_client, accept_plain,
  accept_first, ngx_event_accept, set_handler, enosys,
}
use linux_c_study.Net.Events.{Event, Loop, run_handler, process_event}
use linux_c_study.Worker.Balance.{
  Balanced, SameHolders, SameHolders-refl, SameHolders-trans, same-Balanced, write-SameHolders,
  close-Balanced,
}
use linux_c_study.Worker.Handlers.{get-Balanced, wait-Balanced}

set_handler-SameHolders : (oldc p : ℕ) (s : Socket) → SameHolders s (set_handler oldc p s)
set_handler-SameHolders oldc p s = write-SameHolders s _ p _ refl refl refl refl refl refl

pub set_events-SameHolders : (p events : ℕ) (s : Socket) → SameHolders s (set_events p events s)
set_events-SameHolders p events s = write-SameHolders s _ p _ refl refl refl refl refl refl

pub oper_event-SameHolders :
    (ctl : ℕ → Bool) (eventtype flag bcaction p : ℕ) (s : Socket)
    → SameHolders s (ngx_epoll_oper_event ctl eventtype flag bcaction p s).0
unfolding ngx_epoll_oper_event
oper_event-SameHolders ctl eventtype flag bcaction p s =
    elim (Option-cases (oper_events eventtype flag bcaction ((s.conns p).events))) [
      | inl e ↦ rw (e, ngx_epoll_oper_event) (SameHolders-refl s)
      | inr (events, e) ↦ rw (e, ngx_epoll_oper_event) (set_events-SameHolders p events s)
    ]

watch_client-Balanced :
    (lost : List ℕ) (k : Kernel) (oldc p : ℕ) (s : Server)
    → InUse s.socket p
    → Balanced lost s
    → Balanced lost (watch_client k oldc p s)
unfolding watch_client ngx_epoll_oper_event oper_events
watch_client-Balanced lost k oldc p s u b =
    elim (Bool-cases (k.epoll_ctl (bit_or epollin epollrdhup))) [
      | inl e ↦ rw (e, watch_client) watched
      | inr e ↦ rw (e, watch_client) (close-Balanced lost p _ watched u.pooled)
    ]
  where
    watched : Balanced lost (record s {
      socket =
          (ngx_epoll_oper_event k.epoll_ctl epoll_ctl_add
            (bit_or epollin epollrdhup)
            0
            p
            (set_handler oldc p s.socket)).0;
    })
    watched =
        same-Balanced lost s _
          (SameHolders-trans s.socket _ _ (set_handler-SameHolders oldc p s.socket) (
            oper_event-SameHolders k.epoll_ctl epoll_ctl_add (bit_or epollin epollrdhup) 0 p
              (set_handler oldc p s.socket)))
          b

take_client-Balanced :
    (lost : List ℕ) (k : Kernel) (use_accept4 : Bool) (oldc fd : ℕ) (s : Server)
    → IsValid s.socket
    → Balanced lost s
    → Balanced lost (take_client k use_accept4 oldc fd s)
unfolding take_client
take_client-Balanced lost k use_accept4 oldc fd s v b = go use_accept4
  where
    got : Taken fd s.socket (ngx_get_connection fd s.socket).0 (ngx_get_connection fd s.socket).1
    got = ngx_get_connection-Taken fd s.socket v

    held : Server
    held = record s { socket = (ngx_get_connection fd s.socket).1 }

    watch : Balanced lost (watch_client k oldc (ngx_get_connection fd s.socket).0 held)
    watch = watch_client-Balanced lost k oldc _ held got.taken (get-Balanced lost fd s v b)

    go : (a4 : Bool) → Balanced lost (take_client k a4 oldc fd s)
    go true = watch
    go false = elim (Bool-cases k.setnonblocking) [
      | inl e ↦ rw e watch
      | inr e ↦ rw e (close-Balanced lost _ held (get-Balanced lost fd s v b) got.taken.pooled)
    ]

accept_plain-Balanced :
    (lost : List ℕ) (k : Kernel) (oldc : ℕ) (s : Server) (r : AcceptResult)
    → IsValid s.socket
    → Balanced lost s
    → Balanced lost (accept_plain k oldc s r)
unfolding accept_plain
accept_plain-Balanced lost k oldc s (accepted fd) v b =
    take_client-Balanced lost k false oldc fd s v b
accept_plain-Balanced lost k oldc s (accept_error errno) v b = b

accept_first-Balanced :
    (lost : List ℕ) (k : Kernel) (oldc : ℕ) (s : Server) (r : AcceptResult)
    → IsValid s.socket
    → Balanced lost s
    → Balanced lost (accept_first k oldc s r).0
unfolding accept_first
accept_first-Balanced lost k oldc s (accepted fd) v b =
    take_client-Balanced lost k true oldc fd s v b
accept_first-Balanced lost k oldc s (accept_error errno) v b = elim (Bool-cases (errno == enosys)) [
  | inl e ↦ rw e (accept_plain-Balanced lost k oldc s k.accept v b)
  | inr e ↦ rw e b
]

accept-Balanced :
    (lost : List ℕ) (k : Kernel) (a4 : Bool) (oldc : ℕ) (s : Server)
    → IsValid s.socket
    → Balanced lost s
    → Balanced lost (ngx_event_accept k a4 oldc s).0
unfolding ngx_event_accept
accept-Balanced lost k true oldc s v b = accept_first-Balanced lost k oldc s k.accept4 v b
accept-Balanced lost k false oldc s v b = accept_plain-Balanced lost k oldc s k.accept v b

run_handler-Balanced :
    (lost : List ℕ) (fill : ℕ → ℕ) (now : ℕ) (e : Event) (h : Option Handler) (l : Loop)
    → IsValid l.server.socket
    → InUse l.server.socket e.ptr
    → Balanced lost l.server
    → Balanced lost (run_handler fill now e h l).server
unfolding run_handler
run_handler-Balanced lost fill now e none l v u b = b
run_handler-Balanced lost fill now e (some event_accept) l v u b =
    accept-Balanced lost e.kernel l.use_accept4 e.ptr l.server v b
run_handler-Balanced lost fill now e (some wait_request_handler) l v u b =
    wait-Balanced lost fill now e.ptr e.recv l.server u b

pub process_event-Balanced :
    (lost : List ℕ) (fill : ℕ → ℕ) (now : ℕ) (e : Event) (l : Loop)
    → IsValid l.server.socket
    → InUse l.server.socket e.ptr
    → Balanced lost l.server
    → Balanced lost (process_event fill now e l).server
unfolding process_event
process_event-Balanced lost fill now e l v u b =
    elim (Bool-cases (bit_and e.revents epollin == 0)) [
      | inl f ↦ rw f b
      | inr f ↦
          rw f
            (run_handler-Balanced lost fill now e ((l.server.socket.conns e.ptr).rhandler) l v u b)
    ]
