-- ===== src/Net/Events/Pool.antt =====
-- The event loop keeps the connection pool in order.
use Prim.Native.Nat.{bit_or, bit_and}
use linux_c_study.Prelude.{
  ℕ, ◌≢◌, refl, subst, List, [], ◌∷◌, Bool, true, false, Bool-cases, inl, inr, Option, none, some,
  ◌==◌,
}
use linux_c_study.Net.Conn.{Handler, event_accept, wait_request_handler}
use linux_c_study.Net.Socket.{Socket, Server, ngx_get_connection}
use linux_c_study.Net.Socket.Invariant.{IsValid, InUse, get-IsValid}
use linux_c_study.Net.Socket.Lifecycle.{Taken, ngx_get_connection-Taken}
use linux_c_study.Net.Epoll.{oper_events, ngx_epoll_oper_event, epoll_ctl_add, epollin, epollrdhup}
use linux_c_study.Net.Accept.{
  AcceptResult, accepted, accept_error, Kernel, watch_client, take_client, accept_plain,
  accept_first, ngx_event_accept, set_handler, enosys,
}
use linux_c_study.Net.Events.{Event, Loop, run_handler, process_event, process_all}
use linux_c_study.Net.Events.Kept.{
  SameLists, Kept, SameLists-Kept, SameLists-IsValid, SameLists-InUse, wait-Kept, close-Kept,
  same-Kept,
}

watch_client-Kept :
    (k : Kernel) (oldc p : ℕ) (s : Server)
    → IsValid s.socket
    → InUse s.socket p
    → Kept p s.socket (watch_client k oldc p s).socket
unfolding watch_client ngx_epoll_oper_event oper_events
watch_client-Kept k oldc p s v u = elim (Bool-cases (k.epoll_ctl (bit_or epollin epollrdhup))) [
  | inl e ↦ rw (e, watch_client) (SameLists-Kept p s.socket _ same v)
  | inr e ↦
      rw (e, watch_client)
        (after_close (
          close-Kept p (record s { socket = watched }) (SameLists-IsValid s.socket _ same v)
            (SameLists-InUse s.socket _ p same u)))
]
  where
    watched : Socket
    watched =
        (ngx_epoll_oper_event k.epoll_ctl epoll_ctl_add (bit_or epollin epollrdhup) 0 p
          (set_handler oldc p s.socket)).0

    same : SameLists s.socket watched
    same = record {
      next_conn = refl;
      connections = refl;
      free = refl;
      waiting = refl;
      total = refl;
      free_n = refl;
      recy_n = refl;
    }

    after_close : {t : Socket} → Kept p watched t → Kept p s.socket t
    after_close k' = record {
      valid = k'.valid;
      others = λ q n w. k'.others q n (SameLists-InUse s.socket watched q same w);
    }

-- The pool is in order behind an accept, and every connection that was in use is so still.
pub record Grown (s t : Socket) : Type 0 where
  pub valid : IsValid t
  pub all : (q : ℕ) → InUse s q → InUse t q

same-Grown : (s : Socket) → IsValid s → Grown s s
same-Grown s v = record { valid = v; all = λ q u. u }

take_client-Grown :
    (k : Kernel) (use_accept4 : Bool) (oldc fd : ℕ) (s : Server)
    → IsValid s.socket
    → Grown s.socket (take_client k use_accept4 oldc fd s).socket
unfolding take_client
take_client-Grown k use_accept4 oldc fd s v = go use_accept4
  where
    got : Taken fd s.socket (ngx_get_connection fd s.socket).0 (ngx_get_connection fd s.socket).1
    got = ngx_get_connection-Taken fd s.socket v

    grown :
        {t : Socket}
        → Kept (ngx_get_connection fd s.socket).0 (ngx_get_connection fd s.socket).1 t
        → Grown s.socket t
    grown k' = record {
      valid = k'.valid;
      all = λ q u.
          k'.others q (λ e. got.was_unused (subst (InUse s.socket) e u)) ((got.others q u).0);
    }

    held : Server
    held = record s { socket = (ngx_get_connection fd s.socket).1 }

    watch : Grown s.socket (watch_client k oldc (ngx_get_connection fd s.socket).0 held).socket
    watch = grown (watch_client-Kept k oldc _ held (get-IsValid fd s.socket v) got.taken)

    go : (b : Bool) → Grown s.socket (take_client k b oldc fd s).socket
    go true = watch
    go false = elim (Bool-cases k.setnonblocking) [
      | inl e ↦ rw e watch
      | inr e ↦ rw e (grown (close-Kept _ held (get-IsValid fd s.socket v) got.taken))
    ]

accept_plain-Grown :
    (k : Kernel) (oldc : ℕ) (s : Server) (r : AcceptResult)
    → IsValid s.socket
    → Grown s.socket (accept_plain k oldc s r).socket
unfolding accept_plain
accept_plain-Grown k oldc s (accepted fd) v = take_client-Grown k false oldc fd s v
accept_plain-Grown k oldc s (accept_error errno) v = same-Grown s.socket v

accept_first-Grown :
    (k : Kernel) (oldc : ℕ) (s : Server) (r : AcceptResult)
    → IsValid s.socket
    → Grown s.socket (accept_first k oldc s r).0.socket
unfolding accept_first
accept_first-Grown k oldc s (accepted fd) v = take_client-Grown k true oldc fd s v
accept_first-Grown k oldc s (accept_error errno) v = elim (Bool-cases (errno == enosys)) [
  | inl e ↦ rw e (accept_plain-Grown k oldc s k.accept v)
  | inr e ↦ rw e (same-Grown s.socket v)
]

pub accept-Grown :
    (k : Kernel) (b : Bool) (oldc : ℕ) (s : Server)
    → IsValid s.socket
    → Grown s.socket (ngx_event_accept k b oldc s).0.socket
unfolding ngx_event_accept
accept-Grown k true oldc s v = accept_first-Grown k oldc s k.accept4 v
accept-Grown k false oldc s v = accept_plain-Grown k oldc s k.accept v

Grown-Kept : (p : ℕ) (s t : Socket) → Grown s t → Kept p s t
Grown-Kept p s t g = record { valid = g.valid; others = λ q n u. g.all q u }

run_handler-Kept :
    (fill : ℕ → ℕ) (now : ℕ) (e : Event) (h : Option Handler) (l : Loop)
    → IsValid l.server.socket
    → InUse l.server.socket e.ptr
    → Kept e.ptr l.server.socket (run_handler fill now e h l).server.socket
unfolding run_handler
run_handler-Kept fill now e none l v u = same-Kept e.ptr l.server.socket v
run_handler-Kept fill now e (some event_accept) l v u =
    Grown-Kept e.ptr l.server.socket _ (accept-Grown e.kernel l.use_accept4 e.ptr l.server v)
run_handler-Kept fill now e (some wait_request_handler) l v u =
    wait-Kept fill now e.ptr e.recv l.server v u

pub process_event-Kept :
    (fill : ℕ → ℕ) (now : ℕ) (e : Event) (l : Loop)
    → IsValid l.server.socket
    → InUse l.server.socket e.ptr
    → Kept e.ptr l.server.socket (process_event fill now e l).server.socket
unfolding process_event
process_event-Kept fill now e l v u = elim (Bool-cases (bit_and e.revents epollin == 0)) [
  | inl f ↦ rw f (same-Kept e.ptr l.server.socket v)
  | inr f ↦ rw f (run_handler-Kept fill now e ((l.server.socket.conns e.ptr).rhandler) l v u)
]

-- The events of one epoll_wait: each for a connection in use, and no two for the same.
unfoldable pub AllInUse : Socket → List Event → Type 0
AllInUse s [] = Unit
AllInUse s (e ∷ es) = InUse s e.ptr × AllInUse s es

unfoldable pub NotFor : ℕ → List Event → Type 0
NotFor p [] = Unit
NotFor p (e ∷ es) = (e.ptr ≢ p) × NotFor p es

unfoldable pub OneEach : List Event → Type 0
OneEach [] = Unit
OneEach (e ∷ es) = NotFor e.ptr es × OneEach es

Kept-AllInUse :
    (p : ℕ) (s t : Socket) (es : List Event)
    → Kept p s t
    → NotFor p es
    → AllInUse s es
    → AllInUse t es
unfolding NotFor AllInUse
Kept-AllInUse p s t [] k n u = tt
Kept-AllInUse p s t (e ∷ es) k n u = (k.others e.ptr n.0 u.0, Kept-AllInUse p s t es k n.1 u.1)

-- One round of the event loop, whatever the kernel answers to the calls of its handlers, leaves the pool of
-- connections in order, where it was so and the events are for different connections that are in use.
pub process_all-IsValid :
    (fill : ℕ → ℕ) (now : ℕ) (es : List Event) (l : Loop)
    → IsValid l.server.socket
    → AllInUse l.server.socket es
    → OneEach es
    → IsValid (process_all fill now es l).server.socket
unfolding process_all AllInUse OneEach
process_all-IsValid fill now [] l v u o = v
process_all-IsValid fill now (e ∷ es) l v u o =
    let k = process_event-Kept fill now e l v u.0 in
    process_all-IsValid fill now es (process_event fill now e l) k.valid
      (Kept-AllInUse e.ptr l.server.socket _ es k o.0 u.1) o.1
