-- ===== src/Worker/Faces.antt =====
-- What no turn changes of a connection that is in use: its descriptor, its listening socket and its handler.
use Prim.Native.Nat.{bit_or}
use linux_c_study.Prelude.{
  ℕ, zero, suc, ◌<◌, ◌≡◌, ◌≢◌, refl, ap, subst, ◌∙◌, List, [], ◌∷◌, Option, Bool, true, false,
  arith, count, count-append, length, ◌==◌, Bool-cases, Option-cases, inl, inr, ◌||◌, pos32,
}
use linux_c_study.Net.Memory.{count-remove_ne}
use linux_c_study.Net.Conn.{Connection, Handler, put_one_to_free}
use linux_c_study.Net.Socket.{
  Socket, Server, ngx_get_connection, ngx_free_connection, ngx_close_connection, close_fd,
  in_recy_connect_queue, due, first_due, leave_recy_queue, recycle, recycle_due, recycle_all,
  free_due_round, free_all_round, recy_connection_round,
}
use linux_c_study.Net.Socket.Invariant.{IsValid, InUse, first_due-count, recycle-list}
use linux_c_study.Net.Socket.Lifecycle.{ngx_get_connection-Taken}
use linux_c_study.Net.Epoll.{oper_events, ngx_epoll_oper_event, epoll_ctl_add, epollin, epollrdhup}
use linux_c_study.Net.Request.{
  RecvResult, received, recv_error, drop_client, recvproc, receive_at, ngx_wait_request_handler,
  eagain, eintr,
}
use linux_c_study.Net.Accept.{
  AcceptResult, accepted, accept_error, Kernel, watch_client, take_client, accept_plain,
  accept_first, ngx_event_accept, set_handler, enosys,
}

abbrev pub face : Connection → ℕ × Option ℕ × Option Handler
face c = (c.fd, c.listening, c.rhandler)

-- The connection at q keeps them.
abbrev pub SameFace : ℕ → Socket → Socket → Type 0
SameFace q s t = face (t.conns q) ≡ face (s.conns q)

free-SameFace : (p q : ℕ) (s : Server) → SameFace q s.socket (ngx_free_connection p s).socket
unfolding ngx_free_connection put_one_to_free
free-SameFace p q s = ground arith

close-SameFace : (p q : ℕ) (s : Server) → SameFace q s.socket (ngx_close_connection p s).socket
unfolding ngx_close_connection close_fd
close-SameFace p q s = free-SameFace p q s

pub oper_event-SameFace :
    (ctl : ℕ → Bool) (eventtype flag bcaction p q : ℕ) (s : Socket)
    → SameFace q s (ngx_epoll_oper_event ctl eventtype flag bcaction p s).0
unfolding ngx_epoll_oper_event
oper_event-SameFace ctl eventtype flag bcaction p q s =
    elim (Option-cases (oper_events eventtype flag bcaction ((s.conns p).events))) [
      | inl e ↦ rw (e, ngx_epoll_oper_event) refl
      | inr (events, e) ↦ rw (e, ngx_epoll_oper_event) (ground arith)
    ]

drop_client-SameFace : (now p q : ℕ) (s : Socket) → q ≢ p → SameFace q s (drop_client now p s)
unfolding drop_client in_recy_connect_queue close_fd
drop_client-SameFace now p q s n = ground (arith, n)

recvproc-SameFace :
    (now p q : ℕ) (r : RecvResult) (s : Socket) → q ≢ p → SameFace q s (recvproc now p r s).1
unfolding recvproc
recvproc-SameFace now p q (received []) s n = drop_client-SameFace now p q s n
recvproc-SameFace now p q (received (b ∷ bs)) s n = refl
recvproc-SameFace now p q (recv_error errno) s n =
    elim (Bool-cases (errno == eagain || errno == eintr)) [
      | inl e ↦ rw e refl
      | inr e ↦ rw e (drop_client-SameFace now p q s n)
    ]

receive_at-SameFace :
    (p q : ℕ) (fill : ℕ → ℕ) (now : ℕ) (bytes : List ℕ) (s : Server)
    → q ≢ p
    → SameFace q s.socket (receive_at p fill now bytes s).socket
unfolding receive_at
receive_at-SameFace p q fill now bytes s n = ground (arith, n)

pub wait-SameFace :
    (fill : ℕ → ℕ) (now p q : ℕ) (r : RecvResult) (s : Server)
    → q ≢ p
    → SameFace q s.socket (ngx_wait_request_handler fill now r p s).socket
unfolding ngx_wait_request_handler
wait-SameFace fill now p q r s n =
    let t : Server = record s { socket = (recvproc now p r s.socket).1 } in
    let first = recvproc-SameFace now p q r s.socket n in
    elim (Option-cases ((recvproc now p r s.socket).0)) [
      | inl e ↦ rw (e, ngx_wait_request_handler) first
      | inr (bytes, e) ↦
          rw (e, ngx_wait_request_handler) (receive_at-SameFace p q fill now bytes t n ∙ first)
    ]

set_handler-SameFace : (oldc p q : ℕ) (s : Socket) → q ≢ p → SameFace q s (set_handler oldc p s)
set_handler-SameFace oldc p q s n = ground (arith, n)

watch_client-SameFace :
    (k : Kernel) (oldc p q : ℕ) (s : Server)
    → q ≢ p
    → SameFace q s.socket (watch_client k oldc p s).socket
unfolding watch_client ngx_epoll_oper_event oper_events
watch_client-SameFace k oldc p q s n =
    let flags = bit_or epollin epollrdhup in
    let watched : Socket =
      (ngx_epoll_oper_event k.epoll_ctl epoll_ctl_add flags 0 p (set_handler oldc p s.socket)).0 in
    let first : SameFace q s.socket watched =
      oper_event-SameFace k.epoll_ctl epoll_ctl_add flags 0 p q (set_handler oldc p s.socket)
      ∙ set_handler-SameFace oldc p q s.socket n in
    elim (Bool-cases (k.epoll_ctl flags)) [
      | inl e ↦ rw (e, watch_client) first
      | inr e ↦ rw (e, watch_client) (close-SameFace p q (record s { socket = watched }) ∙ first)
    ]

take_client-SameFace :
    (k : Kernel) (use_accept4 : Bool) (oldc fd q : ℕ) (s : Server)
    → IsValid s.socket
    → InUse s.socket q
    → SameFace q s.socket (take_client k use_accept4 oldc fd s).socket
unfolding take_client
take_client-SameFace k use_accept4 oldc fd q s v u = go use_accept4
  where
    p : ℕ
    p = (ngx_get_connection fd s.socket).0

    held : Server
    held = record s { socket = (ngx_get_connection fd s.socket).1 }

    other : q ≢ p
    other e = (ngx_get_connection-Taken fd s.socket v).was_unused (subst (InUse s.socket) e u)

    first : SameFace q s.socket held.socket
    first = ap face ((ngx_get_connection-Taken fd s.socket v).others q u).1

    watched : SameFace q s.socket (watch_client k oldc p held).socket
    watched = watch_client-SameFace k oldc p q held other ∙ first

    go : (b : Bool) → SameFace q s.socket (take_client k b oldc fd s).socket
    go true = watched
    go false = elim (Bool-cases k.setnonblocking) [
      | inl e ↦ rw e watched
      | inr e ↦ rw e (close-SameFace p q held ∙ first)
    ]

accept_plain-SameFace :
    (k : Kernel) (oldc q : ℕ) (s : Server) (r : AcceptResult)
    → IsValid s.socket
    → InUse s.socket q
    → SameFace q s.socket (accept_plain k oldc s r).socket
unfolding accept_plain
accept_plain-SameFace k oldc q s (accepted fd) v u = take_client-SameFace k false oldc fd q s v u
accept_plain-SameFace k oldc q s (accept_error errno) v u = refl

pub accept-SameFace :
    (k : Kernel) (b : Bool) (oldc q : ℕ) (s : Server)
    → IsValid s.socket
    → InUse s.socket q
    → SameFace q s.socket (ngx_event_accept k b oldc s).0.socket
unfolding ngx_event_accept accept_first
accept-SameFace k false oldc q s v u = accept_plain-SameFace k oldc q s k.accept v u
accept-SameFace k true oldc q s v u = go k.accept4
  where
    go : (r : AcceptResult) → SameFace q s.socket (accept_first k oldc s r).0.socket
    go (accepted fd) = take_client-SameFace k true oldc fd q s v u
    go (accept_error errno) = elim (Bool-cases (errno == enosys)) [
      | inl e ↦ rw e (accept_plain-SameFace k oldc q s k.accept v u)
      | inr e ↦ rw e refl
    ]

-- In use, and with the same face.
pub record Stays (q : ℕ) (s t : Socket) : Type 0 where
  pub in_use : InUse t q
  pub same : SameFace q s t

pub Stays-trans : {q : ℕ} {s t u : Socket} → Stays q s t → Stays q t u → Stays q s u
Stays-trans a b = record { in_use = b.in_use; same = b.same ∙ a.same }

recycle-Stays :
    (p q : ℕ) (s : Server)
    → InUse s.socket q
    → 0 < count p s.socket.recyconnection_list
    → Stays q s.socket (recycle p s).socket
unfolding recycle leave_recy_queue ngx_free_connection
recycle-Stays p q s u h =
    let n : q ≢ p = λ e.
      absurd (omega (arith, u.not_waiting, h, ap (λ x. count x s.socket.recyconnection_list) e)) in
    record {
      in_use = record {
        pooled = u.pooled;
        not_free =
            ground (arith, n, u.not_free, count-append q s.socket.freeconnection_list (p ∷ []));
        not_waiting = count-remove_ne q p s.socket.recyconnection_list n ∙ u.not_waiting;
      };
      same = free-SameFace p q (leave_recy_queue p s);
    }

recycle_due-Stays :
    (fuel stop now q : ℕ) (s : Server)
    → InUse s.socket q
    → Stays q s.socket (recycle_due fuel stop now s).socket
unfolding recycle_due
recycle_due-Stays zero stop now q s u = record { in_use = u; same = refl }
recycle_due-Stays (suc fuel) stop now q s u =
    elim (Option-cases (first_due (due stop now s.socket) s.socket.recyconnection_list)) [
      | inl e ↦ rw (e, recycle_due) (record { in_use = u; same = refl })
      | inr (p, e) ↦
          let a = recycle-Stays p q s u (first_due-count _ _ p e) in
          rw (e, recycle_due)
            (Stays-trans a (recycle_due-Stays fuel stop now q (recycle p s) a.in_use))
    ]

recycle_all-Stays :
    (ps : List ℕ) (q : ℕ) (s : Server)
    → InUse s.socket q
    → s.socket.recyconnection_list ≡ ps
    → Stays q s.socket (recycle_all ps s).socket
unfolding recycle_all
recycle_all-Stays [] q s u e = record { in_use = u; same = refl }
recycle_all-Stays (p ∷ ps) q s u e =
    let a = recycle-Stays p q s u (ground (arith, ap (count p) e)) in
    Stays-trans a (recycle_all-Stays ps q (recycle p s) a.in_use (recycle-list p s ps e))

pub round-Stays :
    (stop now q : ℕ) (s : Server)
    → InUse s.socket q
    → Stays q s.socket (recy_connection_round stop now s).0.socket
unfolding recy_connection_round free_due_round free_all_round
round-Stays stop now q s u = elim (Bool-cases (stop == 1)) [
  | inl e ↦ rw e (Stays-trans first (last (free_due_round stop now s) first.in_use))
  | inr e ↦ rw e first
]
  where
    first : Stays q s.socket (free_due_round stop now s).socket
    first = elim (Bool-cases (pos32 s.socket.totol_recyconnection_n)) [
      | inl e ↦ rw e (recycle_due-Stays (suc (length s.socket.recyconnection_list)) stop now q s u)
      | inr e ↦ rw e (record { in_use = u; same = refl })
    ]

    last : (t : Server) → InUse t.socket q → Stays q t.socket (free_all_round t).socket
    last t w = elim (Bool-cases (pos32 t.socket.totol_recyconnection_n)) [
      | inl e ↦ rw e (recycle_all-Stays t.socket.recyconnection_list q t w refl)
      | inr e ↦ rw e (record { in_use = w; same = refl })
    ]
