-- ===== src/Net/Events/Kept.antt =====
-- What a handler of one connection leaves of the pool.
use linux_c_study.Prelude.{
  ℕ, ◌≡◌, ◌≢◌, refl, List, [], ◌∷◌, arith, ◌==◌, count-append, ◌||◌, Bool-cases, Option-cases, inl,
  inr,
}
use linux_c_study.Net.Socket.{
  Socket, Server, in_recy_connect_queue, close_fd, ngx_close_connection, ngx_free_connection,
}
use linux_c_study.Net.Socket.Invariant.{IsValid, InUse, in_recy-IsValid, close-IsValid}
use linux_c_study.Net.Request.{
  RecvResult, received, recv_error, drop_client, recvproc, receive_at, ngx_wait_request_handler,
  eagain, eintr,
}

-- The bookkeeping of the pool is the same; what the connections hold may differ.
pub record SameLists (s t : Socket) : Type 0 where
  pub next_conn : t.next_conn ≡ s.next_conn
  pub connections : t.connection_list ≡ s.connection_list
  pub free : t.freeconnection_list ≡ s.freeconnection_list
  pub waiting : t.recyconnection_list ≡ s.recyconnection_list
  pub total : t.total_connection_n ≡ s.total_connection_n
  pub free_n : t.free_connection_n ≡ s.free_connection_n
  pub recy_n : t.totol_recyconnection_n ≡ s.totol_recyconnection_n

-- The pool is in order behind a handler for the connection at p, and every other connection that was in use
-- is so still.
pub record Kept (p : ℕ) (s t : Socket) : Type 0 where
  pub valid : IsValid t
  pub others : (q : ℕ) → q ≢ p → InUse s q → InUse t q

pub SameLists-IsValid : (s t : Socket) → SameLists s t → IsValid s → IsValid t
SameLists-IsValid s t e v = record {
  known = λ a. rw (e.free, e.waiting, e.connections) (v.known a);
  once = λ a. rw (e.connections) (v.once a);
  fresh = λ a. rw (e.connections, e.next_conn) (v.fresh a);
  total = rw (e.connections, e.total) v.total;
  free_n = rw (e.free, e.free_n) v.free_n;
  recy_n = rw (e.waiting, e.recy_n) v.recy_n;
}

pub SameLists-InUse : (s t : Socket) (q : ℕ) → SameLists s t → InUse s q → InUse t q
SameLists-InUse s t q e u = record {
  pooled = rw (e.connections) u.pooled;
  not_free = rw (e.free) u.not_free;
  not_waiting = rw (e.waiting) u.not_waiting;
}

pub SameLists-Kept : (p : ℕ) (s t : Socket) → SameLists s t → IsValid s → Kept p s t
SameLists-Kept p s t e v = record {
  valid = SameLists-IsValid s t e v;
  others = λ q n u. SameLists-InUse s t q e u;
}

pub close_fd-SameLists : (fd : ℕ) (s : Socket) → SameLists s (close_fd fd s)
unfolding close_fd
close_fd-SameLists fd s = record {
  next_conn = refl;
  connections = refl;
  free = refl;
  waiting = refl;
  total = refl;
  free_n = refl;
  recy_n = refl;
}

in_recy-others :
    (now p q : ℕ) (s : Socket) → q ≢ p → InUse s q → InUse (in_recy_connect_queue now p s) q
unfolding in_recy_connect_queue
in_recy-others now p q s n u = record {
  pooled = u.pooled;
  not_free = u.not_free;
  not_waiting = grind (arith, u.not_waiting, count-append q s.recyconnection_list (p ∷ []));
}

drop_client-Kept : (now p : ℕ) (s : Socket) → IsValid s → InUse s p → Kept p s (drop_client now p s)
unfolding drop_client
drop_client-Kept now p s v u =
    let e = close_fd-SameLists ((s.conns p).fd) s in
    record {
      valid = in_recy-IsValid now p _ (SameLists-IsValid s _ e v) (SameLists-InUse s _ p e u);
      others = λ q n w. in_recy-others now p q _ n (SameLists-InUse s _ q e w);
    }

pub same-Kept : (p : ℕ) (s : Socket) → IsValid s → Kept p s s
same-Kept p s v = record { valid = v; others = λ q n u. u }

recvproc-Kept :
    (now p : ℕ) (r : RecvResult) (s : Socket)
    → IsValid s
    → InUse s p
    → Kept p s (recvproc now p r s).1
unfolding recvproc
recvproc-Kept now p (received []) s v u = drop_client-Kept now p s v u
recvproc-Kept now p (received (b ∷ bs)) s v u = same-Kept p s v
recvproc-Kept now p (recv_error errno) s v u =
    elim (Bool-cases (errno == eagain || errno == eintr)) [
      | inl e ↦ rw e (same-Kept p s v)
      | inr e ↦ rw e (drop_client-Kept now p s v u)
    ]

receive_at-SameLists :
    (p : ℕ) (fill : ℕ → ℕ) (now : ℕ) (bytes : List ℕ) (s : Server)
    → SameLists s.socket (receive_at p fill now bytes s).socket
unfolding receive_at
receive_at-SameLists p fill now bytes s = record {
  next_conn = refl;
  connections = refl;
  free = refl;
  waiting = refl;
  total = refl;
  free_n = refl;
  recy_n = refl;
}

pub Kept-SameLists : (p : ℕ) (s t u : Socket) → Kept p s t → SameLists t u → Kept p s u
Kept-SameLists p s t u k e = record {
  valid = SameLists-IsValid t u e k.valid;
  others = λ q n w. SameLists-InUse t u q e (k.others q n w);
}

pub wait-Kept :
    (fill : ℕ → ℕ) (now p : ℕ) (r : RecvResult) (s : Server)
    → IsValid s.socket
    → InUse s.socket p
    → Kept p s.socket (ngx_wait_request_handler fill now r p s).socket
unfolding ngx_wait_request_handler
wait-Kept fill now p r s v u = elim (Option-cases ((recvproc now p r s.socket).0)) [
  | inl e ↦ rw (e, ngx_wait_request_handler) (recvproc-Kept now p r s.socket v u)
  | inr (bytes, e) ↦
      rw (e, ngx_wait_request_handler)
        (Kept-SameLists p s.socket _ _ (recvproc-Kept now p r s.socket v u) (
          receive_at-SameLists p fill now bytes
            (record s { socket = (recvproc now p r s.socket).1 })))
]

pub close-Kept :
    (p : ℕ) (s : Server)
    → IsValid s.socket
    → InUse s.socket p
    → Kept p s.socket (ngx_close_connection p s).socket
unfolding ngx_close_connection ngx_free_connection close_fd
close-Kept p s v u = record {
  valid = close-IsValid p s v u;
  others = λ q n w. record {
    pooled = w.pooled;
    not_free = grind (arith, w.not_free, count-append q s.socket.freeconnection_list (p ∷ []));
    not_waiting = w.not_waiting;
  };
}
