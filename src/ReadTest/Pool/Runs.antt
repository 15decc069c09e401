-- ===== src/ReadTest/Pool/Runs.antt =====
-- The pool of the second server while a worker runs.
use linux_c_study.Prelude.{
  ℕ, suc, ◌+◌, ◌-◌, ◌^◌, ◌<◌, ◌≡◌, inl, inr, refl, sym, subst, List, [], ◌∷◌, arith, length, ◌==◌,
  pos32, Bool-cases,
}
use linux_c_study.Net.Conn.{Connection}
use linux_c_study.Net.Socket.{
  Socket, Server, take_connection, ngx_get_connection, ngx_free_connection, in_recy_connect_queue,
  initconnection, ngx_close_connection, close_fd, free_all_round,
}
use linux_c_study.Net.Socket.Invariant.{
  IsValid, InUse, InUse-slack, get-IsValid, in_recy-IsValid, free-IsValid, recycle_due-IsValid,
}
use linux_c_study.Net.Socket.Lifecycle.{close_fd-IsValid, close_fd-InUse, start, init-IsValid}
use linux_c_study.ReadTest.Pool.{
  ngx_close_accepted_connection, release_round, recy_connection_round,
}
use linux_c_study.ReadTest.Pool.Drift.{
  corrected, corrected_server, corrected-take, corrected-in_recy, corrected-InUse, Released,
  nothing-Released, release_due-Released, free_all-corrected, free_all-total,
}

-- How many connections the loop behind lblRRTD gives back in a round.
unfoldable pub released : ℕ → ℕ → Server → ℕ
unfolding release_round
released stop now s =
    length s.socket.recyconnection_list
    - length (release_round stop now s).socket.recyconnection_list

-- One change of the pool, with that number; the events and the clock choose.
pub data Step (s : Server) : ℕ → Server → Type 0 where
  connect : (isock : ℕ) → Step s 0 (record s { socket = (ngx_get_connection isock s.socket).1 })
  disconnect :
      (now p : ℕ)
      → InUse s.socket p
      → Step s 0 (record s {
        socket = in_recy_connect_queue now p (close_fd ((s.socket.conns p).fd) s.socket);
      })
  close_at_once : (p : ℕ) → InUse s.socket p → Step s 0 (ngx_close_connection p s)
  abort : (p : ℕ) → InUse s.socket p → Step s 0 (ngx_close_accepted_connection p s)
  round : (stop now : ℕ) → Step s (released stop now s) (recy_connection_round stop now s).0

pub data Reach (s : Server) : ℕ → Server → Type 0 where
  here : Reach s 0 s
  next : {r k : ℕ} {t u : Server} → Reach s r t → Step t k u → Reach s (r + k) u

-- The pool after r connections were given back that way.
pub record Counted (r : ℕ) (s : Socket) : Type 0 where
  pub valid : IsValid (corrected r s)
  pub an_int : s.total_connection_n < 2 ^ 32

Released-Counted :
    (r : ℕ) (s t u : Server)
    → Released r s t u
    → IsValid u.socket
    → s.socket.total_connection_n < 2 ^ 32
    → Counted
        (r + (length s.socket.recyconnection_list - length t.socket.recyconnection_list))
        t.socket
Released-Counted r s t u b v h = record {
  valid =
      subst (λ k. IsValid (corrected k t.socket)) (omega (arith, b.left))
        (subst (λ (w : Server). IsValid w.socket) (sym b.same) v);
  an_int = b.an_int h;
}

release_round-Counted :
    (stop now r : ℕ) (s : Server)
    → Counted r s.socket
    → Counted (r + released stop now s) (release_round stop now s).socket
unfolding release_round released
release_round-Counted stop now r s v = elim (Bool-cases (pos32 s.socket.total_connection_n)) [
  | inl e ↦
      let fuel = suc (length s.socket.recyconnection_list) in
      rw e (
        Released-Counted r s _ _ (release_due-Released fuel stop now r s)
          (recycle_due-IsValid fuel stop now (corrected_server r s) v.valid) v.an_int)
  | inr e ↦ rw e (Released-Counted r s _ _ (nothing-Released r s) v.valid v.an_int)
]

-- The thread's last loop frees every connection that waits, and counts as it should.
free_all-Counted : (r : ℕ) (s : Server) → Counted r s.socket → Counted r (free_all_round s).socket
free_all-Counted r s v = record {
  valid = free_all-corrected r s v.valid;
  an_int = rw (free_all-total s) v.an_int;
}

round-Counted :
    (stop now r : ℕ) (s : Server)
    → Counted r s.socket
    → Counted (r + released stop now s) (recy_connection_round stop now s).0.socket
unfolding recy_connection_round
round-Counted stop now r s v =
    let w = release_round-Counted stop now r s v in
    elim (Bool-cases (stop == 1)) [
      | inl e ↦ rw e (free_all-Counted _ (release_round stop now s) w)
      | inr e ↦ rw e w
    ]

take-int :
    (free : List ℕ) (isock : ℕ) (s : Socket)
    → s.total_connection_n < 2 ^ 32
    → (take_connection free isock s).1.total_connection_n < 2 ^ 32
unfolding take_connection
take-int [] isock s h = omega arith
take-int (p ∷ rest) isock s h = h

get-Counted : (r isock : ℕ) (s : Socket) → Counted r s → Counted r (ngx_get_connection isock s).1
unfolding ngx_get_connection corrected
get-Counted r isock s v = record {
  valid =
      subst IsValid (sym (corrected-take r isock s.freeconnection_list s))
        (get-IsValid isock (corrected r s) v.valid);
  an_int = take-int s.freeconnection_list isock s v.an_int;
}

close_fd-Counted : (r fd : ℕ) (s : Socket) → Counted r s → Counted r (close_fd fd s)
unfolding close_fd corrected
close_fd-Counted r fd s v = record {
  valid = close_fd-IsValid fd (corrected r s) v.valid;
  an_int = v.an_int;
}

in_recy-Counted :
    (r now p : ℕ) (s : Socket) → Counted r s → InUse s p → Counted r (in_recy_connect_queue now p s)
unfolding in_recy_connect_queue
in_recy-Counted r now p s v u = record {
  valid =
      subst IsValid (sym (corrected-in_recy r now p s))
        (in_recy-IsValid now p (corrected r s) v.valid (corrected-InUse r p s u));
  an_int = v.an_int;
}

free-Counted :
    (r p : ℕ) (s : Server)
    → Counted r s.socket
    → InUse s.socket p
    → Counted r (ngx_free_connection p s).socket
unfolding ngx_free_connection corrected
free-Counted r p s v u = record {
  valid = free-IsValid p (corrected_server r s) v.valid (InUse-slack s.socket p u);
  an_int = v.an_int;
}

close-Counted :
    (r p : ℕ) (s : Server)
    → Counted r s.socket
    → InUse s.socket p
    → Counted r (ngx_close_connection p s).socket
unfolding ngx_close_connection
close-Counted r p s v u = close_fd-Counted r _ _ (free-Counted r p s v u)

-- Only the memory in which the connections lie.
conns-Counted :
    (r : ℕ) (conns' : ℕ → Connection) (s : Socket)
    → Counted r s
    → Counted r (record s { conns = conns' })
unfolding corrected
conns-Counted r conns' s v = record {
  valid = record {
    known = v.valid.known;
    once = v.valid.once;
    fresh = v.valid.fresh;
    total = v.valid.total;
    free_n = v.valid.free_n;
    recy_n = v.valid.recy_n;
  };
  an_int = v.an_int;
}

abort-Counted :
    (r p : ℕ) (s : Server)
    → Counted r s.socket
    → InUse s.socket p
    → Counted r (ngx_close_accepted_connection p s).socket
unfolding ngx_close_accepted_connection
abort-Counted r p s v u = close_fd-Counted r _ _ (conns-Counted r _ _ (free-Counted r p s v u))

same_counts : {r k : ℕ} {s : Socket} → k ≡ 0 → Counted r s → Counted (r + k) s
same_counts {r} {k} {s} e v = subst (λ j. Counted j s) (omega (arith, e)) v

Step-Counted :
    (r : ℕ) {s t : Server} {k : ℕ} → Step s k t → Counted r s.socket → Counted (r + k) t.socket
Step-Counted r {s = s} (connect isock) v = same_counts refl (get-Counted r isock s.socket v)
Step-Counted r {s = s} (disconnect now p u) v =
    same_counts refl
      (in_recy-Counted r now p _ (close_fd-Counted r _ s.socket v) (close_fd-InUse _ s.socket p u))
Step-Counted r {s = s} (close_at_once p u) v = same_counts refl (close-Counted r p s v u)
Step-Counted r {s = s} (abort p u) v = same_counts refl (abort-Counted r p s v u)
Step-Counted r {s = s} (round stop now) v = round-Counted stop now r s v

start-Counted : (workers wait threads : ℕ) → Counted 0 (start workers wait threads).socket
unfolding start corrected initconnection
start-Counted workers wait threads =
    let v = init-IsValid workers wait in
    record {
      valid = record {
        known = v.known;
        once = v.once;
        fresh = v.fresh;
        total = omega (arith, v.total);
        free_n = v.free_n;
        recy_n = omega (arith, v.recy_n);
      };
      an_int = omega arith;
    }

pub Reach-Counted :
    (workers wait threads : ℕ) {r : ℕ} {s : Server}
    → Reach (start workers wait threads) r s
    → Counted r s.socket
Reach-Counted workers wait threads here = start-Counted workers wait threads
Reach-Counted workers wait threads (next {r} h st) =
    Step-Counted r st (Reach-Counted workers wait threads h)
