-- ===== src/Net/Socket/Invariant.antt =====
-- The lists and counters of the connection pool.
use linux_c_study.Prelude.{
  ℕ, zero, suc, ◌+◌, ◌%◌, ◌^◌, ◌≤◌, ◌<◌, ◌≡◌, inl, inr, refl, ap, List, [], ◌∷◌, Bool, arith,
  length, length-append, count, count-append, ◌==◌, some, pos32, Bool-cases, ℕ_discrete,
  Option-cases,
}
use linux_c_study.Net.Memory.{remove, count-remove_self, count-remove_ne, length-remove}
use linux_c_study.Net.Socket.{
  Socket, Server, take_connection, ngx_get_connection, ngx_free_connection, in_recy_connect_queue,
  ngx_close_connection, close_fd, due, first_due, leave_recy_queue, free_due_round, free_all_round,
  recycle, recycle_due, recycle_all, recy_connection_round,
}

-- Each connection of the pool lies in at most one of the two lists of unused ones, and the counters
-- are the lengths, as far as an `int` holds them.
pub record IsValid (s : Socket) : Type 0 where
  pub known :
      (a : ℕ)
      → count a s.freeconnection_list + count a s.recyconnection_list ≤ count a s.connection_list
  pub once : (a : ℕ) → count a s.connection_list ≤ 1
  pub fresh : (a : ℕ) → s.next_conn ≤ a → count a s.connection_list ≡ 0
  pub total : s.total_connection_n ≡ length s.connection_list % 2 ^ 32
  pub free_n : s.free_connection_n ≡ length s.freeconnection_list % 2 ^ 32
  pub recy_n : s.totol_recyconnection_n ≡ length s.recyconnection_list % 2 ^ 32

-- The connection belongs to a client or a listening socket.
pub record InUse (s : Socket) (a : ℕ) : Type 0 where
  pub pooled : count a s.connection_list ≡ 1
  pub not_free : count a s.freeconnection_list ≡ 0
  pub not_waiting : count a s.recyconnection_list ≡ 0

take-IsValid :
    (free : List ℕ) (isock : ℕ) (s : Socket)
    → s.freeconnection_list ≡ free
    → IsValid s
    → IsValid (take_connection free isock s).1
unfolding take_connection
take-IsValid [] isock s e v = record {
  known = λ a. grind (arith, v.known a, count-append a s.connection_list (s.next_conn ∷ []));
  once =
      λ a. grind (arith, v.once a, v.fresh a, count-append a s.connection_list (s.next_conn ∷ []));
  fresh = λ a h. grind (arith, v.fresh a, count-append a s.connection_list (s.next_conn ∷ []));
  total = omega (arith, v.total, length-append s.connection_list (s.next_conn ∷ []));
  free_n = v.free_n;
  recy_n = v.recy_n;
}
take-IsValid (p ∷ rest) isock s e v = record {
  known = λ a. ground (arith, v.known a, ap (count a) e);
  once = v.once;
  fresh = v.fresh;
  total = v.total;
  free_n = omega (arith, v.free_n, ap length e);
  recy_n = v.recy_n;
}

pub get-IsValid : (isock : ℕ) (s : Socket) → IsValid s → IsValid (ngx_get_connection isock s).1
unfolding ngx_get_connection
get-IsValid isock s v = take-IsValid s.freeconnection_list isock s refl v

pub free-IsValid :
    (p : ℕ) (s : Server)
    → IsValid s.socket
    → count p s.socket.freeconnection_list + count p s.socket.recyconnection_list
      < count p s.socket.connection_list
    → IsValid (ngx_free_connection p s).socket
unfolding ngx_free_connection
free-IsValid p s v h = record {
  known = λ a. grind (arith, v.known a, h, count-append a s.socket.freeconnection_list (p ∷ []));
  once = v.once;
  fresh = v.fresh;
  total = v.total;
  free_n = omega (arith, v.free_n, length-append s.socket.freeconnection_list (p ∷ []));
  recy_n = v.recy_n;
}

pub InUse-slack :
    (s : Socket) (p : ℕ)
    → InUse s p
    → count p s.freeconnection_list + count p s.recyconnection_list < count p s.connection_list
InUse-slack s p u = omega (arith, u.pooled, u.not_free, u.not_waiting)

pub in_recy-IsValid :
    (now p : ℕ) (s : Socket) → IsValid s → InUse s p → IsValid (in_recy_connect_queue now p s)
unfolding in_recy_connect_queue
in_recy-IsValid now p s v u = record {
  known = λ a.
      grind (arith, v.known a, InUse-slack s p u, count-append a s.recyconnection_list (p ∷ []));
  once = v.once;
  fresh = v.fresh;
  total = v.total;
  free_n = v.free_n;
  recy_n = omega (arith, v.recy_n, length-append s.recyconnection_list (p ∷ []));
}

pub close-IsValid :
    (p : ℕ) (s : Server)
    → IsValid s.socket
    → InUse s.socket p
    → IsValid (ngx_close_connection p s).socket
unfolding ngx_close_connection close_fd
close-IsValid p s v u =
    let w = free-IsValid p s v (InUse-slack s.socket p u) in
    record {
      known = w.known;
      once = w.once;
      fresh = w.fresh;
      total = w.total;
      free_n = w.free_n;
      recy_n = w.recy_n;
    }

leave-IsValid :
    (p : ℕ) (s : Server)
    → IsValid s.socket
    → 0 < count p s.socket.recyconnection_list
    → IsValid (leave_recy_queue p s).socket
unfolding leave_recy_queue
leave-IsValid p s v h = record {
  known = λ a. elim (ℕ_discrete a p) [
    | yes e ↦ rw e (omega (arith, v.known p, count-remove_self p s.socket.recyconnection_list))
    | no n ↦ rw (count-remove_ne a p s.socket.recyconnection_list n) (v.known a)
  ];
  once = v.once;
  fresh = v.fresh;
  total = v.total;
  free_n = v.free_n;
  recy_n = omega (arith, v.recy_n, length-remove p s.socket.recyconnection_list h);
}

leave-slack :
    (p : ℕ) (s : Server)
    → IsValid s.socket
    → 0 < count p s.socket.recyconnection_list
    → let t = (leave_recy_queue p s).socket in
      count p t.freeconnection_list + count p t.recyconnection_list < count p t.connection_list
unfolding leave_recy_queue
leave-slack p s v h = omega (arith, v.known p, count-remove_self p s.socket.recyconnection_list)

pub recycle-IsValid :
    (p : ℕ) (s : Server)
    → IsValid s.socket
    → 0 < count p s.socket.recyconnection_list
    → IsValid (recycle p s).socket
unfolding recycle
recycle-IsValid p s v h =
    free-IsValid p (leave_recy_queue p s) (leave-IsValid p s v h) (leave-slack p s v h)

pub first_due-count :
    (test : ℕ → Bool) (ps : List ℕ) (p : ℕ) → first_due test ps ≡ some p → 0 < count p ps
unfolding first_due
first_due-count test [] p e = cc
first_due-count test (q ∷ ps) p e = ground (arith, first_due-count test ps p)

pub recycle_due-IsValid :
    (fuel stop now : ℕ) (s : Server)
    → IsValid s.socket
    → IsValid (recycle_due fuel stop now s).socket
unfolding recycle_due
recycle_due-IsValid zero stop now s v = v
recycle_due-IsValid (suc fuel) stop now s v =
    elim (Option-cases (first_due (due stop now s.socket) s.socket.recyconnection_list)) [
      | inl e ↦ rw (e, recycle_due) v
      | inr (p, e) ↦
          rw (e, recycle_due)
            (recycle_due-IsValid fuel stop now (recycle p s)
              (recycle-IsValid p s v (first_due-count _ _ p e)))
    ]

pub recycle-list :
    (p : ℕ) (s : Server) (ps : List ℕ)
    → s.socket.recyconnection_list ≡ p ∷ ps
    → (recycle p s).socket.recyconnection_list ≡ ps
unfolding recycle ngx_free_connection leave_recy_queue remove
recycle-list p s ps e = ground (arith, ap (remove p) e)

recycle_all-IsValid :
    (ps : List ℕ) (s : Server)
    → IsValid s.socket
    → s.socket.recyconnection_list ≡ ps
    → IsValid (recycle_all ps s).socket
unfolding recycle_all
recycle_all-IsValid [] s v e = v
recycle_all-IsValid (p ∷ ps) s v e =
    recycle_all-IsValid ps (recycle p s) (recycle-IsValid p s v (ground (arith, ap (count p) e)))
      (recycle-list p s ps e)

free_due-IsValid :
    (stop now : ℕ) (s : Server) → IsValid s.socket → IsValid (free_due_round stop now s).socket
unfolding free_due_round
free_due-IsValid stop now s v = elim (Bool-cases (pos32 s.socket.totol_recyconnection_n)) [
  | inl e ↦ rw e (recycle_due-IsValid (suc (length s.socket.recyconnection_list)) stop now s v)
  | inr e ↦ rw e v
]

free_all-IsValid : (s : Server) → IsValid s.socket → IsValid (free_all_round s).socket
unfolding free_all_round
free_all-IsValid s v = elim (Bool-cases (pos32 s.socket.totol_recyconnection_n)) [
  | inl e ↦ rw e (recycle_all-IsValid s.socket.recyconnection_list s v refl)
  | inr e ↦ rw e v
]

pub round-IsValid :
    (stop now : ℕ) (s : Server)
    → IsValid s.socket
    → IsValid (recy_connection_round stop now s).0.socket
unfolding recy_connection_round
round-IsValid stop now s v =
    let w = free_due-IsValid stop now s v in
    elim (Bool-cases (stop == 1)) [
      | inl e ↦ rw e (free_all-IsValid (free_due_round stop now s) w)
      | inr e ↦ rw e w
    ]
