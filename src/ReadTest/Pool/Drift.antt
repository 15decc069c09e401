-- ===== src/ReadTest/Pool/Drift.antt =====
-- How the counters of the pool leave the lists that they count.
use linux_c_study.Prelude.{
  ℕ, zero, suc, ◌+◌, ◌-◌, ◌%◌, ◌^◌, ◌<◌, ◌≡◌, inl, inr, refl, sym, ap, subst, ◌∙◌, List, [], ◌∷◌,
  arith, length, count, pos32, Bool-cases, Option-cases,
}
use linux_c_study.Net.Socket.{
  Socket, Server, take_connection, ngx_free_connection, in_recy_connect_queue, due, first_due,
  leave_recy_queue, recycle, free_all_round, recycle_all, recycle_due,
}
use linux_c_study.Net.Socket.Invariant.{
  IsValid, InUse, recycle-IsValid, first_due-count, recycle-list,
}
use linux_c_study.Net.Memory.{length-remove}
use linux_c_study.ReadTest.Pool.{leave_queue_due, release, release_due}

-- The pool as the first server would count it, where r connections left the queue when they were due.
unfoldable pub corrected : ℕ → Socket → Socket
corrected r s = record s {
  total_connection_n = (s.total_connection_n + r) % 2 ^ 32;
  totol_recyconnection_n = (s.totol_recyconnection_n + 2 ^ 32 - r % 2 ^ 32) % 2 ^ 32;
}

abbrev pub corrected_server : ℕ → Server → Server
corrected_server r s = record s { socket = corrected r s.socket }

corrected-release :
    (r p : ℕ) (s : Server)
    → corrected_server (r + 1) (release p s) ≡ recycle p (corrected_server r s)
unfolding corrected release recycle ngx_free_connection leave_queue_due leave_recy_queue
corrected-release r p s = ground arith

pub corrected-recycle :
    (r p : ℕ) (s : Server) → corrected_server r (recycle p s) ≡ recycle p (corrected_server r s)
unfolding corrected recycle ngx_free_connection leave_recy_queue
corrected-recycle r p s = ground arith

pub corrected-take :
    (r isock : ℕ) (free : List ℕ) (s : Socket)
    → corrected r (take_connection free isock s).1 ≡ (take_connection free isock (corrected r s)).1
unfolding corrected take_connection
corrected-take r isock [] s = ground arith
corrected-take r isock (p ∷ rest) s = ground arith

pub corrected-in_recy :
    (r now p : ℕ) (s : Socket)
    → corrected r (in_recy_connect_queue now p s) ≡ in_recy_connect_queue now p (corrected r s)
unfolding corrected in_recy_connect_queue
corrected-in_recy r now p s = ground arith

pub corrected-InUse : (r p : ℕ) (s : Socket) → InUse s p → InUse (corrected r s) p
unfolding corrected
corrected-InUse r p s u = record {
  pooled = u.pooled;
  not_free = u.not_free;
  not_waiting = u.not_waiting;
}

-- The loop's releases, beside what the first server does to the corrected pool.
pub record Released (r : ℕ) (s t u : Server) : Type 0 where
  pub n : ℕ
  pub left : n + length t.socket.recyconnection_list ≡ length s.socket.recyconnection_list
  pub same : corrected_server (r + n) t ≡ u
  pub an_int : s.socket.total_connection_n < 2 ^ 32 → t.socket.total_connection_n < 2 ^ 32

pub nothing-Released : (r : ℕ) (s : Server) → Released r s s (corrected_server r s)
nothing-Released r s = record {
  n = 0;
  left = omega arith;
  same = ap (λ k. corrected_server k s) (omega arith);
  an_int = λ h. h;
}

length-release :
    (p : ℕ) (s : Server)
    → 0 < count p s.socket.recyconnection_list
    → length (release p s).socket.recyconnection_list + 1 ≡ length s.socket.recyconnection_list
unfolding release leave_queue_due ngx_free_connection
length-release p s h = length-remove p s.socket.recyconnection_list h

release-int : (p : ℕ) (s : Server) → (release p s).socket.total_connection_n < 2 ^ 32
unfolding release leave_queue_due ngx_free_connection
release-int p s = omega arith

same_first :
    (stop now r : ℕ) (s : Socket)
    → first_due (due stop now (corrected r s)) (corrected r s).recyconnection_list
      ≡ first_due (due stop now s) s.recyconnection_list
unfolding due corrected
same_first stop now r s = refl

pub release_due-Released :
    (fuel stop now r : ℕ) (s : Server)
    → Released r s (release_due fuel stop now s) (recycle_due fuel stop now (corrected_server r s))
unfolding release_due recycle_due
release_due-Released zero stop now r s = nothing-Released r s
release_due-Released (suc fuel) stop now r s =
    elim (Option-cases (first_due (due stop now s.socket) s.socket.recyconnection_list)) [
      | inl e ↦
          rw (e, same_first stop now r s.socket ∙ e, release_due, recycle_due)
            (nothing-Released r s)
      | inr (p, e) ↦
          let h : 0 < count p s.socket.recyconnection_list = first_due-count _ _ p e in
          let b = release_due-Released fuel stop now (r + 1) (release p s) in
          rw (e, same_first stop now r s.socket ∙ e, release_due, recycle_due)
            (record {
              n = suc b.n;
              left = omega (arith, b.left, length-release p s h);
              same =
                  ap (λ k. corrected_server k (release_due fuel stop now (release p s)))
                    (omega arith)
                  ∙ (b.same ∙ ap (recycle_due fuel stop now) (corrected-release r p s));
              an_int = λ k. b.an_int (release-int p s);
            })
    ]

recycle_all-corrected :
    (r : ℕ) (ps : List ℕ) (s : Server)
    → IsValid (corrected r s.socket)
    → s.socket.recyconnection_list ≡ ps
    → IsValid (corrected r (recycle_all ps s).socket)
unfolding recycle_all corrected
recycle_all-corrected r [] s v e = v
recycle_all-corrected r (p ∷ ps) s v e =
    recycle_all-corrected r ps (recycle p s)
      (subst (λ (u : Server). IsValid u.socket) (sym (corrected-recycle r p s))
        (recycle-IsValid p (corrected_server r s) v (in_front e)))
      (recycle-list p s ps e)
  where
    in_front : s.socket.recyconnection_list ≡ p ∷ ps → 0 < count p s.socket.recyconnection_list
    in_front h = ground (arith, ap (count p) h)

pub free_all-corrected :
    (r : ℕ) (s : Server)
    → IsValid (corrected r s.socket)
    → IsValid (corrected r (free_all_round s).socket)
unfolding free_all_round
free_all-corrected r s v = elim (Bool-cases (pos32 s.socket.totol_recyconnection_n)) [
  | inl e ↦ rw e (recycle_all-corrected r s.socket.recyconnection_list s v refl)
  | inr e ↦ rw e v
]

recycle_all-total :
    (ps : List ℕ) (s : Server)
    → (recycle_all ps s).socket.total_connection_n ≡ s.socket.total_connection_n
unfolding recycle_all recycle ngx_free_connection leave_recy_queue
recycle_all-total [] s = refl
recycle_all-total (p ∷ ps) s = recycle_all-total ps (recycle p s)

pub free_all-total :
    (s : Server) → (free_all_round s).socket.total_connection_n ≡ s.socket.total_connection_n
unfolding free_all_round
free_all-total s = elim (Bool-cases (pos32 s.socket.totol_recyconnection_n)) [
  | inl e ↦ rw e (recycle_all-total s.socket.recyconnection_list s)
  | inr e ↦ rw e refl
]
