-- ===== src/Worker/Rounds.antt =====
-- Who owns the blocks of messages, through the rounds of the recycling thread.
use linux_c_study.Prelude.{
  ℕ, zero, suc, ◌<◌, ◌≡◌, refl, ap, inl, inr, arith, List, [], ◌∷◌, Bool-cases, Option-cases, count,
  length, pos32, ◌==◌,
}
use linux_c_study.Net.Socket.{
  Socket, Server, due, first_due, recycle, recycle_due, recycle_all, free_due_round, free_all_round,
  recy_connection_round,
}
use linux_c_study.Net.Socket.Invariant.{IsValid, recycle-IsValid, first_due-count, recycle-list}
use linux_c_study.Worker.Balance.{Balanced, recycle-Balanced}

-- The pool and the memory are in order.
pub record Sound (lost : List ℕ) (s : Server) : Type 0 where
  pub valid : IsValid s.socket
  pub balanced : Balanced lost s

pooled :
    (s : Socket) (p : ℕ)
    → IsValid s
    → 0 < count p s.recyconnection_list
    → count p s.connection_list ≡ 1
pooled s p v h = omega (arith, h, v.known p, v.once p)

recycle-Sound :
    (lost : List ℕ) (p : ℕ) (s : Server)
    → Sound lost s
    → 0 < count p s.socket.recyconnection_list
    → Sound lost (recycle p s)
recycle-Sound lost p s g h = record {
  valid = recycle-IsValid p s g.valid h;
  balanced = recycle-Balanced lost p s g.balanced (pooled s.socket p g.valid h);
}

recycle_due-Sound :
    (lost : List ℕ) (fuel stop now : ℕ) (s : Server)
    → Sound lost s
    → Sound lost (recycle_due fuel stop now s)
unfolding recycle_due
recycle_due-Sound lost zero stop now s g = g
recycle_due-Sound lost (suc fuel) stop now s g =
    elim (Option-cases (first_due (due stop now s.socket) s.socket.recyconnection_list)) [
      | inl e ↦ rw (e, recycle_due) g
      | inr (p, e) ↦
          rw (e, recycle_due)
            (recycle_due-Sound lost fuel stop now (recycle p s)
              (recycle-Sound lost p s g (first_due-count _ _ p e)))
    ]

recycle_all-Sound :
    (lost ps : List ℕ) (s : Server)
    → Sound lost s
    → s.socket.recyconnection_list ≡ ps
    → Sound lost (recycle_all ps s)
unfolding recycle_all
recycle_all-Sound lost [] s g e = g
recycle_all-Sound lost (p ∷ ps) s g e =
    recycle_all-Sound lost ps (recycle p s)
      (recycle-Sound lost p s g (ground (arith, ap (count p) e))) (recycle-list p s ps e)

free_due-Sound :
    (lost : List ℕ) (stop now : ℕ) (s : Server)
    → Sound lost s
    → Sound lost (free_due_round stop now s)
unfolding free_due_round
free_due-Sound lost stop now s g = elim (Bool-cases (pos32 s.socket.totol_recyconnection_n)) [
  | inl e ↦ rw e (recycle_due-Sound lost (suc (length s.socket.recyconnection_list)) stop now s g)
  | inr e ↦ rw e g
]

free_all-Sound : (lost : List ℕ) (s : Server) → Sound lost s → Sound lost (free_all_round s)
unfolding free_all_round
free_all-Sound lost s g = elim (Bool-cases (pos32 s.socket.totol_recyconnection_n)) [
  | inl e ↦ rw e (recycle_all-Sound lost s.socket.recyconnection_list s g refl)
  | inr e ↦ rw e g
]

pub round-Sound :
    (lost : List ℕ) (stop now : ℕ) (s : Server)
    → Sound lost s
    → Sound lost (recy_connection_round stop now s).0
unfolding recy_connection_round
round-Sound lost stop now s g =
    let h = free_due-Sound lost stop now s g in
    elim (Bool-cases (stop == 1)) [
      | inl e ↦ rw e (free_all-Sound lost (free_due_round stop now s) h)
      | inr e ↦ rw e h
    ]
