-- ===== src/Net/Socket/Recycling.antt =====
-- The loop that starts over after each connection it frees is one pass over the waiting queue.
use mathlib.Core.Path.{fun_ext}
use linux_c_study.Prelude.{
  ℕ, zero, suc, ◌<◌, ◌≡◌, refl, sym, ap, ◌∙◌, List, [], ◌∷◌, ◌++◌, Bool, true, not, arith, length,
  inl, inr, none, some, select, Option-cases, append-nil, append_assoc,
}
use linux_c_study.Net.Memory.{remove}
use linux_c_study.Net.Conn.{put_one_to_free}
use linux_c_study.Net.Socket.{
  Server, ngx_free_connection, due, first_due, leave_recy_queue, recycle, recycle_due,
}

abbrev pub neg : (ℕ → Bool) → ℕ → Bool
neg test a = not (test a)

first_due-none :
    (test : ℕ → Bool) (ps : List ℕ)
    → first_due test ps ≡ none
    → (select test ps ≡ []) × (select (neg test) ps ≡ ps)
unfolding first_due select
first_due-none test [] e = (refl, refl)
first_due-none test (p ∷ ps) e = ground (arith, first_due-none test ps)

first_due-test :
    (test : ℕ → Bool) (ps : List ℕ) (p : ℕ) → first_due test ps ≡ some p → test p ≡ true
unfolding first_due
first_due-test test [] p e = cc
first_due-test test (q ∷ ps) p e = ground (arith, first_due-test test ps p)

first_due-some :
    (test : ℕ → Bool) (ps : List ℕ) (p : ℕ)
    → first_due test ps ≡ some p
    → (select test ps ≡ p ∷ select test (remove p ps))
      × (select (neg test) ps ≡ select (neg test) (remove p ps))
      × (length ps ≡ suc (length (remove p ps)))
unfolding first_due select remove
first_due-some test [] p e = cc
first_due-some test (q ∷ ps) p e =
    ground (arith, first_due-some test ps p, first_due-test test ps p)

-- What the loop leaves alone.
same_due : (stop now p : ℕ) (s : Server) → due stop now (recycle p s).socket ≡ due stop now s.socket
unfolding recycle leave_recy_queue ngx_free_connection put_one_to_free due
same_due stop now p s = fun_ext (λ a. ground arith)

recycle-lists :
    (p : ℕ) (s : Server)
    → ((recycle p s).socket.recyconnection_list ≡ remove p s.socket.recyconnection_list)
      × ((recycle p s).socket.freeconnection_list ≡ s.socket.freeconnection_list ++ p ∷ [])
unfolding recycle leave_recy_queue ngx_free_connection
recycle-lists p s = (refl, refl)

-- With more fuel than connections that wait, the loop keeps those that are not due and hands the others, in
-- the order in which they came, to the free list.
pub recycle_due-select :
    (fuel stop now : ℕ) (s : Server)
    → length s.socket.recyconnection_list < fuel
    → let test = due stop now s.socket in
      let t = (recycle_due fuel stop now s).socket in
      (t.recyconnection_list ≡ select (neg test) s.socket.recyconnection_list)
      × (t.freeconnection_list
          ≡ s.socket.freeconnection_list ++ select test s.socket.recyconnection_list)
unfolding recycle_due
recycle_due-select zero stop now s h = absurd (omega arith)
recycle_due-select (suc fuel) stop now s h =
    let test = due stop now s.socket in
    let ps = s.socket.recyconnection_list in
    elim (Option-cases (first_due test ps)) [
      | inl e ↦
          let n = first_due-none test ps e in
          rw (e, recycle_due)
            (sym n.1, sym (append-nil _) ∙ ap (λ xs. s.socket.freeconnection_list ++ xs) (sym n.0))
      | inr (p, e) ↦
          let f = first_due-some test ps p e in
          let ih =
            recycle_due-select fuel stop now (recycle p s)
              (omega (arith, f.2, ap length (recycle-lists p s).0)) in
          let r = (recycle p s).socket in
          let l = recycle-lists p s in
          let same = same_due stop now p s in
          rw (e, recycle_due)
            (
              ih.0
                  ∙ ap (λ d. select (neg d) r.recyconnection_list) same
                  ∙ ap (select (neg test)) l.0
                  ∙ sym f.1,
              ih.1
                  ∙ ap (λ d. r.freeconnection_list ++ select d r.recyconnection_list) same
                  ∙ ap (λ xs. r.freeconnection_list ++ select test xs) l.0
                  ∙ ap (λ xs. xs ++ select test (remove p ps)) l.1
                  ∙ append_assoc s.socket.freeconnection_list (p ∷ []) (select test (remove p ps))
                  ∙ ap (λ xs. s.socket.freeconnection_list ++ xs) (sym f.0),
            )
    ]
