-- ===== src/Threads/Stopping/Joined.antt =====
-- StopAll returns behind the last thread.
use linux_c_study.Prelude.{
  ℕ, zero, suc, ◌<◌, ◌≡◌, refl, sym, ap, ◌∙◌, List, [], ◌∷◌, ◌++◌, some, none, true, false, arith,
  get_elem?, length, Option-cases, inl, inr,
}
use mathlib.Core.Option.{some_inj}
use linux_c_study.Net.Memory.{Memory}
use linux_c_study.Threads.Workers.{
  Place, returned, Workers, Step, locked, saw_nothing, waits, wakes, leaves, takes, begins,
  finishes, pushes, stops, broadcasts,
}
use linux_c_study.Threads.Places.{inside, holds, total}
use linux_c_study.Threads.Owners.{Owned, has_returned}
use linux_c_study.Threads.Stopping.{stopped, Stopping, made, by_thread, StopReach}
use linux_c_study.Threads.Stopping.Seen.{Locks-back, Back, Reach-Safe, at}

pub get_elem-bound : (ps : List Place) (i : ℕ) (p : Place) → get_elem? ps i ≡ some p → i < length ps
get_elem-bound [] i p e = cc
get_elem-bound (x ∷ ps) zero p e = omega arith
get_elem-bound (x ∷ ps) (suc i) p e = omega (arith, get_elem-bound ps i p e)

abbrev AllBack : List Place → Type 0
AllBack ps = (i : ℕ) → i < length ps → Back ps i

AllBack-place :
    (ps : List Place) (i : ℕ) (p : Place) → AllBack ps → get_elem? ps i ≡ some p → p ≡ returned
AllBack-place ps i p b g = some_inj.0 (sym g ∙ b i (get_elem-bound ps i p g))

AllBack-holds : (ps : List Place) → AllBack ps → total holds ps ≡ 0
unfolding total
AllBack-holds [] b = refl
AllBack-holds (p ∷ ps) b = omega (
  arith,
  ap holds (some_inj.0 (b 0 (omega arith))),
  AllBack-holds ps (λ i l. b (suc i) (omega (arith, l))),
)

AllBack-unlocked : (s : Workers) → AllBack s.threads → Owned s → s.mutex ≡ none
AllBack-unlocked s b o = elim (Option-cases s.mutex) [
  | inl e ↦ e
  | inr (i, e) ↦
      let (q, (g, h)) = o.owner i e in
      let z : false ≡ true = sym (ap inside (AllBack-place s.threads i q b g)) ∙ h in cc
]

not_back :
    (ps : List Place) (i : ℕ) (p : Place)
    → AllBack ps
    → get_elem? ps i ≡ some p
    → has_returned p ≡ true
not_back ps i p b g = ap has_returned (AllBack-place ps i p b g)

AllBack-quiet : {s t : Workers} (st : Step s t) → AllBack s.threads → by_thread st ≡ false
AllBack-quiet {s} (locked i p g l m) b =
    (let z : false ≡ true = sym (Locks-back p l) ∙ not_back s.threads i p b g in cc)
AllBack-quiet {s} (saw_nothing i g e f) b = (let z = not_back s.threads i _ b g in cc)
AllBack-quiet {s} (waits i g) b = (let z = not_back s.threads i _ b g in cc)
AllBack-quiet {s} (wakes i g) b = (let z = not_back s.threads i _ b g in cc)
AllBack-quiet {s} (leaves i g f) b = (let z = not_back s.threads i _ b g in cc)
AllBack-quiet {s} (takes i m rest g f e) b = (let z = not_back s.threads i _ b g in cc)
AllBack-quiet {s} (begins i m g) b = (let z = not_back s.threads i _ b g in cc)
AllBack-quiet {s} (finishes i m g) b = (let z = not_back s.threads i _ b g in cc)
AllBack-quiet (pushes now m n) b = refl
AllBack-quiet stops b = refl
AllBack-quiet broadcasts b = refl

-- A pool whose threads are all gone: nobody has the mutex or takes a step, every message that was taken is
-- finished, and those that were brought and not taken are still in the queue.
pub record Ended (s : Workers) : Type 0 where
  pub all_back : AllBack s.threads
  pub unlocked : s.mutex ≡ none
  pub quiet : {t : Workers} (st : Step s t) → by_thread st ≡ false
  pub finished_n : length s.finished ≡ length s.taken
  pub rest : s.taken ++ s.pool.msg_recv_queue ≡ s.pushed

-- In every interleaving of a pool with threads, Create and StopAll, once StopAll is at its end all threads have returned, nobody
-- has the mutex that is destroyed, no thread takes a step any more, every message that was taken is finished,
-- and those that were brought and not taken are in the queue, in order.
pub Reach-Ended :
    (n : ℕ) (memory : Memory) {s : Stopping}
    → 0 < n
    → StopReach (made n memory) s
    → s.caller ≡ stopped
    → Ended s.workers
Reach-Ended n memory {s} h r e =
    let v = Reach-Safe n memory h r in
    let b : AllBack s.workers.threads = at s stopped e v in
    record {
      all_back = b;
      unlocked = AllBack-unlocked s.workers b v.owned;
      quiet = λ st. AllBack-quiet st b;
      finished_n = omega (arith, v.in_order.in_hand, AllBack-holds s.workers.threads b);
      rest = v.in_order.order;
    }
