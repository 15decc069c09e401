-- ===== src/Threads/Stopping/Seen.antt =====
-- What pthread_join() has seen, in every state that the pool and its first thread reach.
use linux_c_study.Prelude.{
  ℕ, zero, suc, ◌+◌, ◌<◌, ◌≡◌, refl, sym, ap, subst, ◌∙◌, List, [], ◌∷◌, some, Bool, true, false,
  arith, map, get_elem?, set, length, length-set, length-map, length-replicate, ℕ_discrete,
}
use mathlib.Core.Option.{some_inj}
use linux_c_study.Net.Memory.{Memory}
use linux_c_study.Threads.Workers.{
  Place, at_lock, checking, going_to_wait, asleep, woken, holding, working, returned, Workers,
  create, lock, wait, leave, take_job, begin_job, finish_job, push_job, stop_all, broadcast, Step,
  locked, saw_nothing, waits, wakes, leaves, takes, begins, finishes, pushes, stops, broadcasts,
  wake, Locks, first, again,
}
use linux_c_study.Threads.Workers.{here as here_first}
use linux_c_study.Threads.Order.{InOrder, Step-InOrder, Reach-InOrder}
use linux_c_study.Threads.Owners.{Owned, has_returned, set-there, Step-Owned, Reach-Owned}
use linux_c_study.Threads.Stopping.{
  Caller, polling, created, told, joining, unheard, stopped, Stopping, made, goes_to, tell,
  broadcast_all, destroy, StopStep, runs, polls, starts_over, returns, brings, tells, wakes_all,
  fails, joins, destroys, refuses, StopReach, here, next,
}

-- Of a pool's threads, this one has returned.
abbrev pub Back : List Place → ℕ → Type 0
Back ps i = get_elem? ps i ≡ some returned

set-Back :
    (ps : List Place) (i j : ℕ) (p q : Place)
    → get_elem? ps j ≡ some p
    → has_returned p ≡ false
    → Back ps i
    → Back (set ps j q) i
set-Back ps i j p q g n b = elim (ℕ_discrete i j) [
  | yes e ↦
      (let z : false ≡ true =
          sym n ∙ ap has_returned (some_inj.0 (sym g ∙ ap (get_elem? ps) (sym e) ∙ b)) in
        cc)
  | no d ↦ set-there ps j i q d ∙ b
]

pub Locks-back : (p : Place) → Locks p → has_returned p ≡ false
Locks-back p first = refl
Locks-back p again = refl

wake-Back : (ps : List Place) (i : ℕ) → Back ps i → Back (map wake ps) i
wake-Back [] i b = b
wake-Back (p ∷ ps) zero b = ap (λ x. some (wake x)) (some_inj.0 b)
wake-Back (p ∷ ps) (suc i) b = wake-Back ps i b

Step-Back : {s t : Workers} (i : ℕ) → Step s t → Back s.threads i → Back t.threads i
unfolding lock wait leave take_job begin_job finish_job push_job stop_all broadcast
Step-Back {s} i (locked j p g l m) b = set-Back s.threads i j p checking g (Locks-back p l) b
Step-Back {s} i (saw_nothing j g e f) b = set-Back s.threads i j checking going_to_wait g refl b
Step-Back {s} i (waits j g) b = set-Back s.threads i j going_to_wait asleep g refl b
Step-Back {s} i (wakes j g) b = set-Back s.threads i j asleep woken g refl b
Step-Back {s} i (leaves j g f) b = set-Back s.threads i j checking returned g refl b
Step-Back {s} i (takes j m rest g f e) b = set-Back s.threads i j checking (holding m) g refl b
Step-Back {s} i (begins j m g) b = set-Back s.threads i j (holding m) (working m) g refl b
Step-Back {s} i (finishes j m g) b = set-Back s.threads i j (working m) at_lock g refl b
Step-Back {s} i (pushes now m n) b = b
Step-Back {s} i stops b = b
Step-Back {s} i broadcasts b = wake-Back s.threads i b

pub Step-length : {s t : Workers} → Step s t → length t.threads ≡ length s.threads
unfolding lock wait leave take_job begin_job finish_job push_job stop_all broadcast
Step-length {s} (locked j p g l m) = length-set s.threads j checking
Step-length {s} (saw_nothing j g e f) = length-set s.threads j going_to_wait
Step-length {s} (waits j g) = length-set s.threads j asleep
Step-length {s} (wakes j g) = length-set s.threads j woken
Step-length {s} (leaves j g f) = length-set s.threads j returned
Step-length {s} (takes j m rest g f e) = length-set s.threads j (holding m)
Step-length {s} (begins j m g) = length-set s.threads j (working m)
Step-length {s} (finishes j m g) = length-set s.threads j at_lock
Step-length {s} (pushes now m n) = refl
Step-length {s} stops = refl
Step-length {s} broadcasts = length-map s.threads wake

-- What pthread_join() has seen, by the place of the first thread.
abbrev pub Seen : Caller → List Place → ℕ → Type 0
Seen (polling k) ps n = n ≡ length ps
Seen created ps n = n ≡ length ps
Seen told ps n = n ≡ length ps
Seen unheard ps n = Unit
Seen (joining k) ps n = (n ≡ length ps) × ((i : ℕ) → i < k → Back ps i)
Seen stopped ps n = (i : ℕ) → i < length ps → Back ps i

Step-Seen :
    {s t : Workers} (c : Caller) (n : ℕ) → Step s t → Seen c s.threads n → Seen c t.threads n
Step-Seen (polling k) n st h = h ∙ sym (Step-length st)
Step-Seen created n st h = h ∙ sym (Step-length st)
Step-Seen told n st h = h ∙ sym (Step-length st)
Step-Seen unheard n st h = h
Step-Seen (joining k) n st h = (h.0 ∙ sym (Step-length st), λ i l. Step-Back i st (h.1 i l))
Step-Seen stopped n st h = λ i l. Step-Back i st (h i (subst (λ k. i < k) (Step-length st) l))

pub record Safe (s : Stopping) : Type 0 where
  pub in_order : InOrder s.workers
  pub owned : Owned s.workers
  pub seen : Seen s.caller s.workers.threads s.thread_vector_n

-- The pool took a step, and the first thread's place is c from now on.
moved-Safe :
    (s : Stopping) (c : Caller) {t : Workers} (flags : List Bool)
    → Step s.workers t
    → Seen c t.threads s.thread_vector_n
    → Safe s
    → Safe (record s { workers = t; ifrunning = flags; caller = c })
moved-Safe s c flags st h v = record {
  in_order = Step-InOrder st v.in_order;
  owned = Step-Owned st v.owned;
  seen = h;
}

went-Safe :
    (s : Stopping) (c d : Caller)
    → s.caller ≡ d
    → (Seen d s.workers.threads s.thread_vector_n → Seen c s.workers.threads s.thread_vector_n)
    → Safe s
    → Safe (goes_to c s)
went-Safe s c d e f v = record {
  in_order = v.in_order;
  owned = v.owned;
  seen = f (subst (λ k. Seen k s.workers.threads s.thread_vector_n) e v.seen);
}

one_more :
    (ps : List Place) (k : ℕ)
    → Back ps k
    → ((i : ℕ) → i < k → Back ps i)
    → (i : ℕ) → i < k + 1
    → Back ps i
one_more ps k b f i l = elim (ℕ_discrete i k) [
  | yes e ↦ ap (get_elem? ps) e ∙ b
  | no n ↦ f i (omega (arith, l, n))
]

abbrev pub at :
    (s : Stopping) (c : Caller) → s.caller ≡ c → Safe s → Seen c s.workers.threads s.thread_vector_n
at s c e v = subst (λ k. Seen k s.workers.threads s.thread_vector_n) e v.seen

pub Step-Safe : {s t : Stopping} → StopStep s t → Safe s → Safe t
unfolding tell broadcast_all destroy
Step-Safe {s} (runs t st y) v =
    moved-Safe s s.caller _ st (Step-Seen s.caller s.thread_vector_n st v.seen) v
Step-Safe {s} (polls k e g) v = went-Safe s (polling (k + 1)) (polling k) e (λ h. h) v
Step-Safe {s} (starts_over k e g) v = went-Safe s (polling 0) (polling k) e (λ h. h) v
Step-Safe {s} (returns k e g) v = went-Safe s created (polling k) e (λ h. h) v
Step-Safe {s} (brings now buf e n) v =
    moved-Safe s s.caller s.ifrunning (pushes now buf n)
      (Step-Seen s.caller s.thread_vector_n (pushes now buf n) v.seen) v
Step-Safe {s} (tells e f) v =
    moved-Safe s told s.ifrunning stops (Step-Seen {s = s.workers} told _ stops (at s created e v))
      v
Step-Safe {s} (wakes_all e) v =
    moved-Safe s (joining 0) s.ifrunning broadcasts
      (
        Step-Seen {s = s.workers} told _ broadcasts (at s told e v),
        λ i l. absurd (omega (arith, l)),
      )
      v
Step-Safe {s} (fails e) v = went-Safe s unheard told e (λ h. tt) v
Step-Safe {s} (joins k e b) v =
    went-Safe s (joining (k + 1)) (joining k) e (λ h. (h.0, one_more s.workers.threads k b h.1)) v
Step-Safe {s} (destroys k e g) v = record {
  in_order = v.in_order;
  owned = v.owned;
  seen = λ i l. let h = at s (joining k) e v in h.1 i (omega (arith, l, h.0, g));
}
Step-Safe {s} (refuses f) v = v

made-Safe : (n : ℕ) (memory : Memory) → 0 < n → Safe (made n memory)
unfolding made create
made-Safe n memory h = record {
  in_order = Reach-InOrder n memory here_first;
  owned = Reach-Owned n memory h here_first;
  seen = sym (length-replicate n at_lock);
}

pub Reach-Safe :
    (n : ℕ) (memory : Memory) {s : Stopping} → 0 < n → StopReach (made n memory) s → Safe s
Reach-Safe n memory h here = made-Safe n memory h
Reach-Safe n memory h (next r st) = Step-Safe st (Reach-Safe n memory h r)
