-- ===== src/Threads/Stopping/Returns.antt =====
-- Where no thread sleeps behind the broadcast, StopAll can return.
use linux_c_study.Prelude.{
  ℕ, zero, suc, ◌+◌, ◌<◌, ◌≡◌, refl, sym, ap, subst, ◌∙◌, List, [], ◌∷◌, some, Bool, true, arith,
  get_elem?, length, inl, inr, Option-cases,
}
use linux_c_study.Net.Memory.{Memory}
use linux_c_study.Threads.Workers.{
  Place, at_lock, checking, going_to_wait, asleep, woken, holding, working, returned, Workers, lock,
  wait, leave, take_job, begin_job, finish_job, push_job, stop_all, broadcast, Step, locked,
  saw_nothing, waits, wakes, leaves, takes, begins, finishes, pushes, stops, broadcasts,
}
use linux_c_study.Threads.{shutdown-in_msg}
use linux_c_study.Threads.Places.{inside}
use linux_c_study.Threads.Stopping.{
  Caller, polling, created, told, joining, unheard, stopped, Stopping, made, goes_to, tell,
  broadcast_all, destroy, StopStep, runs, polls, starts_over, returns, brings, tells, wakes_all,
  fails, joins, destroys, refuses, StopReach, here, next,
}
use linux_c_study.Threads.Stopping.Seen.{Safe, Seen, Reach-Safe}
use linux_c_study.Threads.Stopping.Lost.{QuietReach, quiet_here, quiet_next}
use linux_c_study.Threads.Stopping.Awake.{
  awake, AllAwake, Ready, QuietReach-trans, Going, end_checking, end_thread,
}

-- StopAll reaches its end.
abbrev pub Returns : Stopping → Type 0
Returns s = (t : Stopping) × (QuietReach s t × (t.caller ≡ stopped))

thread_at : (ps : List Place) (i : ℕ) → i < length ps → (p : Place) × (get_elem? ps i ≡ some p)
thread_at [] i h = absurd (omega (arith, h))
thread_at (p ∷ ps) zero h = (p, refl)
thread_at (p ∷ ps) (suc i) h = thread_at ps i (omega (arith, h))

join_all :
    (left k : ℕ) (s : Stopping)
    → k + left ≡ length s.workers.threads
    → s.thread_vector_n ≡ length s.workers.threads
    → s.caller ≡ joining k
    → Ready s.workers
    → Returns s
unfolding destroy
join_all zero k s h n e r =
    (destroy s, (quiet_next quiet_here (destroys k e (omega (arith, h, n))) refl, refl))
join_all (suc left) k s h n e r =
    let (p, g) = thread_at s.workers.threads k (omega (arith, h)) in
    let (t, (d, b)) = end_thread k p s r g in
    let at_k = d.caller ∙ e in
    let (u, (q, f)) =
      join_all left (k + 1) (goes_to (joining (k + 1)) t) (omega (arith, h, d.threads_n))
        (d.size ∙ n ∙ sym d.threads_n) refl d.ready in
    (u, (QuietReach-trans (quiet_next d.steps (joins k at_k b) refl) q, f))

-- The flag stays set.
Step-shutdown : {s t : Workers} → Step s t → s.pool.shutdown ≡ true → t.pool.shutdown ≡ true
unfolding lock wait leave take_job begin_job finish_job push_job stop_all broadcast
Step-shutdown (locked i p g l m) f = f
Step-shutdown (saw_nothing i g e z) f = f
Step-shutdown (waits i g) f = f
Step-shutdown (wakes i g) f = f
Step-shutdown (leaves i g z) f = f
Step-shutdown (takes i m rest g z e) f = f
Step-shutdown (begins i m g) f = f
Step-shutdown (finishes i m g) f = f
Step-shutdown {s} (pushes now m n) f = shutdown-in_msg now m s.pool ∙ f
Step-shutdown stops f = refl
Step-shutdown broadcasts f = f

-- In StopAll, behind its first line, it is set.
abbrev Flag : Caller → Bool → Type 0
Flag (polling k) b = Unit
Flag created b = Unit
Flag told b = b ≡ true
Flag (joining k) b = b ≡ true
Flag unheard b = b ≡ true
Flag stopped b = b ≡ true

abbrev Flagged : Stopping → Type 0
Flagged s = Flag s.caller s.workers.pool.shutdown

Step-Flag :
    {s t : Workers} (c : Caller) → Step s t → Flag c s.pool.shutdown → Flag c t.pool.shutdown
Step-Flag (polling k) st f = tt
Step-Flag created st f = tt
Step-Flag told st f = Step-shutdown st f
Step-Flag (joining k) st f = Step-shutdown st f
Step-Flag unheard st f = Step-shutdown st f
Step-Flag stopped st f = Step-shutdown st f

Flag-at : (s : Stopping) (c : Caller) → s.caller ≡ c → Flagged s → Flag c s.workers.pool.shutdown
Flag-at s c e f = subst (λ d. Flag d s.workers.pool.shutdown) e f

Step-Flagged : {s t : Stopping} → StopStep s t → Flagged s → Flagged t
unfolding tell broadcast_all destroy stop_all broadcast
Step-Flagged {s} (runs t st y) f = Step-Flag s.caller st f
Step-Flagged (polls k e g) f = tt
Step-Flagged (starts_over k e g) f = tt
Step-Flagged (returns k e g) f = tt
Step-Flagged {s} (brings now buf e n) f = Step-Flag {s = s.workers} s.caller (pushes now buf n) f
Step-Flagged (tells e z) f = refl
Step-Flagged {s} (wakes_all e) f = Flag-at s told e f
Step-Flagged {s} (fails e) f = Flag-at s told e f
Step-Flagged {s} (joins k e b) f = Flag-at s (joining k) e f
Step-Flagged {s} (destroys k e h) f = Flag-at s (joining k) e f
Step-Flagged (refuses z) f = f

Reach-Flagged : (n : ℕ) (memory : Memory) {s : Stopping} → StopReach (made n memory) s → Flagged s
unfolding made
Reach-Flagged n memory here = tt
Reach-Flagged n memory (next r st) = Step-Flagged st (Reach-Flagged n memory r)

owner_checking : (q : Place) → inside q ≡ true → awake q ≡ true → q ≡ checking
owner_checking checking h a = refl
owner_checking going_to_wait h a = cc
owner_checking at_lock h a = cc
owner_checking asleep h a = cc
owner_checking woken h a = cc
owner_checking (holding m) h a = cc
owner_checking (working m) h a = cc
owner_checking returned h a = cc

-- The thread that has the mutex, if any, ends first.
get_Ready :
    (s : Stopping)
    → Safe s
    → s.workers.pool.shutdown ≡ true
    → AllAwake s.workers.threads
    → (t : Stopping) × Going s t
get_Ready s v f a = elim (Option-cases s.workers.mutex) [
  | inl e ↦ (
    s,
    record {
      steps = quiet_here;
      ready = record { all_awake = a; shutdown = f; unlocked = e };
      caller = refl;
      size = refl;
      threads_n = refl;
    },
  )
  | inr (i, e) ↦
      let (q, (g, h)) = v.owned.owner i e in
      let c = owner_checking q h (a i q g) in
      let (t, (d, b)) = end_checking i s a f (g ∙ ap some c) in (t, d)
]

-- From every state that a pool with threads reaches, where StopAll is right behind its broadcast and no thread sleeps or is
-- about to, there is a run in which StopAll comes to its end, and in which no thread wakes up without a signal.
pub Reach-Returns :
    (n : ℕ) (memory : Memory) {s : Stopping}
    → 0 < n
    → StopReach (made n memory) s
    → s.caller ≡ joining 0
    → AllAwake s.workers.threads
    → Returns s
Reach-Returns n memory {s} h r e a =
    let v = Reach-Safe n memory h r in
    let f = Flag-at s (joining 0) e (Reach-Flagged n memory r) in
    let seen = subst (λ c. Seen c s.workers.threads s.thread_vector_n) e v.seen in
    let (t, d) = get_Ready s v f a in
    let (u, (q, z)) =
      join_all (length t.workers.threads) 0 t (omega arith) (d.size ∙ seen.0 ∙ sym d.threads_n)
        (d.caller ∙ e) d.ready in
    (u, (QuietReach-trans d.steps q, z))
