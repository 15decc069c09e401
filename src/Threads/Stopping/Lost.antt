-- ===== src/Threads/Stopping/Lost.antt =====
-- A thread that goes to sleep behind the broadcast.
use linux_c_study.Prelude.{
  ℕ, ◌+◌, ◌<◌, ◌≡◌, ◌≢◌, refl, sym, ap, subst, ◌∙◌, some, Bool, true, false, arith, get_elem?, set,
  ℕ_discrete,
}
use mathlib.Core.Option.{some_inj}
use linux_c_study.Net.Memory.{Memory}
use linux_c_study.Threads.Workers.{
  Place, at_lock, checking, going_to_wait, asleep, woken, holding, working, returned, Workers, lock,
  wait, leave, take_job, begin_job, finish_job, Step, locked, saw_nothing, waits, wakes, leaves,
  takes, begins, finishes, pushes, stops, broadcasts, Locks, first, again,
}
use linux_c_study.Threads.Owners.{has_returned, set-there}
use linux_c_study.Threads.Stopping.{
  Caller, polling, created, told, joining, stopped, Stopping, made, by_thread, StopStep, runs,
  polls, starts_over, returns, brings, tells, wakes_all, fails, joins, destroys, refuses, StopReach,
}
use linux_c_study.Threads.Stopping.Seen.{Safe, Seen, Step-Safe, Reach-Safe}
use linux_c_study.Threads.Stopping.Joined.{get_elem-bound}

-- A sleeping thread wakes up: here pthread_cond_wait() returns without a signal, as none is sent any more.
abbrev pub wakes_up : {s t : Workers} → Step s t → Bool
wakes_up (wakes i g) = true
wakes_up (locked i p g l m) = false
wakes_up (saw_nothing i g e f) = false
wakes_up (waits i g) = false
wakes_up (leaves i g f) = false
wakes_up (takes i m rest g f e) = false
wakes_up (begins i m g) = false
wakes_up (finishes i m g) = false
wakes_up (pushes now m n) = false
wakes_up stops = false
wakes_up broadcasts = false

abbrev pub spurious : {s t : Stopping} → StopStep s t → Bool
spurious (runs t st y) = wakes_up st
spurious (polls k e g) = false
spurious (starts_over k e g) = false
spurious (returns k e g) = false
spurious (brings now buf e n) = false
spurious (tells e f) = false
spurious (wakes_all e) = false
spurious (fails e) = false
spurious (joins k e g) = false
spurious (destroys k e g) = false
spurious (refuses f) = false

-- A run without such a step.
pub data QuietReach (s : Stopping) : Stopping → Type 0 where
  quiet_here : QuietReach s s
  quiet_next :
      {t u : Stopping} → QuietReach s t → (st : StopStep t u) → spurious st ≡ false → QuietReach s u

abbrev Sleeps : Workers → ℕ → Type 0
Sleeps s i = get_elem? s.threads i ≡ some asleep

abbrev is_asleep : Place → Bool
is_asleep asleep = true
is_asleep p = false

set-asleep :
    (s : Workers) (i j : ℕ) (p q : Place)
    → get_elem? s.threads j ≡ some p
    → is_asleep p ≡ false
    → Sleeps s i
    → get_elem? (set s.threads j q) i ≡ some asleep
set-asleep s i j p q g n b = elim (ℕ_discrete i j) [
  | yes e ↦
      let z : false ≡ true =
        sym n ∙ ap is_asleep (some_inj.0 (sym g ∙ ap (get_elem? s.threads) (sym e) ∙ b)) in
      cc
  | no d ↦ set-there s.threads j i q d ∙ b
]

Locks-woken :
    (s : Workers) (i j : ℕ) (p q : Place)
    → get_elem? s.threads j ≡ some p
    → Locks p
    → Sleeps s i
    → get_elem? (set s.threads j q) i ≡ some asleep
Locks-woken s i j p q g first b = set-asleep s i j at_lock q g refl b
Locks-woken s i j p q g again b = set-asleep s i j woken q g refl b

Step-Sleeps :
    {s t : Workers} (i : ℕ) (st : Step s t)
    → by_thread st ≡ true
    → wakes_up st ≡ false
    → Sleeps s i
    → Sleeps t i
unfolding lock wait leave take_job begin_job finish_job
Step-Sleeps {s} i (locked j p g l m) y w b = Locks-woken s i j p checking g l b
Step-Sleeps {s} i (saw_nothing j g e f) y w b = set-asleep s i j checking going_to_wait g refl b
Step-Sleeps {s} i (waits j g) y w b = set-asleep s i j going_to_wait asleep g refl b
Step-Sleeps {s} i (wakes j g) y w b = cc
Step-Sleeps {s} i (leaves j g f) y w b = set-asleep s i j checking returned g refl b
Step-Sleeps {s} i (takes j m rest g f e) y w b = set-asleep s i j checking (holding m) g refl b
Step-Sleeps {s} i (begins j m g) y w b = set-asleep s i j (holding m) (working m) g refl b
Step-Sleeps {s} i (finishes j m g) y w b = set-asleep s i j (working m) at_lock g refl b
Step-Sleeps {s} i (pushes now m n) y w b = cc
Step-Sleeps {s} i stops y w b = cc
Step-Sleeps {s} i broadcasts y w b = cc

-- StopAll waits for a thread to end, and the thread i sleeps.
pub record Lost (i : ℕ) (s : Stopping) : Type 0 where
  pub safe : Safe s
  pub waits_for : (k : ℕ) × (s.caller ≡ joining k)
  pub sleeps : Sleeps s.workers i

abbrev is_joining : Caller → Bool
is_joining (joining k) = true
is_joining c = false

elsewhere : (s : Stopping) (i : ℕ) (c : Caller) → Lost i s → s.caller ≡ c → is_joining c ≡ true
elsewhere s i c l e = ap is_joining (sym e ∙ l.waits_for.1)

sleeper_joined : (s : Stopping) (i k : ℕ) → Lost i s → s.caller ≡ joining k → k ≢ s.thread_vector_n
sleeper_joined s i k l e h =
    let (n, b) = subst (λ c. Seen c s.workers.threads s.thread_vector_n) e l.safe.seen in
    let bound = get_elem-bound s.workers.threads i asleep l.sleeps in
    let z : false ≡ true =
      ap has_returned (some_inj.0 (sym l.sleeps ∙ b i (omega (arith, bound, n, h)))) in
    cc

Step-Lost : {s t : Stopping} (i : ℕ) (st : StopStep s t) → spurious st ≡ false → Lost i s → Lost i t
Step-Lost {s} i (runs t st y) w l = record {
  safe = Step-Safe (runs t st y) l.safe;
  waits_for = l.waits_for;
  sleeps = Step-Sleeps i st y w l.sleeps;
}
Step-Lost {s} i (joins k e b) w l = record {
  safe = Step-Safe (joins k e b) l.safe;
  waits_for = (k + 1, refl);
  sleeps = l.sleeps;
}
Step-Lost {s} i (destroys k e h) w l = absurd (sleeper_joined s i k l e h)
Step-Lost {s} i (refuses f) w l = l
Step-Lost {s} i (polls k e g) w l = (let z = elsewhere s i (polling k) l e in cc)
Step-Lost {s} i (starts_over k e g) w l = (let z = elsewhere s i (polling k) l e in cc)
Step-Lost {s} i (returns k e g) w l = (let z = elsewhere s i (polling k) l e in cc)
Step-Lost {s} i (brings now buf e n) w l = (let z = elsewhere s i created l e in cc)
Step-Lost {s} i (tells e f) w l = (let z = elsewhere s i created l e in cc)
Step-Lost {s} i (wakes_all e) w l = (let z = elsewhere s i told l e in cc)
Step-Lost {s} i (fails e) w l = (let z = elsewhere s i told l e in cc)

QuietReach-Lost : {s t : Stopping} (i : ℕ) → QuietReach s t → Lost i s → Lost i t
QuietReach-Lost i quiet_here l = l
QuietReach-Lost i (quiet_next r st w) l = Step-Lost i st w (QuietReach-Lost i r l)

-- From a state that a pool with threads reaches, where StopAll is behind its broadcast and waits for threads to end, and a thread
-- sleeps, StopAll does not come to its end in any run in which no thread wakes up without a signal.
pub Reach-lost :
    (n i k : ℕ) (memory : Memory) {s t : Stopping}
    → 0 < n
    → StopReach (made n memory) s
    → s.caller ≡ joining k
    → get_elem? s.workers.threads i ≡ some asleep
    → QuietReach s t
    → t.caller ≢ stopped
Reach-lost n i k memory {s} {t} h r e b q =
    let l : Lost i t =
      QuietReach-Lost i q
        (record { safe = Reach-Safe n memory h r; waits_for = (k, e); sleeps = b }) in
    λ f. (let z = elsewhere t i stopped l f in cc)
