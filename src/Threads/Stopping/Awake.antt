-- ===== src/Threads/Stopping/Awake.antt =====
-- A thread that does not sleep returns.
use linux_c_study.Prelude.{
  ℕ, ◌≡◌, refl, ap, ◌∙◌, List, some, none, Bool, true, false, get_elem?, set, length, inl, inr,
}
use linux_c_study.Threads.Workers.{
  Place, at_lock, checking, going_to_wait, asleep, woken, holding, working, returned, Workers, lock,
  leave, begin_job, finish_job, Step, locked, leaves, begins, finishes, Locks, first, again,
}
use linux_c_study.Threads.Places.{get-set}
use linux_c_study.Threads.Owners.{set-here}
use linux_c_study.Threads.Stopping.{Stopping, by_thread, mark, runs}
use linux_c_study.Threads.Stopping.Seen.{Back, Step-length}
use linux_c_study.Threads.Stopping.Lost.{wakes_up, QuietReach, quiet_here, quiet_next}

-- The places of a thread that no signal has to reach.
abbrev pub awake : Place → Bool
awake asleep = false
awake going_to_wait = false
awake p = true

abbrev pub AllAwake : List Place → Type 0
AllAwake ps = (i : ℕ) (p : Place) → get_elem? ps i ≡ some p → awake p ≡ true

set-AllAwake :
    (ps : List Place) (i : ℕ) (q : Place) → awake q ≡ true → AllAwake ps → AllAwake (set ps i q)
set-AllAwake ps i q h a j p e = elim (get-set ps i j q p e) [
  | inl (_, z) ↦ ap awake z ∙ h
  | inr (_, g) ↦ a j p g
]

-- m_shutdown is set, no thread sleeps, and nobody has the mutex.
pub record Ready (s : Workers) : Type 0 where
  pub all_awake : AllAwake s.threads
  pub shutdown : s.pool.shutdown ≡ true
  pub unlocked : s.mutex ≡ none

pub QuietReach-trans : {s t u : Stopping} → QuietReach s t → QuietReach t u → QuietReach s u
QuietReach-trans r quiet_here = r
QuietReach-trans r (quiet_next q st w) = quiet_next (QuietReach-trans r q) st w

-- Threads of the pool go on.
pub record Going (s t : Stopping) : Type 0 where
  pub steps : QuietReach s t
  pub ready : Ready t.workers
  pub caller : t.caller ≡ s.caller
  pub size : t.thread_vector_n ≡ s.thread_vector_n
  pub threads_n : length t.workers.threads ≡ length s.workers.threads

abbrev pub Ends : ℕ → Stopping → Type 0
Ends i s = (t : Stopping) × (Going s t × Back t.workers.threads i)

-- The thread i takes a step.
abbrev went : (s : Stopping) (t : Workers) → Step s.workers t → Stopping
went s t st = record s { workers = t; ifrunning = mark st s.ifrunning }

then-Ends :
    {s : Stopping} {i : ℕ} (t : Workers) (st : Step s.workers t)
    → by_thread st ≡ true
    → wakes_up st ≡ false
    → Ends i (went s t st)
    → Ends i s
then-Ends t st y w (u, (g, b)) = (
  u,
  (
    record {
      steps = QuietReach-trans (quiet_next quiet_here (runs t st y) w) g.steps;
      ready = g.ready;
      caller = g.caller;
      size = g.size;
      threads_n = g.threads_n ∙ Step-length st;
    },
    b,
  ),
)

end_returned : (i : ℕ) (s : Stopping) → Ready s.workers → Back s.workers.threads i → Ends i s
end_returned i s r b =
    (s, (record { steps = quiet_here; ready = r; caller = refl; size = refl; threads_n = refl }, b))

pub end_checking :
    (i : ℕ) (s : Stopping)
    → AllAwake s.workers.threads
    → s.workers.pool.shutdown ≡ true
    → get_elem? s.workers.threads i ≡ some checking
    → Ends i s
unfolding leave
end_checking i s a f g = then-Ends (leave i s.workers) (leaves i g f) refl refl (
    end_returned i _
      (record {
        all_awake = set-AllAwake s.workers.threads i returned refl a;
        shutdown = f;
        unlocked = refl;
      })
      (set-here s.workers.threads i checking returned g))

end_lock :
    (i : ℕ) (p : Place) (s : Stopping)
    → Ready s.workers
    → get_elem? s.workers.threads i ≡ some p
    → Locks p
    → Ends i s
unfolding lock
end_lock i p s r g l = then-Ends (lock i s.workers) (locked i p g l r.unlocked) refl refl (
    end_checking i _ (set-AllAwake s.workers.threads i checking refl r.all_awake) r.shutdown
      (set-here s.workers.threads i p checking g))

end_working :
    (i : ℕ) (s : Stopping) {m : _}
    → Ready s.workers
    → get_elem? s.workers.threads i ≡ some (working m)
    → Ends i s
unfolding finish_job
end_working i s {m} r g = then-Ends (finish_job i m s.workers) (finishes i m g) refl refl (
    end_lock i at_lock _
      (record {
        all_awake = set-AllAwake s.workers.threads i at_lock refl r.all_awake;
        shutdown = r.shutdown;
        unlocked = r.unlocked;
      })
      (set-here s.workers.threads i (working m) at_lock g) first)

end_holding :
    (i : ℕ) (s : Stopping) {m : _}
    → Ready s.workers
    → get_elem? s.workers.threads i ≡ some (holding m)
    → Ends i s
unfolding begin_job
end_holding i s {m} r g = then-Ends (begin_job i m s.workers) (begins i m g) refl refl (
    end_working i _
      (record {
        all_awake = set-AllAwake s.workers.threads i (working m) refl r.all_awake;
        shutdown = r.shutdown;
        unlocked = r.unlocked;
      })
      (set-here s.workers.threads i (holding m) (working m) g))

-- Every thread can return.
pub end_thread :
    (i : ℕ) (p : Place) (s : Stopping)
    → Ready s.workers
    → get_elem? s.workers.threads i ≡ some p
    → Ends i s
end_thread i at_lock s r g = end_lock i at_lock s r g first
end_thread i woken s r g = end_lock i woken s r g again
end_thread i checking s r g = end_checking i s r.all_awake r.shutdown g
end_thread i (holding m) s r g = end_holding i s r g
end_thread i (working m) s r g = end_working i s r g
end_thread i returned s r g = end_returned i s r g
end_thread i asleep s r g = (let z = r.all_awake i asleep g in cc)
end_thread i going_to_wait s r g = (let z = r.all_awake i going_to_wait g in cc)
