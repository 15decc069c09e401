-- ===== src/Threads/Progress.antt =====
-- What the threads of a pool that is not stopped can always do.
use linux_c_study.Prelude.{
  ℕ, zero, suc, ◌+◌, ◌≤◌, ◌<◌, ◌≡◌, ◌⊎◌, inl, inr, refl, sym, ap, ◌∙◌, List, [], ◌∷◌, ◌++◌, Option,
  none, some, true, false, arith, get_elem?, length, append-nil, Option-cases, dec_lt,
}
use linux_c_study.Net.Memory.{Memory}
use linux_c_study.Net.Conn.{Msg}
use linux_c_study.Threads.Workers.{
  Place, at_lock, checking, going_to_wait, asleep, woken, holding, working, returned, Workers,
  create, lock, wait, take_job, begin_job, finish_job, Locks, first, again, Step, locked, waits,
  wakes, takes, begins, finishes, move, Reach, here, next,
}
use linux_c_study.Threads.Places.{inside, holds, total, total-set}
use linux_c_study.Threads.Order.{InOrder, Step-InOrder, Reach-InOrder}
use linux_c_study.Threads.Owners.{Owned, set-here, Step-Owned, Reach-Owned}

Reach-trans : {s t u : Workers} → Reach s t → Reach t u → Reach s u
Reach-trans r here = r
Reach-trans r (next q st) = next (Reach-trans r q) st

Reach-kept : {s t : Workers} → Reach s t → InOrder s × Owned s → InOrder t × Owned t
Reach-kept here k = k
Reach-kept (next r st) k = let (v, o) = Reach-kept r k in (Step-InOrder st v, Step-Owned st o)

-- A run in which nothing is brought, and the queue becomes this one.
record Run (rest : List (Option Msg)) (s t : Workers) : Type 0 where
  steps : Reach s t
  queue : t.pool.msg_recv_queue ≡ rest
  pushed : t.pushed ≡ s.pushed
  shutdown : t.pool.shutdown ≡ s.pool.shutdown

abbrev CanRun : List (Option Msg) → Workers → Type 0
CanRun rest s = (t : Workers) × Run rest s t

prepend :
    {s u t : Workers} {rest : List (Option Msg)}
    → Step s u
    → u.pushed ≡ s.pushed
    → u.pool.shutdown ≡ s.pool.shutdown
    → Run rest u t
    → Run rest s t
prepend st p f r = record {
  steps = Reach-trans (next here st) r.steps;
  queue = r.queue;
  pushed = r.pushed ∙ p;
  shutdown = r.shutdown ∙ f;
}

append-Run :
    {s u t : Workers} {q rest : List (Option Msg)} → Run q s u → Run rest u t → Run rest s t
append-Run a b = record {
  steps = Reach-trans a.steps b.steps;
  queue = b.queue;
  pushed = b.pushed ∙ a.pushed;
  shutdown = b.shutdown ∙ a.shutdown;
}

then-Run :
    {s u : Workers} {rest : List (Option Msg)}
    → Step s u
    → u.pushed ≡ s.pushed
    → u.pool.shutdown ≡ s.pool.shutdown
    → CanRun rest u
    → CanRun rest s
then-Run st p f (t, r) = (t, prepend st p f r)

first_thread : (ps : List Place) → 0 < length ps → (p : Place) × (get_elem? ps 0 ≡ some p)
first_thread [] h = absurd (omega (arith, h))
first_thread (p ∷ ps) h = (p, refl)

module _ (m : Option Msg) (rest : List (Option Msg)) where
  -- The thread i takes the oldest message: from the condition, and from places in front of it.
  run_checking :
      (i : ℕ) (s : Workers)
      → s.pool.msg_recv_queue ≡ m ∷ rest
      → s.pool.shutdown ≡ false
      → get_elem? s.threads i ≡ some checking
      → CanRun rest s
  unfolding take_job
  run_checking i s e f g = (
    take_job i m rest s,
    record {
      steps = next here (takes i m rest g f e);
      queue = refl;
      pushed = refl;
      shutdown = refl;
    },
  )

  run_lock :
      (i : ℕ) (p : Place) (s : Workers)
      → s.pool.msg_recv_queue ≡ m ∷ rest
      → s.pool.shutdown ≡ false
      → s.mutex ≡ none
      → get_elem? s.threads i ≡ some p
      → Locks p
      → CanRun rest s
  unfolding lock
  run_lock i p s e f n g l =
      then-Run (locked i p g l n) refl refl
        (run_checking i (lock i s) e f (set-here s.threads i p checking g))

  run_asleep :
      (i : ℕ) (s : Workers)
      → s.pool.msg_recv_queue ≡ m ∷ rest
      → s.pool.shutdown ≡ false
      → s.mutex ≡ none
      → get_elem? s.threads i ≡ some asleep
      → CanRun rest s
  run_asleep i s e f n g =
      then-Run (wakes i g) refl refl
        (run_lock i woken (move i woken s) e f n (set-here s.threads i asleep woken g) again)

  run_working :
      (i : ℕ) (b : Option Msg) (s : Workers)
      → s.pool.msg_recv_queue ≡ m ∷ rest
      → s.pool.shutdown ≡ false
      → s.mutex ≡ none
      → get_elem? s.threads i ≡ some (working b)
      → CanRun rest s
  unfolding finish_job
  run_working i b s e f n g = then-Run (finishes i b g) refl refl (
      run_lock i at_lock (finish_job i b s) e f n (set-here s.threads i (working b) at_lock g)
        first)

  run_holding :
      (i : ℕ) (b : Option Msg) (s : Workers)
      → s.pool.msg_recv_queue ≡ m ∷ rest
      → s.pool.shutdown ≡ false
      → s.mutex ≡ none
      → get_elem? s.threads i ≡ some (holding b)
      → CanRun rest s
  unfolding begin_job
  run_holding i b s e f n g =
      then-Run (begins i b g) refl refl
        (run_working i b (begin_job i b s) e f n (set-here s.threads i (holding b) (working b) g))

  -- The mutex is free: any thread can.
  run_free :
      (i : ℕ) (p : Place) (s : Workers)
      → s.pool.msg_recv_queue ≡ m ∷ rest
      → s.pool.shutdown ≡ false
      → s.mutex ≡ none
      → InOrder s
      → Owned s
      → get_elem? s.threads i ≡ some p
      → CanRun rest s
  run_free i at_lock s e f n v o g = run_lock i at_lock s e f n g first
  run_free i woken s e f n v o g = run_lock i woken s e f n g again
  run_free i asleep s e f n v o g = run_asleep i s e f n g
  run_free i (holding b) s e f n v o g = run_holding i b s e f n g
  run_free i (working b) s e f n v o g = run_working i b s e f n g
  run_free i checking s e f n v o g = (let z = v.exclusive i checking g refl in cc)
  run_free i going_to_wait s e f n v o g = (let z = v.exclusive i going_to_wait g refl in cc)
  run_free i returned s e f n v o g = (let z = o.stays i g in cc)

  -- It is not: its thread takes the message, or gives the mutex back first.
  run_owner :
      (i : ℕ) (q : Place) (s : Workers)
      → s.pool.msg_recv_queue ≡ m ∷ rest
      → s.pool.shutdown ≡ false
      → get_elem? s.threads i ≡ some q
      → inside q ≡ true
      → CanRun rest s
  unfolding wait
  run_owner i checking s e f g h = run_checking i s e f g
  run_owner i going_to_wait s e f g h =
      then-Run (waits i g) refl refl
        (run_asleep i (wait i s) e f refl (set-here s.threads i going_to_wait asleep g))
  run_owner i at_lock s e f g h = cc
  run_owner i asleep s e f g h = cc
  run_owner i woken s e f g h = cc
  run_owner i (holding b) s e f g h = cc
  run_owner i (working b) s e f g h = cc
  run_owner i returned s e f g h = cc

  run_one :
      (s : Workers)
      → s.pool.msg_recv_queue ≡ m ∷ rest
      → s.pool.shutdown ≡ false
      → InOrder s
      → Owned s
      → CanRun rest s
  run_one s e f v o = elim (Option-cases s.mutex) [
    | inl n ↦ let (p, g) = first_thread s.threads o.any in run_free 0 p s e f n v o g
    | inr (i, n) ↦ let (q, (g, h)) = o.owner i n in run_owner i q s e f g h
  ]

-- The whole queue is taken.
run_all :
    (queue : List (Option Msg)) (s : Workers)
    → s.pool.msg_recv_queue ≡ queue
    → s.pool.shutdown ≡ false
    → InOrder s × Owned s
    → CanRun [] s
run_all [] s e f k = (s, record { steps = here; queue = e; pushed = refl; shutdown = refl })
run_all (m ∷ rest) s e f k =
    let (u, r) = run_one m rest s e f k.0 k.1 in
    let (t, q) = run_all rest u r.queue (r.shutdown ∙ f) (Reach-kept r.steps k) in
    (t, append-Run r q)

-- A place with a message in hand.
data HasMessage : Place → Type 0 where
  in_hand : (b : Option Msg) → HasMessage (holding b)
  at_work : (b : Option Msg) → HasMessage (working b)

holds-HasMessage : (p : Place) → (holds p ≡ 0) ⊎ HasMessage p
holds-HasMessage at_lock = inl refl
holds-HasMessage checking = inl refl
holds-HasMessage going_to_wait = inl refl
holds-HasMessage asleep = inl refl
holds-HasMessage woken = inl refl
holds-HasMessage (holding b) = inr (in_hand b)
holds-HasMessage (working b) = inr (at_work b)
holds-HasMessage returned = inl refl

find_holder :
    (ps : List Place)
    → 0 < total holds ps
    → (i : ℕ) × ((p : Place) × ((get_elem? ps i ≡ some p) × HasMessage p))
unfolding total
find_holder [] h = absurd (omega (arith, h))
find_holder (p ∷ ps) h = elim (holds-HasMessage p) [
  | inr x ↦ (0, (p, (refl, x)))
  | inl e ↦ let (i, (q, (g, x))) = find_holder ps (omega (arith, h, e)) in (suc i, (q, (g, x)))
]

-- It is finished.
Fewer : Workers → Type 0
Fewer s =
    (t : Workers) × (Run s.pool.msg_recv_queue s t
      × (total holds t.threads + 1 ≡ total holds s.threads))

finish_working :
    (i : ℕ) (b : Option Msg) (s : Workers) → get_elem? s.threads i ≡ some (working b) → Fewer s
unfolding finish_job Fewer
finish_working i b s g = (
  finish_job i b s,
  (
    record { steps = next here (finishes i b g); queue = refl; pushed = refl; shutdown = refl },
    omega (arith, total-set holds s.threads i (working b) at_lock g),
  ),
)

finish_one :
    (i : ℕ) (p : Place) (s : Workers) → get_elem? s.threads i ≡ some p → HasMessage p → Fewer s
unfolding begin_job Fewer
finish_one i p s g (at_work b) = finish_working i b s g
finish_one i p s g (in_hand b) =
    let (t, (r, n)) =
      finish_working i b (begin_job i b s) (set-here s.threads i (holding b) (working b) g) in
    (
      t,
      (
        prepend (begins i b g) refl refl r,
        omega (arith, n, total-set holds s.threads i (holding b) (working b) g),
      ),
    )

finish_all :
    (k : ℕ) (s : Workers)
    → total holds s.threads ≤ k
    → s.pool.msg_recv_queue ≡ []
    → (t : Workers) × (Run [] s t × (total holds t.threads ≡ 0))
unfolding Fewer
finish_all zero s h e =
    (s, (record { steps = here; queue = e; pushed = refl; shutdown = refl }, omega (arith, h)))
finish_all (suc k) s h e = elim (dec_lt 0 (total holds s.threads)) [
  | no n ↦
      (s, (record { steps = here; queue = e; pushed = refl; shutdown = refl }, omega (arith, n)))
  | yes y ↦
      let (i, (p, (g, x))) = find_holder s.threads y in
      let (u, (r, n)) = finish_one i p s g x in
      let (t, (q, z)) = finish_all k u (omega (arith, h, n)) (r.queue ∙ e) in
      (t, (append-Run r q, z))
]

-- All that was brought is taken in its order, and finished.
pub record AllFinished (s t : Workers) : Type 0 where
  pub steps : Reach s t
  pub nothing_new : t.pushed ≡ s.pushed
  pub all_taken : t.taken ≡ s.pushed
  pub all_finished : length t.finished ≡ length s.pushed

-- A pool with threads that is not stopped is never stuck: from every state that it can reach, its threads can go
-- on, nothing new being brought, until every message that was brought is taken, in order, and finished. A thread
-- that sleeps counts as one that can be woken.
pub Reach-AllFinished :
    (n : ℕ) (memory : Memory) {s : Workers}
    → 0 < n
    → Reach (create n memory) s
    → s.pool.shutdown ≡ false
    → (t : Workers) × AllFinished s t
Reach-AllFinished n memory {s} h r f =
    let k : InOrder s × Owned s = (Reach-InOrder n memory r, Reach-Owned n memory h r) in
    let (u, a) = run_all s.pool.msg_recv_queue s refl f k in
    let (t, (b, z)) = finish_all (total holds u.threads) u (omega arith) a.queue in
    let v = (Reach-kept (Reach-trans a.steps b.steps) k).0 in
    let pushed = b.pushed ∙ a.pushed in
    let taken = sym (append-nil t.taken) ∙ (ap (λ q. t.taken ++ q) (sym b.queue) ∙ v.order) in
    (
      t,
      record {
        steps = Reach-trans a.steps b.steps;
        nothing_new = pushed;
        all_taken = taken ∙ pushed;
        all_finished = omega (arith, v.in_hand, z, ap length (taken ∙ pushed));
      },
    )
