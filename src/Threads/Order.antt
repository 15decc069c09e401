-- ===== src/Threads/Order.antt =====
-- What every interleaving of the pool's threads keeps.
use linux_c_study.Prelude.{
  ℕ, zero, suc, ◌+◌, ◌%◌, ◌^◌, ◌≡◌, refl, sym, ap, subst, ◌∙◌, List, [], ◌∷◌, ◌++◌, Option, none,
  some, true, false, arith, length, length-append, append_assoc, get_elem?, replicate,
}
use mathlib.Core.Option.{some_inj}
use linux_c_study.Net.Memory.{Memory}
use linux_c_study.Net.Conn.{Msg}
use linux_c_study.Threads.{init, queue-in_msg, count-in_msg, running-in_msg}
use linux_c_study.Threads.Workers.{
  Place, at_lock, checking, going_to_wait, asleep, woken, holding, working, returned, Workers,
  create, lock, wait, leave, take_job, begin_job, finish_job, push_job, stop_all, broadcast, Locks,
  Step, locked, saw_nothing, waits, wakes, leaves, takes, begins, finishes, pushes, stops,
  broadcasts, move, Reach, here, next,
}
use linux_c_study.Threads.Places.{
  inside, runs, holds, total, total-set, total-wake, inside-wake, Exclusive, Exclusive-lock,
  Exclusive-unlock, Exclusive-move, same-total, counts-lock,
}

pub record InOrder (s : Workers) : Type 0 where
  pub order : s.taken ++ s.pool.msg_recv_queue ≡ s.pushed
  pub queue_n : s.pool.i_recv_msg_queue_count ≡ length s.pool.msg_recv_queue % 2 ^ 32
  pub running : s.pool.i_running_thread_num ≡ total runs s.threads % 2 ^ 32
  pub in_hand : length s.finished + total holds s.threads ≡ length s.taken
  pub exclusive : Exclusive s.threads s.mutex

lock-InOrder :
    (i : ℕ) (p : Place) (s : Workers)
    → get_elem? s.threads i ≡ some p
    → Locks p
    → s.mutex ≡ none
    → InOrder s
    → InOrder (lock i s)
unfolding lock
lock-InOrder i p s g l m v = record {
  order = v.order;
  queue_n = v.queue_n;
  running = omega (arith, v.running, same-total runs s.threads i p checking g (counts-lock p l).0);
  in_hand = omega (arith, v.in_hand, same-total holds s.threads i p checking g (counts-lock p l).1);
  exclusive = Exclusive-lock s.threads i (subst (Exclusive s.threads) m v.exclusive);
}

-- A thread that neither takes, begins nor finishes a message, and does not lock.
move-InOrder :
    (i : ℕ) (p q : Place) (s : Workers)
    → get_elem? s.threads i ≡ some p
    → runs p ≡ runs q
    → holds p ≡ holds q
    → (inside q ≡ true → inside p ≡ true)
    → InOrder s
    → InOrder (move i q s)
move-InOrder i p q s g r h o v = record {
  order = v.order;
  queue_n = v.queue_n;
  running = omega (arith, v.running, same-total runs s.threads i p q g r);
  in_hand = omega (arith, v.in_hand, same-total holds s.threads i p q g h);
  exclusive = Exclusive-move s.threads i p q s.mutex g o v.exclusive;
}

-- And one that gives the mutex back.
unlock-InOrder :
    (i : ℕ) (p q : Place) (s : Workers)
    → get_elem? s.threads i ≡ some p
    → runs p ≡ runs q
    → holds p ≡ holds q
    → inside p ≡ true
    → inside q ≡ false
    → InOrder s
    → InOrder (record (move i q s) { mutex = none })
unlock-InOrder i p q s g r h o n v = record {
  order = v.order;
  queue_n = v.queue_n;
  running = omega (arith, v.running, same-total runs s.threads i p q g r);
  in_hand = omega (arith, v.in_hand, same-total holds s.threads i p q g h);
  exclusive = Exclusive-unlock s.threads i p q s.mutex none g o n v.exclusive;
}

take_job-InOrder :
    (i : ℕ) (m : Option Msg) (rest : List (Option Msg)) (s : Workers)
    → get_elem? s.threads i ≡ some checking
    → s.pool.msg_recv_queue ≡ m ∷ rest
    → InOrder s
    → InOrder (take_job i m rest s)
unfolding take_job
take_job-InOrder i m rest s g e v = record {
  order = append_assoc s.taken (m ∷ []) rest ∙ ap (λ q. s.taken ++ q) (sym e) ∙ v.order;
  queue_n = omega (arith, v.queue_n, ap length e);
  running = omega (arith, v.running, same-total runs s.threads i checking (holding m) g refl);
  in_hand = omega (
    arith,
    v.in_hand,
    total-set holds s.threads i checking (holding m) g,
    length-append s.taken (m ∷ []),
  );
  exclusive =
      Exclusive-unlock s.threads i checking (holding m) s.mutex none g refl refl v.exclusive;
}

begin_job-InOrder :
    (i : ℕ) (m : Option Msg) (s : Workers)
    → get_elem? s.threads i ≡ some (holding m)
    → InOrder s
    → InOrder (begin_job i m s)
unfolding begin_job
begin_job-InOrder i m s g v = record {
  order = v.order;
  queue_n = v.queue_n;
  running = omega (arith, v.running, total-set runs s.threads i (holding m) (working m) g);
  in_hand = omega (arith, v.in_hand, same-total holds s.threads i (holding m) (working m) g refl);
  exclusive = Exclusive-move s.threads i (holding m) (working m) s.mutex g (λ h. cc) v.exclusive;
}

finish_job-InOrder :
    (i : ℕ) (m : Option Msg) (s : Workers)
    → get_elem? s.threads i ≡ some (working m)
    → InOrder s
    → InOrder (finish_job i m s)
unfolding finish_job
finish_job-InOrder i m s g v = record {
  order = v.order;
  queue_n = v.queue_n;
  running = omega (arith, v.running, total-set runs s.threads i (working m) at_lock g);
  in_hand = omega (
    arith,
    v.in_hand,
    total-set holds s.threads i (working m) at_lock g,
    length-append s.finished (m ∷ []),
  );
  exclusive = Exclusive-move s.threads i (working m) at_lock s.mutex g (λ h. cc) v.exclusive;
}

push_job-InOrder : (now : ℕ) (m : Option Msg) (s : Workers) → InOrder s → InOrder (push_job now m s)
unfolding push_job
push_job-InOrder now m s v = record {
  order =
      ap (λ q. s.taken ++ q) (queue-in_msg now m s.pool)
      ∙ sym (append_assoc s.taken s.pool.msg_recv_queue (m ∷ []))
      ∙ ap (λ q. q ++ m ∷ []) v.order;
  queue_n = omega (
    arith,
    v.queue_n,
    count-in_msg now m s.pool,
    ap length (queue-in_msg now m s.pool),
    length-append s.pool.msg_recv_queue (m ∷ []),
  );
  running = omega (arith, v.running, running-in_msg now m s.pool);
  in_hand = v.in_hand;
  exclusive = v.exclusive;
}

broadcast-InOrder : (s : Workers) → InOrder s → InOrder (broadcast s)
unfolding broadcast
broadcast-InOrder s v = record {
  order = v.order;
  queue_n = v.queue_n;
  running = omega (arith, v.running, total-wake runs s.threads refl);
  in_hand = omega (arith, v.in_hand, total-wake holds s.threads refl);
  exclusive = λ j q e h. v.exclusive j q (inside-wake s.threads j q e h) h;
}

stop_all-InOrder : (s : Workers) → InOrder s → InOrder (stop_all s)
unfolding stop_all
stop_all-InOrder s v = record {
  order = v.order;
  queue_n = v.queue_n;
  running = v.running;
  in_hand = v.in_hand;
  exclusive = v.exclusive;
}

pub Step-InOrder : {s t : Workers} → Step s t → InOrder s → InOrder t
unfolding wait leave
Step-InOrder {s} (locked i p g l m) v = lock-InOrder i p s g l m v
Step-InOrder {s} (saw_nothing i g e f) v =
    move-InOrder i checking going_to_wait s g refl refl (λ h. refl) v
Step-InOrder {s} (waits i g) v = unlock-InOrder i going_to_wait asleep s g refl refl refl refl v
Step-InOrder {s} (wakes i g) v = move-InOrder i asleep woken s g refl refl (λ h. h) v
Step-InOrder {s} (leaves i g f) v = unlock-InOrder i checking returned s g refl refl refl refl v
Step-InOrder {s} (takes i m rest g f e) v = take_job-InOrder i m rest s g e v
Step-InOrder {s} (begins i m g) v = begin_job-InOrder i m s g v
Step-InOrder {s} (finishes i m g) v = finish_job-InOrder i m s g v
Step-InOrder {s} (pushes now m e) v = push_job-InOrder now m s v
Step-InOrder {s} stops v = stop_all-InOrder s v
Step-InOrder {s} broadcasts v = broadcast-InOrder s v

total-replicate : (f : Place → ℕ) (n : ℕ) → f at_lock ≡ 0 → total f (replicate n at_lock) ≡ 0
unfolding total
total-replicate f zero e = refl
total-replicate f (suc n) e = omega (arith, total-replicate f n e)

replicate-outside :
    (n j : ℕ) (q : Place) → get_elem? (replicate n at_lock) j ≡ some q → inside q ≡ true → ⊥
replicate-outside zero j q e h = cc
replicate-outside (suc n) zero q e h = (let z : false ≡ true = ap inside (some_inj.0 e) ∙ h in cc)
replicate-outside (suc n) (suc j) q e h = replicate-outside n j q e h

create-InOrder : (n : ℕ) (memory : Memory) → InOrder (create n memory)
unfolding create init
create-InOrder n memory = record {
  order = refl;
  queue_n = omega arith;
  running = omega (arith, total-replicate runs n refl);
  in_hand = omega (arith, total-replicate holds n refl);
  exclusive = λ j q e h. absurd (replicate-outside n j q e h);
}

-- Whatever way the threads of the pool, the thread that brings messages and StopAll interleave: the messages
-- that were taken, and behind them the queue, are those that were brought, each once and in order; those that
-- are not finished are in the hands of as many threads; the two counters are the length of the queue and the
-- number of threads at work, modulo 2 ^ 32; and the thread between lock and unlock is the one with the mutex.
pub Reach-InOrder : (n : ℕ) (memory : Memory) {s : Workers} → Reach (create n memory) s → InOrder s
Reach-InOrder n memory here = create-InOrder n memory
Reach-InOrder n memory (next r st) = Step-InOrder st (Reach-InOrder n memory r)
