-- ===== src/Threads/Workers.antt =====
-- linux_c++_6_4/nginx/misc/ngx_c_threadpool.cxx: ThreadFunc and StopAll, step by step. What happens between
-- two operations on the mutex, the condition variable or an atomic counter is one step, and any thread may
-- be the next.
use linux_c_study.Prelude.{
  ℕ, ◌≡◌, List, [], ◌∷◌, ◌++◌, Option, none, some, true, false, map, inc32, dec32, get_elem?, set,
  replicate,
}
use linux_c_study.Net.Memory.{Memory}
use linux_c_study.Net.Conn.{Msg, free_msg}
use linux_c_study.Threads.{ThreadPool, init, in_msg_recv_queue_and_signal}

-- Where a thread of the pool is: in front of pthread_mutex_lock(); inside, at the condition of the inner loop;
-- inside, about to call pthread_cond_wait(); in that call, asleep or woken and about to lock again; with a
-- message in its hand; at work on it, counted as running; returned.
pub data Place : Type 0 where
  at_lock : Place
  checking : Place
  going_to_wait : Place
  asleep : Place
  woken : Place
  holding : Option Msg → Place
  working : Option Msg → Place
  returned : Place

-- `pushed`, `taken` and `finished` record which messages went into the queue, came out of it, and were
-- worked on, each in order.
pub record Workers : Type 0 where
  pub pool : ThreadPool
  pub threads : List Place
  pub mutex : Option ℕ
  pub memory : Memory
  pub pushed : List (Option Msg)
  pub taken : List (Option Msg)
  pub finished : List (Option Msg)

-- Create, where every thread could be made.
unfoldable pub create : ℕ → Memory → Workers
unfolding init
create n memory = record {
  pool = init n;
  threads = replicate n at_lock;
  mutex = none;
  memory = memory;
  pushed = [];
  taken = [];
  finished = [];
}

abbrev pub move : ℕ → Place → Workers → Workers
move i p s = record s { threads = set s.threads i p }

-- pthread_mutex_lock() returns, also within pthread_cond_wait().
unfoldable pub lock : ℕ → Workers → Workers
lock i s = record (move i checking s) { mutex = some i }

-- pthread_cond_wait() gives the mutex back and sleeps.
unfoldable pub wait : ℕ → Workers → Workers
wait i s = record (move i asleep s) { mutex = none }

-- Behind `if (m_shutdown)`.
unfoldable pub leave : ℕ → Workers → Workers
leave i s = record (move i returned s) { mutex = none }

-- The front of the queue comes out, and the mutex is given back.
unfoldable pub take_job : ℕ → Option Msg → List (Option Msg) → Workers → Workers
take_job i jobbuf rest s = record (move i (holding jobbuf) s) {
  pool = record (s.pool) {
    msg_recv_queue = rest;
    i_recv_msg_queue_count = dec32 s.pool.i_recv_msg_queue_count;
  };
  mutex = none;
  taken = s.taken ++ jobbuf ∷ [];
}

unfoldable pub begin_job : ℕ → Option Msg → Workers → Workers
begin_job i jobbuf s = record (move i (working jobbuf) s) {
  pool = record (s.pool) { i_running_thread_num = inc32 s.pool.i_running_thread_num };
}

-- Behind threadRecvProcFunc: the message is freed.
unfoldable pub finish_job : ℕ → Option Msg → Workers → Workers
unfolding free_msg
finish_job i jobbuf s = record (move i at_lock s) {
  pool = record (s.pool) { i_running_thread_num = dec32 s.pool.i_running_thread_num };
  memory = free_msg jobbuf s.memory;
  finished = s.finished ++ jobbuf ∷ [];
}

-- inMsgRecvQueueAndSignal; the wake-up that it causes is a step of its own.
unfoldable pub push_job : ℕ → Option Msg → Workers → Workers
unfolding in_msg_recv_queue_and_signal
push_job now buf s = record s {
  pool = in_msg_recv_queue_and_signal now buf s.pool;
  pushed = s.pushed ++ buf ∷ [];
}

-- pthread_cond_broadcast() in StopAll.
abbrev pub wake : Place → Place
wake asleep = woken
wake p = p

-- The first part of StopAll, which takes no lock.
unfoldable pub stop_all : Workers → Workers
stop_all s = record s { pool = record (s.pool) { shutdown = true } }

unfoldable pub broadcast : Workers → Workers
broadcast s = record s { threads = map wake s.threads }

-- A place from which a thread locks.
pub data Locks : Place → Type 0 where
  first : Locks at_lock
  again : Locks woken

pub data Step (s : Workers) : Workers → Type 0 where
  locked :
      (i : ℕ) (p : Place)
      → get_elem? s.threads i ≡ some p
      → Locks p
      → s.mutex ≡ none
      → Step s (lock i s)
  saw_nothing :
      (i : ℕ)
      → get_elem? s.threads i ≡ some checking
      → s.pool.msg_recv_queue ≡ []
      → s.pool.shutdown ≡ false
      → Step s (move i going_to_wait s)
  waits : (i : ℕ) → get_elem? s.threads i ≡ some going_to_wait → Step s (wait i s)
  -- By pthread_cond_signal(), or for no reason.
  wakes : (i : ℕ) → get_elem? s.threads i ≡ some asleep → Step s (move i woken s)
  leaves :
      (i : ℕ) → get_elem? s.threads i ≡ some checking → s.pool.shutdown ≡ true → Step s (leave i s)
  takes :
      (i : ℕ) (jobbuf : Option Msg) (rest : List (Option Msg))
      → get_elem? s.threads i ≡ some checking
      → s.pool.shutdown ≡ false
      → s.pool.msg_recv_queue ≡ jobbuf ∷ rest
      → Step s (take_job i jobbuf rest s)
  begins :
      (i : ℕ) (jobbuf : Option Msg)
      → get_elem? s.threads i ≡ some (holding jobbuf)
      → Step s (begin_job i jobbuf s)
  finishes :
      (i : ℕ) (jobbuf : Option Msg)
      → get_elem? s.threads i ≡ some (working jobbuf)
      → Step s (finish_job i jobbuf s)
  pushes : (now : ℕ) (buf : Option Msg) → s.mutex ≡ none → Step s (push_job now buf s)
  stops : Step s (stop_all s)
  broadcasts : Step s (broadcast s)

pub data Reach (s : Workers) : Workers → Type 0 where
  here : Reach s s
  next : {t u : Workers} → Reach s t → Step t u → Reach s u
