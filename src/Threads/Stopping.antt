-- ===== src/Threads/Stopping.antt =====
-- linux_c++_6_4/nginx/misc/ngx_c_threadpool.cxx: the process's first thread in Create, behind the making of the
-- threads, and in StopAll, beside the threads of the pool.
pub mod Seen
pub mod Joined
pub mod Lost
pub mod Awake
pub mod Returns
use linux_c_study.Prelude.{
  ℕ, suc, ◌+◌, ◌≡◌, List, [], Option, Bool, true, false, none, some, get_elem?, set, length,
  replicate,
}
use linux_c_study.Net.Memory.{Memory}
use linux_c_study.Net.Conn.{Msg}
use linux_c_study.Threads.Workers.{
  Workers, create, push_job, stop_all, broadcast, returned, Step, locked, saw_nothing, waits, wakes,
  leaves, takes, begins, finishes, pushes, stops, broadcasts,
}

-- Where the first thread is: at the k-th thread of the loop behind lblfor; out of Create; in StopAll, with
-- m_shutdown set; in front of the k-th pthread_join(); out of StopAll, after the broadcast failed, or at
-- its end.
pub data Caller : Type 0 where
  polling : ℕ → Caller
  created : Caller
  told : Caller
  joining : ℕ → Caller
  unheard : Caller
  stopped : Caller

-- `ifrunning` are the flags of the threads, `thread_vector_n` is m_threadVector.size(), and `destroyed` says
-- that the mutex and the condition variable are no more.
pub record Stopping : Type 0 where
  pub workers : Workers
  pub ifrunning : List Bool
  pub thread_vector_n : ℕ
  pub destroyed : Bool
  pub caller : Caller

-- All threads have been made.
unfoldable pub made : ℕ → Memory → Stopping
unfolding create
made n memory = record {
  workers = create n memory;
  ifrunning = replicate n false;
  thread_vector_n = n;
  destroyed = false;
  caller = polling 0;
}

-- Whether a step is one of the pool's threads.
abbrev pub by_thread : {s t : Workers} → Step s t → Bool
by_thread (locked i p g l m) = true
by_thread (saw_nothing i g e f) = true
by_thread (waits i g) = true
by_thread (wakes i g) = true
by_thread (leaves i g f) = true
by_thread (takes i m rest g f e) = true
by_thread (begins i m g) = true
by_thread (finishes i m g) = true
by_thread (pushes now m n) = false
by_thread stops = false
by_thread broadcasts = false

-- `pThread->ifrunning = true`, in front of the sleep.
abbrev pub mark : {s t : Workers} → Step s t → List Bool → List Bool
mark (saw_nothing i g e f) flags = set flags i true
mark (locked i p g l m) flags = flags
mark (waits i g) flags = flags
mark (wakes i g) flags = flags
mark (leaves i g f) flags = flags
mark (takes i m rest g f e) flags = flags
mark (begins i m g) flags = flags
mark (finishes i m g) flags = flags
mark (pushes now m n) flags = flags
mark stops flags = flags
mark broadcasts flags = flags

abbrev pub goes_to : Caller → Stopping → Stopping
goes_to c s = record s { caller = c }

unfoldable pub tell : Stopping → Stopping
unfolding stop_all
tell s = record (goes_to told s) { workers = stop_all s.workers }

unfoldable pub broadcast_all : Stopping → Stopping
unfolding broadcast
broadcast_all s = record (goes_to (joining 0) s) { workers = broadcast s.workers }

-- What StopAll does behind its last pthread_join().
unfoldable pub destroy : Stopping → Stopping
destroy s = record (goes_to stopped s) { destroyed = true; thread_vector_n = 0 }

-- The first thread brings messages only between Create and StopAll; a second call of StopAll returns at once.
pub data StopStep (s : Stopping) : Stopping → Type 0 where
  runs :
      (t : Workers) (st : Step s.workers t)
      → by_thread st ≡ true
      → StopStep s (record s { workers = t; ifrunning = mark st s.ifrunning })
  polls :
      (k : ℕ)
      → s.caller ≡ polling k
      → get_elem? s.ifrunning k ≡ some true
      → StopStep s (goes_to (polling (k + 1)) s)
  starts_over :
      (k : ℕ)
      → s.caller ≡ polling k
      → get_elem? s.ifrunning k ≡ some false
      → StopStep s (goes_to (polling 0) s)
  returns : (k : ℕ) → s.caller ≡ polling k → k ≡ s.thread_vector_n → StopStep s (goes_to created s)
  brings :
      (now : ℕ) (buf : Option Msg)
      → s.caller ≡ created
      → s.workers.mutex ≡ none
      → StopStep s (record s { workers = push_job now buf s.workers })
  tells : s.caller ≡ created → s.workers.pool.shutdown ≡ false → StopStep s (tell s)
  wakes_all : s.caller ≡ told → StopStep s (broadcast_all s)
  fails : s.caller ≡ told → StopStep s (goes_to unheard s)
  joins :
      (k : ℕ)
      → s.caller ≡ joining k
      → get_elem? s.workers.threads k ≡ some returned
      → StopStep s (goes_to (joining (k + 1)) s)
  destroys : (k : ℕ) → s.caller ≡ joining k → k ≡ s.thread_vector_n → StopStep s (destroy s)
  refuses : s.workers.pool.shutdown ≡ true → StopStep s s

pub data StopReach (s : Stopping) : Stopping → Type 0 where
  here : StopReach s s
  next : {t u : Stopping} → StopReach s t → StopStep t u → StopReach s u
