-- ===== src/Worker.antt =====
-- A worker process at work, linux_c++_6_4/nginx: the event loop of net/ngx_c_socket.cxx, the recycling thread
-- of net/ngx_c_socket_conn.cxx and the pool threads of misc/ngx_c_threadpool.cxx, in any order of their
-- turns. A pool thread takes four turns for a message, as only the first is under the lock of the queue: it takes the message,
-- checks it, runs its command and frees it.
pub mod Blocks
pub mod Received
pub mod Balance
pub mod Handlers
pub mod Accepting
pub mod Rounds
pub mod Jobs
pub mod Finish
pub mod Turns
pub mod Exit
pub mod Init
pub mod Faces
pub mod Listening
use linux_c_study.Prelude.{ℕ, ◌≡◌, List, [], ◌∷◌, ◌++◌, Option, none, some, Bool, dec32}
use linux_c_study.Net.Memory.{free_memory}
use linux_c_study.Net.Conn.{Msg, Connection}
use linux_c_study.Net.Socket.{Server, recy_connection_round}
use linux_c_study.Net.Socket.Invariant.{InUse}
use linux_c_study.Net.Events.{Event, Loop, process_event}
use linux_c_study.Logic.{Command, select_command, run_command}

-- Where a pool thread stands with the message in its hand: ThreadFunc has taken it off the queue, threadRecvProcFunc
-- has found it fit for this command, and threadRecvProcFunc has returned.
pub data Job : Type 0 where
  taken : Msg → Job
  selected : Msg → Command → Option (List ℕ) → Job
  returned : Msg → Job

-- A worker: what its threads share, and the messages in the hands of pool threads.
pub record Worker : Type 0 where
  pub loop : Loop
  pub jobs : List Job

-- jobbuf = m_MsgRecvQueue.front(), pop_front() and the counter.
abbrev pub pop : List (Option Msg) → Server → Server
pop rest s = record s {
  pool = record (s.pool) {
    msg_recv_queue = rest;
    i_recv_msg_queue_count = dec32 s.pool.i_recv_msg_queue_count;
  };
}

-- The checks of threadRecvProcFunc, up to the call of the handler or to an early return.
unfoldable pub check_job : (ℕ → Connection) → Msg → Job
unfolding select_command
check_job conns m = elim (select_command conns m) [
  | none ↦ returned m
  | some (command, body) ↦ selected m command body
]

-- FreeMemory(jobbuf).
unfoldable pub free_job : Msg → Server → Server
unfolding free_memory
free_job m s = record s { memory = free_memory m.addr s.memory }

abbrev pub on_server : Loop → Server → Loop
on_server l s = record l { server = s }

-- A turn of one of the threads; what epoll reports is for a connection in use.
pub data Step (w : Worker) : Worker → Type 0 where
  event :
      (fill : ℕ → ℕ) (now : ℕ) (e : Event)
      → InUse w.loop.server.socket e.ptr
      → Step w (record w { loop = process_event fill now e w.loop })
  round :
      (stop now : ℕ)
      → Step w
          (record w { loop = on_server w.loop (recy_connection_round stop now w.loop.server).0 })
  take :
      (m : Msg) (rest : List (Option Msg))
      → w.loop.server.pool.msg_recv_queue ≡ some m ∷ rest
      → Step w
          (record { loop = on_server w.loop (pop rest w.loop.server); jobs = taken m ∷ w.jobs })
  check :
      (before after : List Job) (m : Msg)
      → w.jobs ≡ before ++ taken m ∷ after
      → Step w (record w { jobs = before ++ check_job w.loop.server.socket.conns m ∷ after })
  run :
      (fill : ℕ → ℕ) (ctl : ℕ → Bool) (before after : List Job) (m : Msg) (command : Command)
      (body : Option (List ℕ))
      → w.jobs ≡ before ++ selected m command body ∷ after
      → Step w (record {
        loop = on_server w.loop (run_command fill ctl m command body w.loop.server);
        jobs = before ++ returned m ∷ after;
      })
  free :
      (before after : List Job) (m : Msg)
      → w.jobs ≡ before ++ returned m ∷ after
      → Step w
          (record { loop = on_server w.loop (free_job m w.loop.server); jobs = before ++ after })

pub data Reach (w : Worker) : Worker → Type 0 where
  here : Reach w w
  next : {t u : Worker} → Reach w t → Step t u → Reach w u
