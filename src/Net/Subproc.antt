-- ===== src/Net/Subproc.antt =====
-- linux_c++_6_4/nginx/net/ngx_c_socket.cxx: what a worker process sets up for its threads and takes down again,
-- Initialize_subproc and Shutdown_subproc, and the queue of messages that are to be sent.
use linux_c_study.Prelude.{
  ℕ, ◌+◌, List, [], ◌∷◌, ◌++◌, Option, some, Bool, true, false, not, if◌then◌else◌, inc32,
}
use linux_c_study.Net.Memory.{Memory}
use linux_c_study.Net.Conn.{Msg, free_msg}
use linux_c_study.Net.Socket.{Socket, clearconnection}

-- Which of the three mutexes and the semaphore are initialised; the semaphore's value; m_threadVector, with
-- whether the thread was started; m_MsgSendQueue and its counter.
pub record Subproc : Type 0 where
  pub send_message_queue_mutex : Bool
  pub connection_mutex : Bool
  pub recyconnqueue_mutex : Bool
  pub sem_event_send_queue : Bool
  pub sem_value : ℕ
  pub thread_vector : List Bool
  pub msg_send_queue : List (Option Msg)
  pub i_send_msg_queue_count : ℕ

-- Whether each of the calls succeeds, in their order.
pub record SubprocCalls : Type 0 where
  pub init_send_mutex : Bool
  pub init_connection_mutex : Bool
  pub init_recyconn_mutex : Bool
  pub sem_init : Bool
  pub pthread_create : Bool

-- Behind the constructor of CSocekt.
abbrev pub no_subproc : Subproc
no_subproc = record {
  send_message_queue_mutex = false;
  connection_mutex = false;
  recyconnqueue_mutex = false;
  sem_event_send_queue = false;
  sem_value = 0;
  thread_vector = [];
  msg_send_queue = [];
  i_send_msg_queue_count = 0;
}

-- The recycling thread; its ThreadItem stays where it does not start.
unfoldable pub start_recy_thread : SubprocCalls → Subproc → Subproc × Bool
start_recy_thread k s =
    (record s { thread_vector = s.thread_vector ++ k.pthread_create ∷ [] }, k.pthread_create)

unfoldable pub init_semaphore : SubprocCalls → Subproc → Subproc × Bool
unfolding start_recy_thread
init_semaphore k s =
    if not k.sem_init
    then (s, false)
    else start_recy_thread k (record s { sem_event_send_queue = true; sem_value = 0 })

unfoldable pub initialize_subproc : SubprocCalls → Subproc → Subproc × Bool
unfolding init_semaphore
initialize_subproc k s =
    let s1 : Subproc = record s { send_message_queue_mutex = true } in
    let s2 : Subproc = record s1 { connection_mutex = true } in
    let s3 : Subproc = record s2 { recyconnqueue_mutex = true } in
    if not k.init_send_mutex
    then (s, false)
    else if not k.init_connection_mutex
    then (s1, false)
    else if not k.init_recyconn_mutex
    then (s2, false)
    else init_semaphore k s3

-- `posted` is whether sem_post() succeeds; where it does not, that is only logged.
unfoldable pub msg_send : Bool → Msg → Subproc → Subproc
msg_send posted psendbuf s = record s {
  msg_send_queue = s.msg_send_queue ++ some psendbuf ∷ [];
  i_send_msg_queue_count = inc32 s.i_send_msg_queue_count;
  sem_value = if posted then s.sem_value + 1 else s.sem_value;
}

-- `while (!queue.empty()) { front(); pop_front(); FreeMemory }`, here and in CThreadPool::clearMsgRecvQueue.
unfoldable pub free_queue : List (Option Msg) → Memory → Memory
unfolding free_msg
free_queue [] m = m
free_queue (buf ∷ rest) m = free_queue rest (free_msg buf m)

unfoldable pub clear_msg_send_queue : Subproc → Memory → Subproc × Memory
unfolding free_queue
clear_msg_send_queue s m = (record s { msg_send_queue = [] }, free_queue s.msg_send_queue m)

-- Behind the calls of pthread_join(), which return when the threads have ended.
unfoldable pub shutdown_subproc : Subproc → Socket → Memory → Subproc × (Socket × Memory)
unfolding clear_msg_send_queue clearconnection
shutdown_subproc s k m =
    let (t, m') = clear_msg_send_queue (record s { thread_vector = [] }) m in
    (
      record t {
        connection_mutex = false;
        send_message_queue_mutex = false;
        recyconnqueue_mutex = false;
        sem_event_send_queue = false;
      },
      (clearconnection k, m'),
    )
