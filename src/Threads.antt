-- ===== src/Threads.antt =====
-- linux_c++_6_4/nginx/misc/ngx_c_threadpool.cxx: the queue of received messages and the calls on it.
-- A queue entry is the `char *` that was pushed: `none` is NULL.
pub mod Workers
pub mod Places
pub mod Order
pub mod Owners
pub mod Progress
pub mod Stopping
use linux_c_study.Prelude.{
  ℕ, ◌+◌, List, [], ◌∷◌, ◌++◌, Option, Bool, false, ltb, ◌==◌, if◌then◌else◌, inc32, ◌≡◌, arith,
}
use linux_c_study.Net.Conn.{Msg}

pub record ThreadPool : Type 0 where
  pub i_thread_num : ℕ
  pub i_running_thread_num : ℕ
  pub i_last_emg_time : ℕ
  pub msg_recv_queue : List (Option Msg)
  pub i_recv_msg_queue_count : ℕ
  pub shutdown : Bool

unfoldable pub init : ℕ → ThreadPool
init n = record {
  i_thread_num = n;
  i_running_thread_num = 0;
  i_last_emg_time = 0;
  msg_recv_queue = [];
  i_recv_msg_queue_count = 0;
  shutdown = false;
}

-- `now` is time(NULL). The signal may wake a waiting thread; which one is not the pool's choice.
unfoldable pub call : ℕ → ThreadPool → ThreadPool
call now p =
    if p.i_thread_num == p.i_running_thread_num
    then (if ltb (p.i_last_emg_time + 10) now then record p { i_last_emg_time = now } else p)
    else p

unfoldable pub in_msg_recv_queue_and_signal : ℕ → Option Msg → ThreadPool → ThreadPool
unfolding call
in_msg_recv_queue_and_signal now buf p = call now (record p {
  msg_recv_queue = p.msg_recv_queue ++ buf ∷ [];
  i_recv_msg_queue_count = inc32 p.i_recv_msg_queue_count;
})

pub queue-in_msg :
    (now : ℕ) (buf : Option Msg) (p : ThreadPool)
    → (in_msg_recv_queue_and_signal now buf p).msg_recv_queue ≡ p.msg_recv_queue ++ buf ∷ []
unfolding in_msg_recv_queue_and_signal
queue-in_msg now buf p = ground arith

pub count-in_msg :
    (now : ℕ) (buf : Option Msg) (p : ThreadPool)
    → (in_msg_recv_queue_and_signal now buf p).i_recv_msg_queue_count
      ≡ inc32 p.i_recv_msg_queue_count
unfolding in_msg_recv_queue_and_signal
count-in_msg now buf p = ground arith

pub running-in_msg :
    (now : ℕ) (buf : Option Msg) (p : ThreadPool)
    → (in_msg_recv_queue_and_signal now buf p).i_running_thread_num ≡ p.i_running_thread_num
unfolding in_msg_recv_queue_and_signal
running-in_msg now buf p = ground arith

pub shutdown-in_msg :
    (now : ℕ) (buf : Option Msg) (p : ThreadPool)
    → (in_msg_recv_queue_and_signal now buf p).shutdown ≡ p.shutdown
unfolding in_msg_recv_queue_and_signal
shutdown-in_msg now buf p = ground arith
