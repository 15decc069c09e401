-- ===== src/Examples/Pool.antt =====
-- One thread of the pool and one message; and StopAll between the thread's look at the queue and its sleep.
use linux_c_study.Prelude.{◌≡◌, refl, [], ◌∷◌, Option, some, false, arith}
use linux_c_study.Net.Memory.{Memory}
use linux_c_study.Net.Conn.{Msg}
use linux_c_study.Threads.{init, in_msg_recv_queue_and_signal}
use linux_c_study.Threads.Workers.{
  Workers, going_to_wait, woken, create, lock, wait, take_job, push_job, move, first, again, locked,
  saw_nothing, waits, wakes, takes, pushes, Reach, here, next,
}
use linux_c_study.Threads.Progress.{AllFinished, Reach-AllFinished}
use linux_c_study.Threads.Order.{InOrder, Reach-InOrder}

abbrev memory : Memory
memory = record { next = 1; live = 0 ∷ [] }

abbrev job : Option Msg
job = some (record { addr = 0; p_conn = 3; i_currsequence = 1; pkg = [] })

abbrev made : Workers
made = create 1 memory

abbrev about_to_wait : Workers
about_to_wait = move 0 going_to_wait (lock 0 made)

goes_to_wait : Reach made about_to_wait
unfolding create init lock
goes_to_wait = next (next here (locked 0 _ refl first refl)) (saw_nothing 0 refl refl refl)

abbrev has_job : Workers
has_job = take_job 0 job [] (lock 0 (move 0 woken (push_job 100 job (wait 0 about_to_wait))))

gets_job : Reach made has_job
unfolding create init lock wait push_job in_msg_recv_queue_and_signal
gets_job =
    next
      (next (next (next (next goes_to_wait (waits 0 refl)) (pushes 100 job refl)) (wakes 0 refl))
        (locked 0 woken refl again refl))
      (takes 0 job [] refl refl refl)

Reach-InOrder_example : InOrder has_job
Reach-InOrder_example = Reach-InOrder 1 memory gets_job

-- The message waits, and the thread sleeps.
abbrev waiting : Workers
waiting = push_job 100 job (wait 0 about_to_wait)

waits_for_thread : Reach made waiting
unfolding create init lock wait
waits_for_thread = next (next goes_to_wait (waits 0 refl)) (pushes 100 job refl)

not_stopped : waiting.pool.shutdown ≡ false
unfolding create init lock wait push_job in_msg_recv_queue_and_signal
not_stopped = refl

Reach-AllFinished_example : (t : Workers) × AllFinished waiting t
Reach-AllFinished_example = Reach-AllFinished 1 memory (omega arith) waits_for_thread not_stopped
