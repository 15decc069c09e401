-- ===== src/Examples/Stopping.antt =====
-- StopAll on a pool of one thread: once the thread sleeps already, and once it goes to sleep too late.
use mathlib.Core.Option.{some_inj}
use linux_c_study.Prelude.{
  zero, suc, sym, ap, some, get_elem?, ◌≡◌, ◌≢◌, refl, [], ◌∷◌, true, arith,
}
use linux_c_study.Net.Memory.{Memory}
use linux_c_study.Threads.{init}
use linux_c_study.Threads.Workers.{
  asleep, woken, going_to_wait, create, lock, wait, leave, stop_all, broadcast, move, first, again,
  locked, saw_nothing, waits, leaves,
}
use linux_c_study.Threads.Stopping.{
  Stopping, made, created, polling, joining, stopped, goes_to, tell, broadcast_all, destroy,
  StopReach, here, next, runs, polls, returns, tells, wakes_all, joins, destroys,
}
use linux_c_study.Threads.Stopping.Joined.{Ended, Reach-Ended}
use linux_c_study.Threads.Stopping.Lost.{quiet_here, Reach-lost}
use linux_c_study.Threads.Stopping.Awake.{awake, AllAwake}
use linux_c_study.Threads.Stopping.Returns.{Returns, Reach-Returns}

abbrev memory : Memory
memory = record { next = 0; live = [] }

abbrev begin : Stopping
begin = made 1 memory

-- The thread is in front of its sleep, and Create sees that it runs.
abbrev awaited : Stopping
awaited = goes_to created (
    goes_to (polling 1) (record begin {
      workers = move 0 going_to_wait (lock 0 begin.workers);
      ifrunning = true ∷ [];
    }))

reaches_awaited : StopReach begin awaited
unfolding made create init lock
reaches_awaited =
    next
      (next
        (next (next here (runs _ (locked 0 _ refl first refl) refl))
          (runs _ (saw_nothing 0 refl refl refl) refl))
        (polls 0 refl refl))
      (returns 1 refl refl)

-- It sleeps; StopAll wakes it.
abbrev sleeping : Stopping
sleeping = record awaited { workers = wait 0 awaited.workers }

abbrev told_in_time : Stopping
told_in_time = broadcast_all (tell sleeping)

reaches_told : StopReach begin told_in_time
unfolding made create init lock wait tell stop_all
reaches_told =
    next (next (next reaches_awaited (runs _ (waits 0 refl) refl)) (tells refl refl))
      (wakes_all refl)

told-AllAwake : AllAwake told_in_time.workers.threads
unfolding made create init lock wait tell stop_all broadcast_all broadcast
told-AllAwake zero p e = ap awake (some_inj.0 (sym e))
told-AllAwake (suc i) p e = cc

told_joins : told_in_time.caller ≡ joining 0
unfolding broadcast_all
told_joins = refl

Reach-Returns_example : Returns told_in_time
Reach-Returns_example = Reach-Returns 1 memory (omega arith) reaches_told told_joins told-AllAwake

abbrev finished : Stopping
finished =
    destroy (
      goes_to (joining 1) (record told_in_time { workers = leave 0 (lock 0 told_in_time.workers) }))

reaches_finished : StopReach begin finished
unfolding made create init lock wait leave tell stop_all broadcast_all broadcast
reaches_finished =
    next
      (next
        (next (next reaches_told (runs _ (locked 0 woken refl again refl) refl))
          (runs _ (leaves 0 refl refl) refl))
        (joins 0 refl refl))
      (destroys 1 refl refl)

is_finished : finished.caller ≡ stopped
unfolding destroy
is_finished = refl

Reach-Ended_example : Ended finished.workers
Reach-Ended_example = Reach-Ended 1 memory (omega arith) reaches_finished is_finished

-- StopAll is called between the thread's look at the queue and its sleep.
abbrev too_late : Stopping
too_late = (let s = broadcast_all (tell awaited) in record s { workers = wait 0 s.workers })

reaches_too_late : StopReach begin too_late
unfolding made create init lock wait tell stop_all broadcast_all broadcast
reaches_too_late =
    next (next (next reaches_awaited (tells refl refl)) (wakes_all refl))
      (runs _ (waits 0 refl) refl)

joins_sleeper : too_late.caller ≡ joining 0
unfolding broadcast_all
joins_sleeper = refl

sleeps_on : get_elem? too_late.workers.threads 0 ≡ some asleep
unfolding made create init lock wait tell stop_all broadcast_all broadcast
sleeps_on = refl

Reach-lost_example : too_late.caller ≢ stopped
Reach-lost_example =
    Reach-lost 1 0 0 memory (omega arith) reaches_too_late joins_sleeper sleeps_on quiet_here
