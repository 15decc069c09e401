-- ===== src/Examples/Process.antt =====
-- A master process with an argument and an environment, which starts two workers.
use linux_c_study.Prelude.{ℕ, ◌≡◌, refl, List, [], ◌∷◌, pos, ◌+◌, some, false, true, ℤ, zero, suc}
use linux_c_study.Conf.{
  ConfItem, get_int_default, load, load_loop, fgets, add_line, read_line, read_item, make_item,
  split_equals, rtrim, ltrim, strip_loop,
}
use linux_c_study.Net.Listen.{rounds}
use linux_c_study.Process.{
  Proc, Fork, failed, in_child, in_parent, master, worker_processes_name, ngx_master_process_cycle,
}
use linux_c_study.Process.Title.{at_start, ngx_init_setproctitle, ngx_setproctitle}
use linux_c_study.Process.Title.Environ.{Shown, setproctitle-Shown}
use linux_c_study.Process.Main.{MainCalls, Run, main, daemon_name}
use linux_c_study.Process.Main
use linux_c_study.Process.Main.Exits.{Ended, main-Ended}
use linux_c_study.Process.Spawned.{Led, master_process_cycle-Led}

-- ./n
abbrev argv : List (List ℕ)
argv = (b'.' ∷ b'/' ∷ b'n' ∷ []) ∷ []

-- A=1 and B=.
abbrev env : List (List ℕ)
env = (b'A' ∷ b'=' ∷ b'1' ∷ []) ∷ (b'B' ∷ b'=' ∷ []) ∷ []

abbrev title : List ℕ
title = b'w' ∷ b'p' ∷ []

setproctitle-Shown_example :
    Shown argv env title (ngx_setproctitle title (ngx_init_setproctitle (at_start argv env)))
setproctitle-Shown_example =
    setproctitle-Shown argv env title ((refl, (refl, (refl, tt))), ((refl, (refl, tt)), tt))
      (refl, (refl, tt))

abbrev process : Proc
process = record {
  ngx_pid = 10;
  ngx_parent = 1;
  stdin_null = false;
  stdout_null = false;
  opened = [];
}

-- The first call of fork() fails.
abbrev forks : ℕ → Fork
forks i = elim i [ zero ↦ failed | suc n ↦ in_parent 11 ]

abbrev two : List ℕ → ℤ
two s = pos 2

abbrev asks_for_two : List ConfItem
asks_for_two = record { item_name = worker_processes_name; item_content = b'2' ∷ [] } ∷ []

master_process_cycle-Led_example :
    Led forks
      (λ i. 0)
      process
      (rounds (get_int_default two worker_processes_name (pos 1) asks_for_two))
      argv
      env
      (ngx_master_process_cycle forks
        (λ i. 0)
        two
        asks_for_two
        argv
        process
        (ngx_init_setproctitle (at_start argv env)))
master_process_cycle-Led_example =
    master_process_cycle-Led forks (λ i. 0) two asks_for_two argv env process
      ((refl, (refl, (refl, tt))), tt) ((refl, (refl, (refl, tt))), ((refl, (refl, tt)), tt))

one_child :
    (ngx_master_process_cycle forks
      (λ i. 0)
      two
      asks_for_two
      argv
      process
      (ngx_init_setproctitle (at_start argv env))).0
    ≡ master (11 ∷ [])
unfolding ngx_master_process_cycle get_int_default
one_child = refl

-- Daemon=1
abbrev conf_file : List ℕ
conf_file = b'D' ∷ b'a' ∷ b'e' ∷ b'm' ∷ b'o' ∷ b'n' ∷ b'=' ∷ b'1' ∷ 10 ∷ []

abbrev daemon_item : ConfItem
daemon_item = record { item_name = daemon_name; item_content = b'1' ∷ [] }

abbrev one : List ℕ → ℤ
one s = pos 1

abbrev calls : MainCalls
calls = record {
  conf_file = some conf_file;
  open_log = some 3;
  sigaction = λ sig. true;
  kernel = λ i. record {
    socket = some (4 + i);
    setsockopt = true;
    ioctl = true;
    bind = λ port. true;
    listen = true;
  };
  daemon = record {
    fork = in_child;
    getpid = 20;
    setsid = true;
    open_null = some 5;
    dup2_stdin = true;
    dup2_stdout = true;
    close = true;
  };
}

daemon-load : load conf_file ≡ some (daemon_item ∷ [])
unfolding load load_loop fgets add_line read_line read_item make_item split_equals rtrim ltrim
    strip_loop
daemon-load = refl

main-Ended_example :
    (r : Run) × ((main calls one 10 1 ≡ some r)
      × Ended calls one (daemon_item ∷ []) (Main.at_start 10 1).proc r)
main-Ended_example = main-Ended calls one (daemon_item ∷ []) 10 1 conf_file refl daemon-load
