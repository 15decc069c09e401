-- ===== src/Signals.antt =====
-- linux_c++_6_4/nginx/signal/ngx_signal.cxx: which signals the server handles, and the end of its child processes.
pub mod Children
use linux_c_study.Prelude.{
  ℕ, ◌+◌, ◌/◌, ◌%◌, ◌^◌, List, [], ◌∷◌, ◌++◌, Option, none, some, Bool, true, false, ◌&&◌, ◌==◌,
  if◌then◌else◌, ℤ, pos, negsuc,
}
use linux_c_study.Net.Request.{eintr}

-- An element of `signals`: the number, and whether ngx_signal_handler is its handler; else it is ignored. The
-- element with the number 0 is the end of the list.
pub record Signal : Type 0 where
  pub signo : ℕ
  pub handled : Bool

abbrev pub sigchld : ℕ
sigchld = 17

-- SIGHUP, SIGINT, SIGTERM, SIGCHLD, SIGQUIT, SIGIO and SIGSYS, with the numbers of Linux.
abbrev pub signals : List Signal
signals =
    record { signo = 1; handled = true }
    ∷ record { signo = 2; handled = true }
    ∷ record { signo = 15; handled = true }
    ∷ record { signo = sigchld; handled = true }
    ∷ record { signo = 3; handled = true }
    ∷ record { signo = 29; handled = true }
    ∷ record { signo = 31; handled = false }
    ∷ []

-- The signals that sigaction() was called for with success, the oldest first, and what is returned.
unfoldable pub init_signals_loop : (Signal → Bool) → List Signal → List Signal × ℤ
init_signals_loop sigaction [] = ([], pos 0)
init_signals_loop sigaction (sig ∷ rest) =
    let (set, ret) = init_signals_loop sigaction rest in
    if sigaction sig then (sig ∷ set, ret) else ([], negsuc 0)

unfoldable pub ngx_init_signals : (Signal → Bool) → List Signal × ℤ
unfolding init_signals_loop
ngx_init_signals sigaction = init_signals_loop sigaction signals

-- errno for a process without children.
abbrev pub echild : ℕ
echild = 10

-- What waitpid() returns: 0; -1 with errno; or a child and its status.
pub data ChildResult : Type 0 where
  no_change : ChildResult
  wait_failed : ℕ → ChildResult
  child : ℕ → ℕ → ChildResult

-- The lines of the log: a failed waitpid(), with its level and error; a child that a signal ended, and one that
-- ended with a code.
pub data Message : Type 0 where
  waitpid_failed : ℕ → ℕ → Message
  exited_on_signal : ℕ → ℕ → Message
  exited_with_code : ℕ → ℕ → Message

-- WTERMSIG and WEXITSTATUS.
abbrev pub term_signal : ℕ → ℕ
term_signal status = status % 2 ^ 7

abbrev pub exit_code : ℕ → ℕ
exit_code status = status / 2 ^ 8 % 2 ^ 8

abbrev pub child_message : ℕ → ℕ → Message
child_message pid status =
    if term_signal status == 0
    then exited_with_code pid (exit_code status)
    else exited_on_signal pid (term_signal status)

-- The levels NGX_LOG_ALERT and NGX_LOG_INFO. `one` is whether a child was seen.
abbrev pub failure : Bool → ℕ → List Message
failure one err =
    if (err == echild) && one
    then []
    else if err == echild
    then waitpid_failed 7 err ∷ []
    else waitpid_failed 2 err ∷ []

-- The loop, on the results of waitpid() in turn; `none` while it has not ended.
unfoldable pub get_status_loop : Bool → List ChildResult → Option (List Message)
get_status_loop one [] = none
get_status_loop one (no_change ∷ rs) = some []
get_status_loop one (wait_failed err ∷ rs) =
    let rest = get_status_loop one rs in if err == eintr then rest else some (failure one err)
get_status_loop one (child pid status ∷ rs) = elim (get_status_loop true rs) [
  | none ↦ none
  | some messages ↦ some (child_message pid status ∷ messages)
]

unfoldable pub ngx_process_get_status : List ChildResult → Option (List Message)
unfolding get_status_loop
ngx_process_get_status rs = get_status_loop false rs

pub data Process : Type 0 where
  master worker : Process

-- ngx_reap behind a signal, and the messages about children; the line about the signal itself is left out.
unfoldable pub ngx_signal_handler :
    Process → ℕ → List ChildResult → Bool → Bool × Option (List Message)
unfolding ngx_process_get_status
ngx_signal_handler master signo rs reap =
    if signo == sigchld then (true, ngx_process_get_status rs) else (reap, some [])
ngx_signal_handler worker signo rs reap =
    (reap, if signo == sigchld then ngx_process_get_status rs else some [])
