-- ===== src/Process.antt =====
-- The processes of the server: linux_c++_6_4/nginx/proc/ngx_daemon.cxx and the part of proc/ngx_process_cycle.cxx
-- that the master process runs.
pub mod Title
pub mod Daemon
pub mod Main
pub mod Spawned
use linux_c_study.Prelude.{
  ℕ, zero, suc, ◌+◌, List, [], ◌∷◌, ◌++◌, Option, none, some, Bool, true, false, ltb, if◌then◌else◌,
  length, ℤ, pos, negsuc,
}
use linux_c_study.Conf.{ConfItem, get_int_default}
use linux_c_study.Net.Listen.{rounds}
use linux_c_study.Process.Title.{Titles, need_mem, ngx_setproctitle}

-- ngx_pid and ngx_parent; where the standard descriptors go to /dev/null; and the descriptors that ngx_daemon
-- opened and did not close.
pub record Proc : Type 0 where
  pub ngx_pid : ℕ
  pub ngx_parent : ℕ
  pub stdin_null : Bool
  pub stdout_null : Bool
  pub opened : List ℕ

-- What fork() returns: -1; 0; or the child.
pub data Fork : Type 0 where
  failed : Fork
  in_child : Fork
  in_parent : ℕ → Fork

-- What the calls of ngx_daemon answer; open() has a descriptor, or fails.
pub record DaemonCalls : Type 0 where
  pub fork : Fork
  pub getpid : ℕ
  pub setsid : Bool
  pub open_null : Option ℕ
  pub dup2_stdin : Bool
  pub dup2_stdout : Bool
  pub close : Bool

abbrev pub stderr_fileno : ℕ
stderr_fileno = 2

-- Behind the opening of /dev/null.
unfoldable pub redirect : DaemonCalls → ℕ → Proc → Proc × ℤ
redirect k fd p =
    let q = record p { opened = fd ∷ p.opened } in
    let r = record q { stdin_null = true } in
    let s = record r { stdout_null = true } in
    if k.dup2_stdin
    then (if k.dup2_stdout
        then (if ltb stderr_fileno fd
            then (if k.close then (record s { opened = p.opened }, pos 0) else (s, negsuc 0))
            else (s, pos 0))
        else (r, negsuc 0))
    else (q, negsuc 0)

unfoldable pub become_daemon : DaemonCalls → Proc → Proc × ℤ
unfolding redirect
become_daemon k p =
    let q = record p { ngx_parent = p.ngx_pid; ngx_pid = k.getpid } in
    let rest : Proc × ℤ = elim k.open_null [ none ↦ (q, negsuc 0) | some fd ↦ redirect k fd q ] in
    if k.setsid then rest else (q, negsuc 0)

unfoldable pub ngx_daemon : DaemonCalls → Proc → Proc × ℤ
unfolding become_daemon
ngx_daemon k p = elim k.fork [
  | failed ↦ (p, negsuc 0)
  | in_child ↦ become_daemon k p
  | in_parent pid ↦ (p, pos 1)
]

-- "master process".
abbrev pub master_process : List ℕ
master_process =
    b'm' ∷ b'a' ∷ b's' ∷ b't' ∷ b'e' ∷ b'r' ∷ b' ' ∷ b'p' ∷ b'r' ∷ b'o' ∷ b'c' ∷ b'e' ∷ b's' ∷ b's'
    ∷ []

-- The loop that appends the arguments.
unfoldable pub strcat_all : List ℕ → List (List ℕ) → List ℕ
strcat_all title [] = title
strcat_all title (s ∷ ss) = strcat_all (title ++ s) ss

-- The text that `title` of 1000 bytes gets, where the master sets a title.
unfoldable pub master_title : List (List ℕ) → ℕ → Option (List ℕ)
unfolding strcat_all
master_title argv argvneedmem =
    if ltb (length master_process + 1 + argvneedmem) 1000
    then some (strcat_all (master_process ++ b' ' ∷ []) argv)
    else none

unfoldable pub set_master_title : List (List ℕ) → Titles → Titles
unfolding master_title ngx_setproctitle
set_master_title argv t = elim (master_title argv t.argvneedmem) [
  | none ↦ t
  | some title ↦ ngx_setproctitle title t
]

-- The process behind the start of the workers: the master, with its children, or a worker and its number.
pub data Role : Type 0 where
  master : List ℕ → Role
  worker : ℕ → Proc → Role

-- ngx_start_worker_processes, from the i-th fork() on: a worker never comes back from ngx_spawn_process.
unfoldable pub start_workers : (ℕ → Fork) → (ℕ → ℕ) → Proc → ℕ → ℕ → List ℕ → Role
start_workers fork getpid p zero i children = master children
start_workers fork getpid p (suc n) i children = elim (fork i) [
  | failed ↦ start_workers fork getpid p n (i + 1) children
  | in_child ↦ worker i (record p { ngx_parent = p.ngx_pid; ngx_pid = getpid i })
  | in_parent pid ↦ start_workers fork getpid p n (i + 1) (children ++ pid ∷ [])
]

abbrev pub worker_processes_name : List ℕ
worker_processes_name =
    b'W' ∷ b'o' ∷ b'r' ∷ b'k' ∷ b'e' ∷ b'r' ∷ b'P' ∷ b'r' ∷ b'o' ∷ b'c' ∷ b'e' ∷ b's' ∷ b's' ∷ b'e'
    ∷ b's' ∷ []

-- ngx_master_process_cycle up to its loop, in which the master only waits for signals.
unfoldable pub ngx_master_process_cycle :
    (ℕ → Fork)
    → (ℕ → ℕ)
    → (List ℕ → ℤ)
    → List ConfItem
    → List (List ℕ)
    → Proc
    → Titles
    → Role × Titles
unfolding set_master_title start_workers get_int_default
ngx_master_process_cycle fork getpid atoi items argv p t = (
  start_workers fork getpid p (rounds (get_int_default atoi worker_processes_name (pos 1) items)) 0
      [],
  set_master_title argv t,
)
