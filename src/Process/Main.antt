-- ===== src/Process/Main.antt =====
-- linux_c++_6_4/nginx/app/nginx.cxx: main, up to the work of the master process, and freeresource. What it writes
-- to the log is left out.
pub mod Exits
use linux_c_study.Prelude.{
  ℕ, List, [], ◌∷◌, Option, none, some, Bool, true, false, if◌then◌else◌, ℤ, pos, negsuc, ◌==◌,
}
use linux_c_study.Conf.{ConfItem, get_int_default, load}
use linux_c_study.Signals.{Signal, ngx_init_signals}
use linux_c_study.Net.Listen.{Listen, Numbers, SocketCalls, default_numbers, initialize}
use linux_c_study.Process.{Proc, DaemonCalls, ngx_daemon, stderr_fileno}

-- The file nginx.conf, if fopen() finds it; the log's file, if open() does; and the other calls.
pub record MainCalls : Type 0 where
  pub conf_file : Option (List ℕ)
  pub open_log : Option ℕ
  pub sigaction : Signal → Bool
  pub kernel : ℕ → SocketCalls
  pub daemon : DaemonCalls

-- `envmem` says whether gp_envmem points to a block.
pub record Program : Type 0 where
  pub proc : Proc
  pub envmem : Bool
  pub log_fd : ℤ
  pub listen : Listen
  pub numbers : Numbers
  pub g_daemonized : Bool

-- main returned, or it is in front of ngx_master_process_cycle.
pub data Run : Type 0 where
  exited : ℕ → Program → Run
  serving : List ConfItem → Program → Run

-- What ngx_log_init leaves in ngx_log.fd.
abbrev pub log_descriptor : Option ℕ → ℤ
log_descriptor none = pos stderr_fileno
log_descriptor (some fd) = pos fd

abbrev pub close_log : ℤ → ℤ
close_log (pos fd) = if fd == stderr_fileno then pos fd else negsuc 0
close_log (negsuc n) = negsuc n

unfoldable pub freeresource : Program → Program
freeresource p = record p { envmem = false; log_fd = close_log p.log_fd }

abbrev pub daemon_name : List ℕ
daemon_name = b'D' ∷ b'a' ∷ b'e' ∷ b'm' ∷ b'o' ∷ b'n' ∷ []

abbrev pub is_one : ℤ → Bool
is_one (pos n) = n == 1
is_one (negsuc n) = false

abbrev pub is_zero : ℤ → Bool
is_zero (pos n) = n == 0
is_zero (negsuc n) = false

-- Behind ngx_daemon.
abbrev pub behind_daemon : List ConfItem → Program → Proc × ℤ → Run
behind_daemon items p (q, negsuc n) = exited 1 (freeresource (record p { proc = q }))
behind_daemon items p (q, pos n) =
    if n == 1
    then exited 0 (freeresource (record p { proc = q }))
    else serving items (record p { proc = q; g_daemonized = true })

unfoldable pub with_conf : MainCalls → (List ℕ → ℤ) → List ConfItem → Program → Run
unfolding freeresource
with_conf k atoi items p =
    let (numbers', (listen', ok)) = initialize k.kernel atoi items p.numbers p.listen in
    let q = record p { numbers = numbers'; listen = listen' } in
    let r = record q { envmem = true } in
    if is_zero ((ngx_init_signals k.sigaction).1)
    then (if ok
        then (if is_one (get_int_default atoi daemon_name (pos 0) items)
            then behind_daemon items r (ngx_daemon k.daemon r.proc)
            else serving items r)
        else exited 1 (freeresource q))
    else exited 1 (freeresource p)

-- `none` where Load writes behind a name's buffer.
unfoldable pub main_loaded :
    MainCalls → (List ℕ → ℤ) → Option (List ConfItem) → Program → Option Run
unfolding with_conf
main_loaded k atoi none p = none
main_loaded k atoi (some items) p = some (with_conf k atoi items p)

-- The state in front of all that can fail.
unfoldable pub at_start : ℕ → ℕ → Program
at_start pid parent = record {
  proc = record {
    ngx_pid = pid;
    ngx_parent = parent;
    stdin_null = false;
    stdout_null = false;
    opened = [];
  };
  envmem = false;
  log_fd = negsuc 0;
  listen = record { listen_socket_list = []; descriptors = [] };
  numbers = default_numbers;
  g_daemonized = false;
}

unfoldable pub main : MainCalls → (List ℕ → ℤ) → ℕ → ℕ → Option Run
unfolding main_loaded freeresource load at_start
main k atoi pid parent =
    let p = record (at_start pid parent) { log_fd = log_descriptor k.open_log } in
    elim k.conf_file [
      | none ↦ some (exited 2 (freeresource p))
      | some file ↦ main_loaded k atoi (load file) p
    ]
