-- ===== src/Process/Main/Exits.antt =====
-- How main ends, and how it comes to its work.
use linux_c_study.Prelude.{
  ℕ, ◌≡◌, ◌⊎◌, inl, inr, refl, ap, subst, sym, ◌∙◌, List, [], Option, none, some, Bool, true, false,
  ◌==◌, Bool-cases, ==_iff, ℤ, pos, negsuc,
}
use linux_c_study.Conf.{ConfItem, get_int_default, load}
use linux_c_study.Signals.{Signal, signals, ngx_init_signals}
use linux_c_study.Signals.Children.{AllSet, Registered, init_signals-Registered}
use linux_c_study.Net.Listen.{
  rounds, listen_port, ngx_open_listening_sockets, read_conf, default_numbers, initialize, Listen,
}
use linux_c_study.Net.Listen.Tracked.{none_yet, Listens, open_listening-Listens}
use linux_c_study.Process.{Proc, failed, in_child, in_parent, stderr_fileno}
use linux_c_study.Process.Main.{
  MainCalls, Program, Run, exited, serving, log_descriptor, close_log, freeresource, daemon_name,
  is_one, is_zero, behind_daemon, with_conf, main_loaded, at_start, main,
}
use linux_c_study.Process.Daemon.{
  daemon_ok, Detached, DaemonEnd, parent, detached, not_done, daemon-DaemonEnd,
}

-- What freeresource leaves: no block for the environment, and the log's file closed, if it is one.
pub record Freed (p : Program) : Type 0 where
  pub environ : p.envmem ≡ false
  pub log : (p.log_fd ≡ pos stderr_fileno) ⊎ (p.log_fd ≡ negsuc 0)

log_descriptor-closed :
    (o : Option ℕ)
    → (close_log (log_descriptor o) ≡ pos stderr_fileno) ⊎ (close_log (log_descriptor o) ≡ negsuc 0)
log_descriptor-closed none = inl refl
log_descriptor-closed (some fd) = elim (Bool-cases (fd == stderr_fileno)) [
  | inl e ↦ rw e (inl (ap pos ((==_iff _ _).0 e)))
  | inr e ↦ rw e (inr refl)
]

module _ (k : MainCalls) (atoi : List ℕ → ℤ) (items : List ConfItem) where
  abbrev asks_daemon : Bool
  asks_daemon = is_one (get_int_default atoi daemon_name (pos 0) items)

  abbrev listens : Listen × Bool
  listens =
      ngx_open_listening_sockets k.kernel atoi items
        ((read_conf atoi items default_numbers).listen_port_count) (none_yet [])

  -- Every signal has its handler, and every configured port its socket.
  pub record Ready (p : Program) : Type 0 where
    pub handled : AllSet k.sigaction signals
    pub numbers : p.numbers ≡ read_conf atoi items default_numbers
    pub listening :
        Listens (listen_port atoi items) (rounds p.numbers.listen_port_count) [] p.listen true

  -- How main goes on from the process `start` that has read its configuration.
  pub data Ended (start : Proc) : Run → Type 0 where
    unregistered :
        (p : Program) (sig : Signal) → k.sigaction sig ≡ false → Freed p → Ended start (exited 1 p)
    not_listening :
        (p : Program)
        → AllSet k.sigaction signals
        → listens.1 ≡ false
        → Freed p
        → Ended start (exited 1 p)
    no_daemon :
        (p : Program)
        → Ready p
        → asks_daemon ≡ true
        → (k.daemon.fork ≡ failed) ⊎ ((k.daemon.fork ≡ in_child) × (daemon_ok k.daemon ≡ false))
        → Freed p
        → Ended start (exited 1 p)
    parent_leaves :
        (p : Program) (c : ℕ)
        → Ready p
        → asks_daemon ≡ true
        → k.daemon.fork ≡ in_parent c
        → Freed p
        → Ended start (exited 0 p)
    serves :
        (p : Program)
        → Ready p
        → asks_daemon ≡ false
        → p.proc ≡ start
        → p.g_daemonized ≡ false
        → Ended start (serving items p)
    serves_daemon :
        (p : Program)
        → Ready p
        → asks_daemon ≡ true
        → Detached k.daemon start p.proc
        → p.g_daemonized ≡ true
        → Ended start (serving items p)

  behind-Ended :
      (p : Program) (r : Proc × ℤ)
      → (close_log p.log_fd ≡ pos stderr_fileno) ⊎ (close_log p.log_fd ≡ negsuc 0)
      → ((q : Proc) (b : Bool) → Ready (record p { proc = q; g_daemonized = b }))
      → ((q : Proc) → Ready (freeresource (record p { proc = q })))
      → asks_daemon ≡ true
      → DaemonEnd k.daemon p.proc r
      → Ended p.proc (behind_daemon items p r)
  unfolding freeresource
  behind-Ended p r log ready freed a (parent c f) =
      parent_leaves _ c (freed p.proc) a f (record { environ = refl; log = log })
  behind-Ended p r log ready freed a (detached q d) = serves_daemon _ (ready q true) a d refl
  behind-Ended p r log ready freed a (not_done q w) =
      no_daemon _ (freed q) a w (record { environ = refl; log = log })

  unregistered-signal :
      is_zero ((ngx_init_signals k.sigaction).1) ≡ false
      → (sig : Signal) × (k.sigaction sig ≡ false)
  unfolding Registered
  unregistered-signal e = go (ngx_init_signals k.sigaction) (init_signals-Registered k.sigaction) e
    where
      go :
          (r : List Signal × ℤ)
          → Registered k.sigaction signals r
          → is_zero r.1 ≡ false
          → (sig : Signal) × (k.sigaction sig ≡ false)
      go (set, ret) (a, inl (z, y)) f = (let w : true ≡ false = sym (ap is_zero z) ∙ f in cc)
      go (set, ret) (a, inr (z, (sig, (rest, (y, n))))) f = (sig, n)

  registered-signals :
      is_zero ((ngx_init_signals k.sigaction).1) ≡ true → AllSet k.sigaction signals
  unfolding Registered
  registered-signals e = go (ngx_init_signals k.sigaction) (init_signals-Registered k.sigaction) e
    where
      go :
          (r : List Signal × ℤ)
          → Registered k.sigaction signals r
          → is_zero r.1 ≡ true
          → AllSet k.sigaction signals
      go (set, ret) (a, inl (z, y)) f = subst (AllSet k.sigaction) y a
      go (set, ret) (a, inr (z, w)) f = (let v : false ≡ true = sym (ap is_zero z) ∙ f in cc)

  -- The process in front of the calls that can fail.
  abbrev begun : ℕ → ℕ → Program
  begun pid ppid = record (at_start pid ppid) { log_fd = log_descriptor k.open_log }

  -- And with its listening sockets, behind ngx_init_setproctitle.
  abbrev equipped : ℕ → ℕ → Program
  equipped pid ppid = record (begun pid ppid) {
    numbers = read_conf atoi items default_numbers;
    listen = listens.0;
    envmem = true;
  }

  opened-Listens :
      listens.1 ≡ true
      → Listens
          (listen_port atoi items)
          (rounds (read_conf atoi items default_numbers).listen_port_count)
          []
          listens.0
          true
  opened-Listens e =
      subst
        (Listens (listen_port atoi items)
          (rounds (read_conf atoi items default_numbers).listen_port_count) [] listens.0)
        e
        (open_listening-Listens k.kernel atoi items
          ((read_conf atoi items default_numbers).listen_port_count) [])

  with_conf-Ended :
      (pid ppid : ℕ) → Ended (at_start pid ppid).proc (with_conf k atoi items (begun pid ppid))
  unfolding with_conf initialize freeresource at_start
  with_conf-Ended pid ppid = elim (Bool-cases (is_zero ((ngx_init_signals k.sigaction).1))) [
    | inr e ↦
        let (sig, n) = unregistered-signal e in
        rw e (unregistered _ sig n (record { environ = refl; log = log }))
    | inl e ↦
        let handled = registered-signals e in
        rw e (elim (Bool-cases listens.1) [
          | inr f ↦ rw f (not_listening _ handled f (record { environ = refl; log = log }))
          | inl f ↦
              let listening = opened-Listens f in
              rw f (elim (Bool-cases asks_daemon) [
                | inr g ↦ rw g (
                    serves _ (record { handled = handled; numbers = refl; listening = listening }) g
                      refl refl)
                | inl g ↦ rw g (
                    behind-Ended (equipped pid ppid) _ log
                      (λ q b. record { handled = handled; numbers = refl; listening = listening })
                      (λ q. record { handled = handled; numbers = refl; listening = listening }) g
                      (daemon-DaemonEnd k.daemon _))
              ])
        ])
  ]
    where
      log :
          (close_log (log_descriptor k.open_log) ≡ pos stderr_fileno)
          ⊎ (close_log (log_descriptor k.open_log) ≡ negsuc 0)
      log = log_descriptor-closed k.open_log

  -- Where nginx.conf is read, main ends with the code 1 if a signal is not handled, a listening socket is not opened, or the configuration asks
  -- for a daemon and ngx_daemon fails, and with 0 in the process that ngx_daemon leaves behind; wherever it ends, the block of the
  -- environment is freed and the log's file closed. Else it comes to the master's work, with all signals handled and a socket for
  -- each configured port, in the same process or, where the configuration asks for a daemon, in the detached one.
  pub main-Ended :
      (pid ppid : ℕ) (file : List ℕ)
      → k.conf_file ≡ some file
      → load file ≡ some items
      → (r : Run) × ((main k atoi pid ppid ≡ some r) × Ended (at_start pid ppid).proc r)
  unfolding main main_loaded
  main-Ended pid ppid file e f =
      (with_conf k atoi items (begun pid ppid), (rw (e, f) refl, with_conf-Ended pid ppid))
