-- ===== src/Process/Daemon.antt =====
-- What ngx_daemon leaves, with each answer of its calls.
use linux_c_study.Prelude.{
  ℕ, ◌≡◌, ◌⊎◌, inl, inr, refl, Option, none, some, Bool, true, false, not, ◌&&◌, ◌||◌, ltb,
  Bool-cases, Option-cases, ℤ, pos, negsuc,
}
use linux_c_study.Process.{
  Proc, Fork, failed, in_child, in_parent, DaemonCalls, redirect, become_daemon, ngx_daemon,
  stderr_fileno,
}

-- Whether the calls of ngx_daemon behind fork() succeed.
abbrev pub null_ok : DaemonCalls → Option ℕ → Bool
null_ok k none = false
null_ok k (some fd) = k.dup2_stdin && (k.dup2_stdout && (not (ltb stderr_fileno fd) || k.close))

abbrev pub daemon_ok : DaemonCalls → Bool
daemon_ok k = k.setsid && null_ok k k.open_null

-- A process of its own, without a terminal's input and output.
pub record Detached (k : DaemonCalls) (p q : Proc) : Type 0 where
  pub child : k.fork ≡ in_child
  pub calls : daemon_ok k ≡ true
  pub own_pid : q.ngx_pid ≡ k.getpid
  pub parent : q.ngx_parent ≡ p.ngx_pid
  pub stdin : q.stdin_null ≡ true
  pub stdout : q.stdout_null ≡ true
  pub nothing_open :
      ((fd : ℕ) → k.open_null ≡ some fd → ltb stderr_fileno fd ≡ true) → q.opened ≡ p.opened

pub data DaemonEnd (k : DaemonCalls) (p : Proc) : Proc × ℤ → Type 0 where
  parent : (c : ℕ) → k.fork ≡ in_parent c → DaemonEnd k p (p, pos 1)
  detached : (q : Proc) → Detached k p q → DaemonEnd k p (q, pos 0)
  not_done :
      (q : Proc)
      → (k.fork ≡ failed) ⊎ ((k.fork ≡ in_child) × (daemon_ok k ≡ false))
      → DaemonEnd k p (q, negsuc 0)

redirect-DaemonEnd :
    (k : DaemonCalls) (fd : ℕ) (p q : Proc)
    → k.fork ≡ in_child
    → k.setsid ≡ true
    → k.open_null ≡ some fd
    → q.ngx_pid ≡ k.getpid
    → q.ngx_parent ≡ p.ngx_pid
    → q.opened ≡ p.opened
    → DaemonEnd k p (redirect k fd q)
unfolding redirect
redirect-DaemonEnd k fd p q f s o a b c = elim (Bool-cases k.dup2_stdin) [
  | inr e ↦ rw e (not_done _ (inr (f, rw (s, o) refl)))
  | inl e ↦ rw e (elim (Bool-cases k.dup2_stdout) [
    | inr g ↦ rw g (not_done _ (inr (f, rw (s, o) refl)))
    | inl g ↦ rw g (elim (Bool-cases (ltb stderr_fileno fd)) [
      | inr h ↦ rw h (
          detached _ (record {
            child = f;
            calls = rw (s, o, h) refl;
            own_pid = a;
            parent = b;
            stdin = refl;
            stdout = refl;
            nothing_open = λ z. (let y = z fd o in cc);
          }))
      | inl h ↦ rw h (elim (Bool-cases k.close) [
        | inr i ↦ rw i (not_done _ (inr (f, rw (s, o, h) refl)))
        | inl i ↦ rw i (
            detached _ (record {
              child = f;
              calls = rw (s, o, h) refl;
              own_pid = a;
              parent = b;
              stdin = refl;
              stdout = refl;
              nothing_open = λ z. c;
            }))
      ])
    ])
  ])
]

become-DaemonEnd :
    (k : DaemonCalls) (p : Proc) → k.fork ≡ in_child → DaemonEnd k p (become_daemon k p)
unfolding become_daemon
become-DaemonEnd k p f = elim (Bool-cases k.setsid) [
  | inr e ↦ rw e (not_done _ (inr (f, refl)))
  | inl e ↦ rw e (elim (Option-cases k.open_null) [
    | inl o ↦ rw o (not_done _ (inr (f, refl)))
    | inr (fd, o) ↦ rw o (redirect-DaemonEnd _ fd p _ f refl refl refl refl refl)
  ])
]

pub daemon-DaemonEnd : (k : DaemonCalls) (p : Proc) → DaemonEnd k p (ngx_daemon k p)
unfolding ngx_daemon
daemon-DaemonEnd k p = go k.fork refl
  where
    go : (f : Fork) → k.fork ≡ f → DaemonEnd k p (ngx_daemon k p)
    go failed e = rw (e, ngx_daemon) (not_done p (inl refl))
    go in_child e = rw (e, ngx_daemon) (become-DaemonEnd _ p refl)
    go (in_parent c) e = rw (e, ngx_daemon) (parent c refl)
