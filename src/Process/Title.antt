-- ===== src/Process/Title.antt =====
-- linux_c++_6_4/nginx/app/ngx_setproctitle.cxx, with what main of app/nginx.cxx counts for it: the title of a
-- process is written over its arguments and, behind them, its environment, which is moved away first.
pub mod Environ
use linux_c_study.Prelude.{
  ℕ, zero, suc, ◌+◌, ◌-◌, List, [], ◌∷◌, ◌++◌, map, ◌==◌, leb, if◌then◌else◌, length, drop, splice,
  min, replicate,
}

-- A string that lies in memory: up to its first zero.
unfoldable pub c_string : List ℕ → List ℕ
c_string [] = []
c_string (b ∷ bs) = let rest = c_string bs in if b == 0 then [] else b ∷ rest

-- A pointer into the memory of the arguments and the environment, or into the block gp_envmem.
pub data Ptr : Type 0 where
  in_args : ℕ → Ptr
  in_envmem : ℕ → Ptr

-- `args` is the memory that argv[0] points to, up to the end of the environment, which lies behind the
-- arguments; `argv_n` says how many elements of g_os_argv stand before its NULL.
pub record Titles : Type 0 where
  pub args : List ℕ
  pub argv_n : ℕ
  pub environ : List Ptr
  pub argvneedmem : ℕ
  pub envneedmem : ℕ
  pub envmem : List ℕ

unfoldable pub read : Titles → Ptr → List ℕ
unfolding c_string
read t (in_args k) = c_string (drop k t.args)
read t (in_envmem k) = c_string (drop k t.envmem)

-- Strings one behind the other, each with its zero, and where each begins, the first one at k.
unfoldable pub layout : List (List ℕ) → List ℕ
layout [] = []
layout (s ∷ ss) = s ++ 0 ∷ layout ss

unfoldable pub offsets : ℕ → List (List ℕ) → List ℕ
offsets k [] = []
offsets k (s ∷ ss) = k ∷ offsets (k + (length s + 1)) ss

-- The loops of main that count.
unfoldable pub need_mem : List (List ℕ) → ℕ
need_mem [] = 0
need_mem (s ∷ ss) = length s + 1 + need_mem ss

-- What the kernel lays out for a process, and main's counts.
unfoldable pub at_start : List (List ℕ) → List (List ℕ) → Titles
unfolding layout offsets need_mem
at_start argv env = record {
  args = layout argv ++ layout env;
  argv_n = length argv;
  environ = map in_args (offsets (need_mem argv) env);
  argvneedmem = need_mem argv;
  envneedmem = need_mem env;
  envmem = [];
}

-- The loop of ngx_init_setproctitle: the new values of `environ`, and gp_envmem.
unfoldable pub move_environ : Titles → List Ptr → ℕ → List ℕ → List Ptr × List ℕ
unfolding read splice
move_environ t [] ptmp envmem = ([], envmem)
move_environ t (p ∷ ps) ptmp envmem =
    let s = read t p in
    let (qs, mem) = move_environ t ps (ptmp + (length s + 1)) (splice envmem ptmp (s ++ 0 ∷ [])) in
    (in_envmem ptmp ∷ qs, mem)

unfoldable pub ngx_init_setproctitle : Titles → Titles
unfolding move_environ
ngx_init_setproctitle t =
    let (environ', mem) = move_environ t t.environ 0 (replicate t.envneedmem 0) in
    record t { environ = environ'; envmem = mem }

unfoldable pub ngx_setproctitle : List ℕ → Titles → Titles
unfolding splice
ngx_setproctitle title t =
    let ititlelen = length title in
    let esy = t.argvneedmem + t.envneedmem in
    if leb esy ititlelen then t else record t {
      argv_n = min t.argv_n 1;
      args = splice (splice t.args 0 (title ++ 0 ∷ [])) ititlelen (replicate (esy - ititlelen) 0);
    }
