-- ===== src/Log.antt =====
-- linux_c++_6_4/nginx/app/ngx_log.cxx: the lines of the log and where they are written. A text is the list of
-- the bytes from the start of `errstr`; `none` stands for undefined behaviour: of a format, of a level without a
-- name, or of an error number that does not fit `leftstr`.
pub mod Lines
pub mod Errno
use linux_c_study.Prelude.{
  ℕ, ◌+◌, ◌-◌, ◌<◌, List, [], ◌∷◌, ◌++◌, Option, none, some, Bool, true, false, not, ◌&&◌, ltb, leb,
  ◌==◌, if◌then◌else◌, length, take, get_elem?, ℤ, pos, negsuc, ◌⊎◌, inl, inr,
}
use linux_c_study.Printf.{digits_loop, decimal}
use linux_c_study.Printf.Format.{Double, Arg, signed, string, ngx_vslprintf}
use linux_c_study.Conf.{ConfItem, newline, get_string, get_int_default}

-- NGX_MAX_ERROR_STR; `last` is that far from the start of `errstr`.
abbrev pub max_error_str : ℕ
max_error_str = 2048

abbrev pub stderr_fileno : ℤ
stderr_fileno = pos 2

abbrev pub enospc : ℕ
enospc = 28

-- ngx_log_t, and what was written: the descriptor and the bytes of each call of write() that was made.
pub record Log : Type 0 where
  pub log_level : ℤ
  pub fd : ℤ

-- What the C library and the kernel answer: strerror(), and errno where write() to a descriptor fails.
pub record LogCalls : Type 0 where
  pub strerror : ℕ → List ℕ
  pub write : ℤ → Option ℕ

abbrev pub err_levels : List (List ℕ)
err_levels =
    (b's' ∷ b't' ∷ b'd' ∷ b'e' ∷ b'r' ∷ b'r' ∷ [])
    ∷ (b'e' ∷ b'm' ∷ b'e' ∷ b'r' ∷ b'g' ∷ [])
    ∷ (b'a' ∷ b'l' ∷ b'e' ∷ b'r' ∷ b't' ∷ [])
    ∷ (b'c' ∷ b'r' ∷ b'i' ∷ b't' ∷ [])
    ∷ (b'e' ∷ b'r' ∷ b'r' ∷ b'o' ∷ b'r' ∷ [])
    ∷ (b'w' ∷ b'a' ∷ b'r' ∷ b'n' ∷ [])
    ∷ (b'n' ∷ b'o' ∷ b't' ∷ b'i' ∷ b'c' ∷ b'e' ∷ [])
    ∷ (b'i' ∷ b'n' ∷ b'f' ∷ b'o' ∷ [])
    ∷ (b'd' ∷ b'e' ∷ b'b' ∷ b'u' ∷ b'g' ∷ [])
    ∷ []

abbrev pub and_then {ℓ κ} : {A : Type ℓ} {B : Type κ} → Option A → (A → Option B) → Option B
and_then none f = none
and_then (some a) f = f a

-- The text " (%d: ", the error's text and ") ", all of it or, where it does not fit, nothing. Error numbers
-- are positive.
unfoldable pub ngx_log_errno : LogCalls → ℕ → ℕ → List ℕ → Option (List ℕ)
unfolding digits_loop
ngx_log_errno k cap err buf =
    let leftstr = b' ' ∷ b'(' ∷ digits_loop 10 10 decimal err (b':' ∷ b' ' ∷ []) in
    let info = leftstr ++ (k.strerror err ++ b')' ∷ b' ' ∷ []) in
    if not (ltb (length leftstr) 10)
    then none
    else some (if ltb (length buf + length info) cap then buf ++ info else buf)

-- `if (err) ...`
unfoldable pub add_errno : LogCalls → ℕ → ℕ → List ℕ → Option (List ℕ)
unfolding ngx_log_errno
add_errno k cap err buf = if err == 0 then some buf else ngx_log_errno k cap err buf

-- The newline, in the last place but one where the text takes up the buffer.
unfoldable pub end_line : ℕ → List ℕ → List ℕ
end_line cap buf =
    if leb (cap - 1) (length buf)
    then take (cap - 1 - 1) buf ++ newline ∷ []
    else buf ++ newline ∷ []

-- The local time, month and year as localtime_r() gives them.
pub record Clock : Type 0 where
  pub tm_year : ℕ
  pub tm_mon : ℕ
  pub tm_mday : ℕ
  pub tm_hour : ℕ
  pub tm_min : ℕ
  pub tm_sec : ℕ

-- "%4d/%02d/%02d %02d:%02d:%02d", " [%s] " and "%P: ".
abbrev pub two_digits : List ℕ
two_digits = b'%' ∷ b'0' ∷ b'2' ∷ b'd' ∷ []

abbrev pub time_format : List ℕ
time_format =
    b'%'
    ∷ b'4'
    ∷ b'd'
    ∷ b'/'
    ∷ (two_digits
        ++ b'/' ∷ (two_digits ++ b' ' ∷ (two_digits ++ b':' ∷ (two_digits ++ b':' ∷ two_digits))))

abbrev pub level_format : List ℕ
level_format = b' ' ∷ b'[' ∷ b'%' ∷ b's' ∷ b']' ∷ b' ' ∷ []

abbrev pub pid_format : List ℕ
pid_format = b'%' ∷ b'P' ∷ b':' ∷ b' ' ∷ []

-- log_level comparison: `a > b` on int.
abbrev pub gtb : ℤ → ℤ → Bool
gtb (pos a) (pos b) = ltb b a
gtb (pos a) (negsuc b) = true
gtb (negsuc a) (pos b) = false
gtb (negsuc a) (negsuc b) = ltb a b

abbrev pub is_stderr : ℤ → Bool
is_stderr (pos n) = n == 2
is_stderr (negsuc n) = false

-- The write to the log, and the one to the terminal that follows where it fails, but for a full disk.
unfoldable pub write_line : LogCalls → Log → List ℕ → List (ℤ × List ℕ)
write_line k log line = elim (k.write log.fd) [
  | none ↦ (log.fd, line) ∷ []
  | some errno ↦
      if errno == enospc
      then (log.fd, line) ∷ []
      else if is_stderr log.fd
      then (log.fd, line) ∷ []
      else (log.fd, line) ∷ (stderr_fileno, line) ∷ []
]

-- "nginx: ", the names of the two items, the file that is taken without the first, and the text where it cannot
-- be opened.
abbrev pub stderr_prefix : List ℕ
stderr_prefix = b'n' ∷ b'g' ∷ b'i' ∷ b'n' ∷ b'x' ∷ b':' ∷ b' ' ∷ []

abbrev pub log_name : List ℕ
log_name = b'L' ∷ b'o' ∷ b'g' ∷ []

abbrev pub log_level_name : List ℕ
log_level_name = b'L' ∷ b'o' ∷ b'g' ∷ b'L' ∷ b'e' ∷ b'v' ∷ b'e' ∷ b'l' ∷ []

abbrev pub error_log_path : List ℕ
error_log_path = b'e' ∷ b'r' ∷ b'r' ∷ b'o' ∷ b'r' ∷ b'.' ∷ b'l' ∷ b'o' ∷ b'g' ∷ []

abbrev pub open_failed : List ℕ
open_failed =
    b'[' ∷ b'a' ∷ b'l' ∷ b'e' ∷ b'r' ∷ b't' ∷ b']' ∷ b' ' ∷ b'c' ∷ b'o' ∷ b'u' ∷ b'l' ∷ b'd' ∷ b' '
    ∷ b'n' ∷ b'o' ∷ b't' ∷ b' ' ∷ b'o' ∷ b'p' ∷ b'e' ∷ b'n' ∷ b' ' ∷ b'e' ∷ b'r' ∷ b'r' ∷ b'o'
    ∷ b'r' ∷ b' ' ∷ b'l' ∷ b'o' ∷ b'g' ∷ b' ' ∷ b'f' ∷ b'i' ∷ b'l' ∷ b'e' ∷ b':' ∷ b' ' ∷ b'o'
    ∷ b'p' ∷ b'e' ∷ b'n' ∷ b'(' ∷ b')' ∷ b' ' ∷ 34 ∷ b'%' ∷ b's' ∷ 34 ∷ b' ' ∷ b'f' ∷ b'a' ∷ b'i'
    ∷ b'l' ∷ b'e' ∷ b'd' ∷ []

module _ (d : Double) where
  -- The text in front of the message; `far` is how far (u_char *) -1 is from `strcurrtime`.
  unfoldable pub log_head : ℕ → Clock → ℤ → ℕ → Option (List ℕ)
  unfolding ngx_vslprintf
  log_head far c pid level = and_then (get_elem? err_levels level) (λ name.
      and_then
        (ngx_vslprintf d far time_format
          (signed (pos (c.tm_year + 1900))
            ∷ signed (pos (c.tm_mon + 1))
            ∷ signed (pos c.tm_mday)
            ∷ signed (pos c.tm_hour)
            ∷ signed (pos c.tm_min)
            ∷ signed (pos c.tm_sec)
            ∷ [])
          [])
        (λ time.
          and_then (ngx_vslprintf d max_error_str level_format (string name ∷ []) time)
            (λ p. ngx_vslprintf d max_error_str pid_format (signed pid ∷ []) p)))

  -- The whole line.
  unfoldable pub log_line :
      LogCalls → ℕ → Clock → ℤ → ℕ → ℕ → List ℕ → List (Arg d) → Option (List ℕ)
  unfolding log_head add_errno end_line
  log_line k far c pid level err fmt args = and_then (log_head far c pid level) (λ p.
      and_then (ngx_vslprintf d max_error_str fmt args p)
        (λ q. and_then (add_errno k max_error_str err q) (λ r. some (end_line max_error_str r))))

  unfoldable pub ngx_log_error_core :
      LogCalls → Log → ℕ → Clock → ℤ → ℕ → ℕ → List ℕ → List (Arg d) → Option (List (ℤ × List ℕ))
  unfolding log_line write_line
  ngx_log_error_core k log far c pid level err fmt args =
      and_then (log_line k far c pid level err fmt args)
        (λ line. some (if gtb (pos level) log.log_level then [] else write_line k log line))

  -- The line for the terminal, and again for the log where there is one: there it is the format of
  -- ngx_log_error_core.
  unfoldable pub stderr_line : LogCalls → ℕ → List ℕ → List (Arg d) → Option (List ℕ)
  unfolding ngx_vslprintf add_errno end_line
  stderr_line k err fmt args =
      and_then (ngx_vslprintf d max_error_str fmt args stderr_prefix)
        (λ p. and_then (add_errno k max_error_str err p) (λ q. some (end_line max_error_str q)))

  unfoldable pub ngx_log_stderr :
      LogCalls → Log → ℕ → Clock → ℤ → ℕ → List ℕ → List (Arg d) → Option (List (ℤ × List ℕ))
  unfolding stderr_line ngx_log_error_core
  ngx_log_stderr k log far c pid err fmt args = and_then (stderr_line k err fmt args) (λ line.
      if gtb log.fd stderr_fileno
      then and_then (ngx_log_error_core k log far c pid 0 0 (take (length line - 1) line) [])
          (λ ws. some ((stderr_fileno, line) ∷ ws))
      else some ((stderr_fileno, line) ∷ []))

  -- `opens` is what open() returns for the file's name: a descriptor, or -1 with errno.
  unfoldable pub ngx_log_init :
      LogCalls
      → (List ℕ → ℤ)
      → (List ℕ → ℕ ⊎ ℕ)
      → ℕ
      → Clock
      → ℤ
      → List ConfItem
      → Log × Option (List (ℤ × List ℕ))
  unfolding ngx_log_stderr get_string get_int_default
  ngx_log_init k atoi opens far c pid items =
      let name : List ℕ = elim (get_string log_name items) [ none ↦ error_log_path | some n ↦ n ] in
      let level = get_int_default atoi log_level_name (pos 6) items in
      elim (opens name) [
        | inl fd ↦ (record { log_level = level; fd = pos fd }, some [])
        | inr errno ↦ (
          record { log_level = level; fd = stderr_fileno },
          ngx_log_stderr k (record { log_level = level; fd = negsuc 0 }) far c pid errno open_failed
              (string name ∷ []),
        )
      ]
