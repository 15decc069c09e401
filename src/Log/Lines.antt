-- ===== src/Log/Lines.antt =====
-- The form of the lines that are written, and which are written.
use mathlib.Core.List.{append-nil}
use linux_c_study.Prelude.{
  ℕ, ◌-◌, ◌<◌, ◌≤◌, ◌≡◌, ◌≢◌, inl, inr, refl, sym, ap, ◌∙◌, arith, List, [], ◌∷◌, ◌++◌, Option,
  none, some, Bool, true, false, Bool-cases, Option-cases, length, length-append, ==_iff, ==-false,
  take, take-append_ge, ltb, leb, leb→le, ◌==◌, if◌then◌else◌, leb-false, ltb-false, ltb→lt, ℤ, pos,
  negsuc,
}
use linux_c_study.Printf.Format.{Double, Arg, ngx_vslprintf}
use linux_c_study.Conf.{newline}
use linux_c_study.Log.{
  Log, LogCalls, Clock, max_error_str, stderr_fileno, enospc, and_then, add_errno, end_line, gtb,
  is_stderr, write_line, log_head, log_line, ngx_log_error_core, stderr_line, ngx_log_stderr,
  stderr_prefix,
}

-- The line for a text: the text and a newline, cut so that the newline is in the buffer with room for the zero
-- behind it.
pub data IsLine (text : List ℕ) : List ℕ → Type 0 where
  whole : length text < 2047 → IsLine text (text ++ newline ∷ [])
  cut : 2047 ≤ length text → IsLine text (take 2046 text ++ newline ∷ [])

end_line-IsLine : (buf : List ℕ) → IsLine buf (end_line max_error_str buf)
unfolding end_line
end_line-IsLine buf = elim (Bool-cases (leb (max_error_str - 1) (length buf))) [
  | inl e ↦ rw e (cut (leb→le (max_error_str - 1) (length buf) e))
  | inr e ↦ rw e (whole (omega (arith, leb-false (max_error_str - 1) (length buf) e)))
]

-- The calls of write() for a line: the log alone, where that call succeeds, finds the disk full or was for the
-- terminal already, and otherwise the terminal behind it.
pub data Written (k : LogCalls) (log : Log) (line : List ℕ) : List (ℤ × List ℕ) → Type 0 where
  to_log : k.write log.fd ≡ none → Written k log line ((log.fd, line) ∷ [])
  disk_full : k.write log.fd ≡ some 28 → Written k log line ((log.fd, line) ∷ [])
  to_terminal :
      (err : ℕ)
      → k.write log.fd ≡ some err
      → log.fd ≡ pos 2
      → Written k log line ((log.fd, line) ∷ [])
  falls_back :
      (err : ℕ)
      → k.write log.fd ≡ some err
      → err ≢ 28
      → log.fd ≢ pos 2
      → Written k log line ((log.fd, line) ∷ (pos 2, line) ∷ [])

is_stderr-pos : (fd : ℤ) → is_stderr fd ≡ true → fd ≡ pos 2
is_stderr-pos (pos n) h = ap pos ((==_iff n 2).0 h)
is_stderr-pos (negsuc n) h = cc

is_stderr-ne : (fd : ℤ) → is_stderr fd ≡ false → fd ≢ pos 2
is_stderr-ne fd h e = (let z : true ≡ false = sym (ap is_stderr e) ∙ h in cc)

write_line-Written :
    (k : LogCalls) (log : Log) (line : List ℕ) → Written k log line (write_line k log line)
unfolding write_line
write_line-Written k log line = elim (Option-cases (k.write log.fd)) [
  | inl e ↦ rw (e, write_line) (to_log e)
  | inr (errno, e) ↦
      rw (e, write_line)
        (elim (Bool-cases (errno == enospc)) [
          | inl f ↦ rw f (disk_full (e ∙ ap some ((==_iff errno enospc).0 f)))
          | inr f ↦ rw f (elim (Bool-cases (is_stderr log.fd)) [
            | inl g ↦ rw g (to_terminal errno e (is_stderr-pos log.fd g))
            | inr g ↦ rw g (falls_back errno e (==-false errno enospc f) (is_stderr-ne log.fd g))
          ])
        ])
]

-- What is written about a text on a level: nothing above the level of the configuration, else its line. Nothing
-- is defined where the text is not.
pub data Logged (k : LogCalls) (log : Log) (level : ℕ)
    : Option (List ℕ) → Option (List (ℤ × List ℕ)) → Type 0 where
  undefined : Logged k log level none none
  above :
      {text : List ℕ} (n : ℕ)
      → log.log_level ≡ pos n
      → n < level
      → Logged k log level (some text) (some [])
  below_zero :
      {text : List ℕ} (n : ℕ) → log.log_level ≡ negsuc n → Logged k log level (some text) (some [])
  logged :
      {text line : List ℕ} {ws : List (ℤ × List ℕ)} (n : ℕ)
      → log.log_level ≡ pos n
      → level ≤ n
      → IsLine text line
      → Written k log line ws
      → Logged k log level (some text) (some ws)

take-before : (xs : List ℕ) (x : ℕ) → take (length (xs ++ x ∷ []) - 1) (xs ++ x ∷ []) ≡ xs
take-before xs x =
    let n : length (xs ++ x ∷ []) - 1 ≡ length xs = omega (arith, length-append xs (x ∷ [])) in
    let z : length xs - length xs ≡ 0 = omega arith in
    ap (λ k. take k (xs ++ x ∷ [])) n
    ∙ take-append_ge (length xs) xs (x ∷ []) (omega arith)
    ∙ ap (λ k. xs ++ take k (x ∷ [])) z
    ∙ append-nil xs

abbrev sign : ℤ → Bool
sign (pos n) = true
sign (negsuc n) = false

abbrev size : ℤ → ℕ
size (pos n) = n
size (negsuc n) = n

negsuc_not_pos : {m n : ℕ} → negsuc n ≢ pos m
negsuc_not_pos e = (let z : false ≡ true = ap sign e in cc)

pos_same : {m n : ℕ} → pos n ≡ pos m → n ≡ m
pos_same e = ap size e

module _ (d : Double) where
  -- The text of a line of the log: the head, the message and the error.
  pub log_text : LogCalls → ℕ → Clock → ℤ → ℕ → ℕ → List ℕ → List (Arg d) → Option (List ℕ)
  log_text k far c pid level err fmt args =
      and_then (log_head d far c pid level)
        (λ p. and_then (ngx_vslprintf d max_error_str fmt args p) (add_errno k max_error_str err))

  log_line-text :
      (k : LogCalls) (far : ℕ) (c : Clock) (pid : ℤ) (level err : ℕ) (fmt : List ℕ)
      (args : List (Arg d))
      → log_line d k far c pid level err fmt args
        ≡ and_then (log_text k far c pid level err fmt args) (λ r. some (end_line max_error_str r))
  unfolding log_line log_text
  log_line-text k far c pid level err fmt args = elim (Option-cases (log_head d far c pid level)) [
    | inl e ↦ rw (e, log_line) refl
    | inr (p, e) ↦
        rw (e, log_line)
          (elim (Option-cases (ngx_vslprintf d max_error_str fmt args p)) [
            | inl f ↦ rw f refl
            | inr (q, f) ↦ rw f refl
          ])
  ]

  line-Logged :
      (k : LogCalls) (log : Log) (level : ℕ) (z : ℤ) (o : Option (List ℕ))
      → log.log_level ≡ z
      → Logged k log level o (
          and_then
            (and_then o (λ r. some (end_line max_error_str r)))
            (λ line. some (if gtb (pos level) z then [] else write_line k log line)))
  line-Logged k log level z none e = undefined
  line-Logged k log level (negsuc n) (some text) e = below_zero n e
  line-Logged k log level (pos n) (some text) e = elim (Bool-cases (ltb n level)) [
    | inl f ↦ rw f (above n e (ltb→lt n level f))
    | inr f ↦ rw f (
        logged n e (ltb-false n level f) (end_line-IsLine text)
          (write_line-Written k log (end_line max_error_str text)))
  ]

  -- What a call of ngx_log_error_core writes: nothing for a level above that of the configuration, and else one line,
  -- to the log and, if that fails for another reason than a full disk and the log is not the terminal, to
  -- the terminal. The line is the text of head, message and error with a newline, cut to 2047 bytes in all
  -- where that is longer. The call is undefined exactly where the text is.
  pub log_error_core-Logged :
      (k : LogCalls) (log : Log) (far : ℕ) (c : Clock) (pid : ℤ) (level err : ℕ) (fmt : List ℕ)
      (args : List (Arg d))
      → Logged k log level
          (log_text k far c pid level err fmt args)
          (ngx_log_error_core d k log far c pid level err fmt args)
  unfolding ngx_log_error_core
  log_error_core-Logged k log far c pid level err fmt args =
      rw (log_line-text k far c pid level err fmt args)
        (line-Logged k log level log.log_level (log_text k far c pid level err fmt args) refl)

  -- The text for the terminal: its beginning, the message and the error.
  pub stderr_text : LogCalls → ℕ → List ℕ → List (Arg d) → Option (List ℕ)
  stderr_text k err fmt args =
      and_then (ngx_vslprintf d max_error_str fmt args stderr_prefix)
        (add_errno k max_error_str err)

  stderr_line-text :
      (k : LogCalls) (err : ℕ) (fmt : List ℕ) (args : List (Arg d))
      → stderr_line d k err fmt args
        ≡ and_then (stderr_text k err fmt args) (λ r. some (end_line max_error_str r))
  unfolding stderr_line stderr_text
  stderr_line-text k err fmt args =
      elim (Option-cases (ngx_vslprintf d max_error_str fmt args stderr_prefix)) [
        | inl e ↦ rw (e, stderr_line) refl
        | inr (p, e) ↦ rw (e, stderr_line) refl
      ]

  -- What ngx_log_stderr writes about a text: its line to the terminal, and where the log has a descriptor behind the
  -- terminal's, what is logged about the same line without its newline, as a message of the level 0.
  pub data Shown (k : LogCalls) (log : Log) (far : ℕ) (c : Clock) (pid : ℤ)
      : Option (List ℕ) → Option (List (ℤ × List ℕ)) → Type 0 where
    not_shown : Shown k log far c pid none none
    no_file :
        {text line : List ℕ}
        → ((n : ℕ) → log.fd ≡ pos n → n ≤ 2)
        → IsLine text line
        → Shown k log far c pid (some text) (some ((pos 2, line) ∷ []))
    file_too :
        {text : List ℕ} {o : Option (List (ℤ × List ℕ))} (message : List ℕ) (n : ℕ)
        → log.fd ≡ pos n
        → 2 < n
        → IsLine text (message ++ newline ∷ [])
        → Logged k log 0 (log_text k far c pid 0 0 message []) o
        → Shown k log far c pid
            (some text)
            (and_then o (λ ws. some ((pos 2, message ++ newline ∷ []) ∷ ws)))

  line-Shown :
      (k : LogCalls) (log : Log) (far : ℕ) (c : Clock) (pid z : ℤ) (text line : List ℕ)
      → log.fd ≡ z
      → IsLine text line
      → Shown k log far c pid (some text) (
          if gtb z stderr_fileno
          then and_then
              (ngx_log_error_core d k log far c pid 0 0 (take (length line - 1) line) [])
              (λ ws. some ((stderr_fileno, line) ∷ ws))
          else some ((stderr_fileno, line) ∷ []))
  line-Shown k log far c pid (negsuc n) text line e h =
      no_file (λ m f. (let z = sym e ∙ f in absurd (negsuc_not_pos z))) h
  line-Shown k log far c pid (pos n) text line e h = elim (Bool-cases (ltb 2 n)) [
    | inr f ↦ rw f (no_file (λ m g. omega (arith, ltb-false 2 n f, pos_same (sym e ∙ g))) h)
    | inl f ↦ rw f (with_file h (ltb→lt 2 n f))
  ]
    where
      with_file :
          {l : List ℕ}
          → IsLine text l
          → 2 < n
          → Shown k log far c pid (some text) (
              and_then
                (ngx_log_error_core d k log far c pid 0 0 (take (length l - 1) l) [])
                (λ ws. some ((stderr_fileno, l) ∷ ws)))
      with_file (whole b) lt =
          rw (take-before text newline)
            (file_too text n e lt (whole b) (log_error_core-Logged k log far c pid 0 0 text []))
      with_file (cut b) lt = rw (take-before (take 2046 text) newline) (
          file_too (take 2046 text) n e lt (cut b)
            (log_error_core-Logged k log far c pid 0 0 (take 2046 text) []))

  -- What a call of ngx_log_stderr writes: one line to the terminal, the text of "nginx: ", message and error with a
  -- newline, cut to 2047 bytes in all; and where the log is a file, behind it what ngx_log_error_core writes
  -- on level 0 with the same line, but for its newline, as the format. The call is undefined exactly where the text
  -- is, or where that line is no format without arguments.
  pub log_stderr-Shown :
      (k : LogCalls) (log : Log) (far : ℕ) (c : Clock) (pid : ℤ) (err : ℕ) (fmt : List ℕ)
      (args : List (Arg d))
      → Shown k log far c pid
          (stderr_text k err fmt args)
          (ngx_log_stderr d k log far c pid err fmt args)
  unfolding ngx_log_stderr
  log_stderr-Shown k log far c pid err fmt args =
      rw (stderr_line-text k err fmt args) (elim (Option-cases (stderr_text k err fmt args)) [
        | inl e ↦ rw e not_shown
        | inr (text, e) ↦ rw e (
            line-Shown k log far c pid log.fd text (end_line max_error_str text) refl
              (end_line-IsLine text))
      ])
