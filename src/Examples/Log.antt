-- ===== src/Examples/Log.antt =====
-- Lines of the log.
use linux_c_study.Prelude.{
  ℕ, ◌+◌, ◌<◌, ◌≤◌, ◌≡◌, ◌⊎◌, ◌++◌, length, arith, refl, List, [], ◌∷◌, none, some, false, ◌-◌, ◌*◌,
  pos,
}
use linux_c_study.Printf.Format.{Double, signed, string}
use linux_c_study.Log.{Log, LogCalls, Clock, ngx_log_errno, ngx_log_error_core, ngx_log_stderr}
use linux_c_study.Log.Errno.{errno_text, log_errno-whole}
use linux_c_study.Log.Lines.{
  log_text, stderr_text, Logged, Shown, log_error_core-Logged, log_stderr-Shown,
}

abbrev no_doubles : Double
no_doubles = record {
  D = ℕ;
  negative = λ f. false;
  negate = λ f. f;
  whole = λ f. f;
  fraction = λ f ui64 scale. (f - ui64) * scale;
}

abbrev disk_full : LogCalls
disk_full = record { strerror = λ err. b'e' ∷ b'h' ∷ []; write = λ fd. some 28 }

abbrev file : Log
file = record { log_level = pos 6; fd = pos 3 }

abbrev clock : Clock
clock = record { tm_year = 119; tm_mon = 0; tm_mday = 8; tm_hour = 19; tm_min = 57; tm_sec = 11 }

-- "%d"
abbrev number : List ℕ
number = b'%' ∷ b'd' ∷ []

abbrev text : List ℕ
text = b'x' ∷ []

log_error_core-Logged_example :
    Logged disk_full file 3
      (log_text no_doubles disk_full 4096 clock (pos 77) 3 13 number (signed (pos 5) ∷ []))
      (ngx_log_error_core no_doubles disk_full file 4096 clock
        (pos 77)
        3
        13
        number
        (signed (pos 5) ∷ []))
log_error_core-Logged_example =
    log_error_core-Logged no_doubles disk_full file 4096 clock (pos 77) 3 13 number
      (signed (pos 5) ∷ [])

log_stderr-Shown_example :
    Shown no_doubles disk_full file 4096 clock
      (pos 77)
      (stderr_text no_doubles disk_full 0 number (signed (pos 5) ∷ []))
      (ngx_log_stderr no_doubles disk_full file 4096 clock (pos 77) 0 number (signed (pos 5) ∷ []))
log_stderr-Shown_example =
    log_stderr-Shown no_doubles disk_full file 4096 clock (pos 77) 0 number (signed (pos 5) ∷ [])

log_errno-whole_example :
    (r : List ℕ) × ((ngx_log_errno disk_full 20 13 text ≡ some r)
      × (((r ≡ text ++ errno_text disk_full 13) × (length r < 20))
          ⊎ ((r ≡ text) × (20 ≤ length text + length (errno_text disk_full 13)))))
log_errno-whole_example = log_errno-whole disk_full 20 13 text (omega arith)

-- A per cent sign that came in through an argument: the second formatting reads an argument that is not there.
percent_again :
    ngx_log_stderr no_doubles disk_full file 4096 clock
      (pos 77)
      0
      (b'%' ∷ b's' ∷ [])
      (string number ∷ [])
    ≡ none
unfolding ngx_log_stderr
percent_again = refl
