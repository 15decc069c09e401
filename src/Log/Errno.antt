-- ===== src/Log/Errno.antt =====
-- What ngx_log_errno appends.
use linux_c_study.Prelude.{
  ℕ, ◌+◌, ◌<◌, ◌≤◌, ◌≡◌, ◌⊎◌, inl, inr, refl, arith, List, [], ◌∷◌, ◌++◌, some, Bool-cases, length,
  length-append, ltb, ltb-false, lt→ltb, ltb→lt,
}
use linux_c_study.Printf.{digits_loop, decimal}
use linux_c_study.Printf.Digits.{length-digits_loop}
use linux_c_study.Log.{LogCalls, ngx_log_errno}

-- The text for an error: its number and what strerror() says, in brackets.
abbrev pub errno_text : LogCalls → ℕ → List ℕ
errno_text k err =
    (b' ' ∷ b'(' ∷ digits_loop 10 10 decimal err (b':' ∷ b' ' ∷ []))
    ++ (k.strerror err ++ b')' ∷ b' ' ∷ [])

length-leftstr :
    (err : ℕ)
    → err < 100000
    → length (b' ' ∷ b'(' ∷ digits_loop 10 10 decimal err (b':' ∷ b' ' ∷ [])) < 10
length-leftstr err h = omega (
  arith,
  length-digits_loop 10 4 10 decimal err (b':' ∷ b' ' ∷ []) (λ m b k. omega arith)
      (omega (arith, h)),
)

-- For an error number of at most five digits, ngx_log_errno appends the whole text of the error where it ends in
-- front of the buffer's last place, and where it would not, it leaves the buffer as it is.
pub log_errno-whole :
    (k : LogCalls) (cap err : ℕ) (buf : List ℕ)
    → err < 100000
    → (r : List ℕ) × ((ngx_log_errno k cap err buf ≡ some r)
        × (((r ≡ buf ++ errno_text k err) × (length r < cap))
            ⊎ ((r ≡ buf) × (cap ≤ length buf + length (errno_text k err)))))
unfolding ngx_log_errno
log_errno-whole k cap err buf h =
    rw (lt→ltb _ 10 (length-leftstr err h))
      (elim (Bool-cases (ltb (length buf + length (errno_text k err)) cap)) [
        | inl e ↦ rw e (
          _,
          (refl, inl (refl, omega (arith, length-append buf (errno_text k err), ltb→lt _ cap e))),
        )
        | inr e ↦ rw e (_, (refl, inr (refl, ltb-false _ cap e)))
      ])
