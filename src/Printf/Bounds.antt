-- ===== src/Printf/Bounds.antt =====
-- ngx_vslprintf never writes at or behind `last`.
use linux_c_study.Prelude.{
  ℕ, zero, suc, ◌+◌, ◌^◌, ◌≤◌, ◌<◌, ◌≡◌, inl, inr, List, [], ◌∷◌, ◌++◌, Option, none, some, Bool,
  true, false, arith, Bool-cases, ltb, ltb→lt, ◌==◌, ◌||◌, if◌then◌else◌, length, length-append, ℤ,
  pos, negsuc,
}
use linux_c_study.Printf.Number.{length-sprintf_num}
use linux_c_study.Printf.Format.{
  Double, Spec, Arg, signed, unsigned, pointer, string, double, copy_string, put_signed,
  put_integer, put_pid, put_pointer, put_string, put_fraction, split_double, put_abs, put_double,
  convert, conversion, parse_spec, vslprintf_loop, ngx_vslprintf,
}

copy_string-le :
    (cap : ℕ) (buf p : List ℕ) → length buf ≤ cap → length (copy_string cap buf p) ≤ cap
unfolding copy_string
copy_string-le cap buf [] h = h
copy_string-le cap buf (c ∷ p) h = elim (Bool-cases (ltb (length buf) cap)) [
  | inl e ↦ rw e (
      copy_string-le cap (buf ++ c ∷ []) p
        (omega (arith, length-append buf (c ∷ []), ltb→lt _ _ e)))
  | inr e ↦ rw e h
]

pub one_more : (cap c : ℕ) (buf : List ℕ) → length buf < cap → length (buf ++ c ∷ []) ≤ cap
one_more cap c buf h = omega (arith, length-append buf (c ∷ []))

-- The result of a conversion, or of the whole call, does not go over the end.
abbrev pub Within {ℓ} : {B : Type ℓ} → ℕ → Option (List ℕ × B) → Type 0
Within cap none = Unit
Within cap (some (buf, b)) = length buf ≤ cap

if-Within {ℓ} :
    {B : Type ℓ} (cap : ℕ) (b : Bool) (x y : Option (List ℕ × B))
    → Within cap x
    → Within cap y
    → Within cap (if b then x else y)
if-Within cap true x y p q = p
if-Within cap false x y p q = q

abbrev pub AllWithin : ℕ → Option (List ℕ) → Type 0
AllWithin cap none = Unit
AllWithin cap (some buf) = length buf ≤ cap

if-AllWithin :
    (cap : ℕ) (b : Bool) (x y : Option (List ℕ))
    → (b ≡ true → AllWithin cap x)
    → AllWithin cap y
    → AllWithin cap (if b then x else y)
if-AllWithin cap true x y p q = p (λ i. true)
if-AllWithin cap false x y p q = q

module _ (d : Double) (cap : ℕ) (small : cap < 2 ^ 64) where
  put_signed-le :
      (s : Spec) (i : ℤ) (buf : List ℕ) → length buf < cap → length (put_signed d cap s i buf) ≤ cap
  unfolding put_signed
  put_signed-le s (pos n) buf h =
      length-sprintf_num cap buf n s.char s.hex s.width (omega arith) small
  put_signed-le s (negsuc n) buf h =
      length-sprintf_num cap (buf ++ b'-' ∷ []) (n + 1) s.char s.hex s.width
        (one_more cap b'-' buf h) small

  put_integer-Within :
      (s : Spec) (sign : Bool) (args : List (Arg d)) (buf : List ℕ)
      → length buf < cap
      → Within cap (put_integer d cap s sign args buf)
  unfolding put_integer
  put_integer-Within s true (signed i ∷ args) buf h = put_signed-le s i buf h
  put_integer-Within s false (unsigned n ∷ args) buf h =
      length-sprintf_num cap buf n s.char s.hex s.width (omega arith) small
  put_integer-Within s true [] buf h = tt
  put_integer-Within s false [] buf h = tt
  put_integer-Within s true (_ ∷ args) buf h = tt
  put_integer-Within s false (_ ∷ args) buf h = tt

  put_pid-Within :
      (s : Spec) (args : List (Arg d)) (buf : List ℕ)
      → length buf < cap
      → Within cap (put_pid d cap s args buf)
  unfolding put_pid
  put_pid-Within s (signed i ∷ args) buf h = put_signed-le s i buf h
  put_pid-Within s [] buf h = tt
  put_pid-Within s (_ ∷ args) buf h = tt

  put_pointer-Within :
      (args : List (Arg d)) (buf : List ℕ)
      → length buf < cap
      → Within cap (put_pointer d cap args buf)
  unfolding put_pointer
  put_pointer-Within (pointer a ∷ args) buf h =
      length-sprintf_num cap buf a b'0' 2 16 (omega arith) small
  put_pointer-Within [] buf h = tt
  put_pointer-Within (_ ∷ args) buf h = tt

  put_string-Within :
      (args : List (Arg d)) (buf : List ℕ)
      → length buf < cap
      → Within cap (put_string d cap args buf)
  unfolding put_string
  put_string-Within (string p ∷ args) buf h = copy_string-le cap buf p (omega arith)
  put_string-Within [] buf h = tt
  put_string-Within (_ ∷ args) buf h = tt

  put_fraction-le :
      (s : Spec) (frac : ℕ) (buf : List ℕ)
      → length buf ≤ cap
      → length (put_fraction d cap s frac buf) ≤ cap
  unfolding put_fraction
  put_fraction-le s frac buf h = elim (Bool-cases (s.frac_width == 0)) [
    | inl e ↦ rw e h
    | inr e ↦ rw e (elim (Bool-cases (ltb (length buf) cap)) [
      | inl f ↦ rw f (
          length-sprintf_num cap (buf ++ b'.' ∷ []) frac b'0' 0 s.frac_width
            (one_more cap b'.' buf (ltb→lt _ _ f)) small)
      | inr f ↦ rw f (length-sprintf_num cap buf frac b'0' 0 s.frac_width h small)
    ])
  ]

  put_abs-le :
      (s : Spec) (f : d.D) (buf : List ℕ) → length buf ≤ cap → length (put_abs d cap s f buf) ≤ cap
  unfolding put_abs
  put_abs-le s f buf h =
      put_fraction-le s (split_double d s f).1 _
        (length-sprintf_num cap buf (split_double d s f).0 s.char 0 s.width h small)

  put_double-Within :
      (s : Spec) (args : List (Arg d)) (buf : List ℕ)
      → length buf < cap
      → Within cap (put_double d cap s args buf)
  unfolding put_double
  put_double-Within s (double f ∷ args) buf h = elim (Bool-cases (d.negative f)) [
    | inl e ↦ rw e (put_abs-le s (d.negate f) (buf ++ b'-' ∷ []) (one_more cap b'-' buf h))
    | inr e ↦ rw e (put_abs-le s f buf (omega arith))
  ]
  put_double-Within s [] buf h = tt
  put_double-Within s (_ ∷ args) buf h = tt

  convert-Within :
      (s : Spec) (c : ℕ) (args : List (Arg d)) (buf : List ℕ)
      → length buf < cap
      → Within cap (convert d cap s c args buf)
  unfolding convert
  convert-Within s c args buf h = if-Within cap (c == b'%') _ _ (one_more cap b'%' buf h) (
      if-Within cap (c == b'd' || c == b'i' || c == b'L') _ _
        (put_integer-Within s s.sign args buf h)
        (if-Within cap (c == b'p') _ _ (put_pointer-Within args buf h) (
          if-Within cap (c == b's') _ _ (put_string-Within args buf h) (
            if-Within cap (c == b'P') _ _ (put_pid-Within s args buf h) (
              if-Within cap (c == b'f') _ _ (put_double-Within s args buf h)
                (one_more cap c buf h))))))

  -- What a conversion gives the loop.
  abbrev Next : Option (List ℕ × List (Arg d) × List ℕ) → Type 0
  Next none = Unit
  Next (some (fmt, args, buf)) = length buf ≤ cap

  conversion-Next :
      (s : Spec) (fmt : List ℕ) (args : List (Arg d)) (buf : List ℕ)
      → length buf < cap
      → Next (conversion d cap s fmt args buf)
  unfolding conversion
  conversion-Next s [] args buf h = tt
  conversion-Next s (c ∷ fmt) args buf h =
      go (convert d cap s c args buf) (convert-Within s c args buf h)
    where
      go :
          (r : Option (List ℕ × List (Arg d)))
          → Within cap r
          → Next (elim r [ none ↦ none | some (buf', args') ↦ some (fmt, args', buf') ])
      go none w = tt
      go (some (buf', args')) w = w

  vslprintf_loop-AllWithin :
      (fuel : ℕ) (fmt : List ℕ) (args : List (Arg d)) (buf : List ℕ)
      → length buf ≤ cap
      → AllWithin cap (vslprintf_loop d fuel cap fmt args buf)
  unfolding vslprintf_loop
  vslprintf_loop-AllWithin zero [] args buf h = h
  vslprintf_loop-AllWithin zero (c ∷ fmt) args buf h = tt
  vslprintf_loop-AllWithin (suc fuel) [] args buf h = h
  vslprintf_loop-AllWithin (suc fuel) (c ∷ fmt) args buf h =
      if-AllWithin cap (ltb (length buf) cap) _ _
        (λ e.
          if-AllWithin cap (c == b'%') _ _
            (λ _.
              go (conversion d cap s s.fmt args buf)
                (conversion-Next s s.fmt args buf (ltb→lt _ _ e)) (vslprintf_loop-AllWithin fuel))
            (vslprintf_loop-AllWithin fuel fmt args (buf ++ c ∷ [])
              (one_more cap c buf (ltb→lt _ _ e))))
        h
    where
      s : Spec
      s = parse_spec fmt

      go :
          (r : Option (List ℕ × List (Arg d) × List ℕ))
          → Next r
          → ((fmt' : List ℕ) (args' : List (Arg d)) (buf' : List ℕ)
              → length buf' ≤ cap
              → AllWithin cap (vslprintf_loop d fuel cap fmt' args' buf'))
          → AllWithin cap (elim r [
            | none ↦ none
            | some (fmt', args', buf') ↦ vslprintf_loop d fuel cap fmt' args' buf'
          ])
      go none w ih = tt
      go (some (fmt', args', buf')) w ih = ih fmt' args' buf' w

  -- Whatever the format, the arguments and the operations on doubles, the text lies before `last`, fewer than
  -- 2 ^ 64 bytes away, where the buffer's start does not lie behind it; nothing is said where the format or the
  -- arguments leave the result undefined.
  pub ngx_vslprintf-AllWithin :
      (fmt : List ℕ) (args : List (Arg d)) (buf : List ℕ)
      → length buf ≤ cap
      → AllWithin cap (ngx_vslprintf d cap fmt args buf)
  unfolding ngx_vslprintf
  ngx_vslprintf-AllWithin fmt args buf h = vslprintf_loop-AllWithin (length fmt) fmt args buf h
