-- ===== src/Printf/Ends.antt =====
-- The loop of ngx_vslprintf ends.
use linux_c_study.Prelude.{
  ℕ, zero, suc, ◌+◌, ◌-◌, ◌*◌, ◌%◌, ◌^◌, ◌≤◌, ◌<◌, ◌≡◌, refl, inl, inr, List, [], ◌∷◌, ◌++◌, Option,
  none, some, Bool, true, false, Bool-cases, arith, ltb, ltb→lt, ◌==◌, ==_iff, subst, sym, length,
}
use linux_c_study.Printf.Format.{
  Double, Spec, Arg, parse_number, parse_flags, parse_spec, convert, conversion, vslprintf_loop,
  ngx_vslprintf,
}

length-parse_number : (n : ℕ) (fmt : List ℕ) → length (parse_number n fmt).1 ≤ length fmt
unfolding parse_number
length-parse_number n [] = omega arith
length-parse_number n (c ∷ fmt) =
    ground (arith, length-parse_number ((n * 10 + (c - b'0')) % 2 ^ 64) fmt)

length-parse_flags :
    (sign : Bool) (hex : ℕ) (fmt : List ℕ) → length (parse_flags sign hex fmt).3 ≤ length fmt
unfolding parse_flags
length-parse_flags sign hex [] = omega arith
length-parse_flags sign hex (c ∷ fmt) = ground (
  arith,
  length-parse_flags false hex fmt,
  length-parse_flags false 2 fmt,
  length-parse_flags false 1 fmt,
  length-parse_number 0 fmt,
)

length-parse_spec : (fmt : List ℕ) → length (parse_spec fmt).fmt ≤ length fmt
unfolding parse_spec
length-parse_spec fmt =
    omega (arith, length-parse_number 0 fmt, length-parse_flags true 0 (parse_number 0 fmt).1)

module _ (d : Double) (cap : ℕ) where
  abbrev Shorter : ℕ → Option (List ℕ × List (Arg d) × List ℕ) → Type 0
  Shorter n none = Unit
  Shorter n (some (fmt, args, buf)) = length fmt < n

  conversion-Shorter :
      (s : Spec) (fmt : List ℕ) (args : List (Arg d)) (buf : List ℕ) (n : ℕ)
      → length fmt ≤ n
      → Shorter n (conversion d cap s fmt args buf)
  unfolding conversion
  conversion-Shorter s [] args buf n h = tt
  conversion-Shorter s (c ∷ fmt) args buf n h = go (convert d cap s c args buf)
    where
      go :
          (r : Option (List ℕ × List (Arg d)))
          → Shorter n (elim r [ none ↦ none | some (buf', args') ↦ some (fmt, args', buf') ])
      go none = tt
      go (some (buf', args')) = omega arith

  -- A format comes to a conversion that is not defined: where its '%' stands there is still room in the buffer, and
  -- everything in front of it has been written.
  pub data Undefined : List ℕ → List (Arg d) → List ℕ → Type 0 where
    fails :
        {fmt : List ℕ} {args : List (Arg d)} {buf : List ℕ}
        → length buf < cap
        → conversion d cap (parse_spec fmt) ((parse_spec fmt).fmt) args buf ≡ none
        → Undefined (b'%' ∷ fmt) args buf
    behind :
        {c : ℕ} {fmt : List ℕ} {args : List (Arg d)} {buf : List ℕ}
        → (c == b'%') ≡ false
        → length buf < cap
        → Undefined fmt args (buf ++ c ∷ [])
        → Undefined (c ∷ fmt) args buf
    converts :
        {fmt fmt' : List ℕ} {args args' : List (Arg d)} {buf buf' : List ℕ}
        → length buf < cap
        → conversion d cap (parse_spec fmt) ((parse_spec fmt).fmt) args buf
          ≡ some (fmt', args', buf')
        → Undefined fmt' args' buf'
        → Undefined (b'%' ∷ fmt) args buf

  vslprintf_loop-ends :
      (fuel : ℕ) (fmt : List ℕ) (args : List (Arg d)) (buf : List ℕ)
      → length fmt ≤ fuel
      → vslprintf_loop d fuel cap fmt args buf ≡ none
      → Undefined fmt args buf
  unfolding vslprintf_loop
  vslprintf_loop-ends zero [] args buf h = λ e. cc
  vslprintf_loop-ends zero (c ∷ fmt) args buf h = absurd (omega arith)
  vslprintf_loop-ends (suc fuel) [] args buf h = λ e. cc
  vslprintf_loop-ends (suc fuel) (c ∷ fmt) args buf h = elim (Bool-cases (ltb (length buf) cap)) [
    | inr f ↦ rw f (λ e. cc)
    | inl f ↦ rw f (elim (Bool-cases (c == b'%')) [
      | inr g ↦ rw g (λ e.
          behind g (ltb→lt _ _ f)
            (vslprintf_loop-ends fuel fmt args (buf ++ c ∷ []) (omega arith) e))
      | inl g ↦ rw g (λ e.
          subst (λ x. Undefined (x ∷ fmt) args buf) (sym ((==_iff _ _).0 g))
            (converted (conversion d cap s s.fmt args buf) refl
              (conversion-Shorter s s.fmt args buf (length fmt) (length-parse_spec fmt)) e
              (ltb→lt _ _ f)
              (λ fmt' args' buf' l. vslprintf_loop-ends fuel fmt' args' buf' (omega arith))))
    ])
  ]
    where
      s : Spec
      s = parse_spec fmt

      converted :
          (r : Option (List ℕ × List (Arg d) × List ℕ))
          → conversion d cap s s.fmt args buf ≡ r
          → Shorter (length fmt) r
          → ◌≡◌ {A = Option (List ℕ)}
              (elim r [
                | none ↦ none
                | some (fmt', args', buf') ↦ vslprintf_loop d fuel cap fmt' args' buf'
              ])
              none
          → length buf < cap
          → ((fmt' : List ℕ) (args' : List (Arg d)) (buf' : List ℕ)
              → length fmt' < length fmt
              → vslprintf_loop d fuel cap fmt' args' buf' ≡ none
              → Undefined fmt' args' buf')
          → Undefined (b'%' ∷ fmt) args buf
      converted none q w e lt ih = fails lt q
      converted (some (fmt', args', buf')) q w e lt ih = converts lt q (ih fmt' args' buf' w e)

  -- ngx_vslprintf returns for every format and all arguments, unless it comes, with room in
  -- the buffer, to a conversion that is not defined. A loop that did not end would have no result either.
  pub vslprintf-ends :
      (fmt : List ℕ) (args : List (Arg d)) (buf : List ℕ)
      → ngx_vslprintf d cap fmt args buf ≡ none
      → Undefined fmt args buf
  unfolding ngx_vslprintf
  vslprintf-ends fmt args buf e = vslprintf_loop-ends (length fmt) fmt args buf (omega arith) e
