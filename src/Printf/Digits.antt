-- ===== src/Printf/Digits.antt =====
-- The digits of a number: read back, and how many there are.
use native.Mathlib.Nat.{pow-suc, pow-zero}
use linux_c_study.Prelude.{
  ℕ, zero, suc, ◌+◌, ◌-◌, ◌*◌, ◌/◌, ◌%◌, ◌^◌, ◌≤◌, ◌<◌, ◌≡◌, refl, ap, subst, ◌∙◌, inl, inr, List,
  [], ◌∷◌, arith, Bool-cases, leb→le, leb, ◌==◌, ==_iff, length,
}
use linux_c_study.Printf.{
  digits_loop, decimal, hex_lower, hex_upper, digits_fuel, number_digits, ngx_int64_len,
}
use linux_c_study.Printf.Format.{parse_number}

parse-digit :
    (a d : ℕ) (p : List ℕ)
    → d < 10
    → a * 10 + d < 2 ^ 64
    → parse_number a (decimal d ∷ p) ≡ parse_number (a * 10 + d) p
unfolding parse_number
parse-digit a d p h k =
    let w : (a * 10 + (d + 48 - 48)) % 2 ^ 64 ≡ a * 10 + d = omega arith in rw w (ground arith)

parse-digits_loop :
    (fuel n : ℕ) (p : List ℕ)
    → n < 2 ^ fuel
    → n < 2 ^ 64
    → parse_number 0 (digits_loop fuel 10 decimal n p) ≡ parse_number n p
unfolding digits_loop
parse-digits_loop zero n p h k = let e : n ≡ 0 = omega arith in rw e refl
parse-digits_loop (suc fuel) n p h k = elim (Bool-cases (n / 10 == 0)) [
  | inl e ↦
      let z : 0 * 10 + n % 10 ≡ n = omega (arith, (==_iff _ _).0 e) in
      rw e (parse-digit 0 (n % 10) p (omega arith) (omega arith) ∙ ap (λ m. parse_number m p) z)
  | inr e ↦
      let z : n / 10 * 10 + n % 10 ≡ n = omega arith in
      rw e (
        parse-digits_loop fuel (n / 10) (decimal (n % 10) ∷ p) (omega (arith, pow-suc 2 fuel))
          (omega arith)
        ∙ parse-digit (n / 10) (n % 10) p (omega arith) (omega arith)
        ∙ ap (λ m. parse_number m p) z)
]

-- Reading the decimal digits of a number below 2 ^ 64, the way ngx_vslprintf reads a width, gives the number
-- back, with nothing left over.
pub parse-number_digits : (n : ℕ) → n < 2 ^ 64 → parse_number 0 (number_digits 0 n) ≡ (n, [])
unfolding number_digits parse_number
parse-number_digits n h = elim (Bool-cases (leb n 0xffff_ffff)) [
  | inl e ↦
      let z : n % 2 ^ 32 ≡ n = omega (arith, leb→le _ _ e) in
      rw (e, z) (parse-digits_loop digits_fuel n [] h h)
  | inr e ↦ rw e (parse-digits_loop digits_fuel n [] h h)
]

pub length-digits_loop :
    (fuel k base : ℕ) (char : ℕ → ℕ) (n : ℕ) (p : List ℕ)
    → ((m : ℕ) (b : ℕ) → m < b * base → m / base < b)
    → n < base ^ suc k
    → length (digits_loop fuel base char n p) ≤ suc k + length p
unfolding digits_loop
length-digits_loop zero k base char n p half h = omega arith
length-digits_loop (suc fuel) zero base char n p half h =
    let one_base : base ^ suc zero ≡ 1 * base =
      pow-suc base 0 ∙ ap (λ k. k * base) (pow-zero base) in
    let z : n / base ≡ 0 = omega (arith, half n 1 (subst (λ b. n < b) one_base h)) in
    rw z (omega arith)
length-digits_loop (suc fuel) (suc k) base char n p half h = elim (Bool-cases (n / base == 0)) [
  | inl e ↦ rw e (omega arith)
  | inr e ↦ rw e (
      omega (
        arith,
        length-digits_loop fuel k base char (n / base) (char (n % base) ∷ p) half
            (half n (base ^ suc k) (omega (arith, pow-suc base (suc k)))),
      ))
]

decimal-length :
    (fuel n : ℕ) → n < 2 ^ 64 → length (digits_loop fuel 10 decimal n []) ≤ ngx_int64_len
decimal-length fuel n h =
    length-digits_loop fuel 19 10 decimal n [] (λ m b k. omega arith) (omega arith)

hex-length :
    (fuel : ℕ) (char : ℕ → ℕ) (n : ℕ)
    → n < 2 ^ 64
    → length (digits_loop fuel 16 char n []) ≤ ngx_int64_len
hex-length fuel char n h =
    omega (arith, length-digits_loop fuel 15 16 char n [] (λ m b k. omega arith) (omega arith))

-- The digits of a 64-bit number, decimal or hexadecimal, fit the twenty places of `temp` that they are
-- written to from the right.
pub length-number_digits : (hex n : ℕ) → n < 2 ^ 64 → length (number_digits hex n) ≤ ngx_int64_len
unfolding number_digits
length-number_digits hex n h = elim (Bool-cases (hex == 0)) [
  | inl e ↦ rw e (elim (Bool-cases (leb n 0xffff_ffff)) [
    | inl f ↦ rw f (decimal-length digits_fuel (n % 2 ^ 32) (omega arith))
    | inr f ↦ rw f (decimal-length digits_fuel n h)
  ])
  | inr e ↦ rw e (elim (Bool-cases (hex == 1)) [
    | inl f ↦ rw f (hex-length digits_fuel hex_lower n h)
    | inr f ↦ rw f (hex-length digits_fuel hex_upper n h)
  ])
]

decimal-short : (fuel k n : ℕ) → n < 10 ^ suc k → length (digits_loop fuel 10 decimal n []) ≤ suc k
decimal-short fuel k n h =
    omega (arith, length-digits_loop fuel k 10 decimal n [] (λ m b k. omega arith) h)

-- A number below 10 ^ (k + 1) has at most k + 1 decimal digits.
pub length-decimal : (k n : ℕ) → n < 2 ^ 32 → n < 10 ^ suc k → length (number_digits 0 n) ≤ suc k
unfolding number_digits
length-decimal k n h l = elim (Bool-cases (leb n 0xffff_ffff)) [
  | inl f ↦ let z : n % 2 ^ 32 ≡ n = omega (arith, h) in rw (f, z) (decimal-short digits_fuel k n l)
  | inr f ↦ rw f (decimal-short digits_fuel k n l)
]
