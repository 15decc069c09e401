-- ===== src/ReadTest/Conf/Numbers.antt =====
-- Numbers in the configuration: what GetInt makes of the digits that stand in the file.
use linux_c_study.Prelude.{
  ℕ, zero, suc, ◌+◌, ◌-◌, ◌*◌, ◌/◌, ◌%◌, ◌^◌, ◌<◌, ◌≡◌, refl, ap, ◌∙◌, inl, inr, List, [], ◌∷◌,
  some, arith, Bool-cases, leb→le, leb, ◌==◌, ==_iff, map, pos,
}
use mathlib.Core.List.{flatten}
use native.Mathlib.Nat.{pow-suc}
use linux_c_study.Printf.{digits_loop, decimal, digits_fuel, number_digits}
use linux_c_study.ReadTest.Conf.{ConfigMap, find, load, signed, to_int, int_or, int_of, get_int}
use linux_c_study.ReadTest.Conf.Lookup.{Entry, AllClean, render, latest, load-latest}

to_int-digit :
    (a d : ℕ) (p : List ℕ)
    → d < 10
    → a * 10 + d < 2 ^ 32
    → to_int a (decimal d ∷ p) ≡ to_int (a * 10 + d) p
unfolding to_int
to_int-digit a d p h k =
    let w : (a * 10 + (d + 48 - 48)) % 2 ^ 32 ≡ a * 10 + d = omega arith in rw w (ground arith)

to_int-digits_loop :
    (fuel n : ℕ) (p : List ℕ)
    → n < 2 ^ fuel
    → n < 2 ^ 32
    → to_int 0 (digits_loop fuel 10 decimal n p) ≡ to_int n p
unfolding digits_loop
to_int-digits_loop zero n p h k = let e : n ≡ 0 = omega arith in rw e refl
to_int-digits_loop (suc fuel) n p h k = elim (Bool-cases (n / 10 == 0)) [
  | inl e ↦
      let z : 0 * 10 + n % 10 ≡ n = omega (arith, (==_iff _ _).0 e) in
      rw e (to_int-digit 0 (n % 10) p (omega arith) (omega arith) ∙ ap (λ m. to_int m p) z)
  | inr e ↦
      let z : n / 10 * 10 + n % 10 ≡ n = omega arith in
      rw e (
        to_int-digits_loop fuel (n / 10) (decimal (n % 10) ∷ p) (omega (arith, pow-suc 2 fuel))
          (omega arith)
        ∙ to_int-digit (n / 10) (n % 10) p (omega arith) (omega arith)
        ∙ ap (λ m. to_int m p) z)
]

to_int-number_digits : (n : ℕ) → n < 2 ^ 32 → to_int 0 (number_digits 0 n) ≡ some n
unfolding number_digits to_int
to_int-number_digits n h = elim (Bool-cases (leb n 0xffff_ffff)) [
  | inl e ↦
      let z : n % 2 ^ 32 ≡ n = omega (arith, leb→le _ _ e) in
      rw (e, z) (to_int-digits_loop digits_fuel n [] (omega arith) h)
  | inr e ↦ rw e (to_int-digits_loop digits_fuel n [] (omega arith) h)
]

int_of-number_digits : (n : ℕ) → n < 2 ^ 31 → int_of (some (number_digits 0 n)) ≡ pos n
unfolding int_of int_or signed
int_of-number_digits n h = ap int_or (to_int-number_digits n (omega arith)) ∙ ground arith

-- Where the last value that such a file gives a name is the decimal digits of a number below 2 ^ 31, GetInt
-- returns this number for the name behind Load.
pub get_int-load :
    (name : List ℕ) (es : List Entry) (m : ConfigMap) (n : ℕ)
    → AllClean es
    → n < 2 ^ 31
    → latest name es (find name m) ≡ some (number_digits 0 n)
    → get_int name (load (some (flatten (map render es))) m).0 ≡ pos n
unfolding get_int
get_int-load name es m n c h e = ap int_of (load-latest name es m c ∙ e) ∙ int_of-number_digits n h
