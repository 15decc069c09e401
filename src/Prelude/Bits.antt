-- ===== src/Prelude/Bits.antt =====
-- Exclusive or at variables: its lowest digit, cancellation, and how it meets division by a power of two.
use Prim.Native.Nat.{
  ℕ, zero, suc, ◌+◌, ◌*◌, ◌/◌, ◌%◌, ◌≤◌, ◌<◌, ◌^◌, bit_xor, digits, differ, bit_xor-bitwise,
}
use mathlib.Core.Path.{◌≡◌, refl, ap, sym, ◌∙◌}
use mathlib.Core.Bool.{Bool, true, ◌&&◌}
use native.Mathlib.Omega.{arith}
use native.Mathlib.Nat.{pow-suc}

abbrev xor_digits : ℕ → ℕ → ℕ → ℕ
xor_digits n a b = digits (λ b. b) differ n a b

xor_digits_fuel : (n m a b : ℕ) → a ≤ n → a ≤ m → xor_digits n a b ≡ xor_digits m a b
xor_digits_fuel zero zero a b p q = refl
xor_digits_fuel zero (suc m) zero b p q = refl
xor_digits_fuel zero (suc m) (suc a) b p q = absurd (omega arith)
xor_digits_fuel (suc n) zero zero b p q = refl
xor_digits_fuel (suc n) zero (suc a) b p q = absurd (omega arith)
xor_digits_fuel (suc n) (suc m) zero b p q = refl
xor_digits_fuel (suc n) (suc m) (suc a) b p q =
    omega (arith, xor_digits_fuel n m (suc a / 2) (b / 2) (omega arith) (omega arith))

pub zero-bit_xor : (b : ℕ) → bit_xor 0 b ≡ b
zero-bit_xor b = bit_xor-bitwise 0 b

pub bit_xor_step : (a b : ℕ) → bit_xor a b ≡ bit_xor (a / 2) (b / 2) * 2 + differ (a % 2) (b % 2)
bit_xor_step zero b = omega (arith, zero-bit_xor b, zero-bit_xor (b / 2))
bit_xor_step (suc a) b = omega (
  arith,
  bit_xor-bitwise (suc a) b,
  bit_xor-bitwise (suc a / 2) (b / 2),
  xor_digits_fuel a (suc a / 2) (suc a / 2) (b / 2) (omega arith) (omega arith),
)

differ-bit : (a b : ℕ) → a < 2 → b < 2 → (differ a b < 2) × (differ a (differ a b) ≡ b)
differ-bit zero b h k = (k, refl)
differ-bit (suc zero) zero h k = (omega arith, refl)
differ-bit (suc zero) (suc zero) h k = (omega arith, refl)
differ-bit (suc zero) (suc (suc b)) h k = absurd (omega arith)
differ-bit (suc (suc a)) b h k = absurd (omega arith)

-- The lowest digit and the rest of an exclusive or.
pub bit_xor_parts :
    (a b : ℕ)
    → (bit_xor a b / 2 ≡ bit_xor (a / 2) (b / 2)) × (bit_xor a b % 2 ≡ differ (a % 2) (b % 2))
bit_xor_parts a b =
    let d = (differ-bit (a % 2) (b % 2) (omega arith) (omega arith)).0 in
    (omega (arith, bit_xor_step a b), omega (arith, bit_xor_step a b))

cancel_fuel : (n a b : ℕ) → a ≤ n → bit_xor a (bit_xor a b) ≡ b
cancel_fuel n zero b h = zero-bit_xor _ ∙ zero-bit_xor b
cancel_fuel zero (suc a) b h = absurd (omega arith)
cancel_fuel (suc n) (suc a) b h = omega (
  arith,
  bit_xor_step (suc a) (bit_xor (suc a) b),
  ap (bit_xor (suc a / 2)) (bit_xor_parts (suc a) b).0,
  cancel_fuel n (suc a / 2) (b / 2) (omega arith),
  ap (differ (suc a % 2)) (bit_xor_parts (suc a) b).1,
  (differ-bit (suc a % 2) (b % 2) (omega arith) (omega arith)).1,
)

pub bit_xor-cancel : (a b : ℕ) → bit_xor a (bit_xor a b) ≡ b
bit_xor-cancel a b = cancel_fuel a a b (omega arith)

pub bit_xor-injective : (a b c : ℕ) → bit_xor a b ≡ bit_xor a c → b ≡ c
bit_xor-injective a b c e = sym (bit_xor-cancel a b) ∙ ap (bit_xor a) e ∙ bit_xor-cancel a c

-- k halvings.
abbrev pub halve : ℕ → ℕ → ℕ
halve zero a = a
halve (suc k) a = halve k (a / 2)

pub halve-bit_xor : (k a b : ℕ) → halve k (bit_xor a b) ≡ bit_xor (halve k a) (halve k b)
halve-bit_xor zero a b = refl
halve-bit_xor (suc k) a b = ap (halve k) (bit_xor_parts a b).0 ∙ halve-bit_xor k (a / 2) (b / 2)

differ_comm : (a b : ℕ) → a < 2 → b < 2 → differ a b ≡ differ b a
differ_comm zero zero h k = refl
differ_comm zero (suc b) h k = refl
differ_comm (suc a) zero h k = refl
differ_comm (suc zero) (suc zero) h k = refl
differ_comm (suc zero) (suc (suc b)) h k = absurd (omega arith)
differ_comm (suc (suc a)) (suc b) h k = absurd (omega arith)

comm_fuel : (n a b : ℕ) → a ≤ n → b ≤ n → bit_xor a b ≡ bit_xor b a
comm_fuel zero zero zero h k = refl
comm_fuel zero zero (suc b) h k = absurd (omega arith)
comm_fuel zero (suc a) b h k = absurd (omega arith)
comm_fuel (suc n) a b h k = omega (
  arith,
  bit_xor_step a b,
  bit_xor_step b a,
  comm_fuel n (a / 2) (b / 2) (omega arith) (omega arith),
  differ_comm (a % 2) (b % 2) (omega arith) (omega arith),
)

pub bit_xor_comm : (a b : ℕ) → bit_xor a b ≡ bit_xor b a
bit_xor_comm a b = comm_fuel (a + b) a b (omega arith) (omega arith)

differ_assoc : (a b c : ℕ) → a < 2 → b < 2 → c < 2 → differ a (differ b c) ≡ differ (differ a b) c
differ_assoc zero b c h k l = refl
differ_assoc (suc zero) zero c h k l = refl
differ_assoc (suc zero) (suc zero) zero h k l = refl
differ_assoc (suc zero) (suc zero) (suc zero) h k l = refl
differ_assoc (suc zero) (suc zero) (suc (suc c)) h k l = absurd (omega arith)
differ_assoc (suc zero) (suc (suc b)) c h k l = absurd (omega arith)
differ_assoc (suc (suc a)) b c h k l = absurd (omega arith)

assoc_fuel :
    (n a b c : ℕ) → a ≤ n → b ≤ n → c ≤ n → bit_xor a (bit_xor b c) ≡ bit_xor (bit_xor a b) c
assoc_fuel zero zero zero zero h k l = refl
assoc_fuel zero zero zero (suc c) h k l = absurd (omega arith)
assoc_fuel zero zero (suc b) c h k l = absurd (omega arith)
assoc_fuel zero (suc a) b c h k l = absurd (omega arith)
assoc_fuel (suc n) a b c h k l = omega (
  arith,
  bit_xor_step a (bit_xor b c),
  bit_xor_step (bit_xor a b) c,
  ap (bit_xor (a / 2)) (bit_xor_parts b c).0,
  ap (λ x. bit_xor x (c / 2)) (bit_xor_parts a b).0,
  assoc_fuel n (a / 2) (b / 2) (c / 2) (omega arith) (omega arith) (omega arith),
  ap (differ (a % 2)) (bit_xor_parts b c).1,
  ap (λ x. differ x (c % 2)) (bit_xor_parts a b).1,
  differ_assoc (a % 2) (b % 2) (c % 2) (omega arith) (omega arith) (omega arith),
)

pub bit_xor_assoc : (a b c : ℕ) → bit_xor a (bit_xor b c) ≡ bit_xor (bit_xor a b) c
bit_xor_assoc a b c = assoc_fuel (a + b + c) a b c (omega arith) (omega arith) (omega arith)

-- Exclusive or stays below a power of two.
pub lt_halve : (k a : ℕ) → halve k a ≡ 0 → a < 2 ^ k
lt_halve zero a h = omega arith
lt_halve (suc k) a h = omega (arith, lt_halve k (a / 2) h, pow-suc 2 k)

-- Where the first operand has no more digits, the second stays.
pub halve-bit_xor_zero : (k a b : ℕ) → halve k a ≡ 0 → halve k (bit_xor a b) ≡ halve k b
halve-bit_xor_zero k a b h =
    halve-bit_xor k a b ∙ ap (λ x. bit_xor x (halve k b)) h ∙ zero-bit_xor (halve k b)

pub bit_xor-lt_byte : (a b : ℕ) → a < 256 → b < 256 → bit_xor a b < 256
bit_xor-lt_byte a b ha hb =
    lt_halve 8 (bit_xor a b) (omega (arith, halve-bit_xor_zero 8 a b (omega arith)))

-- A test on n numbers from i on, and on all below a bound.
unfoldable pub all_from : ℕ → ℕ → (ℕ → Bool) → Bool
all_from zero i test = true
all_from (suc n) i test = test i && all_from n (i + 1) test

all_from_sound :
    (n i x : ℕ) (test : ℕ → Bool) → i ≤ x → x < i + n → all_from n i test ≡ true → test x ≡ true
unfolding all_from
all_from_sound zero i x test lo hi h = absurd (omega arith)
all_from_sound (suc n) i x test lo hi h = grind (arith, all_from_sound n (i + 1) x test)

abbrev pub all_below : ℕ → (ℕ → Bool) → Bool
all_below bound test = all_from bound 0 test

pub all_below_sound :
    (bound : ℕ) (test : ℕ → Bool) (x : ℕ) → all_below bound test ≡ true → x < bound → test x ≡ true
all_below_sound bound test x h lt = all_from_sound bound 0 x test (omega arith) (omega arith) h
