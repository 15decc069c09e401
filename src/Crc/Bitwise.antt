-- ===== src/Crc/Bitwise.antt =====
-- The table and the whole CRC against the reflected polynomial, bit by bit.
use Prim.Native.Nat.{bit_xor, differ}
use mathlib.Core.Path.{ap₂}
use linux_c_study.Prelude.{
  ℕ, zero, suc, sym, ap, ◌∙◌, arith, ◌+◌, ◌*◌, ◌^◌, List, bit_xor_comm, bit_xor_assoc,
  bit_xor_parts, bit_xor_step, zero-bit_xor, halve, bit_xor-lt_byte, ◌/◌, ◌%◌, ◌<◌, ◌≡◌, true, refl,
  [], ◌∷◌, ==_iff, ◌==◌, if◌then◌else◌, get_or, all_below, all_below_sound, all_from,
}
use linux_c_study.Crc.{crc32_table, crc_step, crc_loop, get_crc}
use linux_c_study.Crc.Detect.{Bytes}

-- Eight shifts of the register, the polynomial's mirror image going in for each 1 that falls out.
pub shifts : ℕ → ℕ → ℕ
shifts zero r = r
shifts (suc n) r = shifts n (if r % 2 == 1 then bit_xor (r / 2) 0xedb8_8320 else r / 2)

table_checked : all_below 256 (λ i. get_or crc32_table i 0 == shifts 8 i) ≡ true
unfolding all_from crc32_table shifts
table_checked = refl

-- Each of the 256 entries of the table, built by reflections and shifts to the left, is what eight shifts to the
-- right make of its index.
pub crc32_table-shifts : (i : ℕ) → i < 256 → get_or crc32_table i 0 ≡ shifts 8 i
crc32_table-shifts i h = (==_iff _ _).0 (all_below_sound 256 _ i table_checked h)

-- What one shift puts into the register for the bit that falls out.
feed : ℕ → ℕ
feed zero = 0
feed (suc bit) = 0xedb8_8320

feed-differ : (a b : ℕ) → a < 2 → b < 2 → feed (differ a b) ≡ bit_xor (feed a) (feed b)
unfolding feed
feed-differ zero zero h k = refl
feed-differ zero (suc zero) h k = refl
feed-differ zero (suc (suc b)) h k = absurd (omega arith)
feed-differ (suc zero) zero h k = refl
feed-differ (suc zero) (suc zero) h k = refl
feed-differ (suc zero) (suc (suc b)) h k = absurd (omega arith)
feed-differ (suc (suc a)) b h k = absurd (omega arith)

shift : ℕ → ℕ
shift r = bit_xor (r / 2) (feed (r % 2))

shift_at :
    (half bit : ℕ)
    → bit < 2
    → (if bit == 1 then bit_xor half 0xedb8_8320 else half) ≡ bit_xor half (feed bit)
unfolding feed
shift_at half zero h = sym (bit_xor_comm half 0 ∙ zero-bit_xor half)
shift_at half (suc zero) h = refl
shift_at half (suc (suc bit)) h = absurd (omega arith)

shifts-shift : (n r : ℕ) → shifts (suc n) r ≡ shifts n (shift r)
unfolding shifts shift
shifts-shift n r = ap (shifts n) (shift_at (r / 2) (r % 2) (omega arith))

bit_xor_interchange :
    (a b c d : ℕ) → bit_xor (bit_xor a b) (bit_xor c d) ≡ bit_xor (bit_xor a c) (bit_xor b d)
bit_xor_interchange a b c d =
    sym (bit_xor_assoc a b (bit_xor c d))
    ∙ ap (bit_xor a)
        (bit_xor_assoc b c d ∙ ap (λ x. bit_xor x d) (bit_xor_comm b c) ∙ sym (bit_xor_assoc c b d))
    ∙ bit_xor_assoc a c (bit_xor b d)

shift-bit_xor : (a b : ℕ) → shift (bit_xor a b) ≡ bit_xor (shift a) (shift b)
unfolding shift
shift-bit_xor a b =
    let parts = bit_xor_parts a b in
    ap₂ bit_xor parts.0 (ap feed parts.1 ∙ feed-differ (a % 2) (b % 2) (omega arith) (omega arith))
    ∙ bit_xor_interchange (a / 2) (b / 2) (feed (a % 2)) (feed (b % 2))

-- Shifts are linear,
shifts-bit_xor : (n a b : ℕ) → shifts n (bit_xor a b) ≡ bit_xor (shifts n a) (shifts n b)
unfolding shifts
shifts-bit_xor zero a b = refl
shifts-bit_xor (suc n) a b =
    shifts-shift n (bit_xor a b)
    ∙ ap (shifts n) (shift-bit_xor a b)
    ∙ shifts-bit_xor n (shift a) (shift b)
    ∙ sym (ap₂ bit_xor (shifts-shift n a) (shifts-shift n b))

abbrev doubled : ℕ → ℕ → ℕ
doubled zero a = a
doubled (suc n) a = doubled n a * 2

-- and give back the digits above zeros.
shifts-doubled : (n a : ℕ) → shifts n (doubled n a) ≡ a
unfolding shifts shift feed
shifts-doubled zero a = refl
shifts-doubled (suc n) a =
    let half : doubled n a * 2 / 2 ≡ doubled n a = omega arith in
    let even : doubled n a * 2 % 2 ≡ 0 = omega arith in
    shifts-shift n (doubled n a * 2)
    ∙ ap (shifts n) (
        ap₂ (λ h bit. bit_xor h (feed bit)) half even
        ∙ bit_xor_comm (doubled n a) 0
        ∙ zero-bit_xor (doubled n a))
    ∙ shifts-doubled n a

differ-zero : (b : ℕ) → b < 2 → differ 0 b ≡ b
differ-zero zero h = refl
differ-zero (suc zero) h = refl
differ-zero (suc (suc b)) h = absurd (omega arith)

bit_xor-doubled : (n a l : ℕ) → halve n l ≡ 0 → bit_xor (doubled n a) l ≡ doubled n a + l
bit_xor-doubled zero a l h = ap (bit_xor a) h ∙ bit_xor_comm a 0 ∙ omega (arith, zero-bit_xor a, h)
bit_xor-doubled (suc n) a l h =
    let half : doubled n a * 2 / 2 ≡ doubled n a = omega arith in
    let even : doubled n a * 2 % 2 ≡ 0 = omega arith in
    omega (
      arith,
      bit_xor_step (doubled n a * 2) l,
      ap (λ x. bit_xor x (l / 2)) half,
      bit_xor-doubled n a (l / 2) h,
      ap (λ x. differ x (l % 2)) even,
      differ-zero (l % 2) (omega arith),
    )

crc_step-shifts : (c byte : ℕ) → byte < 256 → crc_step c byte ≡ shifts 8 (bit_xor c byte)
unfolding crc_step
crc_step-shifts c byte h =
    let low = bit_xor (c % 2 ^ 8) byte in
    let parts : c ≡ bit_xor (doubled 8 (c / 2 ^ 8)) (c % 2 ^ 8) =
      omega (arith, bit_xor-doubled 8 (c / 2 ^ 8) (c % 2 ^ 8) (omega arith)) in
    let split : bit_xor c byte ≡ bit_xor (doubled 8 (c / 2 ^ 8)) low =
      ap (λ x. bit_xor x byte) parts
      ∙ sym (bit_xor_assoc (doubled 8 (c / 2 ^ 8)) (c % 2 ^ 8) byte) in
    sym (
      ap (shifts 8) split
      ∙ shifts-bit_xor 8 (doubled 8 (c / 2 ^ 8)) low
      ∙ ap₂ bit_xor (shifts-doubled 8 (c / 2 ^ 8))
          (sym (crc32_table-shifts low (bit_xor-lt_byte (c % 2 ^ 8) byte (omega arith) h))))

-- The register behind a message, bit by bit and without a table.
pub bitwise : ℕ → List ℕ → ℕ
bitwise r [] = r
bitwise r (byte ∷ rest) = bitwise (shifts 8 (bit_xor r byte)) rest

crc_loop-bitwise : (bs : List ℕ) (c : ℕ) → Bytes bs → crc_loop c bs ≡ bitwise c bs
unfolding crc_loop bitwise
crc_loop-bitwise [] c h = refl
crc_loop-bitwise (byte ∷ rest) c h =
    crc_loop-bitwise rest (crc_step c byte) h.1
    ∙ ap (λ r. bitwise r rest) (crc_step-shifts c byte h.0)

-- For every message of bytes, the CRC is what the bitwise definition of CRC-32 gives: a register of ones, into
-- whose low byte each byte goes by exclusive or, eight shifts to the right with the mirrored polynomial for
-- each byte, and the complement at the end.
pub get_crc-bitwise :
    (bs : List ℕ) → Bytes bs → get_crc bs ≡ bit_xor (bitwise 0xffff_ffff bs) 0xffff_ffff
unfolding get_crc
get_crc-bitwise bs h = ap (λ r. bit_xor r 0xffff_ffff) (crc_loop-bitwise bs 0xffff_ffff h)

check_value :
    get_crc (0x31 ∷ 0x32 ∷ 0x33 ∷ 0x34 ∷ 0x35 ∷ 0x36 ∷ 0x37 ∷ 0x38 ∷ 0x39 ∷ []) ≡ 0xcbf43926
unfolding get_crc
check_value = refl
