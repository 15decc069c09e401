-- ===== src/Crc/Step.antt =====
-- One step of the CRC's register, forwards and back.
use Prim.Native.Nat.{bit_xor}
use mathlib.Core.Path.{ap₂}
use linux_c_study.Prelude.{
  ℕ, zero, suc, ◌+◌, ◌/◌, ◌%◌, ◌^◌, ◌<◌, ◌≡◌, ◌&&◌, refl, sym, ap, ◌∙◌, true, List, [], ◌∷◌, arith,
  ◌==◌, ltb, if◌then◌else◌, get_or, halve, halve-bit_xor, halve-bit_xor_zero, all_below,
  all_below_sound, all_from, lt_halve, bit_xor-injective, bit_xor_comm, bit_xor-lt_byte,
}
use linux_c_study.Crc.{u32, crc32_table, crc_step}

abbrev entry : ℕ → ℕ
entry i = get_or crc32_table i 0

-- Where a top byte stands in the table.
position : ℕ → List ℕ → ℕ → ℕ
position t [] i = i
position t (e ∷ es) i = let r = position t es (i + 1) in if e / 2 ^ 24 == t then i else r

tops_checked :
    all_below 256 (λ i. (position (entry i / 2 ^ 24) crc32_table 0 == i) && ltb (entry i) u32)
    ≡ true
unfolding all_from crc32_table position
tops_checked = refl

entry_facts : (i : ℕ) → i < 256 → (position (entry i / 2 ^ 24) crc32_table 0 ≡ i) × (entry i < u32)
entry_facts i h =
    let c =
      all_below_sound 256
        (λ i. (position (entry i / 2 ^ 24) crc32_table 0 == i) && ltb (entry i) u32) i tops_checked
        h in
    ground (arith, c)

-- The top bytes of the entries differ.
entry-top_injective : (i j : ℕ) → i < 256 → j < 256 → entry i / 2 ^ 24 ≡ entry j / 2 ^ 24 → i ≡ j
entry-top_injective i j hi hj e =
    sym (entry_facts i hi).0 ∙ ap (λ t. position t crc32_table 0) e ∙ (entry_facts j hj).0

module _ (crc byte : ℕ) (hc : crc < u32) (hb : byte < 256) where
  index : ℕ
  index = bit_xor (crc % 2 ^ 8) byte

  index-lt : index < 256
  unfolding index
  index-lt = bit_xor-lt_byte (crc % 2 ^ 8) byte (omega arith) hb

  pub crc_step-lt : crc_step crc byte < u32
  unfolding crc_step index
  crc_step-lt =
      let facts = entry_facts index index-lt in
      lt_halve 32 (crc_step crc byte)
        (halve-bit_xor_zero 32 (crc / 2 ^ 8) (entry index) (omega arith) ∙ omega (arith, facts.1))

  -- The top byte of the register comes from the table alone.
  crc_step-top : crc_step crc byte / 2 ^ 24 ≡ entry index / 2 ^ 24
  unfolding crc_step index
  crc_step-top =
      let z : halve 24 (crc / 2 ^ 8) ≡ 0 = omega arith in
      let t : halve 24 (crc_step crc byte) ≡ halve 24 (entry index) =
        halve-bit_xor_zero 24 (crc / 2 ^ 8) (entry index) z in
      omega (arith, t)

-- k bytes further up.
abbrev pub drop_bytes : ℕ → ℕ → ℕ
drop_bytes zero a = a
drop_bytes (suc k) a = drop_bytes k (a / 2 ^ 8)

bit_xor-byte : (a b : ℕ) → bit_xor a b / 2 ^ 8 ≡ bit_xor (a / 2 ^ 8) (b / 2 ^ 8)
bit_xor-byte a b =
    let h : (x : ℕ) → halve 8 x ≡ x / 2 ^ 8 = λ x. omega arith in
    sym (h (bit_xor a b)) ∙ halve-bit_xor 8 a b ∙ ap₂ bit_xor (h a) (h b)

drop_bytes-bit_xor :
    (k a b : ℕ) → drop_bytes k (bit_xor a b) ≡ bit_xor (drop_bytes k a) (drop_bytes k b)
drop_bytes-bit_xor zero a b = refl
drop_bytes-bit_xor (suc k) a b =
    ap (drop_bytes k) (bit_xor-byte a b) ∙ drop_bytes-bit_xor k (a / 2 ^ 8) (b / 2 ^ 8)

drop_bytes-top : (k a b : ℕ) → k < 4 → drop_bytes k a ≡ drop_bytes k b → a / 2 ^ 24 ≡ b / 2 ^ 24
drop_bytes-top zero a b h e = omega (arith, e)
drop_bytes-top (suc zero) a b h e = omega (arith, e)
drop_bytes-top (suc (suc zero)) a b h e = omega (arith, e)
drop_bytes-top (suc (suc (suc zero))) a b h e = omega (arith, e)
drop_bytes-top (suc (suc (suc (suc k)))) a b h e = absurd (omega arith)

-- Where two registers agree behind a step but for the lowest k bytes, at most three, they took the same entry of
-- the table, and agreed before it but for the lowest k + 1 bytes.
pub step_back :
    (k c d b b' : ℕ)
    → k < 4
    → c < u32
    → d < u32
    → b < 256
    → b' < 256
    → drop_bytes k (crc_step c b) ≡ drop_bytes k (crc_step d b')
    → (bit_xor (c % 2 ^ 8) b ≡ bit_xor (d % 2 ^ 8) b')
      × (drop_bytes (suc k) c ≡ drop_bytes (suc k) d)
unfolding crc_step index
step_back k c d b b' hk hc hd hb hb' e =
    let i = bit_xor (c % 2 ^ 8) b in
    let j = bit_xor (d % 2 ^ 8) b' in
    let tops : entry i / 2 ^ 24 ≡ entry j / 2 ^ 24 =
      sym (crc_step-top c b hc hb)
      ∙ drop_bytes-top k (crc_step c b) (crc_step d b') hk e
      ∙ crc_step-top d b' hd hb' in
    let same : i ≡ j = entry-top_injective i j (index-lt c b hc hb) (index-lt d b' hd hb') tops in
    let taken : drop_bytes k (entry i) ≡ drop_bytes k (entry j) =
      ap (λ n. drop_bytes k (entry n)) same in
    let high = bit_xor-injective (drop_bytes k (entry i)) _ _ (
      bit_xor_comm (drop_bytes k (entry i)) (drop_bytes k (c / 2 ^ 8))
      ∙ sym (drop_bytes-bit_xor k (c / 2 ^ 8) (entry i))
      ∙ e
      ∙ drop_bytes-bit_xor k (d / 2 ^ 8) (entry j)
      ∙ ap (bit_xor (drop_bytes k (d / 2 ^ 8))) (sym taken)
      ∙ bit_xor_comm (drop_bytes k (d / 2 ^ 8)) (drop_bytes k (entry i))) in
    (same, high)

-- No information of the register is lost in a step.
pub crc_step-injective :
    (c d byte : ℕ) → c < u32 → d < u32 → byte < 256 → crc_step c byte ≡ crc_step d byte → c ≡ d
crc_step-injective c d byte hc hd hb e =
    let back = step_back 0 c d byte byte (omega arith) hc hd hb hb e in
    let low : c % 2 ^ 8 ≡ d % 2 ^ 8 =
      bit_xor-injective byte _ _ (bit_xor_comm byte _ ∙ back.0 ∙ bit_xor_comm _ byte) in
    omega (arith, low, back.1)
