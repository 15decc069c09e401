-- ===== src/Crc/Detect.antt =====
-- A CRC tells apart two messages that differ within four neighbouring bytes.
use Prim.Native.Nat.{bit_xor}
use mathlib.Core.Path.{ap₂}
use linux_c_study.Prelude.{
  ℕ, ◌%◌, ◌^◌, ◌<◌, ◌≤◌, ◌≡◌, ◌≢◌, refl, sym, ap, ◌∙◌, List, [], ◌∷◌, ◌++◌, arith,
  halve-bit_xor_zero, length, lt_halve, bit_xor-injective, bit_xor_comm,
}
use linux_c_study.Crc.{u32, crc_step, crc_loop, get_crc}
use linux_c_study.Crc.Step.{crc_step-lt, crc_step-injective, step_back, drop_bytes}

abbrev pub Bytes : List ℕ → Type 0
Bytes [] = Unit
Bytes (b ∷ bs) = (b < 256) × Bytes bs

crc_loop-lt : (bs : List ℕ) (c : ℕ) → Bytes bs → c < u32 → crc_loop c bs < u32
unfolding crc_loop
crc_loop-lt [] c h hc = hc
crc_loop-lt (b ∷ bs) c h hc = crc_loop-lt bs (crc_step c b) h.1 (crc_step-lt c b hc h.0)

-- A CRC fits the header's field.
pub get_crc-lt : (bs : List ℕ) → Bytes bs → get_crc bs < u32
unfolding get_crc
get_crc-lt bs h =
    let c = crc_loop 0xffff_ffff bs in
    let hc : c < u32 = crc_loop-lt bs 0xffff_ffff h (omega arith) in
    lt_halve 32 (bit_xor c 0xffff_ffff)
      (halve-bit_xor_zero 32 c 0xffff_ffff (omega (arith, hc)) ∙ omega arith)

crc_loop-injective :
    (bs : List ℕ) (c d : ℕ) → Bytes bs → c < u32 → d < u32 → crc_loop c bs ≡ crc_loop d bs → c ≡ d
unfolding crc_loop
crc_loop-injective [] c d h hc hd e = e
crc_loop-injective (b ∷ bs) c d h hc hd e = crc_step-injective c d b hc hd h.0 (
    crc_loop-injective bs (crc_step c b) (crc_step d b) h.1 (crc_step-lt c b hc h.0)
      (crc_step-lt d b hd h.0) e)

crc_loop-append : (u v : List ℕ) (c : ℕ) → crc_loop c (u ++ v) ≡ crc_loop (crc_loop c u) v
unfolding crc_loop
crc_loop-append [] v c = refl
crc_loop-append (b ∷ u) v c = crc_loop-append u v (crc_step c b)

-- The registers before up to four bytes each, where they are the same behind them.
run_back :
    (u v : List ℕ) (c d : ℕ)
    → length u ≡ length v
    → length u ≤ 4
    → Bytes u
    → Bytes v
    → c < u32
    → d < u32
    → crc_loop c u ≡ crc_loop d v
    → drop_bytes (length u) c ≡ drop_bytes (length u) d
unfolding crc_loop
run_back [] [] c d l m hu hv hc hd e = e
run_back [] (b' ∷ v) c d l m hu hv hc hd e = absurd (omega arith)
run_back (b ∷ u) [] c d l m hu hv hc hd e = absurd (omega arith)
run_back (b ∷ u) (b' ∷ v) c d l m hu hv hc hd e =
    (step_back (length u) c d b b' (omega arith) hc hd hu.0 hv.0 (
      run_back u v (crc_step c b) (crc_step d b') (omega arith) (omega arith) hu.1 hv.1
        (crc_step-lt c b hc hu.0) (crc_step-lt d b' hd hv.0) e)).1

-- Up to four bytes can be told from the register behind them.
window_injective :
    (u v : List ℕ) (c : ℕ)
    → length u ≡ length v
    → length u ≤ 4
    → Bytes u
    → Bytes v
    → c < u32
    → crc_loop c u ≡ crc_loop c v
    → u ≡ v
unfolding crc_loop
window_injective [] [] c l m hu hv hc e = refl
window_injective [] (b' ∷ v) c l m hu hv hc e = absurd (omega arith)
window_injective (b ∷ u) [] c l m hu hv hc e = absurd (omega arith)
window_injective (b ∷ u) (b' ∷ v) c l m hu hv hc e =
    let behind =
      run_back u v (crc_step c b) (crc_step c b') (omega arith) (omega arith) hu.1 hv.1
        (crc_step-lt c b hc hu.0) (crc_step-lt c b' hc hv.0) e in
    let same : b ≡ b' =
      bit_xor-injective (c % 2 ^ 8) b b'
        (step_back (length u) c c b b' (omega arith) hc hc hu.0 hv.0 behind).0 in
    ap₂ (λ x xs. x ∷ xs) same
      (window_injective u v (crc_step c b) (omega arith) (omega arith) hu.1 hv.1
        (crc_step-lt c b hc hu.0) (e ∙ ap (λ x. crc_loop (crc_step c x) v) (sym same)))

burst :
    (xs u v ys : List ℕ) (c : ℕ)
    → length u ≡ length v
    → length u ≤ 4
    → Bytes xs
    → Bytes u
    → Bytes v
    → Bytes ys
    → c < u32
    → crc_loop c (xs ++ (u ++ ys)) ≡ crc_loop c (xs ++ (v ++ ys))
    → u ≡ v
unfolding crc_loop
burst [] u v ys c l m hx hu hv hy hc e = window_injective u v c l m hu hv hc (
    crc_loop-injective ys (crc_loop c u) (crc_loop c v) hy (crc_loop-lt u c hu hc)
      (crc_loop-lt v c hv hc) (sym (crc_loop-append u ys c) ∙ e ∙ crc_loop-append v ys c))
burst (x ∷ xs) u v ys c l m hx hu hv hy hc e =
    burst xs u v ys (crc_step c x) l m hx.1 hu hv hy (crc_step-lt c x hc hx.0) e

-- Two messages of bytes that differ within four neighbouring bytes, wherever these stand, have different CRCs.
pub get_crc-burst :
    (xs u v ys : List ℕ)
    → length u ≡ length v
    → length u ≤ 4
    → Bytes xs
    → Bytes u
    → Bytes v
    → Bytes ys
    → u ≢ v
    → get_crc (xs ++ (u ++ ys)) ≢ get_crc (xs ++ (v ++ ys))
unfolding get_crc
get_crc-burst xs u v ys l m hx hu hv hy n e = n (
    burst xs u v ys 0xffff_ffff l m hx hu hv hy (omega arith) (
      bit_xor-injective 0xffff_ffff _ _
        (bit_xor_comm 0xffff_ffff _ ∙ e ∙ bit_xor_comm _ 0xffff_ffff)))
