-- ===== src/Prelude/Buffers.antt =====
-- Byte buffers: what memory holds before it is written, and a write of some bytes at an offset.
use Prim.Native.Nat.{ℕ, zero, suc, ◌+◌, ◌≤◌}
use mathlib.Core.Path.{◌≡◌, refl, ap}
use mathlib.Core.List.{List, [], ◌∷◌, ◌++◌}
use native.Mathlib.Omega.{arith}
use linux_c_study.Prelude.Lists.{length, take, drop, length-append, length-take, length-drop}

-- n bytes, the one at offset i being `fill i`.
unfoldable pub bytes_from : ℕ → ℕ → (ℕ → ℕ) → List ℕ
bytes_from zero i fill = []
bytes_from (suc n) i fill = fill i ∷ bytes_from n (i + 1) fill

pub length-bytes_from : (n i : ℕ) (fill : ℕ → ℕ) → length (bytes_from n i fill) ≡ n
unfolding bytes_from
length-bytes_from zero i fill = refl
length-bytes_from (suc n) i fill = ap suc (length-bytes_from n (i + 1) fill)

module _ {ℓ} {A : Type ℓ} where
  -- `memcpy(buf + k, bytes, n)` for bytes that fit.
  unfoldable pub splice : List A → ℕ → List A → List A
  splice buf k bytes = take k buf ++ (bytes ++ drop (k + length bytes) buf)

  pub length-splice :
      (buf : List A) (k : ℕ) (bytes : List A)
      → k + length bytes ≤ length buf
      → length (splice buf k bytes) ≡ length buf
  unfolding splice
  length-splice buf k bytes h = omega (
    arith,
    length-append (take k buf) (bytes ++ drop (k + length bytes) buf),
    length-append bytes (drop (k + length bytes) buf),
    length-take k buf,
    length-drop (k + length bytes) buf,
  )

  pub take-append :
      (xs ys zs : List A) (n : ℕ) → n ≡ length xs + length ys → take n (xs ++ (ys ++ zs)) ≡ xs ++ ys
  take-append [] [] zs zero e = refl
  take-append [] [] zs (suc n) e = absurd (omega arith)
  take-append [] (y ∷ ys) zs zero e = absurd (omega arith)
  take-append [] (y ∷ ys) zs (suc n) e = ap (◌∷◌ y) (take-append [] ys zs n (omega arith))
  take-append (x ∷ xs) ys zs zero e = absurd (omega arith)
  take-append (x ∷ xs) ys zs (suc n) e = ap (◌∷◌ x) (take-append xs ys zs n (omega arith))

  -- The bytes up to the end of the write.
  pub take-splice :
      (buf : List A) (k n : ℕ) (bytes : List A)
      → k + length bytes ≤ length buf
      → n ≡ k + length bytes
      → take n (splice buf k bytes) ≡ take k buf ++ bytes
  unfolding splice
  take-splice buf k n bytes h e =
      take-append (take k buf) bytes (drop (k + length bytes) buf) n
        (omega (arith, length-take k buf))
