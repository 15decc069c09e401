-- ===== src/Logic/Corrupt.antt =====
-- Errors in the body of a package, which the CRC of its header finds.
use linux_c_study.Prelude.{
  ℕ, ◌+◌, ◌≤◌, ◌<◌, ◌≡◌, ◌≢◌, refl, sym, ap, ◌∙◌, inl, inr, List, [], ◌∷◌, ◌++◌, Option, none, some,
  arith, Option-cases, length, length-append,
}
use linux_c_study.Crc.Detect.{Bytes, get_crc-burst}
use linux_c_study.Net.Conn.{len_pkg_header}
use linux_c_study.Crc.{get_crc}
use linux_c_study.Net.Recv.Whole.{Whole}
use linux_c_study.Logic.{check_crc, crc32}
use linux_c_study.Logic.Check.{Checked, no_body, body, check_crc_sound}

-- The eight bytes of a header.
data Eight : List ℕ → Type 0 where
  eight : (a b c d e f g h : ℕ) → Eight (a ∷ b ∷ c ∷ d ∷ e ∷ f ∷ g ∷ h ∷ [])

to_eight : (xs : List ℕ) → length xs ≡ len_pkg_header → Eight xs
to_eight (a ∷ b ∷ c ∷ d ∷ e ∷ f ∷ g ∷ h ∷ []) l = eight a b c d e f g h
to_eight [] l = absurd (omega arith)
to_eight (a ∷ []) l = absurd (omega arith)
to_eight (a ∷ b ∷ []) l = absurd (omega arith)
to_eight (a ∷ b ∷ c ∷ []) l = absurd (omega arith)
to_eight (a ∷ b ∷ c ∷ d ∷ []) l = absurd (omega arith)
to_eight (a ∷ b ∷ c ∷ d ∷ e ∷ []) l = absurd (omega arith)
to_eight (a ∷ b ∷ c ∷ d ∷ e ∷ f ∷ []) l = absurd (omega arith)
to_eight (a ∷ b ∷ c ∷ d ∷ e ∷ f ∷ g ∷ []) l = absurd (omega arith)
to_eight (a ∷ b ∷ c ∷ d ∷ e ∷ f ∷ g ∷ h ∷ i ∷ l') l = absurd (omega arith)

-- Behind a header, its check value and its length are what they are whatever follows.
same_crc :
    {header : List ℕ} (b b' : List ℕ) (o : Option (List ℕ))
    → Eight header
    → 0 < length b
    → Checked (header ++ b) o
    → get_crc b ≡ crc32 (header ++ b')
same_crc b b' o (eight _ _ _ _ _ _ _ _) h (no_body l z) = absurd (omega arith)
same_crc b b' o (eight _ _ _ _ _ _ _ _) h (body l e) = e

same_crc_self :
    {header : List ℕ} (b : List ℕ) (o : Option (List ℕ))
    → Eight header
    → 0 < length b
    → Checked (header ++ b) o
    → get_crc b ≡ crc32 (header ++ b)
same_crc_self b o h = same_crc b b o h

same_length :
    {header : List ℕ} (b b' : List ℕ)
    → Eight header
    → length b ≡ length b'
    → Whole (header ++ b)
    → Whole (header ++ b')
same_length b b' (eight _ _ _ _ _ _ _ _) e w = record {
  announced = omega (arith, w.announced);
  at_least = w.at_least;
  at_most = w.at_most;
}

some_byte : (u v : List ℕ) → length u ≡ length v → u ≢ v → 0 < length u
some_byte [] [] l n = absurd (n refl)
some_byte [] (b ∷ v) l n = absurd (omega arith)
some_byte (a ∷ u) v l n = omega arith

-- An error within four neighbouring bytes of a body is found: where a whole package passes the check, the same
-- package with other bytes in up to four neighbouring places of its body does not.
pub check_crc-burst :
    (header xs u v ys : List ℕ) (o : Option (List ℕ))
    → length header ≡ len_pkg_header
    → Whole (header ++ (xs ++ (u ++ ys)))
    → length u ≡ length v
    → length u ≤ 4
    → Bytes xs
    → Bytes u
    → Bytes v
    → Bytes ys
    → u ≢ v
    → check_crc (header ++ (xs ++ (u ++ ys))) ≡ some o
    → check_crc (header ++ (xs ++ (v ++ ys))) ≡ none
check_crc-burst header xs u v ys o l w same m hx hu hv hy n e =
    elim (Option-cases (check_crc (header ++ (xs ++ (v ++ ys))))) [
      | inl f ↦ f
      | inr (o', f) ↦ absurd (
          get_crc-burst xs u v ys same m hx hu hv hy n (
            same_crc _ (xs ++ (v ++ ys)) o h (omega (arith, filled, lengths u))
              (check_crc_sound _ o w e)
            ∙ sym (
                same_crc_self (xs ++ (v ++ ys)) o' h (omega (arith, filled, same, lengths v))
                  (check_crc_sound _ o' (same_length _ _ h whole w) f))))
    ]
  where
    h : Eight header
    h = to_eight header l

    filled : 0 < length u
    filled = some_byte u v same n

    lengths : (t : List ℕ) → length (xs ++ (t ++ ys)) ≡ length xs + (length t + length ys)
    lengths t = omega (arith, length-append xs (t ++ ys), length-append t ys)

    whole : length (xs ++ (u ++ ys)) ≡ length (xs ++ (v ++ ys))
    whole = omega (arith, lengths u, lengths v, same)

abbrev first : List ℕ → ℕ
first [] = 0
first (b ∷ bs) = b

-- So is an error in one byte.
check_crc-one_byte :
    (header xs : List ℕ) (a a' : ℕ) (ys : List ℕ) (o : Option (List ℕ))
    → length header ≡ len_pkg_header
    → Whole (header ++ (xs ++ a ∷ ys))
    → Bytes xs
    → Bytes ys
    → a < 256
    → a' < 256
    → a ≢ a'
    → check_crc (header ++ (xs ++ a ∷ ys)) ≡ some o
    → check_crc (header ++ (xs ++ a' ∷ ys)) ≡ none
check_crc-one_byte header xs a a' ys o l w hx hy ha ha' n e =
    check_crc-burst header xs (a ∷ []) (a' ∷ []) ys o l w refl (omega arith) hx (ha, tt) (ha', tt)
      hy (λ f. n (ap first f)) e
