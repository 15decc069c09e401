-- ===== src/Net/Recv/Whole.antt =====
-- The packages that the receiver hands over, and streams that are made of them.
use mathlib.Core.List.{flatten}
use linux_c_study.Prelude.{
  ℕ, ◌+◌, ◌-◌, ◌≤◌, ◌<◌, ◌≡◌, refl, sym, subst, ◌∙◌, inl, inr, List, [], ◌∷◌, ◌++◌, ltb, ltb-false,
  ◌==◌, ==_iff, Bool-cases, ==-false, arith, length, length-append, take, drop, take-append-drop,
  length-take, length-drop,
}
use linux_c_study.Net.Conn.{pkg_max_length, len_pkg_header, pkg_len}
use linux_c_study.Net.Recv.Stream.{
  judge, packages, packages-judge, packages-append, IsOpen, header-IsOpen, body-IsOpen, body-judge,
  pkg_len-append,
}

-- A package as the receiver hands it over.
pub record Whole (pkg : List ℕ) : Type 0 where
  pub announced : length pkg ≡ pkg_len pkg
  pub at_least : len_pkg_header ≤ pkg_len pkg
  pub at_most : pkg_len pkg ≤ pkg_max_length - 1000

abbrev pub AllWhole : List (List ℕ) → Type 0
AllWhole [] = Unit
AllWhole (pkg ∷ pkgs) = Whole pkg × AllWhole pkgs

AllWhole-append : (ps qs : List (List ℕ)) → AllWhole ps → AllWhole qs → AllWhole (ps ++ qs)
AllWhole-append [] qs h k = k
AllWhole-append (p ∷ ps) qs h k = (h.0, AllWhole-append ps qs h.1 k)

judge-AllWhole : (acc : List ℕ) → AllWhole (judge acc).1
unfolding judge
judge-AllWhole acc = elim (Bool-cases (ltb (length acc) len_pkg_header)) [
  | inl e ↦ rw e tt
  | inr e ↦ rw e (elim (Bool-cases (ltb (pkg_len acc) len_pkg_header)) [
    | inl f ↦ rw f tt
    | inr f ↦ rw f (elim (Bool-cases (ltb (pkg_max_length - 1000) (pkg_len acc))) [
      | inl g ↦ rw g tt
      | inr g ↦ rw g (elim (Bool-cases (length acc == pkg_len acc)) [
        | inl k ↦ rw k (
          record {
            announced = (==_iff _ _).0 k;
            at_least = ltb-false _ _ f;
            at_most = ltb-false _ _ g;
          },
          tt,
        )
        | inr k ↦ rw k tt
      ])
    ])
  ])
]

-- Whatever the stream, a package that is handed over has the length that its header announces, and that is
-- one that the protocol allows.
pub packages-AllWhole : (acc bs : List ℕ) → AllWhole (packages acc bs).1
unfolding packages
packages-AllWhole acc [] = tt
packages-AllWhole acc (b ∷ bs) =
    AllWhole-append (judge (acc ++ b ∷ [])).1 _ (judge-AllWhole (acc ++ b ∷ []))
      (packages-AllWhole (judge (acc ++ b ∷ [])).0 bs)

-- A run of bytes behind which the receiver decides for the first time.
packages-piece :
    (acc : List ℕ) (n : ℕ) (xs : List ℕ)
    → IsOpen acc n
    → 0 < length xs
    → length acc + length xs ≤ n
    → packages acc xs ≡ judge (acc ++ xs)
packages-piece acc n [] o h l = absurd (omega arith)
packages-piece acc n (b ∷ bs) o h l = packages-judge acc n b bs o l

header_only :
    (pkg : List ℕ) → Whole pkg → length pkg ≡ len_pkg_header → packages [] pkg ≡ ([], pkg ∷ [])
unfolding judge
header_only pkg w e =
    packages-piece [] len_pkg_header pkg (header-IsOpen []) (omega arith) (omega arith)
    ∙ ground (arith, w.announced)

with_body :
    (h b : List ℕ)
    → Whole (h ++ b)
    → length h ≡ len_pkg_header
    → 0 < length b
    → packages [] (h ++ b) ≡ ([], (h ++ b) ∷ [])
unfolding judge
with_body h b w e more =
    let l : pkg_len (h ++ b) ≡ pkg_len h = pkg_len-append h b (omega arith) in
    let n = length-append h b in
    let head : packages [] h ≡ (h, []) =
      packages-piece [] len_pkg_header h (header-IsOpen []) (omega arith) (omega arith)
      ∙ ground (arith, w.announced, w.at_least, w.at_most, l, n) in
    let still : IsOpen h (pkg_len h) =
      body-IsOpen h (omega arith) (omega (arith, w.at_least)) (omega (arith, w.at_most)) in
    packages-append [] h b
    ∙ rw (
      head,
      packages-piece h (pkg_len h) b still more (omega (arith, w.announced)),
      body-judge h b (omega arith) (omega (arith, w.at_least)) (omega (arith, w.at_most))
          (omega (arith, w.announced)),
    )

pub packages-Whole : (pkg : List ℕ) → Whole pkg → packages [] pkg ≡ ([], pkg ∷ [])
packages-Whole pkg w = elim (Bool-cases (length pkg == len_pkg_header)) [
  | inl e ↦ header_only pkg w ((==_iff _ _).0 e)
  | inr e ↦
      let s = take-append-drop len_pkg_header pkg in
      subst (λ p. packages [] p ≡ ([], p ∷ [])) s
        (with_body (take len_pkg_header pkg) (drop len_pkg_header pkg) (subst Whole (sym s) w)
          (omega (arith, length-take len_pkg_header pkg, w.announced, w.at_least))
          (omega (arith, length-drop len_pkg_header pkg, w.announced, w.at_least, ==-false _ _ e)))
]

-- From the bytes of whole packages, one after the other, exactly these packages are found.
pub packages-flatten :
    (pkgs : List (List ℕ)) → AllWhole pkgs → packages [] (flatten pkgs) ≡ ([], pkgs)
unfolding packages flatten
packages-flatten [] w = refl
packages-flatten (pkg ∷ pkgs) w =
    rw (packages-append [] pkg (flatten pkgs), packages-Whole pkg w.0, packages-flatten pkgs w.1)
