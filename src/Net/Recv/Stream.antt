-- ===== src/Net/Recv/Stream.antt =====
-- The packages in a stream of bytes, byte by byte: what the receiver is to find however the stream is cut.
use linux_c_study.Prelude.{
  ℕ, ◌+◌, ◌-◌, ◌≤◌, ◌<◌, ◌≡◌, refl, ap, ◌∙◌, List, [], ◌∷◌, ◌++◌, ltb, ◌==◌, ◌||◌, if◌then◌else◌,
  arith, length, length-append, append-nil, append_assoc,
}
use linux_c_study.Net.Conn.{pkg_max_length, len_pkg_header, pkg_len}

-- The bytes of a package so far, behind a byte that was just added: wait, drop or hand over.
unfoldable pub judge : List ℕ → List ℕ × List (List ℕ)
judge acc =
    if ltb (length acc) len_pkg_header
    then (acc, [])
    else if ltb (pkg_len acc) len_pkg_header || ltb (pkg_max_length - 1000) (pkg_len acc)
    then ([], [])
    else if length acc == pkg_len acc
    then ([], acc ∷ [])
    else (acc, [])

-- The bytes that are left over, and the packages.
unfoldable pub packages : List ℕ → List ℕ → List ℕ × List (List ℕ)
packages acc [] = (acc, [])
packages acc (b ∷ bs) =
    let (acc', out) = judge (acc ++ b ∷ []) in
    let (rest, outs) = packages acc' bs in (rest, out ++ outs)

-- Until the package is `n` bytes long, nothing is decided.
abbrev pub IsOpen : List ℕ → ℕ → Type 0
IsOpen acc n = (xs : List ℕ) → length acc + length xs < n → judge (acc ++ xs) ≡ (acc ++ xs, [])

IsOpen-append : (acc xs : List ℕ) (n : ℕ) → IsOpen acc n → IsOpen (acc ++ xs) n
IsOpen-append acc xs n o ys h =
    rw (append_assoc acc xs ys)
      (o (xs ++ ys) (omega (arith, length-append acc xs, length-append xs ys)))

pub packages-judge :
    (acc : List ℕ) (n b : ℕ) (bs : List ℕ)
    → IsOpen acc n
    → length acc + length (b ∷ bs) ≤ n
    → packages acc (b ∷ bs) ≡ judge (acc ++ b ∷ bs)
unfolding packages
packages-judge acc n b [] o h = rw append-nil
packages-judge acc n b (c ∷ bs) o h = rw (o (b ∷ []) (omega arith)) (
    packages-judge (acc ++ b ∷ []) n c bs (IsOpen-append acc (b ∷ []) n o)
      (omega (arith, length-append acc (b ∷ [])))
    ∙ ap judge (append_assoc acc (b ∷ []) (c ∷ bs)))

-- A header is complete with its eighth byte.
pub header-IsOpen : (acc : List ℕ) → IsOpen acc len_pkg_header
unfolding judge
header-IsOpen acc xs h = ground (arith, length-append acc xs)

pub pkg_len-append : (acc xs : List ℕ) → 2 ≤ length acc → pkg_len (acc ++ xs) ≡ pkg_len acc
pkg_len-append [] xs h = absurd (omega arith)
pkg_len-append (a ∷ []) xs h = absurd (omega arith)
pkg_len-append (a ∷ b ∷ acc) xs h = refl

-- A package is complete with the byte that its header announces as the last.
pub body-IsOpen :
    (acc : List ℕ)
    → len_pkg_header ≤ length acc
    → len_pkg_header ≤ pkg_len acc
    → pkg_len acc ≤ pkg_max_length - 1000
    → IsOpen acc (pkg_len acc)
unfolding judge
body-IsOpen acc h lo hi xs m =
    ground (arith, length-append acc xs, pkg_len-append acc xs (omega arith))

pub packages-append :
    (acc xs ys : List ℕ)
    → packages acc (xs ++ ys) ≡ (
      (packages (packages acc xs).0 ys).0,
      (packages acc xs).1 ++ (packages (packages acc xs).0 ys).1,
    )
unfolding packages
packages-append acc [] ys = refl
packages-append acc (x ∷ xs) ys =
    rw (packages-append (judge (acc ++ x ∷ [])).0 xs ys) (simp append_assoc)

-- With its last byte a package is handed over.
pub body-judge :
    (acc xs : List ℕ)
    → len_pkg_header ≤ length acc
    → len_pkg_header ≤ pkg_len acc
    → pkg_len acc ≤ pkg_max_length - 1000
    → length acc + length xs ≡ pkg_len acc
    → judge (acc ++ xs) ≡ ([], (acc ++ xs) ∷ [])
unfolding judge
body-judge acc xs h lo hi e =
    ground (arith, length-append acc xs, pkg_len-append acc xs (omega arith))
