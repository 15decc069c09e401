-- ===== src/ReadTest/Conf/Lookup.antt =====
-- What a file that is written line by line gives for a name.
use linux_c_study.Prelude.{
  ℕ, zero, suc, ◌+◌, ◌≤◌, ◌<◌, ◌≡◌, refl, sym, ap, ◌∙◌, List, [], ◌∷◌, ◌++◌, some, Option, false,
  true, arith, map, if◌then◌else◌, length, length-append, append_assoc, inl, inr, Bool-cases,
  lt→ltb,
}
use mathlib.Core.List.{flatten}
use linux_c_study.Conf.{fgets, line_room, equals_sign, newline}
use linux_c_study.Conf.Roundtrip.{Without, fgets-append, Without-joined}
use linux_c_study.ReadTest.Conf.{
  ConfigMap, same_key, find, assign, is_comment, is_dropped, flag, read_key, read_value, read_line,
  load_loop, load,
}

-- The keys and values that are written, in their order.
abbrev pub Entry : Type 0
Entry = List ℕ × List ℕ

abbrev pub Kept : List ℕ → Type 0
Kept [] = Unit
Kept (c ∷ s) = (is_dropped c ≡ false) × Kept s

-- An entry that can be written as a line.
pub record Clean (e : Entry) : Type 0 where
  pub no_comment : is_comment e.0 ≡ false
  pub no_equals : Without equals_sign e.0
  pub key_kept : Kept e.0
  pub value_kept : Kept e.1
  pub has_alnum : 0 < flag e.0 + flag e.1
  pub line_fits : length e.0 + length e.1 + 1 < line_room

abbrev pub AllClean : List Entry → Type 0
AllClean [] = Unit
AllClean (e ∷ es) = Clean e × AllClean es

pub render : Entry → List ℕ
render e = (e.0 ++ equals_sign ∷ e.1) ++ newline ∷ []

-- The value that was given last.
abbrev pub latest : List ℕ → List Entry → Option (List ℕ) → Option (List ℕ)
latest name [] d = d
latest name ((key, value) ∷ es) d = latest name es (if same_key key name then some value else d)

same_key→eq : (s t : List ℕ) → same_key s t ≡ true → s ≡ t
unfolding same_key
same_key→eq [] [] h = refl
same_key→eq [] (d ∷ t) h = cc
same_key→eq (c ∷ s) [] h = cc
same_key→eq (c ∷ s) (d ∷ t) h = ground (arith, same_key→eq s t)

find-assign :
    (name key value : List ℕ) (m : ConfigMap)
    → find name (assign key value m) ≡ (if same_key key name then some value else find name m)
unfolding find assign
find-assign name key value [] = refl
find-assign name key value ((k, v) ∷ m) = elim (Bool-cases (same_key k key)) [
  | inl e ↦ rw (e, same_key→eq k key e) (ground arith)
  | inr e ↦
      rw (e, find-assign name key value m)
        (elim (Bool-cases (same_key key name)) [
          | inl f ↦
              let z : same_key k name ≡ false =
                sym (ap (same_key k) (same_key→eq key name f)) ∙ e in
              rw (f, z) refl
          | inr f ↦ rw f refl
        ])
]

read_value-Kept : (s : List ℕ) → Kept s → read_value (s ++ newline ∷ []) ≡ s
unfolding read_value
read_value-Kept [] k = refl
read_value-Kept (c ∷ s) k = rw (k.0, read_value-Kept s k.1)

read_key-Kept :
    (s r : List ℕ) → Kept s → Without equals_sign s → read_key (s ++ equals_sign ∷ r) ≡ (s, r)
unfolding read_key
read_key-Kept [] r k w = refl
read_key-Kept (c ∷ s) r k w = rw (k.0, w.0, read_key-Kept s r k.1 w.1)

comment-append : (l r : List ℕ) → is_comment l ≡ false → is_comment (l ++ r) ≡ false
comment-append [] r h = cc
comment-append (c ∷ l) r h = h

read_line-Clean : (e : Entry) (m : ConfigMap) → Clean e → read_line (render e) m ≡ assign e.0 e.1 m
unfolding read_line render
read_line-Clean e m c = rw (
  append_assoc e.0 (equals_sign ∷ e.1) (newline ∷ []),
  read_key-Kept e.0 (e.1 ++ newline ∷ []) c.key_kept c.no_equals,
  read_value-Kept e.1 c.value_kept,
  comment-append e.0 (equals_sign ∷ (e.1 ++ newline ∷ [])) c.no_comment,
  lt→ltb 0 _ c.has_alnum,
)

Kept→Without : (s : List ℕ) → Kept s → Without newline s
Kept→Without [] k = k
Kept→Without (c ∷ s) k = (ground (arith, k.0), Kept→Without s k.1)

fgets-render :
    (e : Entry) (file : List ℕ) → Clean e → fgets line_room (render e ++ file) ≡ (render e, file)
unfolding render
fgets-render e file c =
    ap (fgets line_room) (append_assoc (e.0 ++ equals_sign ∷ e.1) (newline ∷ []) file)
    ∙ fgets-append line_room (e.0 ++ equals_sign ∷ e.1) file
        (Without-joined e.0 e.1 (Kept→Without e.0 c.key_kept) (Kept→Without e.1 c.value_kept))
        (omega (arith, c.line_fits, length-append e.0 (equals_sign ∷ e.1)))

length-render : (e : Entry) (file : List ℕ) → length file < length (render e ++ file)
unfolding render
length-render e file =
    omega (
      arith,
      length-append (render e) file,
      length-append (e.0 ++ equals_sign ∷ e.1) (newline ∷ []),
    )

load_line :
    (fuel : ℕ) (file line rest : List ℕ) (m : ConfigMap)
    → 0 < length file
    → fgets line_room file ≡ (line, rest)
    → load_loop (suc fuel) file m ≡ load_loop fuel rest (read_line line m)
unfolding load_loop
load_line fuel [] line rest m h e = absurd (omega arith)
load_line fuel (c ∷ file) line rest m h e = rw e

load_loop-latest :
    (name : List ℕ) (fuel : ℕ) (es : List Entry) (m : ConfigMap)
    → AllClean es
    → length (flatten (map render es)) ≤ fuel
    → find name (load_loop fuel (flatten (map render es)) m) ≡ latest name es (find name m)
unfolding load_loop flatten
load_loop-latest name zero [] m c h = refl
load_loop-latest name (suc fuel) [] m c h = refl
load_loop-latest name zero (e ∷ es) m c h =
    absurd (omega (arith, length-render e (flatten (map render es))))
load_loop-latest name (suc fuel) ((key, value) ∷ es) m c h =
    let e : Entry = (key, value) in
    let file = flatten (map render es) in
    ap (find name) (
      load_line fuel (render e ++ file) _ file m (omega (arith, length-render e file))
        (fgets-render e file c.0))
    ∙ rw (read_line-Clean e m c.0) (
        load_loop-latest name fuel es (assign key value m) c.1 (omega (arith, length-render e file))
        ∙ ap (latest name es) (find-assign name key value m))

-- A file that has one line for each entry, its key, an equals sign and its value, where no line begins like a comment,
-- the key has no equals sign, neither part has a blank or an end of line, one of them has a letter or a digit, and the
-- line fits the buffer, is loaded so that a name has the value of the last entry with this key, or what it had before.
pub load-latest :
    (name : List ℕ) (es : List Entry) (m : ConfigMap)
    → AllClean es
    → find name (load (some (flatten (map render es))) m).0 ≡ latest name es (find name m)
unfolding load
load-latest name es m c =
    load_loop-latest name (length (flatten (map render es))) es m c (omega arith)
