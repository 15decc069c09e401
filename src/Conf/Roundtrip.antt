-- ===== src/Conf/Roundtrip.antt =====
-- A file that is written item by item is read back.
use mathlib.Core.List.{flatten}
use linux_c_study.Prelude.{
  ℕ, zero, suc, ◌+◌, ◌≤◌, ◌<◌, ◌≡◌, refl, ap, subst, ◌∙◌, List, [], ◌∷◌, ◌++◌, some, Bool, false,
  arith, map, leb, ◌==◌, if◌then◌else◌, length, length-append, get_or, take-append_exact,
  append_assoc,
}
use linux_c_study.Conf.{
  strip_loop, is_space, rtrim, ltrim, ConfItem, item_name_size, split_equals, is_comment,
  is_line_end, is_section, item, make_item, read_item, read_line, fgets, add_line, line_room,
  load_loop, load, equals_sign, newline,
}

-- The last character, where there is one, does not pass the test.
pub data Solid (test : ℕ → Bool) : List ℕ → Type 0 where
  empty : Solid test []
  ends : (s : List ℕ) (c : ℕ) → test c ≡ false → Solid test (s ++ c ∷ [])

get_or-last : (s : List ℕ) (c : ℕ) → get_or (s ++ c ∷ []) (length s) 0 ≡ c
get_or-last [] c = refl
get_or-last (b ∷ s) c = get_or-last s c

length-last : (s : List ℕ) (c : ℕ) → length (s ++ c ∷ []) ≡ suc (length s)
length-last s c = omega (arith, length-append s (c ∷ []))

strip-last :
    (test : ℕ → Bool) (s : List ℕ) (c : ℕ)
    → strip_loop test (length (s ++ c ∷ [])) (s ++ c ∷ [])
      ≡ (if test c then strip_loop test (length s) s else s ++ c ∷ [])
unfolding strip_loop
strip-last test s c =
    rw (length-last s c, get_or-last s c, take-append_exact (length s) s (c ∷ []) refl)

strip-Solid : (test : ℕ → Bool) (s : List ℕ) → Solid test s → strip_loop test (length s) s ≡ s
unfolding strip_loop
strip-Solid test s empty = refl
strip-Solid test s (ends t c h) = strip-last test t c ∙ rw h

-- A byte does not occur.
abbrev pub Without : ℕ → List ℕ → Type 0
Without b [] = Unit
Without b (c ∷ s) = ((c == b) ≡ false) × Without b s

split_equals-append :
    (l r : List ℕ) → Without equals_sign l → split_equals (l ++ equals_sign ∷ r) ≡ some (l, r)
unfolding split_equals
split_equals-append [] r w = refl
split_equals-append (c ∷ l) r w = rw (w.0, split_equals-append l r w.1)

pub fgets-append :
    (room : ℕ) (s file : List ℕ)
    → Without newline s
    → length s < room
    → fgets room (s ++ newline ∷ file) ≡ (s ++ newline ∷ [], file)
unfolding fgets
fgets-append zero s file w h = absurd (omega arith)
fgets-append (suc room) [] file w h = refl
fgets-append (suc room) (c ∷ s) file w h = rw (w.0, fgets-append room s file w.1 (omega arith))

-- An item that can be written as a line: its name begins like one, and neither part has characters that
-- Load takes away.
pub record Clean (i : ConfItem) : Type 0 where
  pub no_comment : is_comment i.item_name ≡ false
  pub no_section : is_section i.item_name ≡ false
  pub no_equals : Without equals_sign i.item_name
  pub name_end : Solid is_space i.item_name
  pub name_fits : length i.item_name < item_name_size
  pub content_start : is_space (get_or i.item_content 0 0) ≡ false
  pub content_end : Solid is_line_end i.item_content
  pub name_line : Without newline i.item_name
  pub content_line : Without newline i.item_content
  pub line_fits : length i.item_name + length i.item_content + 1 < line_room

pub render : ConfItem → List ℕ
render i = i.item_name ++ equals_sign ∷ (i.item_content ++ newline ∷ [])

no_space : (c : ℕ) → is_line_end c ≡ false → is_space c ≡ false
no_space c h = ground arith

weaken : (s : List ℕ) → Solid is_line_end s → Solid is_space s
weaken s empty = empty
weaken s (ends t c h) = ends t c (no_space c h)

ltrim-start : (s : List ℕ) → is_space (get_or s 0 0) ≡ false → ltrim s ≡ s
unfolding ltrim
ltrim-start [] h = refl
ltrim-start (c ∷ s) h = rw h

name_start : (s : List ℕ) → is_comment s ≡ false → is_space (get_or s 0 0) ≡ false
name_start [] h = refl
name_start (c ∷ s) h = ground arith

joined-Solid : (l r : List ℕ) → Solid is_line_end r → Solid is_line_end (l ++ equals_sign ∷ r)
joined-Solid l r empty = ends l equals_sign refl
joined-Solid l r (ends t c h) =
    subst (Solid is_line_end) (append_assoc l (equals_sign ∷ t) (c ∷ []))
      (ends (l ++ equals_sign ∷ t) c h)

fits : (s : List ℕ) → length s < item_name_size → leb item_name_size (length s) ≡ false
fits s h = ground arith

make_item-Clean : (i : ConfItem) → Clean i → make_item i.item_name i.item_content ≡ item i
unfolding make_item rtrim
make_item-Clean i c = rw (
  fits i.item_name c.name_fits,
  strip-Solid is_space i.item_name c.name_end,
  strip-Solid is_space i.item_content (weaken i.item_content c.content_end),
  ltrim-start i.item_name (name_start i.item_name c.no_comment),
  ltrim-start i.item_content c.content_start,
)

section-append : (l r : List ℕ) → is_section l ≡ false → is_section (l ++ r) ≡ false
section-append [] r h = cc
section-append (c ∷ l) r h = h

comment-append : (l r : List ℕ) → is_comment l ≡ false → is_comment (l ++ r) ≡ false
comment-append [] r h = cc
comment-append (c ∷ l) r h = h

read_item-Clean :
    (i : ConfItem) → Clean i → read_item (i.item_name ++ equals_sign ∷ i.item_content) ≡ item i
unfolding read_item
read_item-Clean i c =
    rw
      (
        section-append i.item_name (equals_sign ∷ i.item_content) c.no_section,
        split_equals-append i.item_name i.item_content c.no_equals,
      )
      (make_item-Clean i c)

read_line-Clean :
    (i : ConfItem)
    → Clean i
    → read_line ((i.item_name ++ equals_sign ∷ i.item_content) ++ newline ∷ []) ≡ item i
unfolding read_line
read_line-Clean i c =
    let s = i.item_name ++ equals_sign ∷ i.item_content in
    let line =
      comment-append s (newline ∷ [])
        (comment-append i.item_name (equals_sign ∷ i.item_content) c.no_comment) in
    rw
      (
        line,
        strip-last is_line_end s newline,
        strip-Solid is_line_end s (joined-Solid i.item_name i.item_content c.content_end),
      )
      (read_item-Clean i c)

pub Without-joined :
    (l r : List ℕ) → Without newline l → Without newline r → Without newline (l ++ equals_sign ∷ r)
Without-joined [] r h k = (refl, k)
Without-joined (c ∷ l) r h k = (h.0, Without-joined l r h.1 k)

-- The first line of a file that begins with an item.
fgets-render :
    (i : ConfItem) (file : List ℕ)
    → Clean i
    → fgets line_room (render i ++ file)
      ≡ ((i.item_name ++ equals_sign ∷ i.item_content) ++ newline ∷ [], file)
unfolding render
fgets-render i file c =
    let s = i.item_name ++ equals_sign ∷ i.item_content in
    let e : render i ++ file ≡ s ++ newline ∷ file = simp append_assoc in
    ap (fgets line_room) e
    ∙ fgets-append line_room s file
        (Without-joined i.item_name i.item_content c.name_line c.content_line)
        (omega (arith, c.line_fits, length-append i.item_name (equals_sign ∷ i.item_content)))

abbrev pub AllClean : List ConfItem → Type 0
AllClean [] = Unit
AllClean (i ∷ is) = Clean i × AllClean is

load_line :
    (fuel : ℕ) (file line rest : List ℕ) (i : ConfItem)
    → 0 < length file
    → fgets line_room file ≡ (line, rest)
    → read_line line ≡ item i
    → load_loop (suc fuel) file ≡ add_line (item i) (load_loop fuel rest)
unfolding load_loop
load_line fuel [] line rest i h e f = absurd (omega arith)
load_line fuel (c ∷ file) line rest i h e f = rw (e, f)

length-render : (i : ConfItem) (file : List ℕ) → length file < length (render i ++ file)
unfolding render
length-render i file = omega (
  arith,
  length-append (render i) file,
  length-append i.item_name (equals_sign ∷ (i.item_content ++ newline ∷ [])),
)

load_loop-render :
    (fuel : ℕ) (is : List ConfItem)
    → AllClean is
    → length (flatten (map render is)) ≤ fuel
    → load_loop fuel (flatten (map render is)) ≡ some is
unfolding load_loop flatten add_line
load_loop-render zero [] c h = refl
load_loop-render (suc fuel) [] c h = refl
load_loop-render zero (i ∷ is) c h =
    absurd (omega (arith, length-render i (flatten (map render is))))
load_loop-render (suc fuel) (i ∷ is) c h =
    let file = flatten (map render is) in
    load_line fuel (render i ++ file) _ file i (omega (arith, length-render i file))
      (fgets-render i file c.0) (read_line-Clean i c.0)
    ∙ rw (load_loop-render fuel is c.1 (omega (arith, length-render i file)))

-- A file of one line for each item, its name, an equals sign and its content, where Load takes no character of
-- them for a comment, a section, an end of line or a blank to cut off and name and line fit their buffers, is
-- loaded as exactly these items, in order.
pub load-render : (is : List ConfItem) → AllClean is → load (flatten (map render is)) ≡ some is
unfolding load
load-render is c = load_loop-render (length (flatten (map render is))) is c (omega arith)
