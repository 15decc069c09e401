-- ===== src/Conf.antt =====
-- linux_c++_6_4/nginx/app/ngx_string.cxx and ngx_c_conf.cxx: the configuration. A string is the list of its
-- bytes without the terminating zero, a file the list of its bytes, which holds no zero and is read without errors.
pub mod Roundtrip
pub mod Ends
use linux_c_study.Prelude.{
  ℕ, zero, suc, ◌+◌, ◌-◌, ◌*◌, ◌%◌, ◌^◌, List, [], ◌∷◌, ◌++◌, Option, none, some, Bool, true, false,
  ◌&&◌, ◌||◌, ltb, leb, ◌==◌, if◌then◌else◌, length, get_or, take,
}

abbrev pub equals_sign : ℕ
equals_sign = b'='

abbrev pub newline : ℕ
newline = 10

abbrev pub carriage_return : ℕ
carriage_return = 13

-- `while (len > 0 && string[len - 1] == ' ') string[--len] = 0;`, for any set of characters.
unfoldable pub strip_loop : (ℕ → Bool) → ℕ → List ℕ → List ℕ
strip_loop test zero s = s
strip_loop test (suc len) s =
    let rest = strip_loop test len (take len s) in if test (get_or s len 0) then rest else s

abbrev pub is_space : ℕ → Bool
is_space c = c == b' '

unfoldable pub rtrim : List ℕ → List ℕ
unfolding strip_loop
rtrim s = strip_loop is_space (length s) s

unfoldable pub ltrim : List ℕ → List ℕ
ltrim [] = []
ltrim (c ∷ s) = if is_space c then ltrim s else c ∷ s

-- CConfItem, and its ItemName of 50 bytes, of which the last must stay zero.
pub record ConfItem : Type 0 where
  pub item_name : List ℕ
  pub item_content : List ℕ

abbrev pub item_name_size : ℕ
item_name_size = 50

-- The line up to its first '=', and what is behind it: strchr.
unfoldable pub split_equals : List ℕ → Option (List ℕ × List ℕ)
split_equals [] = none
split_equals (c ∷ s) =
    let rest : Option (List ℕ × List ℕ) = elim (split_equals s) [
      | none ↦ none
      | some (l, r) ↦ some (c ∷ l, r)
    ] in
    if c == equals_sign then some ([], s) else rest

abbrev pub is_comment : List ℕ → Bool
is_comment [] = true
is_comment (c ∷ s) = c == b';' || c == b' ' || c == b'#' || c == 9 || c == newline

abbrev pub is_line_end : ℕ → Bool
is_line_end c = c == newline || c == carriage_return || c == b' '

abbrev pub is_section : List ℕ → Bool
is_section [] = true
is_section (c ∷ s) = c == b'['

-- What a line says: nothing, an item, or a name that does not fit its 50 bytes.
pub data Line : Type 0 where
  nothing : Line
  item : ConfItem → Line
  overflow : Line

unfoldable pub make_item : List ℕ → List ℕ → Line
unfolding rtrim ltrim
make_item l r =
    if leb item_name_size (length l)
    then overflow
    else item (record { item_name = ltrim (rtrim l); item_content = ltrim (rtrim r) })

-- Behind the loop at lblprocstring.
unfoldable pub read_item : List ℕ → Line
unfolding split_equals make_item
read_item s =
    if is_section s
    then nothing
    else elim (split_equals s) [ none ↦ nothing | some (l, r) ↦ make_item l r ]

unfoldable pub read_line : List ℕ → Line
unfolding strip_loop read_item
read_line linebuf =
    if is_comment linebuf
    then nothing
    else read_item (strip_loop is_line_end (length linebuf) linebuf)

-- fgets(linebuf, 500, fp): up to 499 bytes, up to and with a newline; and the rest of the file.
unfoldable pub fgets : ℕ → List ℕ → List ℕ × List ℕ
fgets zero file = ([], file)
fgets (suc room) [] = ([], [])
fgets (suc room) (c ∷ file) =
    let (line, rest) = fgets room file in if c == newline then (c ∷ [], file) else (c ∷ line, rest)

abbrev pub line_room : ℕ
line_room = 499

-- What a line adds in front of the items of the lines behind it; `none` where a name overflows.
unfoldable pub add_line : Line → Option (List ConfItem) → Option (List ConfItem)
add_line nothing items = items
add_line overflow items = none
add_line (item i) none = none
add_line (item i) (some items) = some (i ∷ items)

-- The loop of Load on a file whose reads succeed, so that fgets() gives NULL at its end only. Each round with a
-- line takes a byte of the file at least; out of fuel there is no result.
unfoldable pub load_loop : ℕ → List ℕ → Option (List ConfItem)
load_loop zero [] = some []
load_loop zero (c ∷ file) = none
load_loop (suc fuel) [] = some []
load_loop (suc fuel) (c ∷ file) =
    let r = fgets line_room (c ∷ file) in add_line (read_line (r.0)) (load_loop fuel (r.1))

unfoldable pub load : List ℕ → Option (List ConfItem)
unfolding load_loop
load file = load_loop (length file) file

-- strcasecmp(a, b) == 0, in the "C" locale.
abbrev pub to_lower : ℕ → ℕ
to_lower c = if leb b'A' c && leb c b'Z' then c + 32 else c

unfoldable pub same_name : List ℕ → List ℕ → Bool
same_name [] [] = true
same_name [] (d ∷ t) = false
same_name (c ∷ s) [] = false
same_name (c ∷ s) (d ∷ t) = (to_lower c == to_lower d) && same_name s t

unfoldable pub get_string : List ℕ → List ConfItem → Option (List ℕ)
unfolding same_name
get_string name [] = none
get_string name (i ∷ is) =
    let rest = get_string name is in
    if same_name i.item_name name then some i.item_content else rest

-- GetIntDefault; `atoi` is the C library's.
unfoldable pub get_int_default {ℓ} : {A : Type ℓ} → (List ℕ → A) → List ℕ → A → List ConfItem → A
unfolding same_name
get_int_default atoi name def [] = def
get_int_default atoi name def (i ∷ is) =
    let rest = get_int_default atoi name def is in
    if same_name i.item_name name then atoi i.item_content else rest
