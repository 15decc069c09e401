-- ===== src/ReadTest/Conf.antt =====
-- read_test/app/ngx_c_conf.cxx: the configuration, a map from names to values. A string is the list of its
-- bytes without the terminating zero, a file the list of its bytes, which holds no zero.
pub mod Lookup
pub mod Numbers
use linux_c_study.Prelude.{
  ℕ, zero, suc, ◌+◌, ◌-◌, ◌*◌, ◌%◌, ◌^◌, List, [], ◌∷◌, Option, none, some, Bool, true, false, ◌&&◌,
  ◌||◌, ltb, leb, ◌==◌, if◌then◌else◌, length, ℤ, pos, negsuc,
}
use linux_c_study.Conf.{equals_sign, newline, carriage_return, fgets, line_room}

-- std::map<std::string, std::string>, and std::string's `==`.
abbrev pub ConfigMap : Type 0
ConfigMap = List (List ℕ × List ℕ)

unfoldable pub same_key : List ℕ → List ℕ → Bool
same_key [] [] = true
same_key [] (d ∷ t) = false
same_key (c ∷ s) [] = false
same_key (c ∷ s) (d ∷ t) = (c == d) && same_key s t

unfoldable pub find : List ℕ → ConfigMap → Option (List ℕ)
unfolding same_key
find name [] = none
find name ((key, value) ∷ m) =
    let rest = find name m in if same_key key name then some value else rest

-- m_ConfigMaplist[key] = value.
unfoldable pub assign : List ℕ → List ℕ → ConfigMap → ConfigMap
unfolding same_key
assign key value [] = (key, value) ∷ []
assign key value ((k, v) ∷ m) =
    let rest = assign key value m in if same_key k key then (k, value) ∷ m else (k, v) ∷ rest

abbrev pub is_comment : List ℕ → Bool
is_comment [] = true
is_comment (c ∷ s) = c == b' ' || c == b';' || c == newline || c == 9 || c == b'[' || c == b'#'

abbrev pub is_dropped : ℕ → Bool
is_dropped c = c == b' ' || c == newline || c == 0 || c == carriage_return

-- What `flag` counts.
abbrev pub is_alnum : ℕ → Bool
is_alnum c = (leb b'0' c && leb c b'9') || (leb b'a' c && leb c b'z') || (leb b'A' c && leb c b'Z')

unfoldable pub flag : List ℕ → ℕ
flag [] = 0
flag (c ∷ s) = (if is_alnum c then 1 else 0) + flag s

-- The first loop over a line: the key, and what is behind the '='.
unfoldable pub read_key : List ℕ → List ℕ × List ℕ
read_key [] = ([], [])
read_key (c ∷ s) =
    let (key, rest) = read_key s in
    if c == equals_sign then ([], s) else if is_dropped c then (key, rest) else (c ∷ key, rest)

-- The second one.
unfoldable pub read_value : List ℕ → List ℕ
read_value [] = []
read_value (c ∷ s) = if is_dropped c then read_value s else c ∷ read_value s

-- One round of the loop of Load, behind fgets.
unfoldable pub read_line : List ℕ → ConfigMap → ConfigMap
unfolding assign flag read_key read_value
read_line linebuf m =
    let (key, rest) = read_key linebuf in
    let value = read_value rest in
    if is_comment linebuf
    then m
    else if ltb 0 (flag key + flag value)
    then assign key value m
    else m

-- Each round with a line takes a byte of the file at least.
unfoldable pub load_loop : ℕ → List ℕ → ConfigMap → ConfigMap
unfolding read_line
load_loop zero file m = m
load_loop (suc fuel) [] m = m
load_loop (suc fuel) (c ∷ file) m =
    let r = fgets line_room (c ∷ file) in load_loop fuel (r.1) (read_line (r.0) m)

-- The file is `none` where fopen fails.
unfoldable pub load : Option (List ℕ) → ConfigMap → ConfigMap × Bool
unfolding load_loop
load none m = (m, false)
load (some file) m = (load_loop (length file) file m, true)

abbrev pub null_text : List ℕ
null_text = b'N' ∷ b'U' ∷ b'L' ∷ b'L' ∷ []

unfoldable pub get_string : List ℕ → ConfigMap → List ℕ
unfolding find
get_string name m = elim (find name m) [ none ↦ null_text | some value ↦ value ]

-- The value of an `int`, given as its pattern below 2 ^ 32.
unfoldable pub signed : ℕ → ℤ
signed n = if ltb n (2 ^ 31) then pos n else negsuc (2 ^ 32 - 1 - n)

-- The loop of GetInt; `none` where it returns -1.
unfoldable pub to_int : ℕ → List ℕ → Option ℕ
to_int temp [] = some temp
to_int temp (c ∷ str) =
    let rest = to_int ((temp * 10 + (c - b'0')) % 2 ^ 32) str in
    if leb b'0' c && leb c b'9' then rest else none

unfoldable pub int_or : Option ℕ → ℤ
unfolding signed
int_or none = negsuc 0
int_or (some n) = signed n

unfoldable pub int_of : Option (List ℕ) → ℤ
unfolding to_int int_or
int_of none = negsuc 0
int_of (some str) = int_or (to_int 0 str)

unfoldable pub get_int : List ℕ → ConfigMap → ℤ
unfolding find int_of
get_int name m = int_of (find name m)
