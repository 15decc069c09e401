-- ===== src/Printf.antt =====
-- linux_c++_6_4/nginx/app/ngx_printf.cxx: ngx_sprintf_num. A buffer is the list of the bytes that were
-- written to it; `cap` is the place of `last`, counted from the buffer's start.
pub mod Format
pub mod Digits
pub mod Number
pub mod Bounds
pub mod Ends
use Prim.Native.Nat.{bit_and}
use linux_c_study.Prelude.{
  ℕ, zero, suc, ◌+◌, ◌-◌, ◌*◌, ◌/◌, ◌%◌, ◌^◌, List, [], ◌∷◌, ◌++◌, Bool, ◌&&◌, ltb, leb, ◌==◌,
  if◌then◌else◌, length, take,
}

abbrev pub ngx_int64_len : ℕ
ngx_int64_len = 20

abbrev pub ngx_max_uint32_value : ℕ
ngx_max_uint32_value = 0xffff_ffff

-- The characters of "0123456789abcdef" and "0123456789ABCDEF".
abbrev pub hex_lower : ℕ → ℕ
hex_lower d = if ltb d 10 then b'0' + d else b'a' + (d - 10)

abbrev pub hex_upper : ℕ → ℕ
hex_upper d = if ltb d 10 then b'0' + d else b'A' + (d - 10)

abbrev pub decimal : ℕ → ℕ
decimal d = d + b'0'

-- `do { *--p = ...; } while (n /= base);`, the digits written so far being `p`.
unfoldable pub digits_loop : ℕ → ℕ → (ℕ → ℕ) → ℕ → List ℕ → List ℕ
digits_loop zero base char n p = p
digits_loop (suc fuel) base char n p =
    let p' = char (n % base) ∷ p in
    let rest = digits_loop fuel base char (n / base) p' in if n / base == 0 then p' else rest

-- A 64-bit number has at most that many digits in base 10 and 16.
abbrev pub digits_fuel : ℕ
digits_fuel = 64

unfoldable pub number_digits : ℕ → ℕ → List ℕ
unfolding digits_loop
number_digits hexadecimal ui64 =
    if hexadecimal == 0
    then (if leb ui64 ngx_max_uint32_value
        then digits_loop digits_fuel 10 decimal (ui64 % 2 ^ 32) []
        else digits_loop digits_fuel 10 decimal ui64 [])
    else if hexadecimal == 1
    then digits_loop digits_fuel 16 hex_lower ui64 []
    else digits_loop digits_fuel 16 hex_upper ui64 []

-- `while (len++ < width && buf < last) *buf++ = zero;`
unfoldable pub pad : ℕ → ℕ → ℕ → ℕ → ℕ → List ℕ → List ℕ
pad zero cap char len width buf = buf
pad (suc fuel) cap char len width buf =
    let rest = pad fuel cap char (len + 1) width (buf ++ char ∷ []) in
    if ltb len width && ltb (length buf) cap then rest else buf

-- `last - buf` as a size_t.
abbrev pub room : ℕ → List ℕ → ℕ
room cap buf = (cap + 2 ^ 64 - length buf) % 2 ^ 64

unfoldable pub copy_digits : ℕ → List ℕ → List ℕ → List ℕ
copy_digits cap buf p =
    let len = if leb cap (length buf + length p) then room cap buf else length p in
    buf ++ take len p

unfoldable pub ngx_sprintf_num : ℕ → List ℕ → ℕ → ℕ → ℕ → ℕ → List ℕ
unfolding number_digits pad copy_digits
ngx_sprintf_num cap buf ui64 char hexadecimal width =
    let p = number_digits hexadecimal ui64 in
    copy_digits cap (pad cap cap char (length p) width buf) p
