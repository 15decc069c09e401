-- ===== src/Printf/Format.antt =====
-- linux_c++_6_4/nginx/app/ngx_printf.cxx: ngx_vslprintf. `none` stands for undefined behaviour: an argument
-- that is missing or of another type, or a read behind the end of the format.
use linux_c_study.Prelude.{
  ℕ, zero, suc, ◌+◌, ◌-◌, ◌*◌, ◌%◌, ◌^◌, List, [], ◌∷◌, ◌++◌, Option, none, some, Bool, true, false,
  ◌&&◌, ◌||◌, ltb, leb, ◌==◌, if◌then◌else◌, length, ℤ, pos, negsuc,
}
use linux_c_study.Printf.{ngx_sprintf_num}

-- A double and what is done with it: the sign test, negation, `(int64_t) f`, and
-- `(uint64_t) ((f - (double) ui64) * scale + 0.5)`.
pub record Double : Type 1 where
  pub D : Type 0
  pub negative : D → Bool
  pub negate : D → D
  pub whole : D → ℕ
  pub fraction : D → ℕ → ℕ → ℕ

-- A conversion between '%' and its letter.
pub record Spec : Type 0 where
  pub char : ℕ
  pub width : ℕ
  pub sign : Bool
  pub hex : ℕ
  pub frac_width : ℕ
  pub fmt : List ℕ

abbrev pub is_digit : ℕ → Bool
is_digit c = leb b'0' c && leb c b'9'

-- `while (*fmt >= '0' && *fmt <= '9') n = n * 10 + (*fmt++ - '0');`
unfoldable pub parse_number : ℕ → List ℕ → ℕ × List ℕ
parse_number n [] = (n, [])
parse_number n (c ∷ fmt) =
    let rest = parse_number ((n * 10 + (c - b'0')) % 2 ^ 64) fmt in
    if is_digit c then rest else (n, c ∷ fmt)

-- The loop over 'u', 'X', 'x' and '.'.
unfoldable pub parse_flags : Bool → ℕ → List ℕ → Bool × ℕ × ℕ × List ℕ
unfolding parse_number
parse_flags sign hex [] = (sign, hex, 0, [])
parse_flags sign hex (c ∷ fmt) =
    let unsigned = parse_flags false hex fmt in
    let upper = parse_flags false 2 fmt in
    let lower = parse_flags false 1 fmt in
    if c == b'u'
    then unsigned
    else if c == b'X'
    then upper
    else if c == b'x'
    then lower
    else if c == b'.'
    then (let (frac_width, fmt') = parse_number 0 fmt in (sign, hex, frac_width, fmt'))
    else (sign, hex, 0, c ∷ fmt)

abbrev fill_char : List ℕ → ℕ
fill_char [] = b' '
fill_char (c ∷ fmt) = if c == b'0' then b'0' else b' '

unfoldable pub parse_spec : List ℕ → Spec
unfolding parse_number parse_flags
parse_spec fmt =
    let (width, fmt') = parse_number 0 fmt in
    let (sign, hex, frac_width, fmt'') = parse_flags true 0 fmt' in
    record {
      char = fill_char fmt;
      width = width;
      sign = sign;
      hex = hex;
      frac_width = frac_width;
      fmt = fmt'';
    }

-- `scale *= 10`, n times.
unfoldable pub scale : ℕ → ℕ → ℕ
scale zero s = s
scale (suc n) s = scale n (s * 10 % 2 ^ 64)

-- `while (*p && buf < last) *buf++ = *p++;`
unfoldable pub copy_string : ℕ → List ℕ → List ℕ → List ℕ
copy_string cap buf [] = buf
copy_string cap buf (c ∷ p) =
    let rest = copy_string cap (buf ++ c ∷ []) p in if ltb (length buf) cap then rest else buf

module _ (d : Double) where
  open d use {D, negative, negate, whole, fraction}

  pub data Arg : Type 0 where
    signed : ℤ → Arg
    unsigned : ℕ → Arg
    pointer : ℕ → Arg
    string : List ℕ → Arg
    double : D → Arg

  -- A number that is shown with its sign, and one without.
  unfoldable pub put_signed : ℕ → Spec → ℤ → List ℕ → List ℕ
  unfolding ngx_sprintf_num
  put_signed cap s (pos n) buf = ngx_sprintf_num cap buf n s.char s.hex s.width
  put_signed cap s (negsuc n) buf =
      ngx_sprintf_num cap (buf ++ b'-' ∷ []) (n + 1) s.char s.hex s.width

  -- 'd', 'i' and 'L'.
  unfoldable pub put_integer : ℕ → Spec → Bool → List Arg → List ℕ → Option (List ℕ × List Arg)
  unfolding put_signed
  put_integer cap s true (signed i ∷ args) buf = some (put_signed cap s i buf, args)
  put_integer cap s false (unsigned n ∷ args) buf =
      some (ngx_sprintf_num cap buf n s.char s.hex s.width, args)
  put_integer cap s sign args buf = none

  unfoldable pub put_pid : ℕ → Spec → List Arg → List ℕ → Option (List ℕ × List Arg)
  unfolding put_signed
  put_pid cap s (signed i ∷ args) buf = some (put_signed cap s i buf, args)
  put_pid cap s args buf = none

  unfoldable pub put_pointer : ℕ → List Arg → List ℕ → Option (List ℕ × List Arg)
  put_pointer cap (pointer a ∷ args) buf = some (ngx_sprintf_num cap buf a b'0' 2 16, args)
  put_pointer cap args buf = none

  unfoldable pub put_string : ℕ → List Arg → List ℕ → Option (List ℕ × List Arg)
  unfolding copy_string
  put_string cap (string p ∷ args) buf = some (copy_string cap buf p, args)
  put_string cap args buf = none

  -- The digits of the fraction, behind a point.
  unfoldable pub put_fraction : ℕ → Spec → ℕ → List ℕ → List ℕ
  put_fraction cap s frac buf =
      if s.frac_width == 0
      then buf
      else ngx_sprintf_num cap (if ltb (length buf) cap then buf ++ b'.' ∷ [] else buf) frac b'0' 0
          s.frac_width

  -- The whole part, and the fraction where digits of it are asked for: a fraction that rounds up to one
  -- goes into the whole part.
  unfoldable pub split_double : Spec → D → ℕ × ℕ
  unfolding scale
  split_double s f =
      let ui64 = whole f in
      let sc = scale s.frac_width 1 in
      let frac = fraction f ui64 sc in
      if s.frac_width == 0
      then (ui64, 0)
      else if frac == sc
      then ((ui64 + 1) % 2 ^ 64, 0)
      else (ui64, frac)

  unfoldable pub put_abs : ℕ → Spec → D → List ℕ → List ℕ
  unfolding split_double put_fraction
  put_abs cap s f buf =
      let (ui64, frac) = split_double s f in
      put_fraction cap s frac (ngx_sprintf_num cap buf ui64 s.char 0 s.width)

  unfoldable pub put_double : ℕ → Spec → List Arg → List ℕ → Option (List ℕ × List Arg)
  unfolding put_abs
  put_double cap s (double f ∷ args) buf = some (
    (if negative f then put_abs cap s (negate f) (buf ++ b'-' ∷ []) else put_abs cap s f buf),
    args,
  )
  put_double cap s args buf = none

  -- The switch on the letter c of a conversion.
  unfoldable pub convert : ℕ → Spec → ℕ → List Arg → List ℕ → Option (List ℕ × List Arg)
  unfolding put_integer put_pid put_pointer put_string put_double
  convert cap s c args buf =
      if c == b'%'
      then some (buf ++ b'%' ∷ [], args)
      else if c == b'd' || c == b'i' || c == b'L'
      then put_integer cap s s.sign args buf
      else if c == b'p'
      then put_pointer cap args buf
      else if c == b's'
      then put_string cap args buf
      else if c == b'P'
      then put_pid cap s args buf
      else if c == b'f'
      then put_double cap s args buf
      else some (buf ++ c ∷ [], args)

  -- One conversion, behind its '%': what is left of the format and the arguments, and the buffer.
  unfoldable pub conversion :
      ℕ → Spec → List ℕ → List Arg → List ℕ → Option (List ℕ × List Arg × List ℕ)
  unfolding convert
  conversion cap s [] args buf = none
  conversion cap s (c ∷ fmt) args buf = elim (convert cap s c args buf) [
    | none ↦ none
    | some (buf', args') ↦ some (fmt, args', buf')
  ]

  -- The loop over the format.
  unfoldable pub vslprintf_loop : ℕ → ℕ → List ℕ → List Arg → List ℕ → Option (List ℕ)
  unfolding parse_spec conversion
  vslprintf_loop zero cap [] args buf = some buf
  vslprintf_loop zero cap (c ∷ fmt) args buf = none
  vslprintf_loop (suc fuel) cap [] args buf = some buf
  vslprintf_loop (suc fuel) cap (c ∷ fmt) args buf =
      let plain = vslprintf_loop fuel cap fmt args (buf ++ c ∷ []) in
      let s = parse_spec fmt in
      let converted : Option (List ℕ) = elim (conversion cap s s.fmt args buf) [
        | none ↦ none
        | some (fmt', args', buf') ↦ vslprintf_loop fuel cap fmt' args' buf'
      ] in
      if ltb (length buf) cap then (if c == b'%' then converted else plain) else some buf

  -- What is in the buffer in the end; the pointer that is returned is behind it.
  unfoldable pub ngx_vslprintf : ℕ → List ℕ → List Arg → List ℕ → Option (List ℕ)
  unfolding vslprintf_loop
  ngx_vslprintf cap fmt args buf = vslprintf_loop (length fmt) cap fmt args buf

  -- ngx_snprintf, on a buffer of `size` bytes.
  unfoldable pub ngx_snprintf : ℕ → List ℕ → List Arg → Option (List ℕ)
  unfolding ngx_vslprintf
  ngx_snprintf size fmt args = ngx_vslprintf size fmt args []
