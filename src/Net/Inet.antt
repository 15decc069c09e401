-- ===== src/Net/Inet.antt =====
-- linux_c++_6_4/nginx/net/ngx_c_socket_inet.cxx: an address as text.
use linux_c_study.Prelude.{
  ℕ, suc, ◌+◌, ◌-◌, ◌^◌, ◌≤◌, ◌<◌, ◌≡◌, refl, ap, ◌∙◌, arith, List, [], ◌∷◌, ◌++◌, Option, some,
  Bool, true, false, length, length-append, take, take_all, replicate, lt→ltb, if◌then◌else◌, ◌==◌,
  pos, append_assoc,
}
use linux_c_study.Printf.{number_digits, ngx_sprintf_num}
use linux_c_study.Printf.Number.{ngx_sprintf_num-take}
use linux_c_study.Printf.Digits.{length-decimal}
use linux_c_study.Printf.Format.{
  Double, Arg, unsigned, signed, vslprintf_loop, ngx_snprintf, ngx_vslprintf, conversion, convert,
  put_integer, put_signed, parse_spec,
}

-- A socket address: IPv4 with the bytes of sin_addr and the port, or another family.
pub data SockAddr : Type 0 where
  inet : ℕ → ℕ → ℕ → ℕ → ℕ → SockAddr
  other_family : SockAddr

abbrev number_format : List ℕ
number_format = b'%' ∷ b'u' ∷ b'd' ∷ []

-- "%ud.%ud.%ud.%ud", and with ":%d".
abbrev pub ip_format : List ℕ
ip_format =
    number_format ++ b'.' ∷ (number_format ++ b'.' ∷ (number_format ++ b'.' ∷ number_format))

abbrev pub ip_port_format : List ℕ
ip_port_format = ip_format ++ b':' ∷ b'%' ∷ b'd' ∷ []

-- A byte has at most three digits, a port at most five.
-- A byte in decimal and a point; and four of them.
abbrev pub part : ℕ → List ℕ
part n = number_digits 0 n ++ b'.' ∷ []

abbrev pub dotted : ℕ → ℕ → ℕ → ℕ → List ℕ
dotted a b c e = ((part a ++ part b) ++ part c) ++ number_digits 0 e

length-byte : (n : ℕ) → n < 256 → length (number_digits 0 n) ≤ 3
length-byte n h = length-decimal 2 n (omega (arith, h)) (omega (arith, h))

length-port : (n : ℕ) → n < 65536 → length (number_digits 0 n) ≤ 5
length-port n h = length-decimal 4 n (omega (arith, h)) (omega (arith, h))

length-part : (n : ℕ) → n < 256 → length (part n) ≤ 4
length-part n h = omega (arith, length-append (number_digits 0 n) (b'.' ∷ []), length-byte n h)

length-parts :
    (a b c : ℕ)
    → a < 256
    → b < 256
    → c < 256
    → (length (part a ++ part b) ≤ 8) × (length ((part a ++ part b) ++ part c) ≤ 12)
length-parts a b c h i j =
    let ab = length-append (part a) (part b) in
    (
      omega (arith, ab, length-part a h, length-part b i),
      omega (
        arith,
        ab,
        length-append (part a ++ part b) (part c),
        length-part a h,
        length-part b i,
        length-part c j,
      ),
    )

length-dotted : (a b c e : ℕ) → a < 256 → b < 256 → c < 256 → e < 256 → length (dotted a b c e) ≤ 15
length-dotted a b c e h i j k = omega (
  arith,
  length-append ((part a ++ part b) ++ part c) (number_digits 0 e),
  (length-parts a b c h i j).1,
  length-byte e k,
)

module _ (d : Double) where
  -- The text that is written, in a buffer of `len` bytes; what is returned is its length.
  unfoldable pub ngx_sock_ntop : SockAddr → Bool → ℕ → Option (List ℕ)
  unfolding ngx_snprintf
  ngx_sock_ntop other_family port len = some []
  ngx_sock_ntop (inet a b c e p) true len =
      ngx_snprintf d len ip_port_format
        (unsigned a ∷ unsigned b ∷ unsigned c ∷ unsigned e ∷ signed (pos p) ∷ [])
  ngx_sock_ntop (inet a b c e p) false len =
      ngx_snprintf d len ip_format (unsigned a ∷ unsigned b ∷ unsigned c ∷ unsigned e ∷ [])

  -- A number, and a character, that fit.
  number-fits :
      (last n : ℕ) (buf : List ℕ)
      → last < 2 ^ 64
      → length buf + length (number_digits 0 n) ≤ last
      → ngx_sprintf_num last buf n b' ' 0 0 ≡ buf ++ number_digits 0 n
  number-fits last n buf h l =
      let z : 0 - length (number_digits 0 n) ≡ 0 = omega arith in
      ngx_sprintf_num-take last buf n b' ' 0 0 (omega (arith, l)) h
      ∙ (ap (λ j. take last (buf ++ (replicate j b' ' ++ number_digits 0 n))) z
          ∙ take_all last (buf ++ number_digits 0 n)
              (omega (arith, l, length-append buf (number_digits 0 n))))

  loop-number :
      (fuel last n : ℕ) (fmt : List ℕ) (args : List (Arg d)) (buf : List ℕ)
      → last < 2 ^ 64
      → length buf < last
      → length buf + length (number_digits 0 n) ≤ last
      → vslprintf_loop d (suc fuel) last (b'%' ∷ b'u' ∷ b'd' ∷ fmt) (unsigned n ∷ args) buf
        ≡ vslprintf_loop d fuel last fmt args (buf ++ number_digits 0 n)
  unfolding vslprintf_loop conversion convert put_integer parse_spec
  loop-number fuel last n fmt args buf h k l =
      rw (lt→ltb (length buf) last k, number-fits last n buf h l) refl

  loop-port :
      (fuel last n : ℕ) (fmt : List ℕ) (args : List (Arg d)) (buf : List ℕ)
      → last < 2 ^ 64
      → length buf < last
      → length buf + length (number_digits 0 n) ≤ last
      → vslprintf_loop d (suc fuel) last (b'%' ∷ b'd' ∷ fmt) (signed (pos n) ∷ args) buf
        ≡ vslprintf_loop d fuel last fmt args (buf ++ number_digits 0 n)
  unfolding vslprintf_loop conversion convert put_integer put_signed parse_spec
  loop-port fuel last n fmt args buf h k l =
      rw (lt→ltb (length buf) last k, number-fits last n buf h l) refl

  loop-char :
      (fuel last char : ℕ) (fmt : List ℕ) (args : List (Arg d)) (buf : List ℕ)
      → (char == b'%') ≡ false
      → length buf < last
      → vslprintf_loop d (suc fuel) last (char ∷ fmt) args buf
        ≡ vslprintf_loop d fuel last fmt args (buf ++ char ∷ [])
  unfolding vslprintf_loop
  loop-char fuel last char fmt args buf e k = rw (lt→ltb (length buf) last k, e) refl

  -- One number and a point.
  loop-part :
      (fuel last n : ℕ) (fmt : List ℕ) (args : List (Arg d)) (buf : List ℕ)
      → last < 2 ^ 64
      → n < 256
      → length buf + 3 < last
      → vslprintf_loop d
          (suc (suc fuel))
          last
          (b'%' ∷ b'u' ∷ b'd' ∷ b'.' ∷ fmt)
          (unsigned n ∷ args)
          buf
        ≡ vslprintf_loop d fuel last fmt args (buf ++ part n)
  loop-part fuel last n fmt args buf h k l =
      loop-number (suc fuel) last n (b'.' ∷ fmt) args buf h (omega (arith, l))
        (omega (arith, l, length-byte n k))
      ∙ (loop-char fuel last b'.' fmt args (buf ++ number_digits 0 n) refl
            (omega (arith, l, length-byte n k, length-append buf (number_digits 0 n)))
          ∙ ap (vslprintf_loop d fuel last fmt args)
              (append_assoc buf (number_digits 0 n) (b'.' ∷ [])))

  -- The four numbers, and what stands behind them in the format.
  loop-dotted :
      (fuel last a b c e : ℕ) (fmt : List ℕ) (args : List (Arg d))
      → last < 2 ^ 64
      → 21 ≤ last
      → a < 256
      → b < 256
      → c < 256
      → e < 256
      → vslprintf_loop d
          (suc (suc (suc (suc (suc (suc (suc fuel)))))))
          last
          (ip_format ++ fmt)
          (unsigned a ∷ unsigned b ∷ unsigned c ∷ unsigned e ∷ args)
          []
        ≡ vslprintf_loop d fuel last fmt args (dotted a b c e)
  loop-dotted fuel last a b c e fmt args h l ha hb hc he =
      let (ab, abc) = length-parts a b c ha hb hc in
      loop-part _ last a _ _ [] h ha (omega (arith, l))
      ∙ (loop-part _ last b _ _ (part a) h hb (omega (arith, l, length-part a ha))
          ∙ (loop-part _ last c _ _ (part a ++ part b) h hc (omega (arith, l, ab))
              ∙ loop-number _ last e fmt args ((part a ++ part b) ++ part c) h
                  (omega (arith, l, abc)) (omega (arith, l, abc, length-byte e he))))

  -- For an IPv4 address and a buffer of 21 bytes at least, ngx_sock_ntop writes the four bytes of the address in
  -- decimal with points between them, and, where it is asked for, a colon and the port behind them.
  pub sock_ntop-dotted :
      (a b c e p : ℕ) (port : Bool) (len : ℕ)
      → a < 256
      → b < 256
      → c < 256
      → e < 256
      → p < 65536
      → 21 ≤ len
      → len < 2 ^ 64
      → ngx_sock_ntop (inet a b c e p) port len
        ≡ some (if port then dotted a b c e ++ b':' ∷ number_digits 0 p else dotted a b c e)
  unfolding ngx_sock_ntop ngx_vslprintf vslprintf_loop
  sock_ntop-dotted a b c e p false len ha hb hc he hp l h =
      loop-dotted 8 len a b c e [] [] h l ha hb hc he
  sock_ntop-dotted a b c e p true len ha hb hc he hp l h =
      let n = length-dotted a b c e ha hb hc he in
      let m = length-append (dotted a b c e) (b':' ∷ []) in
      loop-dotted 11 len a b c e (b':' ∷ b'%' ∷ b'd' ∷ []) (signed (pos p) ∷ []) h l ha hb hc he
      ∙ (loop-char 10 len b':' (b'%' ∷ b'd' ∷ []) (signed (pos p) ∷ []) (dotted a b c e) refl
            (omega (arith, l, n))
          ∙ (loop-port 9 len p [] [] (dotted a b c e ++ b':' ∷ []) h (omega (arith, l, n, m))
                (omega (arith, l, n, m, length-port p hp))
              ∙ ap some (append_assoc (dotted a b c e) (b':' ∷ []) (number_digits 0 p))))
