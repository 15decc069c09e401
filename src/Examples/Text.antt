-- ===== src/Examples/Text.antt =====
-- Formatted output and the table of the CRC.
use Prim.Native.Nat.{bit_xor}
use linux_c_study.Prelude.{
  ℕ, ◌-◌, ◌*◌, ◌≡◌, List, [], ◌∷◌, ◌++◌, arith, length, take, replicate, false, true, some, none,
  refl, if◌then◌else◌,
}
use linux_c_study.Printf.{ngx_sprintf_num, number_digits}
use linux_c_study.Printf.Number.{ngx_sprintf_num-take}
use linux_c_study.Printf.Digits.{parse-number_digits}
use linux_c_study.Printf.Format.{Double, unsigned, parse_number, ngx_vslprintf}
use linux_c_study.Printf.Bounds.{AllWithin, ngx_vslprintf-AllWithin}
use linux_c_study.Printf.Ends.{Undefined, vslprintf-ends}
use linux_c_study.Net.Inet.{inet, dotted, ngx_sock_ntop, sock_ntop-dotted}
use linux_c_study.Crc.{get_crc}
use linux_c_study.Crc.Bitwise.{bitwise, get_crc-bitwise}

-- A double that is a whole number.
abbrev whole_numbers : Double
whole_numbers = record {
  D = ℕ;
  negative = λ f. false;
  negate = λ f. f;
  whole = λ f. f;
  fraction = λ f ui64 scale. (f - ui64) * scale;
}

abbrev number_format : List ℕ
number_format = b'%' ∷ b'0' ∷ b'5' ∷ b'u' ∷ b'd' ∷ b'!' ∷ []

ngx_vslprintf-AllWithin_example :
    AllWithin 4 (ngx_vslprintf whole_numbers 4 number_format (unsigned 42 ∷ []) [])
ngx_vslprintf-AllWithin_example =
    ngx_vslprintf-AllWithin whole_numbers 4 (omega arith) number_format (unsigned 42 ∷ []) []
      (omega arith)

ngx_sprintf_num-take_example :
    ngx_sprintf_num 4 (b'n' ∷ []) 42 b'0' 0 5
    ≡ take 4 (b'n' ∷ [] ++ (replicate (5 - length (number_digits 0 42)) b'0' ++ number_digits 0 42))
ngx_sprintf_num-take_example =
    ngx_sprintf_num-take 4 (b'n' ∷ []) 42 b'0' 0 5 (omega arith) (omega arith)

parse-number_digits_example : parse_number 0 (number_digits 0 4294967296) ≡ (4294967296, [])
parse-number_digits_example = parse-number_digits 4294967296 (omega arith)

get_crc-bitwise_example :
    get_crc (0x31 ∷ 0xff ∷ 0 ∷ [])
    ≡ bit_xor (bitwise 0xffff_ffff (0x31 ∷ 0xff ∷ 0 ∷ [])) 0xffff_ffff
get_crc-bitwise_example =
    get_crc-bitwise (0x31 ∷ 0xff ∷ 0 ∷ []) (omega arith, (omega arith, (omega arith, tt)))

-- "5%": the format ends behind its '%'.
abbrev percent_last : List ℕ
percent_last = b'5' ∷ b'%' ∷ []

percent_last-none : ngx_vslprintf whole_numbers 9 percent_last [] [] ≡ none
unfolding ngx_vslprintf
percent_last-none = refl

vslprintf-ends_example : Undefined whole_numbers 9 percent_last [] []
vslprintf-ends_example = vslprintf-ends whole_numbers 9 percent_last [] [] percent_last-none

sock_ntop-dotted_example :
    ngx_sock_ntop whole_numbers (inet 127 0 0 1 8080) true 100
    ≡ some (if true then dotted 127 0 0 1 ++ b':' ∷ number_digits 0 8080 else dotted 127 0 0 1)
sock_ntop-dotted_example =
    sock_ntop-dotted whole_numbers 127 0 0 1 8080 true 100 (omega arith) (omega arith) (omega arith)
      (omega arith) (omega arith) (omega arith) (omega arith)
