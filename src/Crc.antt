-- ===== src/Crc.antt =====
-- linux_c++_6_4/nginx/misc/ngx_c_crc32.cxx: the CRC-32 of CCRC32. A buffer is the list of its bytes.
pub mod Bitwise
pub mod Detect
pub mod Step
use Prim.Native.Nat.{bit_and, bit_or, bit_xor}
use linux_c_study.Prelude.{
  ℕ, zero, suc, ◌+◌, ◌-◌, ◌*◌, ◌/◌, ◌%◌, ◌^◌, List, [], ◌∷◌, ◌==◌, if◌then◌else◌, get_or,
}

abbrev pub u32 : ℕ
u32 = 2 ^ 32

-- The loop of Reflect: `rounds` are left, the next sets bit `ch - i`.
unfoldable pub reflect_loop : ℕ → ℕ → ℕ → ℕ → ℕ → ℕ
reflect_loop zero i ch ref value = value
reflect_loop (suc rounds) i ch ref value =
    reflect_loop rounds (i + 1) ch (ref / 2)
      (if bit_and ref 1 == 1 then bit_or value (2 ^ (ch - i)) else value)

unfoldable pub reflect : ℕ → ℕ → ℕ
unfolding reflect_loop
reflect ref ch = reflect_loop ch 1 ch ref 0

abbrev pub ul_polynomial : ℕ
ul_polynomial = 0x04c11db7

-- `(r << 1) ^ (r & (1 << 31) ? ulPolynomial : 0)`, n times.
unfoldable pub table_loop : ℕ → ℕ → ℕ
table_loop zero r = r
table_loop (suc n) r =
    table_loop n (bit_xor ((r * 2) % u32) (if bit_and r (2 ^ 31) == 0 then 0 else ul_polynomial))

-- What Init_CRC32_Table writes to crc32_table[i].
unfoldable pub table_entry : ℕ → ℕ
unfolding reflect table_loop
table_entry i = reflect (table_loop 8 (reflect i 8 * 2 ^ 24 % u32)) 32

unfoldable pub table_from : ℕ → ℕ → List ℕ
table_from zero i = []
table_from (suc n) i = table_entry i ∷ table_from n (i + 1)

-- Init_CRC32_Table.
unfoldable pub crc32_table : List ℕ
unfolding table_from table_entry
crc32_table = table_from 256 0

-- One round of Get_CRC.
unfoldable pub crc_step : ℕ → ℕ → ℕ
unfolding crc32_table
crc_step crc byte = bit_xor (crc / 2 ^ 8) (get_or crc32_table (bit_xor (crc % 2 ^ 8) byte) 0)

unfoldable pub crc_loop : ℕ → List ℕ → ℕ
unfolding crc_step
crc_loop crc [] = crc
crc_loop crc (byte ∷ rest) = crc_loop (crc_step crc byte) rest

-- The result as the bit pattern of an `int`.
unfoldable pub get_crc : List ℕ → ℕ
unfolding crc_loop
get_crc buffer = bit_xor (crc_loop 0xffff_ffff buffer) 0xffff_ffff
