-- ===== src/Logic/Reply.antt =====
-- The answer to a registration, seen by a receiver that follows the same protocol.
use linux_c_study.Prelude.{
  ℕ, zero, suc, ◌+◌, ◌<◌, ◌≡◌, refl, sym, List, [], ◌∷◌, ◌++◌, some, arith, length, drop,
  length-drop, bytes_from, length-bytes_from,
}
use linux_c_study.Crc.{u32, get_crc}
use linux_c_study.Crc.Detect.{Bytes, get_crc-lt}
use linux_c_study.Net.Memory.{contents}
use linux_c_study.Net.Conn.{Msg, len_pkg_header}
use linux_c_study.Net.Recv.Stream.{packages}
use linux_c_study.Net.Recv.Whole.{Whole, packages-Whole}
use linux_c_study.Logic.{
  check_crc, register_reply, size_register, cmd_register, to_be16, to_be32, be32, msg_code,
}
use linux_c_study.Logic.Check.{body, check_crc-Checked}

be32-to_be32 : (n : ℕ) (rest : List ℕ) → n < u32 → be32 (to_be32 n ++ rest) ≡ n
be32-to_be32 n rest h = omega arith

Bytes-bytes_from : (n i : ℕ) (fill : ℕ → ℕ) → ((j : ℕ) → fill j < 256) → Bytes (bytes_from n i fill)
unfolding bytes_from
Bytes-bytes_from zero i fill h = tt
Bytes-bytes_from (suc n) i fill h = (h i, Bytes-bytes_from n (i + 1) fill h)

Bytes-drop : (n : ℕ) (bs : List ℕ) → Bytes bs → Bytes (drop n bs)
Bytes-drop zero bs h = h
Bytes-drop (suc n) [] h = h
Bytes-drop (suc n) (b ∷ bs) h = Bytes-drop n bs h.1

-- A registration's header in front of some body of its size.
abbrev framed : List ℕ → List ℕ
framed info =
    to_be16 (len_pkg_header + size_register)
    ++ (to_be16 cmd_register ++ (to_be32 (get_crc info) ++ info))

framed-Whole : (info : List ℕ) → length info ≡ size_register → Whole (framed info)
framed-Whole info e = record {
  announced = omega (arith, e);
  at_least = omega arith;
  at_most = omega arith;
}

framed-check_crc :
    (info : List ℕ)
    → length info ≡ size_register
    → Bytes info
    → check_crc (framed info) ≡ some (some info)
framed-check_crc info e h =
    (check_crc-Checked (framed info) (some info) (framed-Whole info e)).1
      (body (omega (arith, e)) (sym (be32-to_be32 (get_crc info) info (get_crc-lt info h))))

-- The answer to a registration is one whole package with the number of the registration command, and passes
-- check_crc with its 100 bytes of body, whatever bytes the fresh memory held.
pub register_reply-accepted :
    (addr : ℕ) (fill : ℕ → ℕ) (m : Msg)
    → ((j : ℕ) → fill j < 256)
    → let pkg = (register_reply addr fill m).pkg in
      (packages [] pkg ≡ ([], pkg ∷ []))
      × (msg_code pkg ≡ cmd_register)
      × (check_crc pkg ≡ some (some (drop len_pkg_header pkg)))
      × (length (drop len_pkg_header pkg) ≡ size_register)
unfolding register_reply contents
register_reply-accepted addr fill m h =
    let info = drop 24 (bytes_from 124 0 fill) in
    let size : length info ≡ size_register =
      omega (arith, length-drop 24 (bytes_from 124 0 fill), length-bytes_from 124 0 fill) in
    (
      packages-Whole (framed info) (framed-Whole info size),
      refl,
      framed-check_crc info size (Bytes-drop 24 _ (Bytes-bytes_from 124 0 fill h)),
      size,
    )
