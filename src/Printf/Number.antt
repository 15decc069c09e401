-- ===== src/Printf/Number.antt =====
-- What ngx_sprintf_num appends: the padded digits, cut at the end of the buffer.
use linux_c_study.Prelude.{
  ℕ, zero, suc, ◌+◌, ◌-◌, ◌^◌, ◌≤◌, ◌<◌, ◌≡◌, sym, ap, ◌∙◌, inl, inr, List, [], ◌∷◌, ◌++◌, arith,
  Bool-cases, ltb, leb, ltb-false, leb-false, ltb→lt, length, length-append, take, replicate,
  take_all, take-append_ge, take-append_exact, take-take_append, length-take_le, append-nil,
  append_assoc,
}
use linux_c_study.Printf.{number_digits, pad, room, copy_digits, ngx_sprintf_num}

pad-take :
    (fuel cap char len width : ℕ) (buf : List ℕ)
    → length buf ≤ cap
    → cap ≤ length buf + fuel
    → pad fuel cap char len width buf ≡ take cap (buf ++ replicate (width - len) char)
unfolding pad
pad-take zero cap char len width buf h k =
    sym (take-append_exact cap buf (replicate (width - len) char) (omega arith))
pad-take (suc fuel) cap char len width buf h k = elim (Bool-cases (ltb len width)) [
  | inr e ↦
      let z : width - len ≡ 0 = omega (arith, ltb-false _ _ e) in
      rw (e, z) (sym (ap (take cap) (append-nil buf) ∙ take_all cap buf h))
  | inl e ↦ elim (Bool-cases (ltb (length buf) cap)) [
    | inr full ↦
        rw (e, full)
          (sym (
            take-append_exact cap buf (replicate (width - len) char)
              (omega (arith, ltb-false _ _ full))))
    | inl space ↦
        let z : width - len ≡ suc (width - (len + 1)) = omega (arith, ltb→lt _ _ e) in
        rw (e, space, z)
          (pad-take fuel cap char (len + 1) width (buf ++ char ∷ [])
              (omega (arith, length-append buf (char ∷ []), ltb→lt _ _ space))
              (omega (arith, length-append buf (char ∷ [])))
            ∙ ap (take cap) (append_assoc buf (char ∷ []) (replicate (width - (len + 1)) char)))
  ]
]

copy_digits-take :
    (cap : ℕ) (buf p : List ℕ)
    → length buf ≤ cap
    → cap < 2 ^ 64
    → copy_digits cap buf p ≡ take cap (buf ++ p)
unfolding copy_digits
copy_digits-take cap buf p h k = elim (Bool-cases (leb cap (length buf + length p))) [
  | inl e ↦
      let r : room cap buf ≡ cap - length buf = omega arith in
      rw (e, r) (sym (take-append_ge cap buf p h))
  | inr e ↦ rw e (
      ap (λ xs. buf ++ xs) (take_all (length p) p (omega arith))
      ∙ sym (take_all cap (buf ++ p) (omega (arith, length-append buf p, leb-false _ _ e))))
]

-- In a buffer of fewer than 2 ^ 64 bytes, of which none behind the end is written yet, a number is appended in
-- full, padded on the left to the width, but for what lies behind the buffer's end.
pub ngx_sprintf_num-take :
    (cap : ℕ) (buf : List ℕ) (n char hex width : ℕ)
    → length buf ≤ cap
    → cap < 2 ^ 64
    → let d = number_digits hex n in
      ngx_sprintf_num cap buf n char hex width
      ≡ take cap (buf ++ (replicate (width - length d) char ++ d))
unfolding ngx_sprintf_num
ngx_sprintf_num-take cap buf n char hex width h k =
    let d = number_digits hex n in
    let fill = replicate (width - length d) char in
    rw
      (
        pad-take cap cap char (length d) width buf h (omega arith),
        copy_digits-take cap (take cap (buf ++ fill)) d (length-take_le cap (buf ++ fill)) k,
        take-take_append cap (buf ++ fill) d,
      )
      (ap (take cap) (append_assoc buf fill d))

pub length-sprintf_num :
    (cap : ℕ) (buf : List ℕ) (n char hex width : ℕ)
    → length buf ≤ cap
    → cap < 2 ^ 64
    → length (ngx_sprintf_num cap buf n char hex width) ≤ cap
length-sprintf_num cap buf n char hex width h k =
    rw (ngx_sprintf_num-take cap buf n char hex width h k) (length-take_le cap _)
