-- ===== src/Logic/Check.antt =====
-- The checks that a received package passes before its command runs.
use linux_c_study.Prelude.{
  ℕ, zero, suc, Option-cases, ◌<◌, ◌≡◌, ◌≢◌, ◌↔◌, refl, subst, inl, inr, List, Option, none, some,
  false, arith, leb, leb-false, ◌==◌, ==_iff, ==-false, Bool-cases, if◌then◌else◌, length, take,
  drop, length-drop, take_all, get_elem?,
}
use mathlib.Core.Option.{some_inj}
use linux_c_study.Crc.{get_crc}
use linux_c_study.Net.Conn.{Connection, Msg, len_pkg_header, pkg_len}
use linux_c_study.Net.Recv.Whole.{Whole}
use linux_c_study.Logic.{
  Command, register, log_in, check_crc, select_command, body_length, crc32, msg_code,
  status_handler, auth_total_commands, join,
}

-- The body goes with the check value of the header.
pub data Checked (pkg : List ℕ) : Option (List ℕ) → Type 0 where
  no_body : length pkg ≡ len_pkg_header → crc32 pkg ≡ 0 → Checked pkg none
  body :
      len_pkg_header < length pkg
      → get_crc (drop len_pkg_header pkg) ≡ crc32 pkg
      → Checked pkg (some (drop len_pkg_header pkg))

Whole-body :
    (pkg : List ℕ)
    → Whole pkg
    → take (body_length (pkg_len pkg)) (drop len_pkg_header pkg) ≡ drop len_pkg_header pkg
Whole-body pkg w =
    take_all (body_length (pkg_len pkg)) (drop len_pkg_header pkg)
      (omega (arith, w.announced, w.at_least, w.at_most, length-drop len_pkg_header pkg))

ne_test : (a b : ℕ) → a ≢ b → (a == b) ≡ false
ne_test a b h = ground arith

pub check_crc_sound :
    (pkg : List ℕ) (b : Option (List ℕ)) → Whole pkg → check_crc pkg ≡ some b → Checked pkg b
unfolding check_crc
check_crc_sound pkg b w = elim (Bool-cases (len_pkg_header == pkg_len pkg)) [
  | inl h ↦ rw h (elim (Bool-cases (crc32 pkg == 0)) [
    | inl z ↦ rw z (λ e.
        subst (Checked pkg) (some_inj.0 e)
          (no_body (omega (arith, (==_iff _ _).0 h, w.announced)) ((==_iff _ _).0 z)))
    | inr z ↦ rw z (λ e. cc)
  ])
  | inr h ↦
      rw (h, Whole-body pkg w)
        (elim (Bool-cases (get_crc (drop len_pkg_header pkg) == crc32 pkg)) [
          | inl z ↦ rw z (λ e.
              subst (Checked pkg) (some_inj.0 e)
                (body (omega (arith, ==-false _ _ h, w.announced, w.at_least)) ((==_iff _ _).0 z)))
          | inr z ↦ rw z (λ e. cc)
        ])
]

check_crc_complete :
    (pkg : List ℕ) (b : Option (List ℕ)) → Whole pkg → Checked pkg b → check_crc pkg ≡ some b
unfolding check_crc
check_crc_complete pkg none w (no_body h z) = rw (
  (==_iff len_pkg_header (pkg_len pkg)).1 (omega (arith, w.announced)),
  (==_iff (crc32 pkg) 0).1 z,
)
check_crc_complete pkg (some b) w (body h z) = rw (
  ne_test len_pkg_header (pkg_len pkg) (omega (arith, w.announced)),
  Whole-body pkg w,
  (==_iff _ _).1 z,
)

-- For a whole package, check_crc gives a body exactly where the check value of the header fits: zero for a
-- package that is a header only, and otherwise the CRC of all the bytes behind the header, which are the body.
pub check_crc-Checked :
    (pkg : List ℕ) (b : Option (List ℕ)) → Whole pkg → (check_crc pkg ≡ some b) ↔ Checked pkg b
check_crc-Checked pkg b w = (check_crc_sound pkg b w, check_crc_complete pkg b w)

-- The command numbers that have a handler.
pub data Handles : ℕ → Command → Type 0 where
  handles_register : {n : ℕ} → n ≡ 5 → Handles n register
  handles_log_in : {n : ℕ} → n ≡ 6 → Handles n log_in

-- The command that is to run, with its body.
pub record Selected (conns : ℕ → Connection) (m : Msg) (c : Command) (b : Option (List ℕ))
    : Type 0 where
  pub intact : Checked m.pkg b
  pub current : (conns m.p_conn).i_currsequence ≡ m.i_currsequence
  pub command : Handles (msg_code m.pkg) c

handled :
    (n : ℕ) (c : Command)
    → leb auth_total_commands n ≡ false
    → join (get_elem? status_handler n) ≡ some c
    → Handles n c
handled zero c h e = cc
handled (suc zero) c h e = cc
handled (suc (suc zero)) c h e = cc
handled (suc (suc (suc zero))) c h e = cc
handled (suc (suc (suc (suc zero)))) c h e = cc
handled (suc (suc (suc (suc (suc zero))))) c h e =
    subst (Handles 5) (some_inj.0 e) (handles_register refl)
handled (suc (suc (suc (suc (suc (suc zero)))))) c h e =
    subst (Handles 6) (some_inj.0 e) (handles_log_in refl)
handled (suc (suc (suc (suc (suc (suc (suc n))))))) c h e = absurd (omega (arith, leb-false _ _ h))

select_command_sound :
    (conns : ℕ → Connection) (m : Msg) (c : Command) (b : Option (List ℕ))
    → Whole m.pkg
    → select_command conns m ≡ some (c, b)
    → Selected conns m c b
unfolding select_command
select_command_sound conns m c b w = elim (Option-cases (check_crc m.pkg)) [
  | inl e ↦ rw (e, select_command) (λ h. cc)
  | inr (body', e) ↦
      rw (e, select_command)
        (elim (Bool-cases ((conns m.p_conn).i_currsequence == m.i_currsequence)) [
          | inr f ↦ rw f (λ h. cc)
          | inl f ↦ rw f (elim (Bool-cases (leb auth_total_commands (msg_code m.pkg))) [
            | inl g ↦ rw g (λ h. cc)
            | inr g ↦ rw g (elim (Option-cases (join (get_elem? status_handler (msg_code m.pkg)))) [
              | inl k ↦ rw k (λ h. cc)
              | inr (c', k) ↦ rw k (λ h.
                  subst (λ x. Selected conns m x.0 x.1) (some_inj.0 h)
                    (record {
                      intact = check_crc_sound m.pkg body' w e;
                      current = (==_iff _ _).0 f;
                      command = handled (msg_code m.pkg) c' g k;
                    }))
            ])
          ])
        ])
]

runs :
    (n : ℕ) (c : Command) (b : Option (List ℕ))
    → Handles n c
    → if◌then◌else◌ {A = Option (Command × Option (List ℕ))}
        (leb auth_total_commands n)
        none
        (elim (join (get_elem? status_handler n)) [
          | none ↦ none
          | some command ↦ some (command, b)
        ])
      ≡ some (c, b)
runs n c b (handles_register e) = rw e
runs n c b (handles_log_in e) = rw e

select_command_complete :
    (conns : ℕ → Connection) (m : Msg) (c : Command) (b : Option (List ℕ))
    → Whole m.pkg
    → Selected conns m c b
    → select_command conns m ≡ some (c, b)
unfolding select_command
select_command_complete conns m c b w s =
    rw (check_crc_complete m.pkg b w s.intact, select_command, (==_iff _ _).1 s.current)
      (runs (msg_code m.pkg) c b s.command)

-- A whole message runs a command exactly where its body fits its check value, its sequence number is the present
-- one of its connection, and its number is that of the command.
pub select_command-Selected :
    (conns : ℕ → Connection) (m : Msg) (c : Command) (b : Option (List ℕ))
    → Whole m.pkg
    → (select_command conns m ≡ some (c, b)) ↔ Selected conns m c b
select_command-Selected conns m c b w =
    (select_command_sound conns m c b w, select_command_complete conns m c b w)
