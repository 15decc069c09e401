-- ===== src/Examples/Conf.antt =====
-- Two lines of a configuration file.
use mathlib.Core.List.{flatten}
use linux_c_study.Prelude.{ℕ, ◌≡◌, refl, List, [], ◌∷◌, some, map, arith}
use linux_c_study.Conf.{ConfItem, load, newline}
use linux_c_study.Conf.Roundtrip.{empty, ends, Clean, render, load-render}

abbrev port : ConfItem
port = record { item_name = b'p' ∷ b'o' ∷ b'r' ∷ b't' ∷ []; item_content = b'8' ∷ b'0' ∷ [] }

abbrev log : ConfItem
log = record { item_name = b'L' ∷ b'o' ∷ b'g' ∷ []; item_content = [] }

port-Clean : Clean port
port-Clean = record {
  no_comment = refl;
  no_section = refl;
  no_equals = (refl, (refl, (refl, (refl, tt))));
  name_end = ends (b'p' ∷ b'o' ∷ b'r' ∷ []) b't' refl;
  name_fits = omega arith;
  content_start = refl;
  content_end = ends (b'8' ∷ []) b'0' refl;
  name_line = (refl, (refl, (refl, (refl, tt))));
  content_line = (refl, (refl, tt));
  line_fits = omega arith;
}

log-Clean : Clean log
log-Clean = record {
  no_comment = refl;
  no_section = refl;
  no_equals = (refl, (refl, (refl, tt)));
  name_end = ends (b'L' ∷ b'o' ∷ []) b'g' refl;
  name_fits = omega arith;
  content_start = refl;
  content_end = empty;
  name_line = (refl, (refl, (refl, tt)));
  content_line = tt;
  line_fits = omega arith;
}

load-render_example : load (flatten (map render (port ∷ log ∷ []))) ≡ some (port ∷ log ∷ [])
load-render_example = load-render (port ∷ log ∷ []) (port-Clean, (log-Clean, tt))

-- "#" and a line of its own.
abbrev with_comment : List ℕ
with_comment = b'#' ∷ newline ∷ b'a' ∷ b'=' ∷ b'1' ∷ []
