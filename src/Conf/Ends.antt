-- ===== src/Conf/Ends.antt =====
-- Load comes to the end of a file.
use linux_c_study.Prelude.{ℕ, suc, ◌<◌, ◌≡◌, List, [], ◌∷◌, Option, none, some, false, ◌==◌, length}
use linux_c_study.Conf.{ConfItem, Line, nothing, item, newline}

-- A file of which the line that has begun has at most so many more bytes before its newline, and each later line
-- at most 49: as many as fit a name.
pub data ShortLines : ℕ → List ℕ → Type 0 where
  file_end : {n : ℕ} → ShortLines n []
  line_end : {n : ℕ} {file : List ℕ} → ShortLines 49 file → ShortLines n (newline ∷ file)
  byte :
      {n c : ℕ} {file : List ℕ}
      → (c == newline) ≡ false
      → ShortLines n file
      → ShortLines (suc n) (c ∷ file)

-- The part in front of an equals sign is shorter than the line.
data Before (s : List ℕ) : Option (List ℕ × List ℕ) → Type 0 where
  nowhere : Before s none
  before : {l r : List ℕ} → length l < length s → Before s (some (l, r))

-- What a line adds where its name fits.
data Fits : Line → Type 0 where
  adds_nothing : Fits nothing
  adds_item : (i : ConfItem) → Fits (item i)
