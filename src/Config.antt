-- ===== src/Config.antt =====
-- include/utils/config.hpp: the class Config. A file is the bytes that it holds, `none` if it cannot
-- be opened. The map is an association list in the order in which a loop meets its entries.
pub mod Settings
pub mod SaveLoad
use high_performance_trading.Base.{
  ℕ, ◌+◌, Bool, true, false, ◌&&◌, ◌||◌, Option, none, some, List, [], ◌∷◌, ◌++◌, leb, ◌==◌,
  if◌then◌else◌, map,
}
use high_performance_trading.Base.Int.{ℤ}
use high_performance_trading.Base.Bytes.{Bytes, codes, bytes_eq}
use high_performance_trading.Base.Bytes.Search.{cut_at, lines}
use high_performance_trading.Base.Bytes.Decimal.{stoi}

abbrev pub Settings : Type 0
Settings = List (Bytes × Bytes)

unfoldable pub find_setting : Bytes → Settings → Option Bytes
find_setting key [] = none
find_setting key ((k, v) ∷ m) = if bytes_eq k key then some v else find_setting key m

unfoldable pub set : Bytes → Bytes → Settings → Settings
set key value [] = (key, value) ∷ []
set key value ((k, v) ∷ m) = if bytes_eq k key then (k, value) ∷ m else (k, v) ∷ set key value m

abbrev is_blank : ℕ → Bool
is_blank c = c == b' ' || c == b'\t' || c == b'\r' || c == b'\n'

unfoldable pub trim_left : Bytes → Bytes
trim_left [] = []
trim_left (c ∷ s) = let rest = trim_left s in if is_blank c then rest else c ∷ s

unfoldable pub trim_right : Bytes → Bytes
trim_right [] = []
trim_right (c ∷ s) = elim (trim_right s) [
  | [] ↦ if is_blank c then [] else c ∷ []
  | d ∷ rest ↦ c ∷ d ∷ rest
]

-- From the first character that is not blank to the last one.
unfoldable pub trim : Bytes → Bytes
trim s = trim_right (trim_left s)

-- A line without `=` is reported and skipped.
unfoldable pub load_entry : Bytes → Settings → Settings
load_entry line m = elim (cut_at b'=' line) [
  | none ↦ m
  | some (key, value) ↦ set (trim key) (trim value) m
]

unfoldable pub load_line : Bytes → Settings → Settings
unfolding load_entry
load_line [] m = m
load_line (c ∷ s) m = if c == b'#' then m else load_entry (c ∷ s) m

unfoldable pub load_lines : List Bytes → Settings → Settings
load_lines [] m = m
load_lines (line ∷ rest) m = load_lines rest (load_line line m)

unfoldable pub load_from_file : Option Bytes → Settings → Settings × Bool
load_from_file none m = (m, false)
load_from_file (some content) m = (load_lines (lines b'\n' content) m, true)

unfoldable pub get_string : Bytes → Bytes → Settings → Bytes
get_string key default m = elim (find_setting key m) [ none ↦ default | some v ↦ v ]

abbrev or_default {ℓ} : {A : Type ℓ} → A → Option A → A
or_default default none = default
or_default default (some a) = a

unfoldable pub get_int : Bytes → ℤ → Settings → ℤ
get_int key default m = elim (find_setting key m) [
  | none ↦ default
  | some v ↦ or_default default (stoi v)
]

-- `stod` is `std::stod`, with `none` for an exception.
unfoldable pub get_double {ℓ} : {D : Type ℓ} → (Bytes → Option D) → Bytes → D → Settings → D
get_double stod key default m = elim (find_setting key m) [
  | none ↦ default
  | some v ↦ or_default default (stod v)
]

abbrev pub to_lower : ℕ → ℕ
to_lower c = if leb b'A' c && leb c b'Z' then c + 32 else c

abbrev pub is_yes : Bytes → Bool
is_yes value =
    bytes_eq value (codes "true")
    || bytes_eq value (codes "1")
    || bytes_eq value (codes "yes")
    || bytes_eq value (codes "on")

abbrev pub bool_of_text : Bool → Bytes → Bool
bool_of_text default [] = default
bool_of_text default (c ∷ s) = is_yes (map to_lower (c ∷ s))

unfoldable pub get_bool : Bytes → Bool → Settings → Bool
get_bool key default m = bool_of_text default (get_string key [] m)

unfoldable pub has : Bytes → Settings → Bool
has key m = elim (find_setting key m) [ none ↦ false | some v ↦ true ]

unfoldable pub entries_text : Bytes → Settings → Bytes
entries_text between [] = []
entries_text between ((key, value) ∷ m) =
    key ++ (between ++ (value ++ b'\n' ∷ entries_text between m))

-- Whether the file opens, and what it held; the new content, and the result.
unfoldable pub save_to_file : Bool → Option Bytes → Settings → Option Bytes × Bool
save_to_file opens before m =
    let content =
      codes "# Trading System Configuration\n# Generated automatically\n\n"
      ++ entries_text (codes "=") m in
    if opens then (some content, true) else (before, false)

unfoldable pub setting_lines : Settings → Bytes
setting_lines [] = []
setting_lines ((key, value) ∷ m) =
    codes "  " ++ (key ++ (codes " = " ++ (value ++ b'\n' ∷ setting_lines m)))

-- What `print` writes.
unfoldable pub print : Settings → Bytes
print m =
    codes "\n=== Configuration ===\n" ++ (setting_lines m ++ codes "=====================\n\n")
