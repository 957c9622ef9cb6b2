-- ===== src/Config/SaveLoad.antt =====
-- What Config::loadFromFile reads from the file that Config::saveToFile writes.
use high_performance_trading.Base.{
  Option, ◌≡◌, refl, ◌∙◌, ap, sym, ◌≢◌, true, none, some, [], ◌∷◌, ◌++◌, arith, All-append,
}
use mathlib.Core.List.{append_assoc}
use high_performance_trading.Base.Bytes.{Bytes, codes, Lacks}
use high_performance_trading.Base.Bytes.Search.{cut_at-append, lines, lines-append}
use high_performance_trading.Config.{
  Settings, find_setting, set, trim, load_entry, load_line, load_lines, load_from_file,
  entries_text, save_to_file,
}
use high_performance_trading.Config.Settings.{bytes_eq_iff, find_setting-set}

-- The line of a key does not read as a comment.
abbrev pub IsNoComment : Bytes → Type 0
IsNoComment [] = Unit
IsNoComment (c ∷ s) = c ≢ b'#'

abbrev pub IsKey : Bytes → Type 0
IsKey key = (trim key ≡ key) × Lacks b'=' key × Lacks b'\n' key × IsNoComment key

abbrev pub IsValue : Bytes → Type 0
IsValue value = (trim value ≡ value) × Lacks b'\n' value

-- The entries fit the format of the file, and the keys differ.
abbrev pub IsSavable : Settings → Type 0
IsSavable [] = Unit
IsSavable ((key, value) ∷ m) = IsKey key × IsValue value × (find_setting key m ≡ none) × IsSavable m

load_entry-text :
    (key value : Bytes) (m : Settings)
    → IsKey key
    → IsValue value
    → load_entry (key ++ b'=' ∷ value) m ≡ set key value m
unfolding load_entry
load_entry-text key value m k v =
    let parts = cut_at-append b'=' key value k.1 in ground (arith, parts, k.0, v.0)

load_line-text :
    (key value : Bytes) (m : Settings)
    → IsNoComment key
    → load_line (key ++ b'=' ∷ value) m ≡ load_entry (key ++ b'=' ∷ value) m
unfolding load_line
load_line-text [] value m h = refl
load_line-text (c ∷ s) value m h = ground arith

put_settings : Settings → Settings → Settings
put_settings [] r = r
put_settings ((key, value) ∷ m) r = put_settings m (set key value r)

load_lines-entries :
    (m r : Settings)
    → IsSavable m
    → load_lines (lines b'\n' (entries_text (codes "=") m)) r ≡ put_settings m r
unfolding entries_text put_settings load_lines
load_lines-entries [] r h = unfold lines load_lines in refl
load_lines-entries ((key, value) ∷ m) r h =
    let rest = entries_text (codes "=") m in
    let line = key ++ b'=' ∷ value in
    let clean = All-append (λ c. c ≢ b'\n') key (b'=' ∷ value) h.0.2 (omega arith, h.1.1) in
    let split : lines b'\n' (line ++ b'\n' ∷ rest) ≡ line ∷ lines b'\n' rest =
      lines-append b'\n' line rest clean in
    let first : load_line line r ≡ set key value r =
      load_line-text key value r h.0.3 ∙ load_entry-text key value r h.0 h.1 in
    ap (λ t. load_lines (lines b'\n' t) r) (sym (append_assoc key (b'=' ∷ value) (b'\n' ∷ rest)))
    ∙ ap (λ t. load_lines t r) split
    ∙ ap (load_lines (lines b'\n' rest)) first
    ∙ load_lines-entries m (set key value r) h.3

find_setting-put_settings :
    (key : Bytes) (m r : Settings)
    → IsSavable m
    → find_setting key (put_settings m r)
      ≡ (elim (find_setting key m) [ none ↦ find_setting key r | some v ↦ some v ])
unfolding put_settings find_setting
find_setting-put_settings key [] r h = refl
find_setting-put_settings key ((k, v) ∷ m) r h = ground (
  arith,
  h.2,
  find_setting-put_settings key m r h.3,
  find_setting-put_settings key m (set k v r) h.3,
  find_setting-set k key v r,
  bytes_eq_iff k key,
)

-- The three lines at the head of the file are skipped.
load_lines-header :
    (r : Settings) (s : Bytes)
    → load_lines
        (lines b'\n' (codes "# Trading System Configuration\n# Generated automatically\n\n" ++ s))
        r
      ≡ load_lines (lines b'\n' s) r
unfolding lines load_lines load_line
load_lines-header r s = refl

-- Settings with trimmed keys, each once, that are no comments and hold no equals sign or line
-- break, and with trimmed values without a line break, are loaded as they were saved; under other
-- keys the current settings stay.
pub load_from_file-save_to_file :
    (saved current : Settings) (before : Option Bytes)
    → IsSavable saved
    → (key : Bytes)
    → let (file, written) = save_to_file true before saved in
      (written ≡ true)
      × ((load_from_file file current).1 ≡ true)
      × (find_setting key (load_from_file file current).0
          ≡ (elim (find_setting key saved) [ none ↦ find_setting key current | some v ↦ some v ]))
unfolding load_from_file save_to_file
load_from_file-save_to_file saved current before h key =
    let read =
      load_lines-header current (entries_text (codes "=") saved)
      ∙ load_lines-entries saved current h in
    (refl, refl, rw read (find_setting-put_settings key saved current h))
