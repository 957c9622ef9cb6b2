-- ===== src/Logger/Outputs.antt =====
-- What a sequence of calls of the logger writes.
use high_performance_trading.Base.{
  ◌≡◌, refl, ◌∙◌, true, false, Option, none, some, List, [], ◌∷◌, ◌++◌, ltb, if◌then◌else◌, arith,
  Bool-cases, inl, inr,
}
use mathlib.Core.List.{append_assoc, append-nil}
use high_performance_trading.Base.Bytes.{Bytes}
use high_performance_trading.Logger.{
  Logger, LogLevel, rank, log, log_line, append_if_open, set_output_file, set_log_level,
}

-- A call: its level, the time and the text.
pub record Call : Type 0 where
  pub level : LogLevel
  pub timestamp : Bytes
  pub text : Bytes

unfoldable pub log_calls : List Call → Logger → Logger
log_calls [] logger = logger
log_calls (c ∷ calls) logger = log_calls calls (log c.level c.timestamp c.text logger)

-- The lines of the calls that are not below a level, in order.
unfoldable pub lines_at : LogLevel → List Call → Bytes
lines_at level [] = []
lines_at level (c ∷ calls) =
    (if ltb (rank c.level) (rank level) then [] else log_line c.level c.timestamp c.text)
    ++ lines_at level calls

append_twice :
    (a b : Bytes) (file : Option Bytes)
    → append_if_open b (append_if_open a file) ≡ append_if_open (a ++ b) file
append_twice a b none = refl
append_twice a b (some content) = ground (arith, append_assoc content a b)

append_none : (file : Option Bytes) → append_if_open [] file ≡ file
append_none none = refl
append_none (some content) = ground (arith, append-nil content)

abbrev written : Bytes → Logger → Logger
written line logger = record logger {
  console = logger.console ++ line;
  file = append_if_open line logger.file;
}

log-below :
    (c : Call) (logger : Logger)
    → ltb (rank c.level) (rank logger.log_level) ≡ true
    → log c.level c.timestamp c.text logger ≡ logger
unfolding log
log-below c logger e = rw e

log-written :
    (c : Call) (logger : Logger)
    → ltb (rank c.level) (rank logger.log_level) ≡ false
    → log c.level c.timestamp c.text logger ≡ written (log_line c.level c.timestamp c.text) logger
unfolding log
log-written c logger e = rw e

log_calls_write :
    (calls : List Call) (logger : Logger)
    → ((log_calls calls logger).console ≡ logger.console ++ lines_at logger.log_level calls)
      × ((log_calls calls logger).file
          ≡ append_if_open (lines_at logger.log_level calls) logger.file)
      × ((log_calls calls logger).log_level ≡ logger.log_level)
unfolding log_calls lines_at
log_calls_write [] logger = ground (arith, append-nil logger.console, append_none logger.file)
log_calls_write (c ∷ calls) logger =
    elim (Bool-cases (ltb (rank c.level) (rank logger.log_level))) [
      | inl e ↦ rw (e, log_calls, log-below c logger e) (log_calls_write calls logger)
      | inr e ↦
          let line = log_line c.level c.timestamp c.text in
          let rest = lines_at logger.log_level calls in
          let next = written line logger in
          let (console, file, same) = log_calls_write calls next in
          rw (e, log_calls, log-written c logger e)
            (
              console ∙ append_assoc logger.console line rest,
              file ∙ append_twice line rest logger.file,
              same,
            )
    ]

-- After the level and the file are set, the console gains and the file holds the lines of the calls
-- that are not below the level.
pub log_calls-outputs :
    (calls : List Call) (level : LogLevel) (logger : Logger)
    → let after = log_calls calls (set_output_file true (set_log_level level logger)) in
      (after.console ≡ logger.console ++ lines_at level calls)
      × (after.file ≡ some (lines_at level calls))
unfolding set_output_file set_log_level
log_calls-outputs calls level logger =
    let (console, file, same) =
      log_calls_write calls (set_output_file true (set_log_level level logger)) in
    (console, file)
