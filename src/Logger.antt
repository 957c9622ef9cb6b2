-- ===== src/Logger.antt =====
-- include/utils/logger.hpp: the class Logger. The reading of the clock as a text and the concatenated
-- arguments of a call are given; whether a file can be opened is an argument.
pub mod Outputs
use high_performance_trading.Base.{
  ℕ, Bool, true, false, Option, none, some, List, [], ◌∷◌, ◌++◌, ltb, if◌then◌else◌,
}
use high_performance_trading.Base.Bytes.{Bytes, codes}

pub data LogLevel : Type 0 where
  debug info warn error : LogLevel

-- The number of the enumerator.
abbrev pub rank : LogLevel → ℕ
rank debug = 0
rank info = 1
rank warn = 2
rank error = 3

-- The console, and the file that is open with what was written to it since.
pub record Logger : Type 0 where
  pub log_level : LogLevel
  pub console : Bytes
  pub file : Option Bytes

unfoldable pub make_logger : Logger
make_logger = record { log_level = info; console = []; file = none }

unfoldable pub set_log_level : LogLevel → Logger → Logger
set_log_level level logger = record logger { log_level = level }

-- An open file is closed first.
unfoldable pub set_output_file : Bool → Logger → Logger
set_output_file opens logger = record logger { file = if opens then some [] else none }

abbrev pub level_to_string : LogLevel → Bytes
level_to_string debug = codes "DEBUG"
level_to_string info = codes "INFO "
level_to_string warn = codes "WARN "
level_to_string error = codes "ERROR"

unfoldable pub log_line : LogLevel → Bytes → Bytes → Bytes
log_line level timestamp text =
    timestamp ++ (codes " [" ++ (level_to_string level ++ (codes "] " ++ (text ++ codes "\n"))))

abbrev pub append_if_open : Bytes → Option Bytes → Option Bytes
append_if_open message none = none
append_if_open message (some content) = some (content ++ message)

unfoldable pub log : LogLevel → Bytes → Bytes → Logger → Logger
unfolding log_line
log level timestamp text logger =
    let message = log_line level timestamp text in
    if ltb (rank level) (rank logger.log_level) then logger else record logger {
      console = logger.console ++ message;
      file = append_if_open message logger.file;
    }
