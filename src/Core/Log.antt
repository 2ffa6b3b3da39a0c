-- ===== src/Core/Log.antt =====
-- `Logger` of core.hpp and src/ring_buffer.cpp: a level filter before an output stream.
use mdfh_distrib.Common.{ℕ, List, [], ◌∷◌, ◌++◌, ltb, if◌then◌else◌}

pub data LogLevel : Type 0 where
  debug info warn error fatal : LogLevel

-- The numeric values of the enumeration.
abbrev pub rank : LogLevel → ℕ
rank debug = 0
rank info = 1
rank warn = 2
rank error = 3
rank fatal = 4

-- A line as it is written, less its time stamp, over any type of texts.
pub record Line (Text : Type 0) : Type 0 where
  pub level : LogLevel
  pub component : Text
  pub message : Text

-- The static state of `Logger`: the level, and what the stream holds, oldest first.
pub record Logger (Text : Type 0) : Type 0 where
  pub current_level : LogLevel
  pub output : List (Line Text)

module _ {Text : Type 0} where
  -- `Logger::set_log_level`
  pub set_log_level : LogLevel → Logger Text → Logger Text
  set_log_level level l = record l { current_level = level }

  -- `Logger::log`
  pub log : LogLevel → Text → Text → Logger Text → Logger Text
  log level component message l = if ltb (rank level) (rank l.current_level) then l else record l {
    output = l.output ++ (record { level = level; component = component; message = message } ∷ []);
  }
