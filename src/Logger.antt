-- ===== src/Logger.antt =====
-- Log/Logger.cpp and Logger.h: the set-up of the log and its use. spdlog is a parameter, as which of its
-- calls throws an `spdlog_ex`.
use ultra_mds.Base.{
  ℕ, ◌*◌, ◌≡◌, ◌↔◌, Bool, true, false, ◌||◌, Option, none, some, List, [], ◌∷◌, if◌then◌else◌,
  arith,
}
use ultra_mds.Base.Bytes.{Bytes, bytes}

pub data Level : Type 0 where
  trace debug info warn err critical off : Level

-- The calls of spdlog, in the order of the set-up.
pub data LogCall : Type 0 where
  init_thread_pool : ℕ → ℕ → LogCall
  make_console_sink : LogCall
  set_console_level : Level → LogCall
  set_console_pattern : Bytes → LogCall
  make_file_sink : Bytes → ℕ → ℕ → LogCall
  set_file_level : Level → LogCall
  set_file_pattern : Bytes → LogCall
  make_logger : Bytes → LogCall
  set_level : Level → LogCall
  register_logger set_default_logger : LogCall
  flush_on : Level → LogCall
  -- In seconds.
  flush_every : ℕ → LogCall

pub data LogEvent : Type 0 where
  called : LogCall → LogEvent
  -- Printed to the standard output.
  init_failed : LogEvent

-- The defaults of the last two parameters.
abbrev pub default_max_file_size : ℕ
default_max_file_size = 10 * 1024 * 1024

abbrev pub default_max_files : ℕ
default_max_files = 5

abbrev pub setup : Bytes → Level → ℕ → ℕ → List LogCall
setup log_path level max_file_size max_files =
    init_thread_pool 8192 1
    ∷ make_console_sink
    ∷ set_console_level level
    ∷ set_console_pattern (bytes "%Y-%m-%d %H:%M:%S.%e | %^%l%$ | %t | %s:%# | %v")
    ∷ make_file_sink log_path max_file_size max_files
    ∷ set_file_level level
    ∷ set_file_pattern (bytes "%Y-%m-%d %H:%M:%S.%e | %l | %t | %s:%# | %v")
    ∷ make_logger (bytes "multi_sink")
    ∷ set_level level
    ∷ register_logger
    ∷ set_default_logger
    ∷ flush_on err
    ∷ flush_every 3
    ∷ []

-- Whether the member `_logger` points to a logger after the call.
abbrev pub assigns : LogCall → Bool → Bool
assigns (make_logger name) logger = true
assigns _ logger = logger

-- The calls up to the first that throws, from whether `_logger` is set.
unfoldable pub perform : (LogCall → Bool) → List LogCall → Bool → Bool × List LogEvent
perform throws [] logger = (logger, [])
perform throws (call ∷ calls) logger =
    let (after, events) = perform throws calls (assigns call logger) in
    if throws call then (logger, init_failed ∷ []) else (after, called call ∷ events)

unfoldable pub init : (LogCall → Bool) → Bytes → Level → ℕ → ℕ → Bool → Bool × List LogEvent
init throws log_path level max_file_size max_files logger =
    perform throws (setup log_path level max_file_size max_files) logger

-- A log line, at its level; `none` is a dereferenced null pointer.
unfoldable pub log : Bool → Level → Bytes → Option (Level × Bytes)
log logger level line = if logger then some (level, line) else none

-- What must succeed for `_logger` to be set.
abbrev pub is_refused : (LogCall → Bool) → Bytes → Level → ℕ → ℕ → Bool
is_refused throws log_path level max_file_size max_files =
    throws (init_thread_pool 8192 1)
    || throws make_console_sink
    || throws (set_console_level level)
    || throws (set_console_pattern (bytes "%Y-%m-%d %H:%M:%S.%e | %^%l%$ | %t | %s:%# | %v"))
    || throws (make_file_sink log_path max_file_size max_files)
    || throws (set_file_level level)
    || throws (set_file_pattern (bytes "%Y-%m-%d %H:%M:%S.%e | %l | %t | %s:%# | %v"))
    || throws (make_logger (bytes "multi_sink"))

-- A log line behind a set-up from a null `_logger`, as in a new process, dereferences a null pointer
-- exactly if a call of the set-up throws up to the making of the logger: the exception is caught, and the
-- program goes on without a logger.
pub init-log :
    (throws : LogCall → Bool) (log_path : Bytes) (level : Level) (max_file_size max_files : ℕ)
    (line_level : Level) (line : Bytes)
    → (log (init throws log_path level max_file_size max_files false).0 line_level line ≡ none)
      ↔ (is_refused throws log_path level max_file_size max_files ≡ true)
unfolding init perform log
init-log throws log_path level max_file_size max_files line_level line = ground arith
