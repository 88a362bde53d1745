-- ===== src/Logging.antt =====
-- Source/Logging.h, Source/Logging.c and Source/Atomic.h: the level from which messages are printed. A
-- message is a number that stands for its format and arguments; `printed` has what fprintf was called for.
pub mod Printed
use pixy.Base.{ℕ, ◌+◌, ◌%◌, ◌^◌, Bool, true, false, List, [], ◌∷◌, ◌++◌, ◌==◌, ltb, if◌then◌else◌}

-- ATOMIC_EXCHANGE, of words: what is behind it in `x` and in `y`
unfoldable pub atomic_exchange : (x y : ℕ) → ℕ × ℕ
atomic_exchange x y = (y, x)

-- ATOMIC_ADD, of words of 32 bits
unfoldable pub atomic_add : (x y : ℕ) → ℕ × ℕ
atomic_add x y = ((x + y) % 2 ^ 32, x)

-- ATOMIC_COMPARE_EXCHANGE
unfoldable pub atomic_compare_exchange : (x y z : ℕ) → ℕ × ℕ
atomic_compare_exchange x y z = if x == y then (z, y) else (x, x)

-- enum LoggingLevel
pub data LoggingLevel : Type 0 where
  debug : LoggingLevel
  information : LoggingLevel
  warning : LoggingLevel
  error : LoggingLevel
  fatal_error : LoggingLevel

-- the number of a level, as the compiler gives it
unfoldable pub number : LoggingLevel → ℕ
number debug = 0
number information = 1
number warning = 2
number error = 3
number fatal_error = 4

-- the variable __LoggingLevel and the messages on stderr
pub record Logger : Type 0 where
  pub logging_level : ℕ
  pub printed : List (LoggingLevel × ℕ)

-- Source/Logging.c
unfoldable pub initialize : Logger
unfolding number
initialize = record { logging_level = number debug; printed = [] }

-- SetLoggingLevel
unfoldable pub set_logging_level : Logger → LoggingLevel → Logger
unfolding atomic_exchange number
set_logging_level self level = record self {
  logging_level = (atomic_exchange self.logging_level (number level)).0;
}

-- GetLoggingLevel
unfoldable pub get_logging_level : Logger → ℕ × Logger
unfolding atomic_add
get_logging_level self =
    let (left, found) = atomic_add self.logging_level 0 in
    (found, record self { logging_level = left })

-- __LOG
unfoldable pub log : Logger → LoggingLevel → (message : ℕ) → Logger
unfolding get_logging_level number
log self level message =
    let (limit, read) = get_logging_level self in
    if ltb (number level) limit
    then read
    else (record read { printed = read.printed ++ (level, message) ∷ [] })

-- LOG_DEBUG, LOG_INFORMATION, LOG_WARNING, LOG_ERROR and LOG_FATAL_ERROR, and whether abort is called
unfoldable pub log_at : (ndebug : Bool) → Logger → LoggingLevel → (message : ℕ) → Bool × Logger
unfolding log
log_at true self debug message = (false, self)
log_at false self debug message = (false, log self debug message)
log_at ndebug self information message = (false, log self information message)
log_at ndebug self warning message = (false, log self warning message)
log_at ndebug self error message = (false, log self error message)
log_at ndebug self fatal_error message = (true, log self fatal_error message)
