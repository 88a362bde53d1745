-- ===== src/Logging/Printed.antt =====
-- Which messages are printed once a level is set.
use mathlib.Core.List.{append-nil, append_assoc}
use pixy.Base.{
  ℕ, ◌+◌, ◌%◌, ◌^◌, ◌≡◌, ◌≤◌, refl, ap, ◌∙◌, Bool-cases, inl, inr, arith, Bool, true, false, List,
  [], ◌∷◌, ◌++◌, ◌==◌, ltb, leb, not, ◌&&◌, ◌||◌, if◌then◌else◌,
}
use pixy.Logging.{
  Logger, LoggingLevel, debug, information, warning, error, fatal_error, number, set_logging_level,
  atomic_exchange, get_logging_level, atomic_add, log, log_at,
}

-- a message: its level, and the number for the rest of it
abbrev pub Message : Type 0
Message = LoggingLevel × ℕ

-- LOG_DEBUG to LOG_FATAL_ERROR for messages in a row, up to an abort; and whether there was one
abbrev pub log_all : (ndebug : Bool) → Logger → List Message → Bool × Logger
log_all ndebug self [] = (false, self)
log_all ndebug self ((level, message) ∷ rest) =
    let (aborted, after) = log_at ndebug self level message in
    let logged = log_all ndebug after rest in if aborted then (true, after) else logged

abbrev pub is_fatal : LoggingLevel → Bool
is_fatal level = number level == 4

-- whether a message of a level is printed where `limit` is set
abbrev pub is_printed : (ndebug : Bool) → (limit level : LoggingLevel) → Bool
is_printed ndebug limit level =
    leb (number limit) (number level) && not (ndebug && (number level == 0))

-- the messages that are printed, up to a fatal error
abbrev pub keep : (ndebug : Bool) → (limit : LoggingLevel) → List Message → List Message
keep ndebug limit [] = []
keep ndebug limit (m ∷ rest) =
    let kept = keep ndebug limit rest in
    if is_fatal m.0 then m ∷ [] else (if is_printed ndebug limit m.0 then m ∷ kept else kept)

abbrev pub any_fatal : List Message → Bool
any_fatal [] = false
any_fatal (m ∷ rest) = is_fatal m.0 || any_fatal rest

-- where `limit` is set
abbrev limits : LoggingLevel → List Message → Logger
limits limit printed = record { logging_level = number limit; printed = printed }

read-number : (limit : LoggingLevel) → (number limit + 0) % 2 ^ 32 ≡ number limit
unfolding number
read-number debug = refl
read-number information = refl
read-number warning = refl
read-number error = refl
read-number fatal_error = refl

number-top : (limit : LoggingLevel) → number limit ≤ 4
unfolding number
number-top debug = omega arith
number-top information = omega arith
number-top warning = omega arith
number-top error = omega arith
number-top fatal_error = omega arith

log-cases :
    (limit : LoggingLevel) (before : List Message) (level : LoggingLevel) (message : ℕ)
    → log (limits limit before) level message
      ≡ limits limit
          (if leb (number limit) (number level) then before ++ (level, message) ∷ [] else before)
unfolding log get_logging_level atomic_add
log-cases limit before level message =
    rw (read-number limit) (elim (Bool-cases (ltb (number level) (number limit))) [
      | inl e ↦ ground (arith, e, read-number limit)
      | inr e ↦ ground (arith, e, read-number limit)
    ])

log_at-cases :
    (ndebug : Bool) (limit : LoggingLevel) (before : List Message) (level : LoggingLevel)
    (message : ℕ)
    → log_at ndebug (limits limit before) level message ≡ (
      is_fatal level,
      limits limit
          (if is_printed ndebug limit level then before ++ (level, message) ∷ [] else before),
    )
unfolding log_at number
log_at-cases true limit before debug message = ground arith
log_at-cases false limit before debug message = ground (arith, log-cases limit before debug message)
log_at-cases ndebug limit before information message =
    ground (arith, log-cases limit before information message)
log_at-cases ndebug limit before warning message =
    ground (arith, log-cases limit before warning message)
log_at-cases ndebug limit before error message =
    ground (arith, log-cases limit before error message)
log_at-cases ndebug limit before fatal_error message =
    ground (arith, number-top limit, log-cases limit before fatal_error message)

-- Once a level is set, the macros print, in order, the messages whose level is not below it, less those of
-- LOG_DEBUG with NDEBUG, up to the first fatal error, which is printed and then aborts. The level stays.
pub log_all-keep :
    (ndebug : Bool) (limit : LoggingLevel) (ms : List Message) (before : List Message) (old : ℕ)
    → log_all ndebug (set_logging_level (record { logging_level = old; printed = before }) limit) ms
      ≡ (any_fatal ms, limits limit (before ++ keep ndebug limit ms))
unfolding set_logging_level atomic_exchange
log_all-keep ndebug limit [] before old = rw append-nil refl
log_all-keep ndebug limit ((level, message) ∷ rest) before old =
    rw (log_at-cases ndebug limit before level message) (elim (Bool-cases (is_fatal level)) [
      | inl f ↦
          let kept : is_printed ndebug limit level ≡ true = ground (arith, f, number-top limit) in
          rw (f, kept) refl
      | inr f ↦ elim (Bool-cases (is_printed ndebug limit level)) [
        | inl p ↦
            rw (f, p)
              (log_all-keep ndebug limit rest (before ++ (level, message) ∷ []) old
                ∙ ap (λ ms. (any_fatal rest, limits limit ms))
                    (append_assoc before ((level, message) ∷ []) (keep ndebug limit rest)))
        | inr p ↦ rw (f, p) (log_all-keep ndebug limit rest before old)
      ]
    ])
