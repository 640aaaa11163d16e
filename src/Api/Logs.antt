-- ===== src/Api/Logs.antt =====
-- Which lines src/lib/logger.ts writes, and the level at which src/middleware/request-logger.ts logs a
-- request.
use booking_availability_pla.Shared.{
  ℕ, String, ◌<>◌, Bool, Option, none, some, List, [], ◌∷◌, ◌++◌, leb, same_text, if◌then◌else◌,
}

pub data LogLevel : Type 0 where
  debug info warn error : LogLevel

abbrev pub level_rank : LogLevel → ℕ
level_rank debug = 10
level_rank info = 20
level_rank warn = 30
level_rank error = 40

-- The level that a text names.
abbrev pub named_level : String → LogLevel
named_level raw =
    if same_text raw "debug"
    then debug
    else if same_text raw "info"
    then info
    else if same_text raw "warn"
    then warn
    else if same_text raw "error"
    then error
    else info

-- `process.env.LOG_LEVEL?.toLowerCase()`, or `info`; the change of case is JavaScript's.
abbrev pub configured_level : (String → String) → Option String → LogLevel
configured_level to_lower_case none = info
configured_level to_lower_case (some raw) = named_level (to_lower_case raw)

abbrev pub should_log : LogLevel → LogLevel → Bool
should_log min_level level = leb (level_rank min_level) (level_rank level)

-- The level of a request that is completed with a status.
abbrev pub completed_level : ℕ → String → LogLevel
completed_level status path =
    if leb 500 status
    then error
    else if leb 400 status
    then warn
    else if same_text path "/health"
    then debug
    else info

-- `console.error`, `console.warn` and `console.log`.
pub data Console : Type 0 where
  to_error to_warn to_log : Console

abbrev pub console_of : LogLevel → Console
console_of error = to_error
console_of warn = to_warn
console_of info = to_log
console_of debug = to_log

-- What `serializeError` adds to a line's context: nothing, the fields of an `Error`, or another value.
pub data Thrown (Value : Type 0) : Type 0 where
  nothing_thrown : Thrown Value
  error_thrown : (name message : String) → (stack : Option String) → Thrown Value
  value_thrown : Value → Thrown Value

module _ {Value : Type 0} (of_text : String → Value) where
  abbrev pub stack_field : Option String → List (String × Value)
  stack_field none = []
  stack_field (some stack) = if same_text stack "" then [] else ("stack", of_text stack) ∷ []

  abbrev pub serialize_error : Thrown Value → List (String × Value)
  serialize_error nothing_thrown = []
  serialize_error (error_thrown name message stack) =
      ("errorName", of_text name) ∷ ("errorMessage", of_text message) ∷ stack_field stack
  serialize_error (value_thrown v) = ("error", v) ∷ []

  -- The fields behind the message, none where there are none; JSON is a parameter.
  abbrev pub suffix_of : (List (String × Value) → String) → List (String × Value) → String
  suffix_of stringify [] = ""
  suffix_of stringify (field ∷ fields) = " " <> stringify (field ∷ fields)

  -- One line, with the time and the padded name of its level, which are texts here, unless the level is
  -- below the least that is written. Fields of the error come behind those of the context, none of which has
  -- the name of one.
  unfoldable pub write :
      (List (String × Value) → String)
      → (LogLevel → String)
      → String
      → LogLevel
      → LogLevel
      → String
      → List (String × Value)
      → Thrown Value
      → Option (Console × String)
  write stringify padded time min_level level message context thrown' =
      if should_log min_level level
      then some (
        console_of level,
        "["
            <> time
            <> "] "
            <> padded level
            <> " "
            <> message
            <> suffix_of stringify (context ++ serialize_error thrown'),
      )
      else none
