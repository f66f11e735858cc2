-- ===== src/Logger.antt =====
-- src/lib/common/include/common/logger.hpp: a line is formatted into a buffer, which is put into a queue;
-- another thread writes what is in the queue. The text that fmt makes of the line is an argument, and so
-- is how often the queue of boost is found full before it takes the buffer.
pub mod Buffers
pub mod Files
pub mod Lines
mod Tests
use moboware.Base.{
  ℕ, zero, suc, ◌+◌, Bool, true, false, List, [], ◌∷◌, ◌++◌, Text, codes, text_keys, ◌==◌, ◌&&◌,
  not, is_empty, length, set, take, ltb, leb, nat_beq, if◌then◌else◌,
}

-- The array of a buffer, of which only the elements below the index are set.
pub record TrivialBuffer (A : Type 0) : Type 0 where
  pub array : List A
  pub index : ℕ

module _ {A : Type 0} where
  unfoldable pub push_back : A → TrivialBuffer A → TrivialBuffer A
  push_back value b =
      if ltb b.index (length b.array)
      then record { array = set b.array b.index value; index = b.index + 1 }
      else b

  -- A text is formatted into a buffer by push_back.
  unfoldable pub format_to : List A → TrivialBuffer A → TrivialBuffer A
  unfolding push_back
  format_to [] b = b
  format_to (x ∷ xs) b = format_to xs (push_back x b)

  -- What data() and size() delimit.
  unfoldable pub written_data : TrivialBuffer A → List A
  written_data b = take b.index b.array

pub data LogLevel : Type 0 where
  log_none trace debug info warning error fatal : LogLevel

abbrev pub level_number : LogLevel → ℕ
level_number log_none = 0
level_number trace = 1
level_number debug = 2
level_number info = 3
level_number warning = 4
level_number error = 5
level_number fatal = 6

-- The name that the formatter writes.
unfoldable pub level_name : LogLevel → Text
level_name log_none = codes "NONE"
level_name trace = codes "TRACE"
level_name debug = codes "DEBUG"
level_name info = codes "INFO"
level_name warning = codes "WARN"
level_name error = codes "ERROR"
level_name fatal = codes "FATAL"

unfoldable pub get_level : Text → LogLevel
get_level name =
    if name == codes ""
    then log_none
    else if name == codes "TRACE"
    then trace
    else if name == codes "DEBUG"
    then debug
    else if name == codes "INFO"
    then info
    else if name == codes "WARN"
    then warning
    else if name == codes "ERROR"
    then error
    else if name == codes "FATAL"
    then fatal
    else info

pub record Logger : Type 0 where
  pub log_queue : List (TrivialBuffer ℕ)
  pub log_file : Text
  pub file_is_open : Bool
  pub console : Text
  pub global_log_level : LogLevel

unfoldable pub set_level : LogLevel → Logger → Logger
set_level level s = record s { global_log_level = level }

unfoldable pub test_level : LogLevel → Logger → Bool
test_level level s =
    not (nat_beq (level_number s.global_log_level) 0)
    && leb (level_number s.global_log_level) (level_number level)

-- The buffer of a line, in memory that holds anything: what stands before it, the line, and its end.
unfoldable pub log_buffer : Text → Text → Text → TrivialBuffer ℕ
unfolding format_to
log_buffer memory before line =
    format_to (codes "\n")
      (format_to line (format_to before (record { array = memory; index = 0 })))

-- The push that is tried until the queue takes the buffer.
unfoldable pub push_until : ℕ → TrivialBuffer ℕ → Logger → Logger
push_until zero buffer s = record s { log_queue = s.log_queue ++ (buffer ∷ []) }
push_until (suc n) buffer s =
    push_until n buffer (record s { console = s.console ++ codes "Log Queue full!!!\n" })

-- A line of a level, as the macros log it.
unfoldable pub log : LogLevel → Text → Text → Text → ℕ → Logger → Logger
unfolding test_level log_buffer push_until
log level memory before line fulls s =
    let logged = push_until fulls (log_buffer memory before line) s in
    if test_level level s then logged else s

-- `consume_all` with the function that writes a buffer.
unfoldable pub consume_all : List (TrivialBuffer ℕ) → Logger → Logger
unfolding written_data
consume_all [] s = record s { log_queue = [] }
consume_all (b ∷ bs) s =
    let to_file = consume_all bs (record s { log_file = s.log_file ++ written_data b }) in
    let to_console = consume_all bs (record s { console = s.console ++ written_data b }) in
    if s.file_is_open then to_file else to_console

-- Whether the wait was signalled comes with the call.
unfoldable pub wait_and_write : Bool → Logger → Logger
unfolding consume_all
wait_and_write signalled s =
    let consumed = consume_all s.log_queue s in
    if signalled && not (is_empty s.log_queue) then consumed else s
