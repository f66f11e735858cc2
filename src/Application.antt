-- ===== src/Application.antt =====
-- src/lib/applications/application.cpp: how the application reads its configuration file, loads and starts its
-- channels, and runs the service. The incremental parser of boost::json is a parameter; an exception, which
-- nothing catches, is `none`.
pub mod Lines
pub mod Running
mod Tests
use moboware.Base.{
  ℕ, Bool, true, false, not, ◌&&◌, Option, none, some, List, [], ◌∷◌, ◌++◌, Text, codes, ◌==◌,
  text_keys, if◌then◌else◌, ◌>>=◌, nat_beq, length, c_str,
}
use moboware.Logger.{LogLevel, get_level}
use moboware.Channel.{
  ConfigJson, Channel, contains, at, text_at, load_base_config, NetworkCall, start_channel,
}

-- The parser: how many bytes of a text it takes, whether it has a whole document, and the document.
pub record ConfigParser (J : ConfigJson) : Type 1 where
  pub State : Type 0
  pub initial : State
  pub write_some : Text → State → ℕ × State
  pub done : State → Bool
  pub release : State → J.Value

-- The lines that the loop with `std::getline` reads, up to the end of the file: what follows the last newline
-- is a line too.
unfoldable pub lines : Text → List Text
lines [] = [] ∷ []
lines (c ∷ s) = elim (lines s) [
  | [] ↦ (c ∷ []) ∷ []
  | line ∷ rest ↦ if nat_beq c 10 then [] ∷ line ∷ rest else (c ∷ line) ∷ rest
]

-- The file of the log, the level of the logger, and the channels.
pub record Application : Type 0 where
  pub log_file : Option Text
  pub level : Option LogLevel
  pub channels : List Channel

module _ (J : ConfigJson) where
  open J use {Value, as_object, as_array}

  -- The loop over the lines; a line of which the parser takes nothing ends it.
  unfoldable pub parse_lines : (P : ConfigParser J) → List Text → P.State → Option P.State
  parse_lines P [] s = some s
  parse_lines P (line ∷ rest) s =
      let (taken, s') = P.write_some line s in
      let parsed = parse_lines P rest s' in if nat_beq taken 0 then none else parsed

  -- The document of the text of a file, or none if it is refused.
  unfoldable pub parse_config : ConfigParser J → Text → Option Value
  unfolding lines parse_lines
  parse_config P text = do
    s ← parse_lines P (lines text) P.initial
    if P.done s then some (P.release s) else none

  -- The file of the log in the directory that is configured, if one is.
  unfoldable pub directory_file : Text → Value → Application → Option (Option Text)
  directory_file name node app = do
    has_directory ← contains J node (codes "LogDirectory")
    if has_directory
        then (do
          directory ← text_at J node (codes "LogDirectory")
          some (some (directory ++ (name ++ codes ".log"))))
        else some app.log_file

  -- The level of `Logging` must be there, the directory need not.
  unfoldable pub load_logging_node : Text → Value → Application → Option Application
  unfolding get_level
  load_logging_node name node app = do
    file ← directory_file name node app
    level ← text_at J node (codes "LogLevel")
    some (record app { log_file = file; level = some (get_level level) })

  unfoldable pub load_logging : Text → Value → Application → Option Application
  load_logging name root app = do
    has_logging ← contains J root (codes "Logging")
    if has_logging
        then (do node ← at J root (codes "Logging"); load_logging_node name node app)
        else some app

  -- Each channel loads the value in its place, up to the first that is refused.
  unfoldable pub load_channels : List Value → List Channel → Option (Bool × List Channel)
  load_channels [] cs = some (true, cs)
  load_channels (v ∷ vs) [] = some (true, [])
  load_channels (v ∷ vs) (c ∷ cs) = do
    (loaded, c') ← load_base_config J v c
    if loaded
        then (do (all_loaded, cs') ← load_channels vs cs; some (all_loaded, c' ∷ cs'))
        else some (false, c' ∷ cs)

  -- There must be as many values as channels.
  unfoldable pub load_channel_values :
      Option (List Value) → Application → Option (Bool × Application)
  unfolding load_channels
  load_channel_values none app = some (false, app)
  load_channel_values (some vs) app =
      if nat_beq (length vs) (length app.channels)
      then (do
        (loaded, cs) ← load_channels vs app.channels
        some (loaded, record app { channels = cs }))
      else some (false, app)

  unfoldable pub load_root : Text → Value → Application → Option (Bool × Application)
  unfolding load_logging load_channel_values
  load_root name root app = do
    app' ← load_logging name root app
    has_channels ← contains J root (codes "Channels")
    if has_channels
        then (do x ← at J root (codes "Channels"); load_channel_values (as_array x) app')
        else some (false, app')

  -- `LoadConfig`, of the text of the file if it can be opened.
  unfoldable pub load_application_config :
      ConfigParser J → Text → Option Text → Application → Option (Bool × Application)
  unfolding parse_config load_root
  load_application_config P name none app = some (false, app)
  load_application_config P name (some text) app = elim (parse_config P text) [
    | none ↦ some (false, app)
    | some root ↦ load_root name root app
  ]

-- The channels start one after the other, up to the first that fails: whether none did, and their calls.
unfoldable pub start_channels : (NetworkCall → Bool) → List Channel → Bool × List NetworkCall
start_channels works [] = (true, [])
start_channels works (c ∷ cs) =
    let (started, calls) = start_channel works c in
    let (all_started, rest) = start_channels works cs in
    if started then (all_started, calls ++ rest) else (false, calls)

-- What `Run` did: whether it came to run the service, and the calls of the network.
pub data RunResult : Type 0 where
  exit_failure exit_success : RunResult

unfoldable pub run_application :
    (J : ConfigJson)
    → ConfigParser J
    → (NetworkCall → Bool)
    → Text
    → Option Text
    → Application
    → Option (RunResult × List NetworkCall)
unfolding load_application_config start_channels
run_application J P works name file app = do
  (loaded, app') ← load_application_config J P name file app
  let (started, calls) = start_channels works app'.channels in
      some (
        if loaded
        then (if started then (exit_success, calls) else (exit_failure, calls))
        else (exit_failure, []))
