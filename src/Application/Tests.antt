-- ===== src/Application/Tests.antt =====
-- An application with one channel, and its configuration file.
use moboware.Base.{
  ℕ, true, Option, none, some, List, [], ◌∷◌, ◌++◌, Text, codes, text_beq, text_keys, if◌then◌else◌,
  ◌≡◌, refl, length, c_str, All,
}
use moboware.OrderData.Wire.{ℤ, pos, to_uint64}
use moboware.Logger.{info, get_level}
use moboware.Channel.{
  ConfigJson, log_module, new_channel, load_base_config, at, contains, text_at, load_channel_config,
  load_address, load_rest, set_address, load_module_values, load_modules, make_module, load_module,
  create_module, is_some, to_int,
}
use moboware.Channel.Starting.{call_all}
use moboware.Application.{
  ConfigParser, Application, exit_success, exit_failure, lines, parse_lines, parse_config,
  directory_file, load_logging_node, load_logging, load_channels, load_channel_values, load_root,
  load_application_config, run_application,
}
use moboware.Application.Lines.{run_application_newline}
use moboware.Application.Running.{HasModule, channels_calls, run_application-call_all}

data Node : Type 0 where
  root_node logging_node channels_node channel_node modules_node log_node : Node
  text_node : Text → Node
  number_node : ℤ → Node

abbrev fields_of : List (Text × Node) → Text → Option Node
unfolding text_beq
fields_of [] key = none
fields_of ((k, v) ∷ rest) key =
    let deeper = fields_of rest key in if text_beq k key then some v else deeper

abbrev object_of : Node → Option (Text → Option Node)
object_of root_node =
    some (fields_of ((codes "Logging", logging_node) ∷ (codes "Channels", channels_node) ∷ []))
object_of logging_node = some (
    fields_of (
      (codes "LogDirectory", text_node (codes "./"))
      ∷ (codes "LogLevel", text_node (codes "INFO"))
      ∷ []))
object_of channel_node = some (
    fields_of (
      (codes "Name", text_node (codes "C"))
      ∷ (codes "Port", number_node (pos 4401))
      ∷ (codes "Address", text_node (codes "0.0.0.0"))
      ∷ (codes "Modules", modules_node)
      ∷ []))
object_of log_node = some (fields_of ((codes "Name", text_node (codes "LogModule")) ∷ []))
object_of _ = none

abbrev array_of : Node → Option (List Node)
array_of channels_node = some (channel_node ∷ [])
array_of modules_node = some (log_node ∷ [])
array_of _ = none

abbrev string_of : Node → Option Text
string_of (text_node s) = some s
string_of _ = none

abbrev number_of : Node → Option ℤ
number_of (number_node z) = some z
number_of _ = none

abbrev config_file : ConfigJson
config_file = record {
  Value = Node;
  as_object = object_of;
  as_array = array_of;
  as_string = string_of;
  as_int64 = number_of;
}

-- A parser that takes every byte, and reads the file above.
abbrev takes_all : ConfigParser config_file
takes_all = record {
  State = ℕ;
  initial = 0;
  write_some = λ text s. (length text, s);
  done = λ s. true;
  release = λ s. root_node;
}

abbrev one_channel : Application
one_channel = record { log_file = none; level = none; channels = new_channel ∷ [] }

abbrev loaded_application : Application
loaded_application = record {
  log_file = some (codes "./server.log");
  level = some info;
  channels =
      record {
        channel_name = codes "C";
        address = codes "0.0.0.0";
        port = 4401;
        modules = log_module ∷ [];
      }
      ∷ [];
}

load_application_config-loaded :
    load_application_config config_file takes_all (codes "server") (some (codes "{}")) one_channel
    ≡ some (true, loaded_application)
unfolding load_application_config parse_config lines parse_lines load_root load_logging
    load_logging_node directory_file load_channel_values load_channels load_base_config
    load_channel_config load_rest load_address set_address load_module_values load_modules
    make_module load_module create_module contains at text_at is_some to_int to_uint64 c_str
    text_beq get_level
load_application_config-loaded = refl

-- The configuration of two lines.
lines_two : lines (1 ∷ 10 ∷ 2 ∷ 3 ∷ []) ≡ (1 ∷ []) ∷ (2 ∷ 3 ∷ []) ∷ []
unfolding lines
lines_two = refl

run_application_newline_example :
    (run_application config_file takes_all
        (λ c. true)
        (codes "server")
        (some (codes "{}" ++ (10 ∷ [])))
        one_channel
      ≡ some (exit_failure, []))
    × (run_application config_file takes_all
          (λ c. true)
          (codes "server")
          (some (codes "{}" ++ (10 ∷ (10 ∷ codes " "))))
          one_channel
        ≡ some (exit_failure, []))
run_application_newline_example =
    run_application_newline config_file takes_all (λ s. refl) (λ c. true) (codes "server")
      (codes "{}") (codes " ") one_channel

run_application-call_all_example :
    let (done, calls) = call_all (λ c. true) (channels_calls loaded_application.channels) in
    All HasModule loaded_application.channels
    × (length loaded_application.channels ≡ 1)
    × (run_application config_file takes_all
          (λ c. true)
          (codes "server")
          (some (codes "{}"))
          one_channel
        ≡ some (if done then exit_success else exit_failure, calls))
run_application-call_all_example =
    run_application-call_all config_file takes_all (λ c. true) (codes "server") (some (codes "{}"))
      one_channel loaded_application load_application_config-loaded
