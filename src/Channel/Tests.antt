-- ===== src/Channel/Tests.antt =====
-- A channel of the configuration file config.json, and its start.
use moboware.Base.{
  ℕ, true, false, Option, none, some, List, [], ◌∷◌, Text, codes, text_beq, text_keys,
  if◌then◌else◌, ◌≡◌, refl, is_empty, c_str,
}
use moboware.OrderData.Wire.{ℤ, pos, to_uint64}
use moboware.Channel.{
  ConfigJson, Module, log_module, tcp_client_module, Channel, new_channel, load_base_config, at,
  contains, text_at, load_channel_config, load_address, load_rest, set_address, load_module_values,
  load_modules, make_module, load_module, create_module, is_some, to_int, listen_at, start_channel,
}
use moboware.Channel.Loading.{last_16_bits}
use moboware.Channel.Starting.{call_all, modules_calls, start_channel-Loaded}

-- The values of a file with one channel, whose modules log and connect to a server.
data Node : Type 0 where
  channel_node modules_node log_node client_node unknown_node : Node
  text_node : Text → Node
  number_node : ℤ → Node

abbrev fields_of : List (Text × Node) → Text → Option Node
unfolding text_beq
fields_of [] key = none
fields_of ((k, v) ∷ rest) key =
    let deeper = fields_of rest key in if text_beq k key then some v else deeper

abbrev object_of : ℤ → Node → Option (Text → Option Node)
object_of z channel_node = some (
    fields_of (
      (codes "Name", text_node (codes "C"))
      ∷ (codes "Port", number_node z)
      ∷ (codes "Address", text_node (codes "0.0.0.0"))
      ∷ (codes "Modules", modules_node)
      ∷ []))
object_of z log_node = some (fields_of ((codes "Name", text_node (codes "LogModule")) ∷ []))
object_of z unknown_node = some (fields_of ((codes "Name", text_node (codes "X")) ∷ []))
object_of z client_node = some (
    fields_of (
      (codes "Name", text_node (codes "TcpClientModule"))
      ∷ (codes "Port", number_node (pos 8))
      ∷ (codes "Address", text_node (codes "a"))
      ∷ []))
object_of z _ = none

abbrev array_of : Node → Option (List Node)
array_of modules_node = some (log_node ∷ unknown_node ∷ client_node ∷ [])
array_of _ = none

abbrev string_of : Node → Option Text
string_of (text_node s) = some s
string_of _ = none

abbrev number_of : Node → Option ℤ
number_of (number_node z) = some z
number_of _ = none

abbrev file_with_port : ℤ → ConfigJson
file_with_port z = record {
  Value = Node;
  as_object = object_of z;
  as_array = array_of;
  as_string = string_of;
  as_int64 = number_of;
}

abbrev two_modules : List Module
two_modules = log_module ∷ tcp_client_module (codes "a") 8 ∷ []

abbrev loaded_channel : ℕ → Channel
loaded_channel port = record {
  channel_name = codes "C";
  address = codes "0.0.0.0";
  port = port;
  modules = two_modules;
}

-- The unknown module is left out.
load_base_config-loaded :
    load_base_config (file_with_port (pos 65616)) channel_node new_channel
    ≡ some (true, loaded_channel 65616)
unfolding load_base_config load_channel_config load_rest load_address set_address load_module_values
    load_modules make_module load_module create_module contains at text_at is_some to_int to_uint64
    c_str text_beq
load_base_config-loaded = refl

-- The port 65616 is the port 80.
start_channel-Loaded_example :
    (is_empty (loaded_channel 65616).modules ≡ false)
    × (start_channel (λ c. true) (loaded_channel 65616)
        ≡ call_all
            (λ c. true)
            (listen_at (codes "0.0.0.0") (last_16_bits (pos 65616)) ∷ modules_calls two_modules))
unfolding at text_beq
start_channel-Loaded_example =
    start_channel-Loaded (file_with_port (pos 65616)) channel_node (number_node (pos 65616))
      (pos 65616) new_channel (loaded_channel 65616) (λ c. true) refl refl load_base_config-loaded
