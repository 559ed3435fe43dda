-- ===== src/Config/Tests.antt =====
-- A configuration that is accepted, and its properties.
use intranet_penetration_clo.Common.{
  String, ◌≡◌, refl, Option, none, some, [], ◌∷◌, replicate, if◌then◌else◌,
}
use intranet_penetration_clo.Common.Result.{ok}
use intranet_penetration_clo.Common.Key.{text_key}
use intranet_penetration_clo.Json.{Json, Runtime, str, arr, obj, cons, nil, field, end, get_field}
use intranet_penetration_clo.Config.{
  Env, ServerConfig, read_server_config, entries_of, add_rooms, add_room,
}
use intranet_penetration_clo.Common.Dict.{lookup, insert}
use intranet_penetration_clo.Config.Laws.{IsConfig, read_server_config-IsConfig}

-- A runtime that knows the texts of this test.
abbrev home_network : Json
home_network =
    arr (
      cons (obj (field "network_name" (str "home") (field "network_secret" (str "secret") end)))
        nil)

abbrev parse_text : String → Option Json
parse_text text = if text_key.same text "[home]" then some home_network else none

abbrev runtime : Runtime
runtime = record {
  json_parse = parse_text;
  atob = λ text. some (replicate 32 7);
  to_number = λ text. some 4096;
}

abbrev env : Env
env = record {
  easytier_networks = "[home]";
  local_private_key = "private";
  local_public_key = "public";
  easytier_hostname = none;
  max_frame_bytes = some "4096";
}

abbrev config : ServerConfig
config = record {
  rooms = ("home", "secret") ∷ [];
  hostname = "edge";
  local_private_key = "private";
  local_public_key = "public";
  local_public_key_bytes = replicate 32 7;
  max_frame_bytes = 4096;
}

read_server_config_runs : read_server_config runtime env ≡ ok config
unfolding read_server_config entries_of add_rooms add_room get_field lookup insert
read_server_config_runs = refl

read_server_config-IsConfig_example : IsConfig runtime env config
read_server_config-IsConfig_example =
    read_server_config-IsConfig runtime env config read_server_config_runs
