-- ===== src/Config.antt =====
-- The server's configuration from its environment: cloudflare/src/core/config.ts. A length in bytes
-- is that of the UTF-8 encoding.
pub mod Rooms
pub mod Laws
mod Tests
use Prim.Native.String.{len}
use intranet_penetration_clo.Common.{
  ℕ, String, Bool, true, false, not, ◌&&◌, ◌||◌, Option, none, some, List, [], ◌∷◌, ltb, leb, eqb,
  length, all, if◌then◌else◌,
}
use intranet_penetration_clo.Common.Result.{Result, ok, err, ◌>>=◌, ◌>>◌, ensure, ok_or}
use intranet_penetration_clo.Common.Dict.{Dict, has, insert}
use intranet_penetration_clo.Common.Key.{text_key}
use intranet_penetration_clo.Packet.{Bytes}
use intranet_penetration_clo.Json.{
  Json, Items, nil, cons, Fields, Runtime, items, get_field, null, other_number, bool, num, str,
  arr, obj,
}

pub data ConfigError : Type 0 where
  keys_missing keys_zero networks_not_json no_networks entry_not_object bad_network_name :
      ConfigError
  empty_secret duplicate_network : (name : String) → ConfigError
  bad_base64 bad_key_length : (name : String) → ConfigError
  bad_max_frame_bytes bad_hostname : ConfigError

pub record Env : Type 0 where
  pub easytier_networks : String
  pub local_private_key : String
  pub local_public_key : String
  pub easytier_hostname : Option String
  pub max_frame_bytes : Option String

pub record ServerConfig : Type 0 where
  pub rooms : Dict String String
  pub hostname : String
  pub local_private_key : String
  pub local_public_key : String
  pub local_public_key_bytes : Bytes
  pub max_frame_bytes : ℕ

-- `isRecord`, with the fields.
unfoldable pub record_fields : Json → Result ConfigError Fields
record_fields (obj fields) = ok fields
record_fields null = err entry_not_object
record_fields other_number = err entry_not_object
record_fields (bool b) = err entry_not_object
record_fields (num n) = err entry_not_object
record_fields (str s) = err entry_not_object
record_fields (arr vs) = err entry_not_object

read_name : Option Json → Result ConfigError String
read_name (some (str name)) =
    if eqb (len name) 0 || ltb 255 (len name) then err bad_network_name else ok name
read_name _ = err bad_network_name

read_secret : String → Option Json → Result ConfigError String
read_secret name (some (str secret)) =
    if text_key.same secret "" then err (empty_secret name) else ok secret
read_secret name _ = err (empty_secret name)

-- One round of the loop over the entries.
unfoldable pub add_room : Json → Dict String String → Result ConfigError (Dict String String)
unfolding record_fields read_name read_secret
add_room candidate rooms = do
  fields ← record_fields candidate
  name ← read_name (get_field "network_name" fields)
  secret ← read_secret name (get_field "network_secret" fields)
  ensure (not (has name rooms)) (duplicate_network name)
  ok (insert name secret rooms)

unfoldable pub add_rooms : List Json → Dict String String → Result ConfigError (Dict String String)
add_rooms [] rooms = ok rooms
add_rooms (candidate ∷ rest) rooms = do rooms' ← add_room candidate rooms; add_rooms rest rooms'

-- `Array.isArray(input) && input.length > 0`
unfoldable pub entries_of : Json → Result ConfigError (List Json)
entries_of (arr (cons v vs)) = ok (v ∷ items vs)
entries_of _ = err no_networks

abbrev pub or_default {ℓ} : {A : Type ℓ} → Option A → A → A
or_default none d = d
or_default (some a) d = a

abbrev pub in_range : Option ℕ → Bool
in_range none = false
in_range (some n) = not (ltb n 1024) && not (ltb 16_777_216 n)

abbrev pub is_empty : String → Bool
is_empty s = text_key.same s ""

module _ (runtime : Runtime) where
  open runtime use {json_parse, atob, to_number}

  unfoldable pub decode_base64_key : String → String → Result ConfigError Bytes
  decode_base64_key value name = do
    decoded ← ok_or (atob value) (bad_base64 name)
    ensure (eqb (length decoded) 32) (bad_key_length name)
    ok decoded

  -- `Number(env.MAX_FRAME_BYTES ?? 1_048_576)`, `none` where it is no safe natural number.
  abbrev frame_limit : Option String → Option ℕ
  frame_limit none = some 1_048_576
  frame_limit (some s) = to_number s

  unfoldable pub read_server_config : Env → Result ConfigError ServerConfig
  unfolding decode_base64_key
  read_server_config env = do
    ensure (not (is_empty env.local_private_key || is_empty env.local_public_key)) keys_missing
    private_bytes ← decode_base64_key env.local_private_key "LOCAL_PRIVATE_KEY"
    public_bytes ← decode_base64_key env.local_public_key "LOCAL_PUBLIC_KEY"
    ensure (not (all (λ b. eqb b 0) private_bytes || all (λ b. eqb b 0) public_bytes)) keys_zero
    input ← ok_or (json_parse env.easytier_networks) networks_not_json
    candidates ← entries_of input
    rooms ← add_rooms candidates []
    ensure (in_range (frame_limit env.max_frame_bytes)) bad_max_frame_bytes
    let hostname = or_default env.easytier_hostname "edge"
    ensure (not (is_empty hostname || ltb 255 (len hostname))) bad_hostname
    ok (record {
      rooms = rooms;
      hostname = hostname;
      local_private_key = env.local_private_key;
      local_public_key = env.local_public_key;
      local_public_key_bytes = public_bytes;
      max_frame_bytes = or_default (frame_limit env.max_frame_bytes) 0;
    })
