-- ===== src/Messages.antt =====
-- The handshake results as the server reads them back from JSON text:
-- cloudflare/src/runtime/messages.ts.
pub mod Laws
mod Tests
use intranet_penetration_clo.Common.{
  ℕ, String, Bool, true, false, not, ◌&&◌, Option, none, some, ltb, leb, eqb, length, if◌then◌else◌,
}
use intranet_penetration_clo.Common.Result.{Result, ok, err, ◌>>=◌, ◌>>◌, ensure, ok_or}
use intranet_penetration_clo.Common.Key.{text_key}
use intranet_penetration_clo.Packet.{Bytes}
use intranet_penetration_clo.Json.{
  Json, Fields, Runtime, get_field, null, other_number, bool, num, str, arr, obj,
}

pub data MessageError : Type 0 where
  not_json not_object not_confirmed bad_base64 bad_key_length : MessageError
  bad_peer_id bad_string : (name : String) → MessageError

pub record HandshakeInfo : Type 0 where
  pub peer_id : ℕ
  pub network_name : String

pub record AuthenticationInfo : Type 0 where
  pub peer_id : ℕ
  pub network_name : String
  pub remote_public_key : Bytes

abbrev fields_of : Json → Result MessageError Fields
fields_of (obj fields) = ok fields
fields_of null = err not_object
fields_of other_number = err not_object
fields_of (bool b) = err not_object
fields_of (num n) = err not_object
fields_of (str s) = err not_object
fields_of (arr vs) = err not_object

unfoldable pub read_peer_id : Option Json → String → Result MessageError ℕ
read_peer_id (some (num n)) name =
    if eqb n 0
    then err (bad_peer_id name)
    else if ltb 0xffff_ffff n
    then err (bad_peer_id name)
    else ok n
read_peer_id _ name = err (bad_peer_id name)

unfoldable pub read_string : Option Json → String → Result MessageError String
read_string (some (str s)) name = if text_key.same s "" then err (bad_string name) else ok s
read_string _ name = err (bad_string name)

abbrev is_text : String → Option Json → Bool
is_text expected (some (str s)) = text_key.same s expected
is_text expected _ = false

module _ (runtime : Runtime) where
  open runtime use {json_parse, atob}

  unfoldable pub parse_object : String → Result MessageError Fields
  parse_object json = do value ← ok_or (json_parse json) not_json; fields_of value

  unfoldable pub decode_public_key : String → Result MessageError Bytes
  decode_public_key base64 = do
    key ← ok_or (atob base64) bad_base64
    ensure (eqb (length key) 32) bad_key_length
    ok key

  unfoldable pub parse_handshake_info : String → Result MessageError HandshakeInfo
  unfolding parse_object read_string read_peer_id
  parse_handshake_info json = do
    value ← parse_object json
    algorithm ←
        read_string (get_field "client_encryption_algorithm" value) "client_encryption_algorithm"
    peer_id ← read_peer_id (get_field "peer_id" value) "peer_id"
    network_name ← read_string (get_field "network_name" value) "network_name"
    ok (record { peer_id = peer_id; network_name = network_name })

  unfoldable pub parse_authentication_info : String → Result MessageError AuthenticationInfo
  unfolding parse_object read_string read_peer_id decode_public_key
  parse_authentication_info json = do
    value ← parse_object json
    ensure (is_text "NetworkSecretConfirmed" (get_field "auth_level" value)) not_confirmed
    peer_id ← read_peer_id (get_field "peer_id" value) "peer_id"
    network_name ← read_string (get_field "network_name" value) "network_name"
    base64 ← read_string (get_field "remote_public_key_base64" value) "remote_public_key_base64"
    remote_public_key ← decode_public_key base64
    ok (record {
      peer_id = peer_id;
      network_name = network_name;
      remote_public_key = remote_public_key;
    })
