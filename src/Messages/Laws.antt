-- ===== src/Messages/Laws.antt =====
-- What every accepted handshake and authentication result satisfies.
use intranet_penetration_clo.Common.{
  ℕ, String, ◌<◌, ◌≡◌, ◌≢◌, true, Option, none, some, eqb, length, arith,
}
use intranet_penetration_clo.Common.Result.{ok, ok_or, bind-ok, ensure-ok, ok_or-ok}
use intranet_penetration_clo.Common.Key.{text_key}
use intranet_penetration_clo.Packet.{Bytes}
use intranet_penetration_clo.Json.{
  Json, Fields, Runtime, get_field, null, other_number, bool, num, str, arr, obj,
}
use intranet_penetration_clo.Messages.{
  fields_of, AuthenticationInfo, read_peer_id, read_string, is_text, parse_object,
  decode_public_key, parse_authentication_info, not_json,
}

-- A field of a JSON text that holds an object.
abbrev pub HasField : Runtime → String → String → Json → Type 0
HasField runtime json name v =
    (fields : Fields) × (runtime.json_parse json ≡ some (obj fields))
    × (get_field name fields ≡ some v)

abbrev pub IsPeerId : ℕ → Type 0
IsPeerId n = (0 < n) × (n < 4294967296)

read_peer_id-ok :
    (field : Option Json) (name : String) (n : ℕ)
    → read_peer_id field name ≡ ok n
    → (field ≡ some (num n)) × (0 < n) × (n < 4294967296)
unfolding read_peer_id
read_peer_id-ok none name n h = ground arith
read_peer_id-ok (some null) name n h = ground arith
read_peer_id-ok (some other_number) name n h = ground arith
read_peer_id-ok (some (bool b)) name n h = ground arith
read_peer_id-ok (some (num m)) name n h = ground arith
read_peer_id-ok (some (str s)) name n h = ground arith
read_peer_id-ok (some (arr vs)) name n h = ground arith
read_peer_id-ok (some (obj fs)) name n h = ground arith

read_string-ok :
    (field : Option Json) (name s : String)
    → read_string field name ≡ ok s
    → (field ≡ some (str s)) × (s ≢ "")
unfolding read_string
read_string-ok none name s h = ground arith
read_string-ok (some null) name s h = ground arith
read_string-ok (some other_number) name s h = ground arith
read_string-ok (some (bool b)) name s h = ground arith
read_string-ok (some (num m)) name s h = ground arith
read_string-ok (some (str t)) name s h = ground (arith, text_key.same_iff t "")
read_string-ok (some (arr vs)) name s h = ground arith
read_string-ok (some (obj fs)) name s h = ground arith

fields_of-ok : (v : Json) (fields : Fields) → fields_of v ≡ ok fields → v ≡ obj fields
fields_of-ok null fields h = ground arith
fields_of-ok other_number fields h = ground arith
fields_of-ok (bool b) fields h = ground arith
fields_of-ok (num n) fields h = ground arith
fields_of-ok (str s) fields h = ground arith
fields_of-ok (arr vs) fields h = ground arith
fields_of-ok (obj fs) fields h = ground arith

parse_object-ok :
    (runtime : Runtime) (json : String) (fields : Fields)
    → parse_object runtime json ≡ ok fields
    → runtime.json_parse json ≡ some (obj fields)
unfolding parse_object
parse_object-ok runtime json fields h =
    let (value, parsed, is_object) =
      bind-ok (ok_or (runtime.json_parse json) not_json) fields_of fields h in
    ground (
      arith,
      ok_or-ok (runtime.json_parse json) not_json value parsed,
      fields_of-ok value fields is_object,
    )

is_text-ok :
    (expected : String) (field : Option Json)
    → is_text expected field ≡ true
    → field ≡ some (str expected)
is_text-ok expected none h = ground arith
is_text-ok expected (some null) h = ground arith
is_text-ok expected (some other_number) h = ground arith
is_text-ok expected (some (bool b)) h = ground arith
is_text-ok expected (some (num m)) h = ground arith
is_text-ok expected (some (str t)) h = ground (arith, text_key.same_iff t expected)
is_text-ok expected (some (arr vs)) h = ground arith
is_text-ok expected (some (obj fs)) h = ground arith

-- The text is an object whose fields are the result, which is confirmed and in range.
pub record IsAuthentication (runtime : Runtime) (json : String) (info : AuthenticationInfo)
    : Type 0 where
  pub fields : Fields
  pub parsed : runtime.json_parse json ≡ some (obj fields)
  pub confirmed : get_field "auth_level" fields ≡ some (str "NetworkSecretConfirmed")
  pub has_peer_id : get_field "peer_id" fields ≡ some (num info.peer_id)
  pub peer_id_range : (0 < info.peer_id) × (info.peer_id < 4294967296)
  pub has_network : get_field "network_name" fields ≡ some (str info.network_name)
  pub network_name : info.network_name ≢ ""
  pub has_key :
      (text : String) × (get_field "remote_public_key_base64" fields ≡ some (str text))
      × (runtime.atob text ≡ some info.remote_public_key)
  pub key_length : length info.remote_public_key ≡ 32

decode_public_key-ok :
    (runtime : Runtime) (text : String) (key : Bytes)
    → decode_public_key runtime text ≡ ok key
    → (runtime.atob text ≡ some key) × (length key ≡ 32)
unfolding decode_public_key
decode_public_key-ok runtime text key h =
    let (bytes, decoded, h1) = bind-ok (ok_or (runtime.atob text) _) _ key h in
    let (fits, done) = ensure-ok (eqb (length bytes) 32) _ _ key h1 in
    ground (arith, ok_or-ok (runtime.atob text) _ bytes decoded)

pub parse_authentication_info-IsAuthentication :
    (runtime : Runtime) (json : String) (info : AuthenticationInfo)
    → parse_authentication_info runtime json ≡ ok info
    → IsAuthentication runtime json info
unfolding parse_authentication_info
parse_authentication_info-IsAuthentication runtime json info h =
    let (fields, parsed, h1) = bind-ok (parse_object runtime json) _ info h in
    let (confirmed, h2) =
      ensure-ok (is_text "NetworkSecretConfirmed" (get_field "auth_level" fields)) _ _ info h1 in
    let (peer_id, has_peer_id, h3) =
      bind-ok (read_peer_id (get_field "peer_id" fields) "peer_id") _ info h2 in
    let (network, has_network, h4) =
      bind-ok (read_string (get_field "network_name" fields) "network_name") _ info h3 in
    let (text, has_text, h5) =
      bind-ok (read_string (get_field "remote_public_key_base64" fields) "remote_public_key_base64")
        _ info h4 in
    let (key, decoded, h6) = bind-ok (decode_public_key runtime text) _ info h5 in
    let id_ok = read_peer_id-ok (get_field "peer_id" fields) "peer_id" peer_id has_peer_id in
    let network_ok =
      read_string-ok (get_field "network_name" fields) "network_name" network has_network in
    let text_ok =
      read_string-ok (get_field "remote_public_key_base64" fields) "remote_public_key_base64" text
        has_text in
    let key_ok = decode_public_key-ok runtime text key decoded in
    record {
      fields = fields;
      parsed = parse_object-ok runtime json fields parsed;
      confirmed = is_text-ok "NetworkSecretConfirmed" (get_field "auth_level" fields) confirmed;
      has_peer_id = ground (arith, id_ok.0);
      peer_id_range = ground (arith, id_ok.1, id_ok.2);
      has_network = ground (arith, network_ok.0);
      network_name = ground (arith, network_ok.1);
      has_key = (text, text_ok.0, ground (arith, key_ok.0));
      key_length = ground (arith, key_ok.1);
    }
