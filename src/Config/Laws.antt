-- ===== src/Config/Laws.antt =====
-- What every configuration that is accepted satisfies.
use Prim.Native.String.{len, String}
use intranet_penetration_clo.Common.{
  ℕ, ◌<◌, ◌≤◌, length, ◌≡◌, refl, ◌≢◌, true, false, not, ◌||◌, Option, none, some, List, [], ltb,
  eqb, arith, all, subst, not_or_left, not_or_right,
}
use intranet_penetration_clo.Common.Result.{
  ok_inj, Result, ok, ◌>>◌, ensure, ok_or, bind-ok, ensure-ok, ok_or-ok,
}
use intranet_penetration_clo.Common.Dict.{Dict, lookup}
use intranet_penetration_clo.Common.Key.{text_key}
use intranet_penetration_clo.Packet.{Bytes}
use intranet_penetration_clo.Json.{
  Json, Runtime, arr, cons, nil, obj, null, other_number, bool, num, str,
}
use intranet_penetration_clo.Config.{
  ConfigError, bad_hostname, bad_max_frame_bytes, Env, ServerConfig, read_server_config,
  decode_base64_key, entries_of, add_rooms, in_range, or_default, is_empty, frame_limit,
}
use intranet_penetration_clo.Config.Rooms.{AreRooms, add_rooms-AreRooms, length-add_rooms}

-- 32 bytes, not all zero, that the text stands for.
abbrev pub IsKey : Runtime → String → Bytes → Type 0
IsKey runtime text bytes =
    (runtime.atob text ≡ some bytes) × (length bytes ≡ 32) × (all (λ b. eqb b 0) bytes ≡ false)

-- A configuration that the environment gives.
pub record IsConfig (runtime : Runtime) (env : Env) (config : ServerConfig) : Type 0 where
  pub private_key : (bytes : Bytes) × IsKey runtime config.local_private_key bytes
  pub public_key : IsKey runtime config.local_public_key config.local_public_key_bytes
  pub from_env :
      (config.local_private_key ≡ env.local_private_key)
      × (config.local_public_key ≡ env.local_public_key)
  pub some_room : 0 < length config.rooms
  pub rooms : AreRooms config.rooms
  pub frame_bytes : (1024 ≤ config.max_frame_bytes) × (config.max_frame_bytes ≤ 16_777_216)
  pub named : (config.hostname ≢ "") × (len config.hostname ≤ 255)

decode_base64_key-ok :
    (runtime : Runtime) (text name : String) (bytes : Bytes)
    → decode_base64_key runtime text name ≡ ok bytes
    → (runtime.atob text ≡ some bytes) × (length bytes ≡ 32)
unfolding decode_base64_key
decode_base64_key-ok runtime text name bytes h =
    let (decoded, read, h1) = bind-ok (ok_or (runtime.atob text) _) _ bytes h in
    let (fits, done) = ensure-ok (eqb (length decoded) 32) _ _ bytes h1 in
    ground (arith, ok_or-ok (runtime.atob text) _ decoded read)

entries_of-some :
    (input : Json) (candidates : List Json)
    → entries_of input ≡ ok candidates
    → 0 < length candidates
unfolding entries_of
entries_of-some (arr (cons v vs)) candidates h = ground arith
entries_of-some (arr nil) candidates h = ground arith
entries_of-some null candidates h = ground arith
entries_of-some other_number candidates h = ground arith
entries_of-some (bool b) candidates h = ground arith
entries_of-some (num n) candidates h = ground arith
entries_of-some (str s) candidates h = ground arith
entries_of-some (obj fs) candidates h = ground arith

module _ (runtime : Runtime) (env : Env) (config : ServerConfig)
    (private_bytes public_bytes : Bytes) where
  abbrev hostname_of : String
  hostname_of = or_default env.easytier_hostname "edge"

  abbrev config_of : Dict String String → ServerConfig
  config_of rooms = record {
    rooms = rooms;
    hostname = hostname_of;
    local_private_key = env.local_private_key;
    local_public_key = env.local_public_key;
    local_public_key_bytes = public_bytes;
    max_frame_bytes = or_default (frame_limit runtime env.max_frame_bytes) 0;
  }

  -- The last checks, on the rooms.
  finish : Dict String String → Result ConfigError ServerConfig
  finish rooms = do
    ensure (in_range (frame_limit runtime env.max_frame_bytes)) bad_max_frame_bytes
    ensure (not (is_empty hostname_of || ltb 255 (len hostname_of))) bad_hostname
    ok (config_of rooms)

  frame_limit-fits :
      (limit : Option ℕ)
      → in_range limit ≡ true
      → (1024 ≤ or_default limit 0) × (or_default limit 0 ≤ 16_777_216)
  frame_limit-fits none h = ground arith
  frame_limit-fits (some n) h = ground arith

  finish-IsConfig :
      (rooms : Dict String String)
      → finish rooms ≡ ok config
      → IsKey runtime env.local_private_key private_bytes
      → IsKey runtime env.local_public_key public_bytes
      → 0 < length rooms
      → AreRooms rooms
      → IsConfig runtime env config
  unfolding finish
  finish-IsConfig rooms h private_key public_key some_room are_rooms =
      let (fits, h1) =
        ensure-ok (in_range (frame_limit runtime env.max_frame_bytes)) _ _ config h in
      let (named, h2) =
        ensure-ok (not (is_empty hostname_of || ltb 255 (len hostname_of))) _ _ config h1 in
      subst (IsConfig runtime env) (ok_inj h2) (record {
        private_key = (private_bytes, private_key);
        public_key = public_key;
        from_env = (refl, refl);
        some_room = some_room;
        rooms = are_rooms;
        frame_bytes = frame_limit-fits (frame_limit runtime env.max_frame_bytes) fits;
        named = ground (arith, text_key.same_iff hostname_of "");
      })

no_rooms : AreRooms []
unfolding lookup
no_rooms name secret e = ground arith

-- An accepted configuration has two keys of 32 bytes that are not all zero, at least one room,
-- each with a name of 1 to 255 bytes and a secret, a frame limit between 1 KiB and 16 MiB, and a
-- host name of 1 to 255 bytes.
pub read_server_config-IsConfig :
    (runtime : Runtime) (env : Env) (config : ServerConfig)
    → read_server_config runtime env ≡ ok config
    → IsConfig runtime env config
unfolding read_server_config finish
read_server_config-IsConfig runtime env config h =
    let (_, h1) =
      ensure-ok (not (is_empty env.local_private_key || is_empty env.local_public_key)) _ _ config
        h in
    let (private_bytes, private_key, h2) =
      bind-ok (decode_base64_key runtime env.local_private_key "LOCAL_PRIVATE_KEY") _ config h1 in
    let (public_bytes, public_key, h3) =
      bind-ok (decode_base64_key runtime env.local_public_key "LOCAL_PUBLIC_KEY") _ config h2 in
    let (not_zero, h4) =
      ensure-ok (not (all (λ b. eqb b 0) private_bytes || all (λ b. eqb b 0) public_bytes)) _ _
        config h3 in
    let (input, _, h5) = bind-ok (ok_or (runtime.json_parse env.easytier_networks) _) _ config h4 in
    let (candidates, entries, h6) = bind-ok (entries_of input) _ config h5 in
    let (rooms, added, h7) = bind-ok (add_rooms candidates []) _ config h6 in
    let private_ok =
      decode_base64_key-ok runtime env.local_private_key "LOCAL_PRIVATE_KEY" private_bytes
        private_key in
    let public_ok =
      decode_base64_key-ok runtime env.local_public_key "LOCAL_PUBLIC_KEY" public_bytes
        public_key in
    finish-IsConfig runtime env config private_bytes public_bytes rooms h7
      (private_ok.0, private_ok.1, not_or_left _ _ not_zero)
      (public_ok.0, public_ok.1, not_or_right _ _ not_zero)
      (ground (
        arith,
        length-add_rooms candidates [] rooms added,
        entries_of-some input candidates entries,
      ))
      (add_rooms-AreRooms candidates [] rooms added no_rooms)
