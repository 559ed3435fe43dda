-- ===== src/Config/Rooms.antt =====
-- The table of rooms that the environment's networks make, and what every entry of it satisfies.
use Prim.Native.String.{len, String}
use intranet_penetration_clo.Common.{
  ◌≤◌, ◌+◌, suc, length, ◌≡◌, refl, ◌≢◌, not, Option, none, some, List, [], ◌∷◌, arith,
}
use intranet_penetration_clo.Common.Result.{ok, bind-ok, ensure-ok}
use intranet_penetration_clo.Common.Dict.{Dict, lookup, insert, has, lookup-insert}
use intranet_penetration_clo.Common.Key.{text_key}
use intranet_penetration_clo.Json.{Json, str, null, other_number, bool, num, arr, obj, get_field}
use intranet_penetration_clo.Config.{record_fields, read_name, read_secret, add_room, add_rooms}

-- Every room has a name of 1 to 255 bytes and a secret.
abbrev pub AreRooms : Dict String String → Type 0
AreRooms rooms =
    (name secret : String)
    → lookup name rooms ≡ some secret
    → (len name ≢ 0) × (len name ≤ 255) × (secret ≢ "")

read_name-Fits :
    (field : Option Json) (name : String)
    → read_name field ≡ ok name
    → (len name ≢ 0) × (len name ≤ 255)
unfolding read_name
read_name-Fits none name h = ground arith
read_name-Fits (some null) name h = ground arith
read_name-Fits (some other_number) name h = ground arith
read_name-Fits (some (bool b)) name h = ground arith
read_name-Fits (some (num n)) name h = ground arith
read_name-Fits (some (str s)) name h = ground arith
read_name-Fits (some (arr vs)) name h = ground arith
read_name-Fits (some (obj fs)) name h = ground arith

read_secret-Fits :
    (name : String) (field : Option Json) (secret : String)
    → read_secret name field ≡ ok secret
    → secret ≢ ""
unfolding read_secret
read_secret-Fits name none secret h = ground arith
read_secret-Fits name (some null) secret h = ground arith
read_secret-Fits name (some other_number) secret h = ground arith
read_secret-Fits name (some (bool b)) secret h = ground arith
read_secret-Fits name (some (num n)) secret h = ground arith
read_secret-Fits name (some (str s)) secret h = ground (arith, text_key.same_iff s "")
read_secret-Fits name (some (arr vs)) secret h = ground arith
read_secret-Fits name (some (obj fs)) secret h = ground arith

-- One entry more: its name is new, and every other room is as it was.
record Adds (rooms rooms' : Dict String String) : Type 0 where
  name : String
  secret : String
  fits : (len name ≢ 0) × (len name ≤ 255) × (secret ≢ "")
  fresh : lookup name rooms ≡ none
  after : rooms' ≡ insert name secret rooms

add_room-Adds :
    (candidate : Json) (rooms rooms' : Dict String String)
    → add_room candidate rooms ≡ ok rooms'
    → Adds rooms rooms'
unfolding add_room
add_room-Adds candidate rooms rooms' h =
    let (fields, _, h1) = bind-ok (record_fields candidate) _ rooms' h in
    let (name, named, h2) = bind-ok (read_name (get_field "network_name" fields)) _ rooms' h1 in
    let (secret, keyed, h3) =
      bind-ok (read_secret name (get_field "network_secret" fields)) _ rooms' h2 in
    let (fresh, done) = ensure-ok (not (has name rooms)) _ _ rooms' h3 in
    let bounds = read_name-Fits (get_field "network_name" fields) name named in
    record {
      name = name;
      secret = secret;
      fits = (
        bounds.0,
        bounds.1,
        read_secret-Fits name (get_field "network_secret" fields) secret keyed,
      );
      fresh = ground arith;
      after = ground arith;
    }

Adds-AreRooms :
    (rooms rooms' : Dict String String) → Adds rooms rooms' → AreRooms rooms → AreRooms rooms'
Adds-AreRooms rooms rooms' a h name secret e = ground (
  arith,
  a.after,
  lookup-insert a.name name a.secret rooms,
  text_key.same_iff a.name name,
  a.fits,
  h name secret,
)

-- What the loop over the entries keeps: the names that were there, with their secrets.
pub add_rooms-AreRooms :
    (candidates : List Json) (rooms rooms' : Dict String String)
    → add_rooms candidates rooms ≡ ok rooms'
    → AreRooms rooms
    → AreRooms rooms'
unfolding add_rooms
add_rooms-AreRooms [] rooms rooms' h are = ground arith
add_rooms-AreRooms (candidate ∷ rest) rooms rooms' h are =
    let (next, added, more) = bind-ok (add_room candidate rooms) _ rooms' h in
    add_rooms-AreRooms rest next rooms' more
      (Adds-AreRooms rooms next (add_room-Adds candidate rooms next added) are)

length-insert :
    (name secret : String) (rooms : Dict String String)
    → lookup name rooms ≡ none
    → length (insert name secret rooms) ≡ suc (length rooms)
unfolding lookup insert
length-insert name secret [] h = refl
length-insert name secret ((k, v) ∷ rooms) h = ground (arith, length-insert name secret rooms)

-- Each entry has a room of its own.
pub length-add_rooms :
    (candidates : List Json) (rooms rooms' : Dict String String)
    → add_rooms candidates rooms ≡ ok rooms'
    → length rooms' ≡ length candidates + length rooms
unfolding add_rooms
length-add_rooms [] rooms rooms' h = ground arith
length-add_rooms (candidate ∷ rest) rooms rooms' h =
    let (next, added, more) = bind-ok (add_room candidate rooms) (add_rooms rest) rooms' h in
    let a = add_room-Adds candidate rooms next added in
    ground (
      arith,
      a.after,
      length-insert a.name a.secret rooms a.fresh,
      length-add_rooms rest next rooms' more,
    )
