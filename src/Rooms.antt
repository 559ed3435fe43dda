-- ===== src/Rooms.antt =====
-- The class `RoomRegistry` of cloudflare/src/runtime/rooms.ts: for each network a map from peer id
-- to connection. A connection is its number; its network name and peer id are arguments.
pub mod Laws
mod Tests
use intranet_penetration_clo.Common.{
  ℕ, String, Bool, true, false, Option, none, some, List, [], ◌∷◌, map, eqb, if◌then◌else◌,
}
use intranet_penetration_clo.Common.Dict.{Dict, lookup, insert, delete}
use intranet_penetration_clo.Common.Key.{text_key, nat_key}

abbrev pub Room : Type 0
Room = Dict ℕ ℕ

abbrev pub Rooms : Type 0
Rooms = Dict String Room

abbrev pub find_in : ℕ → Option Room → Option ℕ
find_in peer_id none = none
find_in peer_id (some room) = lookup peer_id room

unfoldable pub get : String → ℕ → Rooms → Option ℕ
get network peer_id rooms = find_in peer_id (lookup network rooms)

abbrev pub room_or_new : Option Room → Room
room_or_new none = []
room_or_new (some room) = room

unfoldable pub set : String → ℕ → ℕ → Rooms → Rooms × Option ℕ
set network peer_id connection rooms =
    let room = room_or_new (lookup network rooms) in
    (insert network (insert peer_id connection room) rooms, lookup peer_id room)

-- `room?.get(…) !== connection`
abbrev pub is_entry : ℕ → Option ℕ → Bool
is_entry connection none = false
is_entry connection (some other) = eqb other connection

abbrev put_back : String → Room → Rooms → Rooms
put_back network [] rooms = delete network rooms
put_back network (entry ∷ room) rooms = insert network (entry ∷ room) rooms

unfoldable pub delete_connection : String → ℕ → ℕ → Rooms → Rooms × Bool
delete_connection network peer_id connection rooms =
    if is_entry connection (get network peer_id rooms)
    then (put_back network (delete peer_id (room_or_new (lookup network rooms))) rooms, true)
    else (rooms, false)

unfoldable pub peers : String → Rooms → List ℕ
peers network rooms = map (λ entry. entry.1) (room_or_new (lookup network rooms))
