-- ===== src/Rooms/Tests.antt =====
-- The laws of the registry on a registry with two rooms.
use intranet_penetration_clo.Common.{◌≡◌, true, none, [], ◌∷◌, arith}
use intranet_penetration_clo.Common.Dict.{lookup}
use intranet_penetration_clo.Common.Key.{text_key}
use intranet_penetration_clo.Rooms.{Rooms, get, set, delete_connection}
use intranet_penetration_clo.Rooms.Laws.{
  HasNoEmptyRoom, get-delete_connection, registry-HasNoEmptyRoom,
}

-- Peer 7 is in both rooms, by connections 1 and 2.
abbrev two_rooms : Rooms
two_rooms = ("home", (7, 1) ∷ []) ∷ ("work", (7, 2) ∷ []) ∷ []

get-delete_connection_example :
    ((delete_connection "home" 7 1 two_rooms).1 ≡ true)
    × (get "home" 7 (delete_connection "home" 7 1 two_rooms).0 ≡ none)
unfolding get lookup
get-delete_connection_example = get-delete_connection "home" "home" 7 7 1 two_rooms

two_rooms-HasNoEmptyRoom : HasNoEmptyRoom two_rooms
unfolding lookup
two_rooms-HasNoEmptyRoom network = ground arith

registry-HasNoEmptyRoom_example :
    HasNoEmptyRoom (set "home" 7 1 two_rooms).0
    × HasNoEmptyRoom (delete_connection "home" 7 1 two_rooms).0
registry-HasNoEmptyRoom_example =
    registry-HasNoEmptyRoom "home" 7 1 two_rooms two_rooms-HasNoEmptyRoom
