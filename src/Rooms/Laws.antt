-- ===== src/Rooms/Laws.antt =====
-- The registry as a partial map from network name and peer id to connection.
use intranet_penetration_clo.Common.{
  ℕ, String, ◌≡◌, refl, Bool, ◌&&◌, none, some, [], ◌∷◌, eqb, if◌then◌else◌, arith, Bool-cases, inl,
  inr, ◌≢◌,
}
use intranet_penetration_clo.Common.Dict.{lookup, insert, delete, lookup-insert, lookup-delete}
use intranet_penetration_clo.Common.Key.{text_key, nat_key}
use intranet_penetration_clo.Rooms.{
  Room, Rooms, get, set, delete_connection, room_or_new, is_entry, put_back,
}

abbrev pub same_place : String → ℕ → String → ℕ → Bool
same_place network peer_id network' peer_id' =
    text_key.same network network' && eqb peer_id peer_id'

lookup_or_new :
    (rooms : Rooms) (network : String) (peer_id : ℕ)
    → lookup peer_id (room_or_new (lookup network rooms)) ≡ get network peer_id rooms
unfolding get lookup
lookup_or_new rooms network peer_id = ground arith

-- Registering a connection changes the entry of its network and peer id alone, and hands back the
-- connection that had it.
pub get-set :
    (network network' : String) (peer_id peer_id' connection : ℕ) (rooms : Rooms)
    → ((set network peer_id connection rooms).1 ≡ get network peer_id rooms)
      × (get network' peer_id' (set network peer_id connection rooms).0 ≡ (
          if same_place network peer_id network' peer_id'
          then some connection
          else get network' peer_id' rooms))
get-set network network' peer_id peer_id' connection rooms = (
  unfold set in lookup_or_new rooms network peer_id,
  unfold set get in
      ground (
        arith,
        lookup-insert network network'
            (insert peer_id connection (room_or_new (lookup network rooms))) rooms,
        lookup-insert peer_id peer_id' connection (room_or_new (lookup network rooms)),
        text_key.same_iff network network',
        lookup_or_new rooms network peer_id',
      ),
)

find-put_back :
    (network network' : String) (peer_id : ℕ) (room : Room) (rooms : Rooms)
    → get network' peer_id (put_back network room rooms)
      ≡ (if text_key.same network network' then lookup peer_id room else get network' peer_id rooms)
unfolding get lookup
find-put_back network network' peer_id [] rooms =
    ground (arith, lookup-delete network network' rooms)
find-put_back network network' peer_id (entry ∷ room) rooms =
    ground (arith, lookup-insert network network' (entry ∷ room) rooms)

-- Deleting a connection removes the entry of its network and peer id exactly when that entry is
-- this very connection: one that a reconnect has replaced removes nothing. No other entry changes.
pub get-delete_connection :
    (network network' : String) (peer_id peer_id' connection : ℕ) (rooms : Rooms)
    → let holds = is_entry connection (get network peer_id rooms) in
      ((delete_connection network peer_id connection rooms).1 ≡ holds)
      × (get network' peer_id' (delete_connection network peer_id connection rooms).0 ≡ (
          if holds && same_place network peer_id network' peer_id'
          then none
          else get network' peer_id' rooms))
get-delete_connection network network' peer_id peer_id' connection rooms =
    elim (Bool-cases (is_entry connection (get network peer_id rooms))) [
      | inl held ↦
          unfold delete_connection in
          rw held (
            refl,
            ground (
              arith,
              find-put_back network network' peer_id'
                  (delete peer_id (room_or_new (lookup network rooms))) rooms,
              lookup-delete peer_id peer_id' (room_or_new (lookup network rooms)),
              text_key.same_iff network network',
              lookup_or_new rooms network peer_id',
            ),
          )
      | inr not_held ↦ unfold delete_connection in rw not_held (refl, refl)
    ]

-- No network is kept without a connection.
abbrev pub HasNoEmptyRoom : Rooms → Type 0
HasNoEmptyRoom rooms = (network : String) → lookup network rooms ≢ some []

insert-ne-nil : (peer_id connection : ℕ) (room : Room) → insert peer_id connection room ≢ []
unfolding insert
insert-ne-nil peer_id connection [] = ground arith
insert-ne-nil peer_id connection ((j, c) ∷ room) = ground arith

put_back-HasNoEmptyRoom :
    (network : String) (room : Room) (rooms : Rooms)
    → HasNoEmptyRoom rooms
    → HasNoEmptyRoom (put_back network room rooms)
put_back-HasNoEmptyRoom network [] rooms h other =
    ground (arith, lookup-delete network other rooms, h other)
put_back-HasNoEmptyRoom network (entry ∷ room) rooms h other =
    ground (arith, lookup-insert network other (entry ∷ room) rooms, h other)

-- Registering and deleting connections never leave an empty room behind.
pub registry-HasNoEmptyRoom :
    (network : String) (peer_id connection : ℕ) (rooms : Rooms)
    → HasNoEmptyRoom rooms
    → HasNoEmptyRoom (set network peer_id connection rooms).0
      × HasNoEmptyRoom (delete_connection network peer_id connection rooms).0
unfolding set delete_connection
registry-HasNoEmptyRoom network peer_id connection rooms h = (
  λ other. ground (
    arith,
    lookup-insert network other (insert peer_id connection (room_or_new (lookup network rooms)))
        rooms,
    insert-ne-nil peer_id connection (room_or_new (lookup network rooms)),
    h other,
  ),
  elim (Bool-cases (is_entry connection (get network peer_id rooms))) [
    | inl held ↦ rw held (put_back-HasNoEmptyRoom network _ rooms h)
    | inr not_held ↦ rw not_held h
  ],
)
