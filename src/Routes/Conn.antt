-- ===== src/Routes/Conn.antt =====
-- Who is connected to whom: `build_conn_info` of cloudflare/wasm/src/route_state.rs. The relay is
-- the centre of a star.
pub mod Star
pub mod Caches
use intranet_penetration_clo.Common.{
  ℕ, zero, suc, ◌+◌, ◌-◌, ◌*◌, ◌/◌, ◌%◌, ◌^◌, bit_or, Bool, true, false, not, ◌&&◌, ◌||◌, Option,
  none, some, List, [], ◌∷◌, map, filter, length, get_or, set, replicate, eqb, ltb, if◌then◌else◌,
}
use intranet_penetration_clo.Common.Result.{Result, ok, err}
use intranet_penetration_clo.Common.Dict.{Dict, lookup}
use intranet_penetration_clo.Common.Key.{nat_key}
use intranet_penetration_clo.Packet.{Bytes}
use intranet_penetration_clo.Window.{set_bit}
use intranet_penetration_clo.Routes.{
  RouteGroup, SessionState, ConnInfo, conn_bitmap, conn_peer_list, RouteConnBitmap, PeerConnInfo,
  PeerIdVersion, RouteError, too_many_legacy_peers, version_of,
}

abbrev pub max_legacy_bitmap_peers : ℕ
max_legacy_bitmap_peers = 8_192

abbrev pub saved_route_version_ttl_ms : ℕ
saved_route_version_ttl_ms = 60_000

-- `set_bit` on the bit of row and column.
unfoldable pub set_cell : ℕ → ℕ → ℕ → Bytes → Bytes
set_cell n row col bitmap = set_bit bitmap (row * n + col)

-- `for i in 0..n { set_bit(i, i) }`, counting down; the bits do not depend on each other.
unfoldable pub set_diagonal : ℕ → ℕ → Bytes → Bytes
set_diagonal n zero bitmap = bitmap
set_diagonal n (suc i) bitmap = set_cell n i i (set_diagonal n i bitmap)

unfoldable pub set_star : ℕ → ℕ → ℕ → Bytes → Bytes
set_star n server zero bitmap = bitmap
set_star n server (suc i) bitmap =
    if eqb i server
    then set_star n server i bitmap
    else set_cell n i server (set_cell n server i (set_star n server i bitmap))

unfoldable pub set_row : ℕ → ℕ → ℕ → Bytes → Bytes
set_row n i zero bitmap = bitmap
set_row n i (suc j) bitmap = set_cell n i j (set_row n i j bitmap)

unfoldable pub set_mesh : ℕ → ℕ → Bytes → Bytes
set_mesh n zero bitmap = bitmap
set_mesh n (suc i) bitmap = set_row n i n (set_mesh n i bitmap)

-- `idx_by_peer.get(…)`, on a list without repetitions.
unfoldable pub index_of : ℕ → List ℕ → Option ℕ
index_of x [] = none
index_of x (y ∷ ys) =
    if eqb x y then some 0 else elim (index_of x ys) [ none ↦ none | some i ↦ some (suc i) ]

abbrev with_links : ℕ → Option ℕ → Bytes → Bytes
with_links n none bitmap = set_mesh n n bitmap
with_links n (some server) bitmap = set_star n server n bitmap

unfoldable pub build_bitmap : ℕ → List ℕ → Bytes
build_bitmap my_peer_id relevant =
    let n = length relevant in
    with_links n (index_of my_peer_id relevant) (set_diagonal n n (replicate ((n * n + 7) / 8) 0))

abbrev pub with_version : Dict ℕ ℕ → ℕ → PeerIdVersion
with_version versions pid = record { peer_id = pid; version = version_of versions pid }

abbrev pub compute_bitmap : ℕ → List ℕ → Dict ℕ ℕ → RouteConnBitmap
compute_bitmap my_peer_id relevant versions = record {
  peer_ids = map (with_version versions) relevant;
  bitmap = build_bitmap my_peer_id relevant;
}

abbrev pub neighbours : ℕ → List ℕ → ℕ → List ℕ
neighbours my_peer_id relevant pid =
    if eqb pid my_peer_id then filter (λ c. not (eqb c my_peer_id)) relevant else my_peer_id ∷ []

abbrev pub compute_peer_list : ℕ → List ℕ → Dict ℕ ℕ → List PeerConnInfo
compute_peer_list my_peer_id relevant versions =
    map
      (λ pid. record {
        peer = with_version versions pid;
        connected_peer_ids = neighbours my_peer_id relevant pid;
      })
      relevant

-- A cached value of this very topology.
abbrev pub cached {ℓ} : {A : Type ℓ} → ℕ → Option (ℕ × A) → Option A
cached topology none = none
cached topology (some (version, a)) = if eqb version topology then some a else none

abbrev pub is_up_to_date : ℕ → RouteGroup → Option SessionState → Bool
is_up_to_date now g none = false
is_up_to_date now g (some session) =
    eqb session.last_topology_version g.topology_version
    && ltb (now - session.last_topology_touch_ms) saved_route_version_ttl_ms

list_or_cached : ℕ → List ℕ → RouteGroup → Option (List PeerConnInfo) → RouteGroup × Option ConnInfo
list_or_cached my_peer_id relevant g (some cached) = (g, some (conn_peer_list cached))
list_or_cached my_peer_id relevant g none =
    let result = compute_peer_list my_peer_id relevant g.peer_conn_versions in
    (
      record g { cached_conn_peer_list = some (g.topology_version, result) },
      some (conn_peer_list result),
    )

bitmap_or_cached :
    ℕ
    → List ℕ
    → RouteGroup
    → Option RouteConnBitmap
    → Result RouteError (RouteGroup × Option ConnInfo)
bitmap_or_cached my_peer_id relevant g (some cached) = ok (g, some (conn_bitmap cached))
bitmap_or_cached my_peer_id relevant g none =
    if ltb max_legacy_bitmap_peers (length relevant)
    then err too_many_legacy_peers
    else (let result = compute_bitmap my_peer_id relevant g.peer_conn_versions in
        ok (
          record g { cached_conn_bitmap = some (g.topology_version, result) },
          some (conn_bitmap result),
        ))

-- The group changes in its caches alone, and not where there is an error.
unfoldable pub build_conn_info :
    ℕ → List ℕ → ℕ → Bool → ℕ → RouteGroup → Result RouteError (RouteGroup × Option ConnInfo)
unfolding list_or_cached bitmap_or_cached
build_conn_info my_peer_id relevant target supports_conn_list now g =
    if eqb (length relevant) 0
    then ok (g, none)
    else if is_up_to_date now g (lookup target g.sessions)
    then ok (g, none)
    else if supports_conn_list
    then ok
        (list_or_cached my_peer_id relevant g (cached g.topology_version g.cached_conn_peer_list))
    else bitmap_or_cached my_peer_id relevant g (cached g.topology_version g.cached_conn_bitmap)
