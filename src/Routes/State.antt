-- ===== src/Routes/State.antt =====
-- The route states of all networks: `RouteState` of cloudflare/wasm/src/route_state.rs. What a new
-- network draws at random, and the parsing of a decimal `u32`, are arguments.
use intranet_penetration_clo.Common.{
  ℕ, String, true, not, Option, none, some, List, [], eqb, if◌then◌else◌,
}
use intranet_penetration_clo.Packet.{Bytes}
use intranet_penetration_clo.Common.Result.{Result, ok, err}
use intranet_penetration_clo.Common.Action.{Action}
use intranet_penetration_clo.Common.Dict.{Dict, lookup, insert}
use intranet_penetration_clo.Common.Key.{text_key}
use intranet_penetration_clo.Routes.{
  RouteGroup, RoutePeerInfo, RouteError, unknown_field, bad_value, foreign_request, or_else,
}
use intranet_penetration_clo.Routes.Updates.{
  SyncRequest, RouteSyncOutcome, add_peer, set_my_noise_public_key, raise_my_version,
}
use intranet_penetration_clo.Routes.Sync.{handle_sync_request}

abbrev pub RouteGroups : Type 0
RouteGroups = Dict String RouteGroup

-- `random_uuid` and `random_u64`, drawn once for a network.
pub record Draws : Type 0 where
  pub instance : List ℕ
  pub route_id : ℕ

abbrev pub new_group : ℕ → Draws → RouteGroup
new_group my_peer_id draws = record {
  peers = [];
  peer_infos = [];
  authenticated_peer_keys = [];
  sessions = [];
  peer_conn_versions = [];
  topology_version = 1;
  cached_conn_bitmap = none;
  cached_conn_peer_list = none;
  my_info = record {
    peer_id = my_peer_id;
    inst_id = some draws.instance;
    version = 1;
    network_length = 24;
    hostname = some "edge";
    ipv4_addr = none;
    peer_route_id = draws.route_id;
    support_conn_list_sync = true;
    noise_static_pubkey = [];
    last_update = none;
  };
  my_info_version = 1;
}

-- `ensure_group`
abbrev pub group_of : ℕ → Draws → String → RouteGroups → RouteGroup
group_of my_peer_id draws network groups =
    or_else (lookup network groups) (new_group my_peer_id draws)

-- An operation on a network's group, which stays created where the operation fails.
abbrev pub put_group {ℓ} : {A : Type ℓ} → String → RouteGroups → A × RouteGroup → A × RouteGroups
put_group network groups (a, g) = (a, insert network g groups)

abbrev pub in_group :
    {A : Type 0}
    → ℕ
    → Draws
    → String
    → Action RouteError RouteGroup A
    → Action RouteError RouteGroups A
in_group my_peer_id draws network operation groups =
    put_group network groups (operation (group_of my_peer_id draws network groups))

-- `add_peer`, which fails before it changes anything.
abbrev pub settle :
    String → RouteGroups → Result RouteError RouteGroup → Result RouteError (Unit {0}) × RouteGroups
settle network groups (err e) = (err e, groups)
settle network groups (ok g) = (ok tt, insert network g groups)

unfoldable pub add_route_peer :
    (my_peer_id : ℕ)
    → Draws
    → (network : String) → (peer_id : ℕ) → Bytes
    → Action RouteError RouteGroups (Unit {0})
add_route_peer my_peer_id draws network peer_id key groups =
    settle network groups
      (add_peer my_peer_id peer_id key (group_of my_peer_id draws network groups))

unfoldable pub set_noise_key : ℕ → Draws → String → Bytes → Action RouteError RouteGroups (Unit {0})
set_noise_key my_peer_id draws network key groups =
    settle network groups (set_my_noise_public_key key (group_of my_peer_id draws network groups))

abbrev set_number :
    (ℕ → RoutePeerInfo → RoutePeerInfo) → Option ℕ → Action RouteError RouteGroup (Unit {0})
set_number write none g = (err bad_value, g)
set_number write (some value) g =
    (ok tt, raise_my_version (record g { my_info = write value g.my_info }))

-- `set_my_info_field`
unfoldable pub set_my_info_field :
    (String → Option ℕ) → String → String → Action RouteError RouteGroup (Unit {0})
set_my_info_field parse_u32 field value g =
    if text_key.same field "hostname"
    then (
      ok tt,
      raise_my_version (record g { my_info = record g.my_info { hostname = some value } }),
    )
    else if text_key.same field "network_length"
    then set_number (λ length info. record info { network_length = length }) (parse_u32 value) g
    else if text_key.same field "ipv4_addr"
    then set_number (λ addr info. record info { ipv4_addr = some addr }) (parse_u32 value) g
    else (err unknown_field, g)

-- A request of another peer is refused before its group is looked up.
unfoldable pub sync_routes :
    ℕ → Draws → String → ℕ → SyncRequest → ℕ → Action RouteError RouteGroups RouteSyncOutcome
sync_routes my_peer_id draws network from req now groups =
    if not (eqb req.my_peer_id from)
    then (err foreign_request, groups)
    else in_group my_peer_id draws network (handle_sync_request my_peer_id from req now) groups
