-- ===== src/Routes/Updates.antt =====
-- The operations on a network's route state: `RouteState` of cloudflare/wasm/src/route_state.rs, on
-- the group that it looks up. A request or response is the message that its bytes decode to.
use intranet_penetration_clo.Common.{
  ℕ, ◌+◌, ◌-◌, ◌%◌, max, Bool, true, false, not, ◌&&◌, ◌||◌, Option, none, some, List, [], ◌∷◌,
  length, eqb, ltb, if◌then◌else◌,
}
use intranet_penetration_clo.Common.Result.{Result, ok, err}
use intranet_penetration_clo.Common.Action.{Action}
use intranet_penetration_clo.Common.Dict.{Dict, lookup, insert, delete, has}
use intranet_penetration_clo.Common.Key.{nat_key, list_key}
use intranet_penetration_clo.Packet.{Bytes}
use intranet_penetration_clo.Routes.{
  RouteGroup, RoutePeerInfo, SessionState, SavedVersion, ConnInfo, RouteError, bad_key_length,
  bound_to_another_key, session_of, put_session, add, remove, contains, bump_all_conn_versions,
}
use intranet_penetration_clo.Routes.Conn.{build_conn_info, saved_route_version_ttl_ms}

pub record SyncRequest : Type 0 where
  pub my_peer_id : ℕ
  pub my_session_id : ℕ
  pub is_initiator : Bool
  pub peer_infos : Option (List RoutePeerInfo)
  pub conn_info : Option ConnInfo

pub record SyncResponse : Type 0 where
  pub is_initiator : Bool
  pub session_id : ℕ
  pub error : Option ℕ

pub record RouteSyncOutcome : Type 0 where
  pub response : SyncResponse
  pub route_changed : Bool
  pub session_changed : Bool

pub record RouteUpdate : Type 0 where
  pub payload : SyncRequest
  pub peer_info_versions : List (ℕ × ℕ)
  pub topology_version : Option ℕ

abbrev pub is_some {ℓ} : {A : Type ℓ} → Option A → Bool
is_some none = false
is_some (some a) = true

abbrev pub same_bytes : Bytes → Bytes → Bool
same_bytes a b = list_key.same a b

abbrev pub is_other_key : Bytes → Option Bytes → Bool
is_other_key key none = false
is_other_key key (some current) = not (same_bytes current key)

unfoldable pub add_peer : ℕ → ℕ → Bytes → RouteGroup → Result RouteError RouteGroup
add_peer my_peer_id peer_id key g =
    if not (eqb (length key) 32)
    then err bad_key_length
    else if is_other_key key (lookup peer_id g.authenticated_peer_keys)
    then err bound_to_another_key
    else (let bound = record g {
      authenticated_peer_keys = insert peer_id key g.authenticated_peer_keys;
      peers = add peer_id g.peers;
    } in
        ok (if contains peer_id g.peers then bound else bump_all_conn_versions my_peer_id bound))

abbrev pub map_values {ℓ κ} : {K : Type ℓ} {V : Type κ} → (V → V) → Dict K V → Dict K V
map_values f [] = []
map_values f ((k, v) ∷ m) = (k, f v) ∷ map_values f m

abbrev forget_peer : ℕ → SessionState → SessionState
forget_peer peer_id session = record session {
  peer_info_ver_map = delete peer_id session.peer_info_ver_map;
  last_topology_version = 0;
}

unfoldable pub remove_peer : ℕ → ℕ → RouteGroup → RouteGroup
remove_peer my_peer_id peer_id g =
    let was_present = contains peer_id g.peers in
    let had_info = has peer_id g.peer_infos in
    let without = record g {
      peers = remove peer_id g.peers;
      peer_infos = delete peer_id g.peer_infos;
      authenticated_peer_keys = delete peer_id g.authenticated_peer_keys;
      sessions = map_values (forget_peer peer_id) (delete peer_id g.sessions);
      peer_conn_versions = delete peer_id g.peer_conn_versions;
    } in
    if was_present || had_info then bump_all_conn_versions my_peer_id without else without

abbrev pub is_session : ℕ → Option ℕ → Bool
is_session id none = false
is_session id (some other) = eqb other id

-- The session once the other side has named its session id.
abbrev pub meet_session : ℕ → Bool → ℕ → SessionState → SessionState
meet_session their_id we_are_initiator now s =
    let met =
      if is_session their_id s.dst_session_id
      then s
      else record s { peer_info_ver_map = []; foreign_net_ver = 0; last_topology_version = 0 } in
    record met {
      dst_session_id = some their_id;
      we_are_initiator = we_are_initiator;
      last_touch_ms = now;
    }

unfoldable pub on_route_session_ack : ℕ → ℕ → Bool → ℕ → RouteGroup → RouteGroup
on_route_session_ack peer_id their_session_id we_are_initiator now g =
    put_session peer_id (meet_session their_session_id we_are_initiator now (session_of peer_id g))
      g

abbrev pub saved_version : Option SavedVersion → ℕ
saved_version none = 0
saved_version (some saved) = saved.version

unfoldable pub save_versions : ℕ → List (ℕ × ℕ) → Dict ℕ SavedVersion → Dict ℕ SavedVersion
save_versions now [] saved = saved
save_versions now ((pid, version) ∷ rest) saved = save_versions now rest (
    insert pid
      (record { version = max (saved_version (lookup pid saved)) version; touched_at_ms = now })
      saved)

abbrev commit_topology : ℕ → Option ℕ → SessionState → SessionState
commit_topology now none s = s
commit_topology now (some version) s = record s {
  last_topology_version = max s.last_topology_version version;
  last_topology_touch_ms = now;
}

unfoldable pub commit_route_update : ℕ → List (ℕ × ℕ) → Option ℕ → ℕ → RouteGroup → RouteGroup
commit_route_update peer_id versions topology now g =
    let s = session_of peer_id g in
    let saved =
      commit_topology now topology
        (record s { peer_info_ver_map = save_versions now versions s.peer_info_ver_map }) in
    put_session peer_id (record saved { last_touch_ms = now }) g

-- The version that both setters raise.
abbrev pub raise_my_version : RouteGroup → RouteGroup
raise_my_version g =
    let version = (g.my_info_version + 1) % 4294967296 in
    record g { my_info_version = version; my_info = record g.my_info { version = version } }

unfoldable pub set_my_noise_public_key : Bytes → RouteGroup → Result RouteError RouteGroup
set_my_noise_public_key key g =
    if not (eqb (length key) 32)
    then err bad_key_length
    else ok
        (raise_my_version (record g { my_info = record g.my_info { noise_static_pubkey = key } }))

abbrev info_of : ℕ → ℕ → RouteGroup → Option RoutePeerInfo
info_of my_peer_id pid g = if eqb pid my_peer_id then some g.my_info else lookup pid g.peer_infos

-- The version that the other side is known to have, while that is recent.
abbrev pub known_version : ℕ → Option SavedVersion → ℕ
known_version now none = 0
known_version now (some saved) =
    if ltb (now - saved.touched_at_ms) saved_route_version_ttl_ms then saved.version else 0

abbrev is_news : Bool → ℕ → SessionState → ℕ → Option RoutePeerInfo → Bool
is_news full now session pid none = false
is_news full now session pid (some info) =
    full || ltb (known_version now (lookup pid session.peer_info_ver_map)) (max info.version 1)

abbrev pub items_of : Option RoutePeerInfo → ℕ → List (ℕ × RoutePeerInfo) → List (ℕ × RoutePeerInfo)
items_of none pid rest = rest
items_of (some info) pid rest = (pid, info) ∷ rest

-- The infos to send, each with its peer.
unfoldable pub news_for :
    ℕ → ℕ → Bool → ℕ → SessionState → RouteGroup → List ℕ → List (ℕ × RoutePeerInfo)
news_for my_peer_id target full now session g [] = []
news_for my_peer_id target full now session g (pid ∷ pids) =
    let rest = news_for my_peer_id target full now session g pids in
    let info = info_of my_peer_id pid g in
    if not (eqb pid target) && is_news full now session pid info
    then items_of info pid rest
    else rest

abbrev pub infos {ℓ κ} : {K : Type ℓ} {A : Type κ} → List (K × A) → List A
infos [] = []
infos ((k, a) ∷ rest) = a ∷ infos rest

abbrev pub versions_of : List (ℕ × RoutePeerInfo) → List (ℕ × ℕ)
versions_of [] = []
versions_of ((pid, info) ∷ rest) = (pid, max info.version 1) ∷ versions_of rest

abbrev none_if_empty {ℓ} : {A : Type ℓ} → List A → Option (List A)
none_if_empty [] = none
none_if_empty (a ∷ rest) = some (a ∷ rest)

-- All peers with the relay and the target.
abbrev pub relevant_peers : ℕ → ℕ → RouteGroup → List ℕ
relevant_peers my_peer_id target g = add target (add my_peer_id g.peers)

abbrev supports_list : Option RoutePeerInfo → Bool
supports_list none = false
supports_list (some info) = info.support_conn_list_sync

abbrev pub topology_if {ℓ} : {A : Type ℓ} → ℕ → Option A → Option ℕ
topology_if version none = none
topology_if version (some a) = some version

-- `build_sync_route_info_request`, which changes the session also where it fails.
unfoldable pub build_sync_request :
    (my_peer_id target server_session_id : ℕ)
    → (we_are_initiator force_full : Bool) → (now : ℕ) → Action RouteError RouteGroup RouteUpdate
build_sync_request my_peer_id target server_session_id we_are_initiator force_full now g =
    let session = record (session_of target g) {
      my_session_id = some server_session_id;
      last_touch_ms = now;
    } in
    let g' = put_session target session g in
    let full = force_full || not (is_some session.dst_session_id) in
    let relevant = relevant_peers my_peer_id target g' in
    let news = news_for my_peer_id target full now session g' relevant in
    elim (build_conn_info my_peer_id relevant target (supports_list (lookup target g'.peer_infos))
      now g') [
        | err e ↦ (err e, g')
        | ok built ↦ (
          ok (record {
            payload = record {
              my_peer_id = my_peer_id;
              my_session_id = server_session_id;
              is_initiator = we_are_initiator;
              peer_infos = none_if_empty (infos news);
              conn_info = built.1;
            };
            peer_info_versions = versions_of news;
            topology_version = topology_if g'.topology_version built.1;
          }),
          built.0,
        )
      ]
