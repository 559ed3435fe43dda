-- ===== src/Routes.antt =====
-- The route state of one network, `RouteGroupData` of cloudflare/wasm/src/route_state.rs: its peers,
-- what they publish, and the sessions with them. A set is the sorted list of its members. Of a
-- message the fields are modelled that the code reads or writes.
pub mod Conn
pub mod Updates
pub mod Sync
pub mod State
mod Tests
use intranet_penetration_clo.Common.{
  ℕ, ◌+◌, ◌-◌, ◌%◌, ◌^◌, max, String, Bool, true, false, not, ◌&&◌, ◌||◌, Option, none, some, List,
  [], ◌∷◌, eqb, ltb, if◌then◌else◌,
}
use intranet_penetration_clo.Common.Dict.{Dict, lookup, insert}
use intranet_penetration_clo.Common.Key.{nat_key}
use intranet_penetration_clo.Packet.{Bytes}

-- The fields that are read or written, the timestamp as its seconds; the others are passed on.
pub record RoutePeerInfo : Type 0 where
  pub peer_id : ℕ
  pub inst_id : Option (List ℕ)
  pub version : ℕ
  pub network_length : ℕ
  pub hostname : Option String
  pub ipv4_addr : Option ℕ
  pub peer_route_id : ℕ
  pub support_conn_list_sync : Bool
  pub noise_static_pubkey : Bytes
  pub last_update : Option ℕ

pub record SavedVersion : Type 0 where
  pub version : ℕ
  pub touched_at_ms : ℕ

pub record SessionState : Type 0 where
  pub my_session_id : Option ℕ
  pub dst_session_id : Option ℕ
  pub we_are_initiator : Bool
  pub peer_info_ver_map : Dict ℕ SavedVersion
  pub foreign_net_ver : ℕ
  pub last_touch_ms : ℕ
  pub last_topology_version : ℕ
  pub last_topology_touch_ms : ℕ

pub record PeerIdVersion : Type 0 where
  pub peer_id : ℕ
  pub version : ℕ

pub record RouteConnBitmap : Type 0 where
  pub peer_ids : List PeerIdVersion
  pub bitmap : Bytes

pub record PeerConnInfo : Type 0 where
  pub peer : PeerIdVersion
  pub connected_peer_ids : List ℕ

pub data ConnInfo : Type 0 where
  conn_bitmap : RouteConnBitmap → ConnInfo
  conn_peer_list : List PeerConnInfo → ConnInfo

pub data RouteError : Type 0 where
  bad_key_length bound_to_another_key unknown_field bad_value foreign_request no_authenticated_key :
      RouteError
  key_mismatch too_many_legacy_peers : RouteError

pub record RouteGroup : Type 0 where
  pub peers : List ℕ
  pub peer_infos : Dict ℕ RoutePeerInfo
  pub authenticated_peer_keys : Dict ℕ Bytes
  pub sessions : Dict ℕ SessionState
  pub peer_conn_versions : Dict ℕ ℕ
  pub topology_version : ℕ
  pub cached_conn_bitmap : Option (ℕ × RouteConnBitmap)
  pub cached_conn_peer_list : Option (ℕ × List PeerConnInfo)
  pub my_info : RoutePeerInfo
  pub my_info_version : ℕ

-- `SessionState::default`
abbrev pub new_session : SessionState
new_session = record {
  my_session_id = none;
  dst_session_id = none;
  we_are_initiator = false;
  peer_info_ver_map = [];
  foreign_net_ver = 0;
  last_touch_ms = 0;
  last_topology_version = 0;
  last_topology_touch_ms = 0;
}

abbrev pub or_else {ℓ} : {A : Type ℓ} → Option A → A → A
or_else none d = d
or_else (some a) d = a

-- `sessions.entry(peer_id).or_default()`
abbrev pub session_of : ℕ → RouteGroup → SessionState
session_of peer_id g = or_else (lookup peer_id g.sessions) new_session

abbrev pub put_session : ℕ → SessionState → RouteGroup → RouteGroup
put_session peer_id session g = record g { sessions = insert peer_id session g.sessions }

-- `BTreeSet::insert`, `remove` and `contains`.
abbrev pub add : ℕ → List ℕ → List ℕ
add x [] = x ∷ []
add x (y ∷ ys) = if ltb x y then x ∷ y ∷ ys else if eqb x y then y ∷ ys else y ∷ add x ys

abbrev pub remove : ℕ → List ℕ → List ℕ
remove x [] = []
remove x (y ∷ ys) = if eqb x y then ys else y ∷ remove x ys

abbrev pub contains : ℕ → List ℕ → Bool
contains x [] = false
contains x (y ∷ ys) = eqb x y || contains x ys

abbrev pub keys {ℓ} : {V : Type ℓ} → Dict ℕ V → List ℕ
keys [] = []
keys ((k, v) ∷ m) = k ∷ keys m

abbrev pub add_all : List ℕ → List ℕ → List ℕ
add_all [] ys = ys
add_all (x ∷ xs) ys = add x (add_all xs ys)

abbrev pub version_of : Dict ℕ ℕ → ℕ → ℕ
version_of versions pid = or_else (lookup pid versions) 1

unfoldable pub bump_versions : List ℕ → Dict ℕ ℕ → Dict ℕ ℕ
bump_versions [] versions = versions
bump_versions (pid ∷ pids) versions =
    bump_versions pids (insert pid ((version_of versions pid + 1) % 4294967296) versions)

-- `bump_all_conn_versions`
unfoldable pub bump_all_conn_versions : ℕ → RouteGroup → RouteGroup
bump_all_conn_versions my_peer_id g =
    let bumped = bump_versions (add_all (keys g.peer_infos) g.peers) g.peer_conn_versions in
    record g {
      peer_conn_versions =
          insert my_peer_id ((version_of bumped my_peer_id + 1) % 4294967296) bumped;
      topology_version = max ((g.topology_version + 1) % 18446744073709551616) 1;
      cached_conn_bitmap = none;
      cached_conn_peer_list = none;
    }
