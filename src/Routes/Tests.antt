-- ===== src/Routes/Tests.antt =====
-- A network with the relay, peer 10_000_001, and two peers.
use intranet_penetration_clo.Common.{
  ◌≡◌, refl, true, false, none, some, [], ◌∷◌, replicate, arith, eqb, Bool-cases, inl, inr,
}
use intranet_penetration_clo.Common.Dict.{lookup}
use intranet_penetration_clo.Packet.{Bytes}
use intranet_penetration_clo.Routes.{RouteGroup, RoutePeerInfo, contains, bump_all_conn_versions}
use intranet_penetration_clo.Routes.Conn.{build_bitmap, index_of, build_conn_info}
use intranet_penetration_clo.Routes.Conn.Caches.{
  IsCached, IsFresh, fresh_conn_info, build_conn_info-IsFresh, bump-IsCached,
}
use intranet_penetration_clo.Routes.Conn.Star.{test_cell, build_bitmap-Star}
use intranet_penetration_clo.Routes.Updates.{relevant_peers, SyncRequest, add_peer}
use intranet_penetration_clo.Routes.Sync.{handle_sync_request}
use intranet_penetration_clo.Routes.Sync.Ownership.{
  IsBound, Owned, Binds, handle_sync_request-Owned, add_peer-Binds,
}

abbrev key_of_seven : Bytes
key_of_seven = replicate 32 7

abbrev info_of_seven : RoutePeerInfo
info_of_seven = record {
  peer_id = 7;
  inst_id = some (1 ∷ []);
  version = 3;
  network_length = 24;
  hostname = some "seven";
  ipv4_addr = none;
  peer_route_id = 1;
  support_conn_list_sync = true;
  noise_static_pubkey = key_of_seven;
  last_update = none;
}

abbrev two_peers : RouteGroup
two_peers = record {
  peers = 7 ∷ 8 ∷ [];
  peer_infos = (7, info_of_seven) ∷ [];
  authenticated_peer_keys = (7, key_of_seven) ∷ (8, replicate 32 8) ∷ [];
  sessions = [];
  peer_conn_versions = [];
  topology_version = 1;
  cached_conn_bitmap = none;
  cached_conn_peer_list = none;
  my_info = record info_of_seven { peer_id = 10_000_001 };
  my_info_version = 1;
}

two_peers-IsBound : IsBound two_peers
unfolding lookup
two_peers-IsBound q = elim (Bool-cases (eqb 7 q)) [
  | inl seven ↦ rw seven refl
  | inr other ↦ rw other tt
]

-- Peer 8 publishes for itself, and tries to for peer 7.
abbrev from_eight : SyncRequest
from_eight = record {
  my_peer_id = 8;
  my_session_id = 44;
  is_initiator = true;
  peer_infos = some (
      record info_of_seven { version = 9; peer_route_id = 0 }
      ∷ record info_of_seven { peer_id = 8; noise_static_pubkey = replicate 32 8 }
      ∷ []);
  conn_info = none;
}

relay_index : index_of 10_000_001 (7 ∷ 8 ∷ 10_000_001 ∷ []) ≡ some 2
unfolding index_of
relay_index = refl

build_bitmap-Star_example :
    test_cell 3 0 2 (build_bitmap 10_000_001 (7 ∷ 8 ∷ 10_000_001 ∷ [])) ≡ true
build_bitmap-Star_example =
    build_bitmap-Star 10_000_001 2 0 2 (7 ∷ 8 ∷ 10_000_001 ∷ []) relay_index (omega arith)
      (omega arith)

handle_sync_request-Owned_example :
    Owned 7 two_peers (handle_sync_request 10_000_001 8 from_eight 5_000 two_peers).1
handle_sync_request-Owned_example =
    handle_sync_request-Owned 10_000_001 8 7 from_eight 5_000 two_peers (omega arith)
      two_peers-IsBound

add_peer-Binds_example :
    Binds 9 (replicate 32 9) two_peers (add_peer 10_000_001 9 (replicate 32 9) two_peers)
add_peer-Binds_example = add_peer-Binds 10_000_001 9 (replicate 32 9) two_peers two_peers-IsBound

abbrev bumped : RouteGroup
bumped = bump_all_conn_versions 10_000_001 two_peers

bumped-IsCached : IsCached 10_000_001 bumped
bumped-IsCached = bump-IsCached 10_000_001 two_peers ((omega arith, tt), (tt, tt))

has_eight : contains 8 bumped.peers ≡ true
unfolding bump_all_conn_versions
has_eight = refl

build_conn_info-IsFresh_example :
    IsFresh 10_000_001
      (fresh_conn_info 10_000_001 (relevant_peers 10_000_001 8 bumped) 8 false 5_000 bumped)
      (build_conn_info 10_000_001 (relevant_peers 10_000_001 8 bumped) 8 false 5_000 bumped)
build_conn_info-IsFresh_example =
    build_conn_info-IsFresh 10_000_001 8 false 5_000 bumped has_eight bumped-IsCached
