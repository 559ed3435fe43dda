-- ===== src/Routes/Sync.antt =====
-- A peer's own route information: `handle_sync_route_info_request` of
-- cloudflare/wasm/src/route_state.rs.
pub mod Ownership
use intranet_penetration_clo.Common.{
  ℕ, ◌+◌, ◌/◌, Bool, true, false, not, ◌&&◌, ◌||◌, Option, none, some, List, [], ◌∷◌, eqb, ltb,
  if◌then◌else◌,
}
use intranet_penetration_clo.Common.Result.{Result, ok, err}
use intranet_penetration_clo.Common.Action.{Action, pure, raise, ◌>>=◌, ◌>>◌, chain}
use intranet_penetration_clo.Common.Dict.{Dict, lookup, insert, delete}
use intranet_penetration_clo.Common.Key.{nat_key, list_key}
use intranet_penetration_clo.Packet.{Bytes}
use intranet_penetration_clo.Routes.{
  RouteGroup, RoutePeerInfo, SessionState, RouteError, foreign_request, no_authenticated_key,
  key_mismatch, or_else, session_of, put_session, bump_all_conn_versions,
}
use intranet_penetration_clo.Routes.Updates.{
  SyncRequest, SyncResponse, RouteSyncOutcome, same_bytes, is_some, is_session, meet_session,
  map_values,
}

-- The group, with what the loop over the infos remembers.
pub record Publishing : Type 0 where
  pub group : RouteGroup
  pub route_changed : Bool
  pub need_bump : Bool

same_instance : Option (List ℕ) → Option (List ℕ) → Bool
same_instance none none = true
same_instance none (some b) = false
same_instance (some a) none = false
same_instance (some a) (some b) = list_key.same a b

abbrev pub instance_changed : RoutePeerInfo → Option RoutePeerInfo → Bool
unfolding same_instance
instance_changed info none = false
instance_changed info (some current) = not (same_instance current.inst_id info.inst_id)

abbrev pub is_newer : RoutePeerInfo → Option RoutePeerInfo → Bool
is_newer info none = true
is_newer info (some current) = ltb current.version info.version

abbrev forget_version : ℕ → SessionState → SessionState
forget_version peer_id session = record session {
  peer_info_ver_map = delete peer_id session.peer_info_ver_map;
}

abbrev pub store_info : RoutePeerInfo → ℕ → Bool → RouteGroup → RouteGroup
store_info info now changed g = record g {
  sessions = if changed then map_values (forget_version info.peer_id) g.sessions else g.sessions;
  peer_infos = insert info.peer_id (record info { last_update = some (now / 1000) }) g.peer_infos;
}

-- An info whose key has been checked.
pub accept_info : RoutePeerInfo → ℕ → Option RoutePeerInfo → Publishing → Publishing
accept_info info now current p =
    let changed = instance_changed info current in
    if changed || is_newer info current
    then record p {
      group = store_info info now changed p.group;
      route_changed = true;
      need_bump = p.need_bump || not (is_some current);
    }
    else p

pub publish_info : RoutePeerInfo → ℕ → Option Bytes → Action RouteError Publishing (Unit {0})
unfolding accept_info
publish_info info now none p = (err no_authenticated_key, p)
publish_info info now (some key) p =
    if same_bytes info.noise_static_pubkey key
    then (ok tt, accept_info info now (lookup info.peer_id p.group.peer_infos) p)
    else (err key_mismatch, p)

-- The loop over the infos: a peer publishes for itself alone.
unfoldable pub publish_infos : ℕ → ℕ → List RoutePeerInfo → Action RouteError Publishing (Unit {0})
unfolding publish_info
publish_infos from now [] p = (ok tt, p)
publish_infos from now (info ∷ rest) p =
    if eqb info.peer_id from
    then chain (publish_info info now (lookup from p.group.authenticated_peer_keys) p)
        (λ _. publish_infos from now rest)
    else publish_infos from now rest p

abbrev published_items : Option (List RoutePeerInfo) → List RoutePeerInfo
published_items none = []
published_items (some items) = items

-- `session.and_then(|s| s.my_session_id).unwrap_or(1)`
abbrev own_session_id : Option SessionState → ℕ
own_session_id none = 1
own_session_id (some s) = or_else s.my_session_id 1

pub finish_sync :
    ℕ → ℕ → SyncRequest → Bool → Publishing → Result RouteError RouteSyncOutcome × RouteGroup
finish_sync my_peer_id from req session_changed p =
    let g = if p.need_bump then bump_all_conn_versions my_peer_id p.group else p.group in
    (
      ok (record {
        response = record {
          is_initiator = not req.is_initiator;
          session_id = own_session_id (lookup from g.sessions);
          error = none;
        };
        route_changed = p.route_changed;
        session_changed = session_changed;
      }),
      g,
    )

pub after_publishing :
    ℕ
    → ℕ
    → SyncRequest
    → Bool
    → Result RouteError (Unit {0}) × Publishing
    → Result RouteError RouteSyncOutcome × RouteGroup
unfolding finish_sync
after_publishing my_peer_id from req session_changed (ok _, p) =
    finish_sync my_peer_id from req session_changed p
after_publishing my_peer_id from req session_changed (err e, p) = (err e, p.group)

unfoldable pub handle_sync_request :
    ℕ → ℕ → SyncRequest → ℕ → Action RouteError RouteGroup RouteSyncOutcome
unfolding after_publishing
handle_sync_request my_peer_id from req now g =
    if not (eqb req.my_peer_id from)
    then (err foreign_request, g)
    else (let session = session_of from g in
        let changed = not (is_session req.my_session_id session.dst_session_id) in
        let met =
          put_session from (meet_session req.my_session_id (not req.is_initiator) now session) g in
        after_publishing my_peer_id from req changed (
          publish_infos from now (published_items req.peer_infos)
            (record { group = met; route_changed = false; need_bump = false })))
