-- ===== src/Rpc/Isolation.antt =====
-- Networks do not touch each other in the RPC core.
pub mod Requests
pub mod Responses
pub mod Steps
use intranet_penetration_clo.Common.{
  ℕ, ◌≡◌, ◌≢◌, refl, String, Bool, true, false, not, ◌&&◌, ◌||◌, Option, none, some, List, [], ◌∷◌,
  eqb, if◌then◌else◌, arith, Bool-cases, inl, inr, ◌∙◌, ap, sym, Option-cases, ltb,
}
use intranet_penetration_clo.Common.Result.{Result, ok, err}
use intranet_penetration_clo.Common.Action.{chain, pure, ◌>>=◌}
use intranet_penetration_clo.Common.Dict.{
  Dict, lookup, insert, delete, lookup-insert_ne, lookup-delete_ne,
}
use intranet_penetration_clo.Common.Key.{pair_key, text_key, nat_key, bool_key, same_ne}
use intranet_penetration_clo.Packet.{Bytes}
use intranet_penetration_clo.Routes.{RouteError, RouteGroup}
use intranet_penetration_clo.Routes.Updates.{SyncRequest}
use intranet_penetration_clo.Routes.Sync.{handle_sync_request}
use intranet_penetration_clo.Routes.State as RS
use intranet_penetration_clo.Routes.State.{
  RouteGroups, settle, add_route_peer, set_noise_key, put_group, sync_routes, Draws, in_group,
  set_my_info_field,
}
use intranet_penetration_clo.PeerCenter.{
  Pair, Center, CenterError, Report, InfoEntry, report_peers, get_global_peer_map,
  center_remove_peer, retain, group_of, CenterGroup, or_new, new_group, reported_group,
}
use intranet_penetration_clo.PeerCenter.View.{entry_of, center_remove_peer-View}
use intranet_penetration_clo.Rpc.{RpcPacket, RpcDescriptor, RpcKey}
use intranet_penetration_clo.Rpc.Fragments.{
  Fragments, FragmentError, MergedPacket, pending, complete, merge_packet,
}
use intranet_penetration_clo.Rpc.Core.{
  Codec, RpcCore, ServiceError, invalid_method, invalid_service, undecodable, missing_descriptor,
  RpcFailure, RpcAction, Surroundings, OutstandingRoute, add_rpc_peer, configure, remove_rpc_peer,
  validate_envelope, validate_compression, put_routes, put_center, put_fragments, is_of,
}
use intranet_penetration_clo.Rpc.Requests.{
  refused, served, route_served, answer, is_service, decoded, serve, serve_route, serve_center,
  handle_whole, handle_rpc_request, sync_with, take_report, take_map, merging,
}
use intranet_penetration_clo.Rpc.Responses.{
  handle_rpc_response, answer_outstanding, settle_response, acknowledge, check_deadline,
  take_outstanding, refuse_error,
}

-- What the core keeps for a network, between two peers and for one transaction.
pub record IsApart (other : String) (pair : Pair) (peer : ℕ) (rest : ℕ × (ℕ × Bool))
    (core core' : RpcCore) : Type 0 where
  pub routes : lookup other core'.routes ≡ lookup other core.routes
  pub latency : entry_of other pair core'.peer_center ≡ entry_of other pair core.peer_center
  pub initiator :
      lookup (other, peer) core'.peer_initiator ≡ lookup (other, peer) core.peer_initiator
  pub transaction :
      lookup (other, rest) core'.outstanding_routes ≡ lookup (other, rest) core.outstanding_routes
  pub identity : core'.server_peer_id ≡ core.server_peer_id

-- A network in which something happens, and another with two peers and a transaction.
pub record Elsewhere : Type 0 where
  pub network : String
  pub other : String
  pub pair : Pair
  pub peer : ℕ
  pub rest : ℕ × (ℕ × Bool)
  pub apart : network ≢ other

module _ (w : Elsewhere) where
  abbrev pub Apart : RpcCore → RpcCore → Type 0
  Apart core core' = IsApart w.other w.pair w.peer w.rest core core'

  pub Apart-refl : (core : RpcCore) → Apart core core
  Apart-refl core = record {
    routes = refl;
    latency = refl;
    initiator = refl;
    transaction = refl;
    identity = refl;
  }

  pub Apart-trans : (a b c : RpcCore) → Apart a b → Apart b c → Apart a c
  Apart-trans a b c h k = record {
    routes = k.routes ∙ h.routes;
    latency = k.latency ∙ h.latency;
    initiator = k.initiator ∙ h.initiator;
    transaction = k.transaction ∙ h.transaction;
    identity = k.identity ∙ h.identity;
  }

  -- The outcome of an action that leaves the other networks alone.
  pub record Left {A : Type 0} (core : RpcCore) (r : Result RpcFailure A × RpcCore) : Type 0 where
    pub apart : Apart core r.1

  abbrev pub Keeps : {A : Type 0} → RpcAction A → Type 0
  Keeps m = (core : RpcCore) → Left core (m core)

  pub same-Left : {A : Type 0} (core : RpcCore) (r : Result RpcFailure A) → Left core (r, core)
  same-Left core r = record { apart = Apart-refl core }

  pub chain-Left :
      {A B : Type 0} (core : RpcCore) (r : Result RpcFailure A × RpcCore) (f : A → RpcAction B)
      → Left core r
      → ((a : A) → Keeps (f a))
      → Left core (chain r f)
  chain-Left core (ok a, core') f h k = record {
    apart = Apart-trans core core' (f a core').1 h.apart (k a core').apart;
  }
  chain-Left core (err e, core') f h k = record { apart = h.apart }

  pub decoded-Keeps : {A : Type 0} (failure : RpcFailure) (o : Option A) → Keeps (decoded failure o)
  decoded-Keeps failure none core = same-Left core (err failure)
  decoded-Keeps failure (some a) core = same-Left core (ok a)

  pub if-Left :
      {A : Type 0} (core : RpcCore) (b : Bool) (r r' : Result RpcFailure A × RpcCore)
      → Left core r
      → Left core r'
      → Left core (if b then r else r')
  if-Left core true r r' h h' = h
  if-Left core false r r' h h' = h'

  pub validate_envelope-Keeps :
      (packet : RpcPacket) (net : String) (peer_id : ℕ) (is_request : Bool)
      → Keeps (validate_envelope packet net peer_id is_request)
  unfolding validate_envelope
  validate_envelope-Keeps packet net peer_id is_request core = search (if-Left, same-Left)

  pub validate_compression-Keeps : (packet : RpcPacket) → Keeps (validate_compression packet)
  unfolding validate_compression
  validate_compression-Keeps packet core = search (if-Left, same-Left)

  pub merge-Left :
      {A : Type 0} (core : RpcCore) (r : Result FragmentError A × Fragments)
      → Left core (put_fragments core r)
  merge-Left core (r, fs) = record {
    apart = record {
      routes = refl;
      latency = refl;
      initiator = refl;
      transaction = refl;
      identity = refl;
    };
  }

  -- The routes of this network alone are written.
  pub routes-Left :
      {A : Type 0} (core : RpcCore) (r : Result RouteError A × RouteGroups)
      → lookup w.other r.1 ≡ lookup w.other core.routes
      → Left core (put_routes core r)
  routes-Left core (r, groups) h = record {
    apart = record {
      routes = h;
      latency = refl;
      initiator = refl;
      transaction = refl;
      identity = refl;
    };
  }

  pub center-Left :
      {A : Type 0} (core : RpcCore) (r : Result CenterError A × Center)
      → entry_of w.other w.pair r.1 ≡ entry_of w.other w.pair core.peer_center
      → Left core (put_center core r)
  center-Left core (r, center) h = record {
    apart = record {
      routes = refl;
      latency = h;
      initiator = refl;
      transaction = refl;
      identity = refl;
    };
  }

  pub put_group-other :
      {A : Type 0} (groups : RouteGroups) (r : A × RouteGroup)
      → lookup w.other (put_group w.network groups r).1 ≡ lookup w.other groups
  put_group-other groups (a, g) = lookup-insert_ne w.network w.other g groups w.apart

  pub insert-other :
      (g : RouteGroup) (groups : RouteGroups)
      → lookup w.other (insert w.network g groups) ≡ lookup w.other groups
  insert-other g groups = lookup-insert_ne w.network w.other g groups w.apart

  pub sync_routes-other :
      (my_peer_id : ℕ) (draws : Draws) (from : ℕ) (req : SyncRequest) (now : ℕ)
      (groups : RouteGroups)
      → lookup w.other (sync_routes my_peer_id draws w.network from req now groups).1
        ≡ lookup w.other groups
  unfolding sync_routes
  sync_routes-other my_peer_id draws from req now groups =
      elim (Bool-cases (eqb req.my_peer_id from)) [
        | inr foreign ↦ rw foreign refl
        | inl own ↦ rw own (
            put_group-other groups (
              handle_sync_request my_peer_id from req now
                (RS.group_of my_peer_id draws w.network groups)))
      ]

  pub settle-other :
      (groups : RouteGroups) (r : Result RouteError RouteGroup)
      → lookup w.other (settle w.network groups r).1 ≡ lookup w.other groups
  settle-other groups (ok g) = lookup-insert_ne w.network w.other g groups w.apart
  settle-other groups (err e) = refl

  pub bind-Keeps :
      {A B : Type 0} (m : RpcAction A) (f : A → RpcAction B)
      → Keeps m
      → ((a : A) → Keeps (f a))
      → Keeps (m >>= f)
  bind-Keeps m f h k core = chain-Left core (m core) f (h core) k

  pub after-Left :
      {A : Type 0} (core core' : RpcCore) (r : Result RpcFailure A × RpcCore)
      → Apart core core'
      → Left core' r
      → Left core r
  after-Left core core' r h k = record { apart = Apart-trans core core' r.1 h k.apart }

  pub pair_ne : {B : Type 0} (a b : B) → ◌≢◌ {A = String × B} (w.network, a) (w.other, b)
  pair_ne a b e = w.apart (ap (λ p. p.0) e)

  pub initiator-Apart :
      (peer_id : ℕ) (initiator : Bool) (core : RpcCore)
      → Apart core (record core {
        peer_initiator = insert (w.network, peer_id) initiator core.peer_initiator;
      })
  initiator-Apart peer_id initiator core = record {
    routes = refl;
    latency = refl;
    initiator =
        lookup-insert_ne (w.network, peer_id) (w.other, w.peer) initiator core.peer_initiator
          (pair_ne peer_id w.peer);
    transaction = refl;
    identity = refl;
  }

  pub entry_of-insert_other :
      (g : CenterGroup) (center : Center)
      → entry_of w.other w.pair (insert w.network g center) ≡ entry_of w.other w.pair center
  entry_of-insert_other g center =
      ap (λ o. lookup w.pair (or_new o new_group).global_peer_map)
        (lookup-insert_ne w.network w.other g center w.apart)

  pub report_peers-other :
      (hash : List (Pair × ℕ) → ℕ) (peer_id : ℕ) (report : Report) (now : ℕ) (center : Center)
      → entry_of w.other w.pair (report_peers hash w.network peer_id report now center).1
        ≡ entry_of w.other w.pair center
  unfolding report_peers
  report_peers-other hash peer_id report now center =
      elim (Bool-cases (eqb report.my_peer_id peer_id)) [
        | inr foreign ↦ rw foreign refl
        | inl own ↦
            rw own (entry_of-insert_other (reported_group hash w.network report now center) center)
      ]

  pub get_global_peer_map-other :
      (digest : ℕ) (center : Center)
      → entry_of w.other w.pair (get_global_peer_map w.network digest center).1
        ≡ entry_of w.other w.pair center
  unfolding get_global_peer_map
  get_global_peer_map-other digest center =
      elim (Bool-cases (eqb digest (group_of w.network center).digest && not (eqb digest 0))) [
        | inl current ↦ rw current (entry_of-insert_other (group_of w.network center) center)
        | inr stale ↦ rw stale (entry_of-insert_other (group_of w.network center) center)
      ]

  pub center_remove_peer-other :
      (hash : List (Pair × ℕ) → ℕ) (peer_id : ℕ) (center : Center)
      → entry_of w.other w.pair (center_remove_peer hash w.network peer_id center)
        ≡ entry_of w.other w.pair center
  center_remove_peer-other hash peer_id center =
      center_remove_peer-View hash w.network w.other peer_id w.pair.0 w.pair.1 center
      ∙ ap
          (λ b.
            if b && (eqb w.pair.0 peer_id || eqb w.pair.1 peer_id)
            then none
            else entry_of w.other w.pair center)
          (same_ne w.network w.other w.apart)
