-- ===== src/Rpc/Isolation/Steps.antt =====
-- The operations on the RPC core that a peer of a network brings about.
mod Tests
use intranet_penetration_clo.Common.{
  ℕ, ◌≡◌, ◌≢◌, refl, String, Bool, true, false, not, ◌&&◌, ◌||◌, Option, none, some, List, [], ◌∷◌,
  eqb, if◌then◌else◌, arith, Bool-cases, inl, inr, ◌∙◌, ap, sym, Option-cases, ltb,
}
use intranet_penetration_clo.Common.Result.{Result, ok, err}
use intranet_penetration_clo.Common.Action.{chain, pure, ◌>>=◌}
use intranet_penetration_clo.Common.Dict.{
  Dict, lookup, insert, delete, lookup-insert_ne, lookup-delete_ne,
}
use intranet_penetration_clo.Common.Key.{pair_key, text_key, nat_key, bool_key, same_ne}
use intranet_penetration_clo.Packet.{Bytes}
use intranet_penetration_clo.Routes.{RouteError, RouteGroup}
use intranet_penetration_clo.Routes.Updates.{SyncRequest, add_peer, set_my_noise_public_key}
use intranet_penetration_clo.Routes.Sync.{handle_sync_request}
use intranet_penetration_clo.Routes.State as RS
use intranet_penetration_clo.Routes.State.{
  RouteGroups, settle, add_route_peer, set_noise_key, put_group, sync_routes, Draws, in_group,
  set_my_info_field,
}
use intranet_penetration_clo.PeerCenter.{
  Pair, Center, CenterError, Report, InfoEntry, report_peers, get_global_peer_map,
  center_remove_peer, retain, group_of, CenterGroup, or_new, new_group, reported_group,
}
use intranet_penetration_clo.PeerCenter.View.{entry_of}
use intranet_penetration_clo.Rpc.{RpcPacket, RpcDescriptor, RpcKey}
use intranet_penetration_clo.Rpc.Fragments.{
  Fragments, FragmentError, MergedPacket, pending, complete, merge_packet, rpc_key,
}
use intranet_penetration_clo.Rpc.Core.{
  Codec, RpcCore, RpcResponse, ServiceError, invalid_method, invalid_service, undecodable,
  missing_descriptor, no_transaction, transaction_disappeared, wrong_service, peer_rejected,
  route_rejected, RpcFailure, RpcAction, Surroundings, OutstandingRoute, add_rpc_peer, configure,
  remove_rpc_peer, has_text, validate_envelope, validate_compression, put_routes, put_center,
  put_fragments, is_of,
}
use intranet_penetration_clo.Rpc.Requests.{
  refused, served, route_served, answer, is_service, decoded, serve, serve_route, serve_center,
  handle_whole, handle_rpc_request, sync_with, take_report, take_map, merging,
}
use intranet_penetration_clo.Rpc.Responses.{
  handle_rpc_response, answer_outstanding, settle_response, settle_sync, check_service, acknowledge,
  check_deadline, take_outstanding, refuse_error,
}
use intranet_penetration_clo.Rpc.Isolation.{
  IsApart, Elsewhere, Apart, Apart-refl, Apart-trans, Left, Keeps, same-Left, chain-Left,
  decoded-Keeps, if-Left, validate_envelope-Keeps, validate_compression-Keeps, merge-Left,
  routes-Left, center-Left, put_group-other, insert-other, sync_routes-other, settle-other,
  bind-Keeps, after-Left, pair_ne, initiator-Apart, entry_of-insert_other, report_peers-other,
  center_remove_peer-other, get_global_peer_map-other,
}
use intranet_penetration_clo.Rpc.Isolation.Requests.{handle_rpc_request-Keeps}
use intranet_penetration_clo.Rpc.Isolation.Responses.{handle_rpc_response-Keeps}

lookup-retain_kept :
    {V : Type 0} (k : RpcKey) (test : RpcKey → Bool) (m : Dict RpcKey V)
    → test k ≡ true
    → lookup k (retain (λ key v. test key) m) ≡ lookup k m
unfolding lookup
lookup-retain_kept k test [] h = refl
lookup-retain_kept k test ((j, v) ∷ m) h = elim (Bool-cases (test j)) [
  | inl kept ↦
      rw kept (ap (λ r. if pair_key.same j k then some v else r) (lookup-retain_kept k test m h))
  | inr dropped ↦
      let apart : pair_key.same j k ≡ false =
        same_ne j k (λ e. ground (arith, dropped, h, ap test e)) in
      rw (dropped, apart) (lookup-retain_kept k test m h)
]

module _ (w : Elsewhere) (draws : Draws) where
  add_route_peer-other :
      (my_peer_id peer_id : ℕ) (key : Bytes) (groups : RouteGroups)
      → lookup w.other (add_route_peer my_peer_id draws w.network peer_id key groups).1
        ≡ lookup w.other groups
  unfolding add_route_peer
  add_route_peer-other my_peer_id peer_id key groups =
      settle-other w groups
        (add_peer my_peer_id peer_id key (RS.group_of my_peer_id draws w.network groups))

  set_noise_key-other :
      (my_peer_id : ℕ) (key : Bytes) (groups : RouteGroups)
      → lookup w.other (set_noise_key my_peer_id draws w.network key groups).1
        ≡ lookup w.other groups
  unfolding set_noise_key
  set_noise_key-other my_peer_id key groups =
      settle-other w groups
        (set_my_noise_public_key key (RS.group_of my_peer_id draws w.network groups))

  configure-Keeps : (parse_u32 : String → Option ℕ) → Keeps w (configure draws parse_u32 w.network)
  configure-Keeps parse_u32 core = elim (Bool-cases (has_text w.network core.configured_groups)) [
    | inl known ↦ rw known (same-Left w core (ok tt))
    | inr new ↦
        let core' : RpcCore = record core {
          configured_groups = w.network ∷ core.configured_groups;
        } in
        rw new (
          after-Left w core core' _
            (record {
              routes = refl;
              latency = refl;
              initiator = refl;
              transaction = refl;
              identity = refl;
            })
            (chain-Left w core' _ _
              (routes-Left w core' _ (
                put_group-other w core.routes (
                  set_my_info_field parse_u32 "hostname" core.hostname
                    (RS.group_of core.server_peer_id draws w.network core.routes))))
              (λ _ c.
                routes-Left w c
                  (set_noise_key c.server_peer_id draws w.network c.public_key c.routes)
                  (set_noise_key-other c.server_peer_id c.public_key c.routes))))
  ]

  add_rpc_peer-Keeps :
      (parse_u32 : String → Option ℕ) (peer_id : ℕ) (key : Bytes)
      → Keeps w (add_rpc_peer draws parse_u32 w.network peer_id key)
  unfolding add_rpc_peer
  add_rpc_peer-Keeps parse_u32 peer_id key =
      bind-Keeps w _ _
        (λ core.
          routes-Left w core
            (add_route_peer core.server_peer_id draws w.network peer_id key core.routes)
            (add_route_peer-other core.server_peer_id peer_id key core.routes))
        (λ _.
          bind-Keeps w _ _ (configure-Keeps parse_u32)
            (λ _ core. record { apart = initiator-Apart w peer_id false core }))

  remove_rpc_peer-Apart :
      (hash : List (Pair × ℕ) → ℕ) (peer_id : ℕ) (core : RpcCore)
      → Apart w core (remove_rpc_peer draws hash w.network peer_id core)
  unfolding remove_rpc_peer
  remove_rpc_peer-Apart hash peer_id core = record {
    routes = insert-other w _ core.routes;
    latency = center_remove_peer-other w hash peer_id core.peer_center;
    initiator =
        lookup-delete_ne (w.network, peer_id) (w.other, w.peer) core.peer_initiator
          (pair_ne w peer_id w.peer);
    transaction =
        lookup-retain_kept (w.other, w.rest) (λ key. not (is_of w.network peer_id key))
          core.outstanding_routes (rw (same_ne w.other w.network (λ e. w.apart (sym e))) refl);
    identity = refl;
  }

module _ (codec : Codec) (hash : List (Pair × ℕ) → ℕ) (parse_u32 : String → Option ℕ) where
  -- What a peer of a network brings about.
  pub data RpcStep (network : String) : RpcCore → RpcCore → Type 0 where
    joined :
        (draws : Draws) (peer_id : ℕ) (key : Bytes) (core : RpcCore)
        → RpcStep network core (add_rpc_peer draws parse_u32 network peer_id key core).1
    requested :
        (around : Surroundings) (peer_id : ℕ) (payload : Bytes) (now : ℕ) (core : RpcCore)
        → RpcStep network core
            (handle_rpc_request codec hash around network peer_id payload now core).1
    responded :
        (around : Surroundings) (peer_id : ℕ) (payload : Bytes) (now : ℕ) (core : RpcCore)
        → RpcStep network core (handle_rpc_response codec around network peer_id payload now core).1
    left :
        (draws : Draws) (peer_id : ℕ) (core : RpcCore)
        → RpcStep network core (remove_rpc_peer draws hash network peer_id core)

  step-IsApart :
      (w : Elsewhere) (core core' : RpcCore) → RpcStep w.network core core' → Apart w core core'
  step-IsApart w core core' (joined draws peer_id key _) =
      (add_rpc_peer-Keeps w draws parse_u32 peer_id key core).apart
  step-IsApart w core core' (requested around peer_id payload now _) =
      (handle_rpc_request-Keeps w codec hash around peer_id payload now core).apart
  step-IsApart w core core' (responded around peer_id payload now _) =
      (handle_rpc_response-Keeps w codec around peer_id payload now core).apart
  step-IsApart w core core' (left draws peer_id _) = remove_rpc_peer-Apart w draws hash peer_id core

  -- Whatever a peer of one network brings about, joining, leaving, or by a request or response of any
  -- content, no other network notices: its route state, its reported latencies, the roles of its peers
  -- and its outstanding transactions stay as they were.
  pub RpcStep-IsApart :
      (network other : String) (pair : Pair) (peer : ℕ) (rest : ℕ × (ℕ × Bool))
      (core core' : RpcCore)
      → network ≢ other
      → RpcStep network core core'
      → IsApart other pair peer rest core core'
  RpcStep-IsApart network other pair peer rest core core' n step =
      step-IsApart
        (record {
          network = network;
          other = other;
          pair = pair;
          peer = peer;
          rest = rest;
          apart = n;
        })
        core core' step
