-- ===== src/Rpc/Core.antt =====
-- The class `WasmRpcCore` of cloudflare/wasm/src/rpc.rs: requests and responses of authenticated peers
-- over the route state and the peer center. The protobuf library is the interface Codec; the clock
-- (`Date::now`) and the random draws are arguments.
use intranet_penetration_clo.Common.{
  ℕ, zero, suc, ◌%◌, String, Bool, false, not, ◌&&◌, ◌||◌, Option, none, some, List, [], ◌∷◌,
  length, eqb, ltb, leb, if◌then◌else◌,
}
use intranet_penetration_clo.Common.Result.{Result, ok, err}
use intranet_penetration_clo.Common.Action.{Action, chain, ◌>>◌}
use intranet_penetration_clo.Common.Dict.{Dict, lookup, insert, delete}
use intranet_penetration_clo.Common.Key.{pair_key, text_key, nat_key, bool_key}
use intranet_penetration_clo.Packet.{Bytes}
use intranet_penetration_clo.Routes.{RouteError}
use intranet_penetration_clo.Routes.Updates.{SyncRequest, SyncResponse, remove_peer}
use intranet_penetration_clo.Routes.State.{
  RouteGroups, Draws, group_of, in_group, add_route_peer, set_noise_key, set_my_info_field,
}
use intranet_penetration_clo.PeerCenter.{
  Pair, Center, Report, GlobalMap, CenterError, center_remove_peer, clean_outdated, retain,
}
use intranet_penetration_clo.Rpc.{RpcPacket, RpcDescriptor, RpcCompressionInfo, RpcKey}
use intranet_penetration_clo.Rpc.Fragments.{
  Fragments, FragmentError, rpc_key, clean_pending, remove_keys, PendingMap, is_none,
}

abbrev pub route_rpc_timeout_ms : ℕ
route_rpc_timeout_ms = 3_000

abbrev pub peer_center_ttl_seconds : ℕ
peer_center_ttl_seconds = 180

abbrev pub result_handled : ℕ
result_handled = 1

abbrev pub result_route : ℕ
result_route = 2

abbrev pub result_route_session : ℕ
result_route_session = 3

pub record OutstandingRoute : Type 0 where
  pub deadline_ms : ℕ
  pub peer_info_versions : List (ℕ × ℕ)
  pub topology_version : Option ℕ

pub data ServiceError : Type 0 where
  invalid_method : String → ℕ → ServiceError
  invalid_service : String → ServiceError

pub record RpcResponse : Type 0 where
  pub response : Bytes
  pub error : Option ServiceError

-- The protobuf library, on the messages that the core exchanges. An RpcRequest is its payload.
pub record Codec : Type 0 where
  pub decode_packet : Bytes → Option RpcPacket
  pub encode_packet : RpcPacket → Bytes
  pub decode_request : Bytes → Option Bytes
  pub encode_request : Bytes → ℕ → Bytes
  pub decode_response : Bytes → Option RpcResponse
  pub encode_response : RpcResponse → Bytes
  pub decode_sync_request : Bytes → Option SyncRequest
  pub encode_sync_request : SyncRequest → Bytes
  pub decode_sync_response : Bytes → Option SyncResponse
  pub encode_sync_response : SyncResponse → Bytes
  pub decode_report : Bytes → Option Report
  pub encode_report_response : Bytes
  pub decode_map_request : Bytes → Option ℕ
  pub encode_global_map : GlobalMap → Bytes

pub data RpcFailure : Type 0 where
  key_length zero_server_peer undecodable envelope_mismatch wrong_direction cross_network
        compressed :
      RpcFailure
  missing_descriptor wrong_service no_transaction too_late peer_rejected transaction_disappeared :
      RpcFailure
  random_failed no_unique_id : RpcFailure
  route_rejected : ℕ → RpcFailure
  in_fragment : FragmentError → RpcFailure
  in_route : RouteError → RpcFailure
  in_center : CenterError → RpcFailure

pub record RpcCore : Type 0 where
  pub routes : RouteGroups
  pub peer_center : Center
  pub configured_groups : List String
  pub peer_initiator : Dict (String × ℕ) Bool
  pub fragments : Fragments
  pub outstanding_routes : Dict RpcKey OutstandingRoute
  pub public_key : Bytes
  pub hostname : String
  pub server_peer_id : ℕ

-- The clock, and what is drawn at random: for a new network, and at each attempt at a transaction id.
pub record Surroundings : Type 0 where
  pub clock : ℕ
  pub draws : Draws
  pub random_u64 : ℕ → Option ℕ

abbrev pub RpcAction : Type 0 → Type 0
RpcAction A = Action RpcFailure RpcCore A

abbrev pub lift_error {ℓ κ} :
    {E : Type ℓ} {A : Type κ} → (E → RpcFailure) → Result E A → Result RpcFailure A
lift_error f (ok a) = ok a
lift_error f (err e) = err (f e)

abbrev pub put_routes :
    {A : Type 0} → RpcCore → Result RouteError A × RouteGroups → Result RpcFailure A × RpcCore
put_routes core (r, groups) = (lift_error in_route r, record core { routes = groups })

abbrev pub put_fragments :
    {A : Type 0} → RpcCore → Result FragmentError A × Fragments → Result RpcFailure A × RpcCore
put_fragments core (r, fs) = (lift_error in_fragment r, record core { fragments = fs })

abbrev pub put_center :
    {A : Type 0} → RpcCore → Result CenterError A × Center → Result RpcFailure A × RpcCore
put_center core (r, center) = (lift_error in_center r, record core { peer_center = center })

-- `WasmRpcCore::new`
unfoldable pub new_core : Bytes → String → ℕ → Result RpcFailure RpcCore
new_core public_key hostname server_peer_id =
    if not (eqb (length public_key) 32)
    then err key_length
    else if eqb server_peer_id 0
    then err zero_server_peer
    else ok (record {
      routes = [];
      peer_center = [];
      configured_groups = [];
      peer_initiator = [];
      fragments = record { pending = []; pending_bytes = 0; pending_pieces = 0 };
      outstanding_routes = [];
      public_key = public_key;
      hostname = hostname;
      server_peer_id = server_peer_id;
    })

abbrev pub has_text : String → List String → Bool
has_text network [] = false
has_text network (other ∷ rest) = text_key.same other network || has_text network rest

abbrev pub is_of : String → ℕ → RpcKey → Bool
is_of network peer_id key = text_key.same key.0 network && eqb key.1.0 peer_id

unfoldable pub keys_of : String → ℕ → PendingMap → List RpcKey
keys_of network peer_id [] = []
keys_of network peer_id ((key, p) ∷ rest) =
    if is_of network peer_id key
    then key ∷ keys_of network peer_id rest
    else keys_of network peer_id rest

module _ (server_draws : Draws) where
  -- What the first peer of a network sets up.
  abbrev pub configure : (String → Option ℕ) → String → RpcAction (Unit {0})
  configure parse_u32 network core =
      if has_text network core.configured_groups
      then (ok tt, core)
      else (let core' = record core { configured_groups = network ∷ core.configured_groups } in
          chain
            (put_routes core' (
              in_group core'.server_peer_id server_draws network
                (set_my_info_field parse_u32 "hostname" core'.hostname) core'.routes))
            (λ _ core.
              put_routes core (
                set_noise_key core.server_peer_id server_draws network core.public_key
                  core.routes)))

  -- `add_peer`
  unfoldable pub add_rpc_peer : (String → Option ℕ) → String → ℕ → Bytes → RpcAction (Unit {0})
  add_rpc_peer parse_u32 network peer_id key = do
    (λ core.
        put_routes core
          (add_route_peer core.server_peer_id server_draws network peer_id key core.routes))
    configure parse_u32 network
    (λ core. (
      ok tt,
      record core { peer_initiator = insert (network, peer_id) false core.peer_initiator },
    ))

  -- `remove_peer`
  unfoldable pub remove_rpc_peer : (List (Pair × ℕ) → ℕ) → String → ℕ → RpcCore → RpcCore
  remove_rpc_peer hash network peer_id core = record core {
    routes =
        insert network
          (remove_peer core.server_peer_id peer_id
            (group_of core.server_peer_id server_draws network core.routes))
          core.routes;
    peer_center = center_remove_peer hash network peer_id core.peer_center;
    peer_initiator = delete (network, peer_id) core.peer_initiator;
    fragments = remove_keys (keys_of network peer_id core.fragments.pending) core.fragments;
    outstanding_routes =
        retain (λ key route. not (is_of network peer_id key)) core.outstanding_routes;
  }

-- `clean_rpc_state`
unfoldable pub clean_rpc_state : ℕ → RpcCore → RpcCore
clean_rpc_state now core = record core {
  fragments = clean_pending now core.fragments;
  outstanding_routes = retain (λ key route. leb now route.deadline_ms) core.outstanding_routes;
}

-- `clean_expired`
unfoldable pub clean_rpc : (List (Pair × ℕ) → ℕ) → ℕ → ℕ → RpcCore → RpcCore
clean_rpc hash clock now core =
    let core' = clean_rpc_state now core in
    record core' {
      peer_center = clean_outdated hash clock peer_center_ttl_seconds core'.peer_center;
    }

abbrev pub is_foreign : String → Option RpcDescriptor → Bool
is_foreign network none = false
is_foreign network (some descriptor) = not (text_key.same descriptor.domain_name network)

-- `CompressionAlgoPb::None`
abbrev pub no_compression_algo : ℕ
no_compression_algo = 1

abbrev is_compressed : Option RpcCompressionInfo → Bool
is_compressed none = false
is_compressed (some info) = ltb no_compression_algo info.algo && ltb info.algo 2_147_483_648

-- `validate_envelope`
unfoldable pub validate_envelope : RpcPacket → String → ℕ → Bool → RpcAction (Unit {0})
validate_envelope packet network peer_id is_request core =
    if not (eqb packet.from_peer peer_id) || not (eqb packet.to_peer core.server_peer_id)
    then (err envelope_mismatch, core)
    else if not (bool_key.same packet.is_request is_request)
    then (err wrong_direction, core)
    else if is_foreign network packet.descriptor
    then (err cross_network, core)
    else (ok tt, core)

-- `validate_compression`, with the field's two's complement pattern.
unfoldable pub validate_compression : RpcPacket → RpcAction (Unit {0})
validate_compression packet core =
    if is_compressed packet.compression_info then (err compressed, core) else (ok tt, core)

pub next_id :
    String → ℕ → Option ℕ → RpcCore → Result RpcFailure ℕ × RpcCore → Result RpcFailure ℕ × RpcCore
next_id network peer_id none core again = (err random_failed, core)
next_id network peer_id (some bits) core again =
    let id = bits % 9_223_372_036_854_775_808 in
    if not (eqb id 0) && is_none (lookup (rpc_key network peer_id id false) core.outstanding_routes)
    then (ok id, core)
    else again

-- `next_transaction_id`, with the attempts that are left.
unfoldable pub next_transaction_id : (ℕ → Option ℕ) → String → ℕ → ℕ → RpcAction ℕ
unfolding next_id
next_transaction_id draw network peer_id zero core = (err no_unique_id, core)
next_transaction_id draw network peer_id (suc n) core =
    next_id network peer_id (draw n) core (next_transaction_id draw network peer_id n core)
