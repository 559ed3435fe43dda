-- ===== src/RouteSync/Effects.antt =====
-- What sending an update does to the rest of the program: only what building, encrypting and
-- sending do, so that any relation of states that these three keep is kept.
use intranet_penetration_clo.Common.{ℕ, Bool, true, false, not, ◌&&◌, ◌||◌, Bool-cases, inl, inr}
use intranet_penetration_clo.Common.Result.{Result, ok, err}
use intranet_penetration_clo.Common.Dict.{lookup}
use intranet_penetration_clo.Common.Key.{pair_key, text_key, nat_key}
use intranet_penetration_clo.Packet.{Bytes, PacketError, create_packet, server_peer_id}
use intranet_penetration_clo.Packet.PacketType
use intranet_penetration_clo.RouteSync.{
  RpcHost, SyncStates, RouteSyncState, state_or_new, send_encrypted, send_clear, send_control,
  after_send, after_build, flush_route_update, send_route_update,
}

-- A reflexive and transitive relation that the three operations keep.
pub record IsKept (host : RpcHost) (R : host.World → host.World → Type 0) : Type 0 where
  pub stays : (w : host.World) → R w w
  pub follows : (u v w : host.World) → R u v → R v w → R u w
  pub building :
      (peer : ℕ) (full : Bool) (now : ℕ) (w : host.World)
      → R w (host.core_build_route_update peer full now w).1
  pub encrypting : (peer : ℕ) (packet : Bytes) (w : host.World) → R w (host.encrypt peer packet w).1
  pub sending : (peer : ℕ) (packet : Bytes) (w : host.World) → R w (host.send peer packet w).1

module _ (host : RpcHost) (R : host.World → host.World → Type 0) (k : IsKept host R) where
  open host use {World, Fault}

  send_encrypted-kept :
      (peer : ℕ) (v : World) (r : Result Fault Bytes × World)
      → R v r.1
      → R v (send_encrypted host peer r).1
  unfolding send_encrypted
  send_encrypted-kept peer v (ok packet, w) h = k.follows v w _ h (k.sending peer packet w)
  send_encrypted-kept peer v (err e, w) h = h

  send_clear-kept :
      (peer : ℕ) (r : Result PacketError Bytes) (w : World) → R w (send_clear host peer r w).1
  unfolding send_clear
  send_clear-kept peer (ok clear) w =
      send_encrypted-kept peer w (host.encrypt peer clear w) (k.encrypting peer clear w)
  send_clear-kept peer (err e) w = k.stays w

  send_control-kept :
      (peer packet_type : ℕ) (payload : Bytes) (w : World)
      → R w (send_control host peer packet_type payload w).1
  unfolding send_control
  send_control-kept peer packet_type payload w =
      send_clear-kept peer (create_packet server_peer_id (host.key w peer).1 packet_type payload) w

  after_send-kept :
      (st : RouteSyncState) (full : Bool) (v : World) (r : Result Fault (Unit {0}) × World)
      → R v r.1
      → R v (after_send host st full r).2
  unfolding after_send
  after_send-kept st full v (ok _, w) h = h
  after_send-kept st full v (err e, w) h = h

  after_build-kept :
      (st : RouteSyncState) (full : Bool) (now : ℕ) (v : World) (r : Result Fault Bytes × World)
      → R v r.1
      → R v (after_build host st full now r).2
  unfolding after_build
  after_build-kept st full now v (ok packet, w) h =
      after_send-kept _ full v (send_control host st.peer PacketType.rpc_req packet w)
        (k.follows v w _ h (send_control-kept st.peer PacketType.rpc_req packet w))
  after_build-kept st full now v (err e, w) h = h

  flush_route_update-kept :
      (st : RouteSyncState) (now : ℕ) (w : World) → R w (flush_route_update host st now w).2
  unfolding flush_route_update
  flush_route_update-kept st now w =
      elim (Bool-cases (st.in_flight || (not st.dirty && not st.force_full))) [
        | inl idle ↦ rw idle (k.stays w)
        | inr goes ↦ rw goes (
            after_build-kept (record st { dirty = false; force_full = false }) st.force_full now w
              (host.core_build_route_update st.peer st.force_full now w)
              (k.building st.peer st.force_full now w))
      ]

  pub send_route_update-kept :
      (peer : ℕ) (full : Bool) (now : ℕ) (states : SyncStates) (w : World)
      → R w (send_route_update host peer full now states w).2
  unfolding send_route_update
  send_route_update-kept peer full now states w =
      flush_route_update-kept
        (let st = state_or_new peer (lookup (host.key w peer) states) in
          record st { peer = peer; dirty = true; force_full = st.force_full || full })
        now w
