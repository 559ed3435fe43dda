-- ===== src/RouteSync/Flush/Outcomes.antt =====
-- What one flush can leave: nothing done, an update built, encrypted and sent, or a failure.
use intranet_penetration_clo.Common.{
  ℕ, ◌≡◌, refl, true, false, not, ◌&&◌, ◌||◌, arith, Bool-cases, inl, inr, ap, ◌⊎◌, sym, ◌∙◌,
}
use intranet_penetration_clo.Common.Result.{Result, ok, err}
use intranet_penetration_clo.Common.Action.{Action-cases}
use intranet_penetration_clo.Common.Key.{pair_key, text_key, nat_key}
use intranet_penetration_clo.Packet.{Bytes, PacketError, create_packet, server_peer_id}
use intranet_penetration_clo.Packet.PacketType
use intranet_penetration_clo.RouteSync.{
  send_control, send_clear, send_encrypted, RpcHost, RouteSyncState, after_send, after_build,
  flush_route_update,
}

module _ (host : RpcHost) where
  open host use {World, Fault, key, core_build_route_update, encrypt, send}

  -- A payload is packed into a frame from the server, encrypted for the peer and sent to it.
  abbrev pub Delivered : ℕ → Bytes → World → World → Type 0
  Delivered peer payload w w' =
      (clear : Bytes) × (cipher : Bytes) × (sealed : World) × (create_packet server_peer_id
          (key w peer).1 PacketType.rpc_req payload
        ≡ ok clear)
      × (encrypt peer clear w ≡ (ok cipher, sealed))
      × (send peer cipher sealed ≡ (ok tt, w'))

  send_control-Delivered :
      (peer : ℕ) (payload : Bytes) (w w' : World)
      → send_control host peer PacketType.rpc_req payload w ≡ (ok tt, w')
      → Delivered peer payload w w'
  unfolding send_control send_clear send_encrypted
  send_control-Delivered peer payload w w' done =
      packs (create_packet server_peer_id (key w peer).1 PacketType.rpc_req payload) refl done
    where
      packs :
          (r : Result PacketError Bytes)
          → create_packet server_peer_id (key w peer).1 PacketType.rpc_req payload ≡ r
          → send_clear host peer r w ≡ (ok tt, w')
          → Delivered peer payload w w'
      packs (err e) packed h = absurd (ground (arith, h))
      packs (ok clear) packed h = elim (Action-cases (encrypt peer clear w)) [
        | inl (cipher, sealed, made) ↦
            (clear, cipher, sealed, packed, made, (ap (send_encrypted host peer) (sym made)) ∙ h)
        | inr (e, sealed, failed) ↦ absurd (ground (arith, h, failed))
      ]

  -- The update of a state is built, encrypted for the peer and sent to it.
  abbrev pub Sent : RouteSyncState → ℕ → World → World → Type 0
  Sent st now w w' =
      (packet : Bytes) × (built : World) × (core_build_route_update st.peer st.force_full now w
        ≡ (ok packet, built))
      × Delivered st.peer packet built w'

  -- How an update fails: in building it, which leaves both flags cleared, or in encrypting or sending
  -- it, which leaves the peer dirty and keeps its wish for a full update.
  abbrev pub Failed : RouteSyncState → ℕ → World → Fault → RouteSyncState → World → Type 0
  Failed st now w e st' w' =
      ((core_build_route_update st.peer st.force_full now w ≡ (err e, w'))
        × (st' ≡ record st { dirty = false; force_full = false }))
      ⊎ ((packet : Bytes) × (built : World) × (core_build_route_update st.peer st.force_full now w
            ≡ (ok packet, built))
          × (send_control host st.peer PacketType.rpc_req packet built ≡ (err e, w'))
          × (st' ≡ record st { dirty = true; sent_at = now }))

  -- What a flush leaves, by its result: nothing was to be done, and nothing was done; or the update
  -- has been sent, and is in flight; or it has failed.
  abbrev pub Flushed :
      RouteSyncState → ℕ → World → Result Fault (Unit {0}) → RouteSyncState → World → Type 0
  Flushed st now w (ok _) st' w' =
      ((st' ≡ st)
        × (w' ≡ w)
        × ((st.in_flight ≡ true) ⊎ ((st.dirty ≡ false) × (st.force_full ≡ false))))
      ⊎ ((st.in_flight ≡ false)
          × (st' ≡ record st { in_flight = true; dirty = false; force_full = false; sent_at = now })
          × Sent st now w w')
  Flushed st now w (err e) st' w' = (st.in_flight ≡ false) × Failed st now w e st' w'

  after_send-Flushed :
      (st : RouteSyncState) (now : ℕ) (w built : World) (packet : Bytes)
      (r : Result Fault (Unit {0}) × World)
      → st.in_flight ≡ false
      → core_build_route_update st.peer st.force_full now w ≡ (ok packet, built)
      → send_control host st.peer PacketType.rpc_req packet built ≡ r
      → let sent =
          after_send host
            (record st { in_flight = true; dirty = false; force_full = false; sent_at = now })
            st.force_full
            r in
        Flushed st now w sent.0 sent.1 sent.2
  unfolding after_send
  after_send-Flushed st now w built packet (ok _, w') idle made done =
      inr (idle, refl, (packet, built, made, send_control-Delivered st.peer packet built w' done))
  after_send-Flushed st now w built packet (err e, w') idle made failed =
      (idle, inr (packet, built, made, failed, ground (arith, idle)))

  after_build-Flushed :
      (st : RouteSyncState) (now : ℕ) (w : World) (r : Result Fault Bytes × World)
      → st.in_flight ≡ false
      → core_build_route_update st.peer st.force_full now w ≡ r
      → let built =
          after_build host (record st { dirty = false; force_full = false }) st.force_full now r in
        Flushed st now w built.0 built.1 built.2
  unfolding after_build
  after_build-Flushed st now w (ok packet, built) idle made =
      after_send-Flushed st now w built packet
        (send_control host st.peer PacketType.rpc_req packet built) idle made refl
  after_build-Flushed st now w (err e, w') idle failed = (idle, inl (failed, refl))

  pub flush_route_update-Flushed :
      (st : RouteSyncState) (now : ℕ) (w : World)
      → let after = flush_route_update host st now w in Flushed st now w after.0 after.1 after.2
  unfolding flush_route_update
  flush_route_update-Flushed st now w =
      elim (Bool-cases (st.in_flight || (not st.dirty && not st.force_full))) [
        | inl rests ↦ rw rests (inl (refl, refl, ground arith))
        | inr goes ↦ rw goes (
            after_build-Flushed st now w (core_build_route_update st.peer st.force_full now w)
              (ground arith) refl)
      ]
