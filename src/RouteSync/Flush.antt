-- ===== src/RouteSync/Flush.antt =====
-- One peer's update: what is in flight, what is pending, and what an exception leaves behind.
pub mod Outcomes
use intranet_penetration_clo.Common.{
  ℕ, ◌≡◌, refl, Bool, true, false, ◌||◌, some, if◌then◌else◌, arith, Bool-cases, inl, inr, ap, ◌⊎◌,
}
use intranet_penetration_clo.Common.Result.{Result, ok, err}
use intranet_penetration_clo.Common.Action.{Action-cases}
use intranet_penetration_clo.Common.Dict.{lookup, lookup-insert}
use intranet_penetration_clo.Common.Key.{pair_key, text_key, nat_key}
use intranet_penetration_clo.Packet.PacketType
use intranet_penetration_clo.RouteSync.{
  send_control, RpcHost, SyncKey, SyncStates, RouteSyncState, state_or_new, after_send, after_build,
  flush_route_update, send_route_update,
}
use intranet_penetration_clo.RouteSync.Flush.Outcomes.{
  Sent, Failed, Flushed, flush_route_update-Flushed,
}

module _ (host : RpcHost) where
  open host use {World, Fault, key, core_build_route_update}

  flush_busy :
      (st : RouteSyncState) (now : ℕ) (w : World)
      → st.in_flight ≡ true
      → flush_route_update host st now w ≡ (ok tt, st, w)
  unfolding flush_route_update
  flush_busy st now w busy = rw busy

  -- A state that asks for an update is afterwards in flight, its update sent, or the update has
  -- failed.
  pub flush-asks :
      (st : RouteSyncState) (now : ℕ) (w : World)
      → st.in_flight ≡ false
      → st.dirty ≡ true
      → let after = flush_route_update host st now w in
        ((after.0 ≡ ok tt)
          × (after.1
              ≡ record st { in_flight = true; dirty = false; force_full = false; sent_at = now })
          × Sent host st now w after.2)
        ⊎ ((e : Fault) × (after.0 ≡ err e)
            × (after.1.in_flight ≡ false)
            × Failed host st now w e after.1 after.2)
  flush-asks st now w idle asks =
      reads (flush_route_update host st now w) (flush_route_update-Flushed host st now w)
    where
      reads :
          (r : Result Fault (Unit {0}) × RouteSyncState × World)
          → Flushed host st now w r.0 r.1 r.2
          → ((r.0 ≡ ok tt)
              × (r.1 ≡ record st {
                in_flight = true;
                dirty = false;
                force_full = false;
                sent_at = now;
              })
              × Sent host st now w r.2)
            ⊎ ((e : Fault) × (r.0 ≡ err e)
                × (r.1.in_flight ≡ false)
                × Failed host st now w e r.1 r.2)
      reads (ok u, st', w') (inl (same, _, why)) = absurd (ground arith)
      reads (ok u, st', w') (inr (_, e, sent)) = inl (refl, e, sent)
      reads (err e, st', w') (_, inl (built, same)) =
          inr (e, refl, ground (arith, same, idle), inl (built, same))
      reads (err e, st', w') (_, inr (packet, built, made, failed, same)) =
          inr (e, refl, ground (arith, same, idle), inr (packet, built, made, failed, same))

  -- Where the update of an idle, dirty peer fails, it failed either in building, and then both flags
  -- are cleared, so that nothing remembers that an update is due; or in sending, and then the peer
  -- is dirty and keeps its wish for a full update.
  pub flush_route_update-Failed :
      (st st' : RouteSyncState) (now : ℕ) (w w' : World) (e : Fault)
      → st.in_flight ≡ false
      → st.dirty ≡ true
      → flush_route_update host st now w ≡ (err e, st', w')
      → Failed host st now w e st' w'
  unfolding flush_route_update after_build after_send
  flush_route_update-Failed st st' now w w' e idle asks failed =
      elim (Action-cases (core_build_route_update st.peer st.force_full now w)) [
        | inr (e', built, no_packet) ↦ inl (ground arith, ground arith)
        | inl (packet, built, made) ↦
            elim (Action-cases (send_control host st.peer PacketType.rpc_req packet built)) [
              | inl (u, sent, done) ↦ absurd (ground arith)
              | inr (e', sent, not_sent) ↦ inr (packet, built, made, ground arith, ground arith)
            ]
      ]

  -- Asking for a peer's update: if one is in flight, nothing is sent and the peer is marked dirty;
  -- if none is, one is built, encrypted and sent, or the call throws and none is in flight.
  abbrev pub Asked :
      ℕ
      → Bool
      → ℕ
      → World
      → RouteSyncState
      → RouteSyncState
      → Result Fault (Unit {0})
      → World
      → Type 0
  Asked peer force_full now w before st' r w' =
      ((before.in_flight ≡ true)
        × (r ≡ ok tt)
        × (w' ≡ w)
        × (st' ≡ record before {
          peer = peer;
          dirty = true;
          force_full = before.force_full || force_full;
        }))
      ⊎ ((before.in_flight ≡ false)
          × (r ≡ ok tt)
          × (st' ≡ record before {
            peer = peer;
            in_flight = true;
            dirty = false;
            force_full = false;
            sent_at = now;
          })
          × Sent host
              (record before {
                peer = peer;
                dirty = true;
                force_full = before.force_full || force_full;
              })
              now w w')
      ⊎ ((before.in_flight ≡ false)
          × (st'.in_flight ≡ false)
          × (e : Fault) × (r ≡ err e)
          × Failed host
              (record before {
                peer = peer;
                dirty = true;
                force_full = before.force_full || force_full;
              })
              now w e st' w')

  flush-Asked :
      (peer : ℕ) (force_full : Bool) (now : ℕ) (w : World) (st : RouteSyncState)
      → let asked = record st {
        peer = peer;
        dirty = true;
        force_full = st.force_full || force_full;
      } in
        let flushed = flush_route_update host asked now w in
        Asked peer force_full now w st flushed.1 flushed.0 flushed.2
  flush-Asked peer force_full now w st = elim (Bool-cases st.in_flight) [
    | inl busy ↦ inl (
      busy,
      ap (λ r. r.0) (flush_busy asked now w busy),
      ap (λ r. r.2) (flush_busy asked now w busy),
      ap (λ r. r.1) (flush_busy asked now w busy),
    )
    | inr idle ↦ elim (flush-asks asked now w idle refl) [
      | inl (done, at_state, sent) ↦ inr (inl (idle, done, at_state, sent))
      | inr (e, failed, down, how) ↦ inr (inr (idle, down, e, failed, how))
    ]
  ]
    where
      asked : RouteSyncState
      asked = record st { peer = peer; dirty = true; force_full = st.force_full || force_full }

  -- Asking for a peer's update changes the state of that peer's key alone. If an update is in
  -- flight, nothing is sent and the peer is marked dirty, for the time when the answer comes. If
  -- none is, then either an update has been built, encrypted for the peer and sent to it, and it is
  -- in flight as of this time with nothing left pending; or the call has thrown and none is in
  -- flight: building failed, and both flags are cleared, or packing, encrypting or sending failed,
  -- and the peer is dirty and keeps its wish for a full update.
  pub send_route_update-Asked :
      (peer : ℕ) (force_full : Bool) (now : ℕ) (states : SyncStates) (w : World)
      → let before = state_or_new peer (lookup (key w peer) states) in
        let after = send_route_update host peer force_full now states w in
        (st' : RouteSyncState) × Asked peer force_full now w before st' after.0 after.2
        × ((j : SyncKey)
            → lookup j after.1
              ≡ (if pair_key.same (key w peer) j then some st' else lookup j states))
  unfolding send_route_update
  send_route_update-Asked peer force_full now states w =
      let before = state_or_new peer (lookup (key w peer) states) in
      let asked = record before {
        peer = peer;
        dirty = true;
        force_full = before.force_full || force_full;
      } in
      let flushed = flush_route_update host asked now w in
      (
        flushed.1,
        flush-Asked peer force_full now w before,
        λ j. lookup-insert (key w peer) j flushed.1 states,
      )
