-- ===== src/RouteSync/Expiry.antt =====
-- The timeout of an unanswered update: `cleanExpired` over all peers.
use intranet_penetration_clo.Common.{
  ℕ, ◌≡◌, refl, true, false, List, [], ◌∷◌, arith, Bool-cases, inl, inr, ◌⊎◌, All,
}
use intranet_penetration_clo.RouteSync.{
  RpcHost, SyncStates, RouteSyncState, RouteSyncFailure, is_expired, clean_states, clean_expired,
  flush_route_update,
}
use intranet_penetration_clo.RouteSync.Flush.{flush-asks}

module _ (host : RpcHost) where
  open host use {World, Fault, core_clean_expired}

  -- Entry by entry: an update that has not expired stays; an expired one is in flight anew, sent
  -- at this time, or it is not in flight and its peer is the next of the reported failures.
  abbrev pub Cleaned : ℕ → SyncStates → SyncStates → List (RouteSyncFailure Fault) → Type 0
  Cleaned now [] [] failures = failures ≡ []
  Cleaned now [] (_ ∷ _) failures = ⊥
  Cleaned now (_ ∷ _) [] failures = ⊥
  Cleaned now ((k, st) ∷ states) ((k', st') ∷ states') failures =
      (k' ≡ k)
      × (((is_expired host now st ≡ false) × (st' ≡ st) × Cleaned now states states' failures)
          ⊎ ((is_expired host now st ≡ true)
              × (st' ≡ record st {
                in_flight = true;
                dirty = false;
                force_full = false;
                sent_at = now;
              })
              × Cleaned now states states' failures)
          ⊎ ((is_expired host now st ≡ true)
              × (st'.in_flight ≡ false)
              × (e : Fault) × (rest : List (RouteSyncFailure Fault)) × (failures
                  ≡ record { peer = st.peer; error = e } ∷ rest)
              × Cleaned now states states' rest))

  abbrev stale_state : RouteSyncState → RouteSyncState
  stale_state st = record st { in_flight = false; dirty = true; force_full = true }

  clean_states-Cleaned :
      (now : ℕ) (states : SyncStates) (w : World)
      → Cleaned now states (clean_states host now states w).1 (clean_states host now states w).0
  unfolding clean_states
  clean_states-Cleaned now [] w = refl
  clean_states-Cleaned now ((k, st) ∷ states) w =
      let kept = clean_states-Cleaned now states w in
      let flushed = flush_route_update host (stale_state st) now w in
      let cleaned = clean_states-Cleaned now states flushed.2 in
      elim (Bool-cases (is_expired host now st)) [
        | inl stale ↦ rw stale (elim (flush-asks host (stale_state st) now w refl refl) [
          | inl (done, at_state, sent) ↦ rw done (refl, inr (inl (stale, at_state, cleaned)))
          | inr (e, failed, down, how) ↦
              rw failed (refl, inr (inr (stale, down, e, _, refl, cleaned)))
        ])
        | inr fresh ↦ rw fresh (refl, inl (fresh, refl, kept))
      ]

  Cleaned-fresh :
      (now : ℕ) (states states' : SyncStates) (failures : List (RouteSyncFailure Fault))
      → Cleaned now states states' failures
      → All (λ p. is_expired host now p.1 ≡ false) states'
  Cleaned-fresh now [] [] failures h = tt
  Cleaned-fresh now [] (_ ∷ _) failures h = absurd h
  Cleaned-fresh now (_ ∷ _) [] failures h = absurd h
  Cleaned-fresh now ((k, st) ∷ states) ((k', st') ∷ states') failures (_, inl (fresh, same, h)) =
      (rw same fresh, Cleaned-fresh now states states' failures h)
  Cleaned-fresh now ((k, st) ∷ states) ((k', st') ∷ states') failures (_, inr (inl (_, sent, h))) =
      (ground arith, Cleaned-fresh now states states' failures h)
  Cleaned-fresh now ((k, st) ∷ states) ((k', st') ∷ states') failures
        (_, inr (inr (_, down, e, rest, _, h))) =
      (rw down, Cleaned-fresh now states states' rest h)

  -- After `cleanExpired` no update is overdue. Each that was is in flight anew or is one of the
  -- reported failures, in order; the other states and all keys are as they were.
  pub clean_expired-Cleaned :
      (now : ℕ) (states : SyncStates) (w : World)
      → let after = clean_expired host now states w in
        Cleaned now states after.1 after.0 × All (λ p. is_expired host now p.1 ≡ false) after.1
  unfolding clean_expired
  clean_expired-Cleaned now states w =
      let cleaned = clean_states-Cleaned now states (core_clean_expired now w) in
      (cleaned, Cleaned-fresh now states _ _ cleaned)
