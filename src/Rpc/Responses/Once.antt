-- ===== src/Rpc/Responses/Once.antt =====
-- A response counts once, for a transaction that waits for it, and in time.
use intranet_penetration_clo.Common.{
  ℕ, ◌≡◌, ◌≤◌, refl, String, Bool, true, false, not, ◌||◌, Option, none, some, eqb, arith,
  Bool-cases, inl, inr, ◌⊎◌, ◌∙◌, ap, sym, subst,
}
use intranet_penetration_clo.Common.Result.{Result, ok, err}
use intranet_penetration_clo.Common.Action.{chain, chain-ok, ◌>>=◌}
use intranet_penetration_clo.Common.Dict.{lookup, lookup-delete_self}
use intranet_penetration_clo.Common.Key.{pair_key, text_key, nat_key, bool_key}
use intranet_penetration_clo.Packet.{Bytes}
use intranet_penetration_clo.Rpc.{RpcPacket, RpcKey}
use intranet_penetration_clo.Rpc.Fragments.{MergedPacket, pending, complete, rpc_key, merge_packet}
use intranet_penetration_clo.Rpc.Core.{
  Codec, RpcCore, RpcAction, RpcFailure, undecodable, missing_descriptor, peer_rejected,
  route_rejected, no_transaction, validate_compression, OutstandingRoute, RpcResponse, Surroundings,
  put_fragments, validate_envelope, is_foreign, envelope_mismatch, wrong_direction, cross_network,
}
use intranet_penetration_clo.Rpc.Requests.{decoded}
use intranet_penetration_clo.Rpc.Responses.{
  check_deadline, take_outstanding, settle_sync, settle_response, answer_outstanding,
  handle_rpc_response, acknowledge, refuse_error, check_service,
}

-- Where the outcome says that the transaction is settled, it is no longer outstanding.
abbrev Done : RpcKey → Result RpcFailure Bool × RpcCore → Type 0
Done key (ok true, core) = lookup key core.outstanding_routes ≡ none
Done key (ok false, core) = Unit
Done key (err e, core) = Unit

abbrev Settles : RpcKey → RpcAction Bool → Type 0
Settles key m = (core : RpcCore) → Done key (m core)

chain-Done :
    {A : Type 0} (key : RpcKey) (r : Result RpcFailure A × RpcCore) (f : A → RpcAction Bool)
    → ((a : A) → Settles key (f a))
    → Done key (chain r f)
chain-Done key (ok a, core) f h = h a core
chain-Done key (err e, core) f h = tt

bind-Settles :
    {A : Type 0} (key : RpcKey) (m : RpcAction A) (f : A → RpcAction Bool)
    → ((a : A) → Settles key (f a))
    → Settles key (m >>= f)
bind-Settles key m f h core = chain-Done key (m core) f h

-- The checks on the envelope leave the core as it is.
validate_envelope-cases :
    (packet : RpcPacket) (network : String) (peer_id : ℕ) (is_request : Bool) (core : RpcCore)
    → (validate_envelope packet network peer_id is_request core ≡ (ok tt, core))
      ⊎ ((e : RpcFailure) × (validate_envelope packet network peer_id is_request core
            ≡ (err e, core)))
unfolding validate_envelope
validate_envelope-cases packet network peer_id is_request core =
    elim (Bool-cases
      (not (eqb packet.from_peer peer_id) || not (eqb packet.to_peer core.server_peer_id))) [
        | inl mismatch ↦ rw mismatch (inr (envelope_mismatch, refl))
        | inr match ↦ elim (Bool-cases (not (bool_key.same packet.is_request is_request))) [
          | inl wrong ↦ rw (match, wrong) (inr (wrong_direction, refl))
          | inr right ↦ elim (Bool-cases (is_foreign network packet.descriptor)) [
            | inl foreign ↦ rw (match, right, foreign) (inr (cross_network, refl))
            | inr own ↦ rw (match, right, own) (inl refl)
          ]
        ]
      ]

err_not_ok :
    {A : Type 0} {a : A} (f : RpcFailure) (core core' : RpcCore)
    → Path (Result RpcFailure A × RpcCore) (err f, core) (ok a, core')
    → ⊥
err_not_ok f core core' h = ground (arith, h)

check_deadline-ok :
    (key : RpcKey) (now : ℕ) (o : Option OutstandingRoute) (core t : RpcCore) (u : Unit {0})
    → check_deadline key now o core ≡ (ok u, t)
    → (route : OutstandingRoute) × (o ≡ some route) × (now ≤ route.deadline_ms)
unfolding check_deadline
check_deadline-ok key now none core t u h = ground (arith, h)
check_deadline-ok key now (some route) core t u h = (route, refl, ground (arith, h))

module _ (codec : Codec) (around : Surroundings) where
  taken-Done :
      (network : String) (peer_id session_id : ℕ) (key : RpcKey) (o : Option OutstandingRoute)
      (core : RpcCore)
      → Done key (
          chain (take_outstanding key o core) (acknowledge codec around network peer_id session_id))
  unfolding take_outstanding
  taken-Done network peer_id session_id key none core = tt
  taken-Done network peer_id session_id key (some route) core =
      lookup-delete_self key core.outstanding_routes

  settle_sync-Settles :
      (network : String) (peer_id : ℕ) (key : RpcKey) (response : RpcResponse)
      → Settles key (settle_sync codec around network peer_id key response)
  settle_sync-Settles network peer_id key response =
      bind-Settles key (decoded undecodable (codec.decode_sync_response response.response)) _
        (λ sync. bind-Settles key (refuse_error route_rejected sync.error) _ (λ _ core.
          taken-Done network peer_id sync.session_id key (lookup key core.outstanding_routes) core))

  settle_response-Settles :
      (network : String) (peer_id : ℕ) (key : RpcKey) (merged : MergedPacket)
      → Settles key (settle_response codec around network peer_id key merged)
  unfolding settle_response
  settle_response-Settles network peer_id key pending core = tt
  settle_response-Settles network peer_id key (complete packet) core =
      bind-Settles key (validate_compression packet) _
        (λ _. bind-Settles key (decoded missing_descriptor packet.descriptor) _ (λ descriptor.
          bind-Settles key (check_service codec around descriptor) _ (λ _.
            bind-Settles key (decoded undecodable (codec.decode_response packet.body)) _
              (λ response.
                bind-Settles key (refuse_error (λ error. peer_rejected) response.error) _
                  (λ _. settle_sync-Settles network peer_id key response)))))
        core

  answer_outstanding-Settles :
      (network : String) (peer_id : ℕ) (packet : RpcPacket) (key : RpcKey) (now : ℕ)
      → Settles key (answer_outstanding codec around network peer_id packet key now)
  unfolding answer_outstanding
  answer_outstanding-Settles network peer_id packet key now =
      bind-Settles key (λ core. check_deadline key now (lookup key core.outstanding_routes) core) _
        (λ _.
          bind-Settles key
            (λ core. put_fragments core (merge_packet network peer_id packet now core.fragments)) _
            (settle_response-Settles network peer_id key))

  answer_outstanding-waited :
      (network : String) (peer_id : ℕ) (packet : RpcPacket) (key : RpcKey) (now : ℕ)
      (core core' : RpcCore)
      → answer_outstanding codec around network peer_id packet key now core ≡ (ok true, core')
      → (route : OutstandingRoute) × (lookup key core.outstanding_routes ≡ some route)
        × (now ≤ route.deadline_ms)
  unfolding answer_outstanding
  answer_outstanding-waited network peer_id packet key now core core' h =
      let (u, t, first, then') =
        chain-ok (check_deadline key now (lookup key core.outstanding_routes) core) _ true core'
          h in
      check_deadline-ok key now (lookup key core.outstanding_routes) core t u first

  answer_outstanding-unknown :
      (network : String) (peer_id : ℕ) (packet : RpcPacket) (key : RpcKey) (now : ℕ)
      (core : RpcCore)
      → lookup key core.outstanding_routes ≡ none
      → answer_outstanding codec around network peer_id packet key now core
        ≡ (err no_transaction, core)
  unfolding answer_outstanding check_deadline
  answer_outstanding-unknown network peer_id packet key now core h = rw h refl

  abbrev answering : String → ℕ → RpcPacket → ℕ → Unit {0} → RpcAction Bool
  answering network peer_id packet now _ =
      answer_outstanding codec around network peer_id packet
        (rpc_key network peer_id packet.transaction_id false) now

  -- The run of a payload that decodes.
  handle_decoded :
      (network : String) (peer_id : ℕ) (payload : Bytes) (now : ℕ) (packet : RpcPacket)
      (core : RpcCore)
      → codec.decode_packet payload ≡ some packet
      → handle_rpc_response codec around network peer_id payload now core
        ≡ chain
            (validate_envelope packet network peer_id false core)
            (answering network peer_id packet now)
  unfolding handle_rpc_response
  handle_decoded network peer_id payload now packet core h = rw h refl

  handle_unknown :
      (network : String) (peer_id : ℕ) (payload : Bytes) (now : ℕ) (packet : RpcPacket)
      (core : RpcCore)
      → codec.decode_packet payload ≡ some packet
      → lookup (rpc_key network peer_id packet.transaction_id false) core.outstanding_routes ≡ none
      → (e : RpcFailure) × (handle_rpc_response codec around network peer_id payload now core
          ≡ (err e, core))
  handle_unknown network peer_id payload now packet core h unknown =
      rw (handle_decoded network peer_id payload now packet core h)
        (elim (validate_envelope-cases packet network peer_id false core) [
          | inr (e, refused) ↦ (e, rw refused refl)
          | inl valid ↦ (
            no_transaction,
            rw valid (
                answer_outstanding-unknown network peer_id packet
                  (rpc_key network peer_id packet.transaction_id false) now core unknown),
          )
        ])

  handle_settled :
      (network : String) (peer_id : ℕ) (payload : Bytes) (now : ℕ) (packet : RpcPacket)
      (core core' : RpcCore)
      → codec.decode_packet payload ≡ some packet
      → handle_rpc_response codec around network peer_id payload now core ≡ (ok true, core')
      → answer_outstanding codec around network peer_id packet
          (rpc_key network peer_id packet.transaction_id false)
          now
          core
        ≡ (ok true, core')
  handle_settled network peer_id payload now packet core core' h e =
      elim (validate_envelope-cases packet network peer_id false core) [
        | inr (f, refused) ↦ absurd (
            err_not_ok f core core' (
              sym (ap (λ r. chain r (answering network peer_id packet now)) refused)
              ∙ sym (handle_decoded network peer_id payload now packet core h)
              ∙ e))
        | inl valid ↦
            sym (ap (λ r. chain r (answering network peer_id packet now)) valid)
            ∙ sym (handle_decoded network peer_id payload now packet core h)
            ∙ e
      ]

  -- A response is taken only for a transaction that waits for it and whose deadline has not passed, and
  -- only once: afterwards every response to this transaction is refused and changes nothing.
  pub handle_rpc_response-Once :
      (network : String) (peer_id : ℕ) (payload payload' : Bytes) (now now' : ℕ)
      (packet packet' : RpcPacket) (core core' : RpcCore)
      → codec.decode_packet payload ≡ some packet
      → codec.decode_packet payload' ≡ some packet'
      → packet'.transaction_id ≡ packet.transaction_id
      → handle_rpc_response codec around network peer_id payload now core ≡ (ok true, core')
      → ((route : OutstandingRoute) × (lookup
              (rpc_key network peer_id packet.transaction_id false)
              core.outstanding_routes
            ≡ some route)
          × (now ≤ route.deadline_ms))
        × ((e : RpcFailure) × (handle_rpc_response codec around network peer_id payload' now' core'
              ≡ (err e, core')))
  handle_rpc_response-Once network peer_id payload payload' now now' packet packet' core core' h h'
        same e =
      let key = rpc_key network peer_id packet.transaction_id false in
      let settled = handle_settled network peer_id payload now packet core core' h e in
      let done : lookup key core'.outstanding_routes ≡ none =
        subst (Done key) settled (answer_outstanding-Settles network peer_id packet key now core) in
      (
        answer_outstanding-waited network peer_id packet key now core core' settled,
        handle_unknown network peer_id payload' now' packet' core' h' (
            ap (λ id. lookup (rpc_key network peer_id id false) core'.outstanding_routes) same
            ∙ done),
      )
