-- ===== src/Server/Closing/Fuel.antt =====
-- Enough fuel: closings that set off each other close one more connection each.
use intranet_penetration_clo.Common.{
  ℕ, zero, suc, ◌≡◌, refl, ◌≤◌, ◌+◌, ◌∙◌, Bool, true, false, not, ◌||◌, Option, none, List, [], ◌∷◌,
  eqb, filter, length, arith, Bool-cases, inl, inr, ap, ◌⊎◌, sym, subst,
}
use intranet_penetration_clo.Common.Result.{Result, ok, err}
use intranet_penetration_clo.Common.Action.{raise, chain, rescue, conclude, when}
use intranet_penetration_clo.Connection.{Phase, msg1, msg3, ready, closed}
use intranet_penetration_clo.Rooms.{peers}
use intranet_penetration_clo.RouteSync.{remove_peer}
use intranet_penetration_clo.RouteSync.Requests.{send_route_update_action}
use intranet_penetration_clo.Server.{Platform, Relay, Fault, entry_of, connection_of, rpc_host}
use intranet_penetration_clo.Server.Closing.{
  State, ServerAction, is_ready, is_closed, is_excluded, on_relay, close_socket, notify_peer,
  notify_peers, broadcast_with, remove_ready, remove_with, leave, dispose, close,
}
use intranet_penetration_clo.Server.Closing.Phases.{phase_of, StayClosed, phase_of-put_entry}
use intranet_penetration_clo.Server.Closing.Monotone.{
  Closer, Shuts, update-Shut, notify_peer-Shut, leave_shut, dispose_shut, when_ready-Shut,
  chain-Shut, close_socket-Shut, close-Shut,
}

abbrev pub mem : ℕ → List ℕ → Bool
mem id [] = false
mem id (j ∷ js) = eqb j id || mem id js

module _ (p : Platform) where
  -- Every connection outside the list is closed.
  abbrev pub Covers : List ℕ → Relay p → Type 0
  Covers open_ids w = (id : ℕ) → mem id open_ids ≡ false → phase_of p w id ≡ closed

  abbrev Agree : List ℕ → Closer p → Closer p → Type 0
  Agree open_ids f g = (id code : ℕ) (s : State p) → Covers open_ids s.1 → f id code s ≡ g id code s

  module _ (open_ids : List ℕ) where
    chain_agree :
        (m m' : ServerAction p (Unit {0})) (r : Result Fault (Unit {0}) × State p)
        → Covers open_ids r.1.1
        → ((t : State p) → Covers open_ids t.1 → m t ≡ m' t)
        → chain r (λ _. m) ≡ chain r (λ _. m')
    chain_agree m m' (ok a, t) c h = h t c
    chain_agree m m' (err e, t) c h = refl

    module _ (f g : Closer p) (shuts : Shuts p f) (agree : Agree open_ids f g) where
      rescue_agree :
          (id code : ℕ) (r : Result Fault (Unit {0}) × State p)
          → Covers open_ids r.1.1
          → rescue r (λ e. f id code) ≡ rescue r (λ e. g id code)
      rescue_agree id code (ok a, t) c = refl
      rescue_agree id code (err e, t) c = agree id code t c

      notify_peer_agree :
          (excluded : Option ℕ) (id : ℕ) (s : State p)
          → Covers open_ids s.1
          → notify_peer p f excluded id s ≡ notify_peer p g excluded id s
      unfolding notify_peer
      notify_peer_agree excluded id s c =
          let k = connection_of p s.1 id in
          elim (Bool-cases (is_excluded k.peer_id excluded || not (is_ready k.phase))) [
            | inl skipped ↦ rw skipped refl
            | inr told ↦ rw told (
                rescue_agree id 1011 (send_route_update_action (rpc_host p) id false s.1.clock s)
                  (λ j out. update-Shut p id s j (c j out)))
          ]

      notify_peers_agree :
          (excluded : Option ℕ) (ids : List ℕ) (s : State p)
          → Covers open_ids s.1
          → notify_peers p f excluded ids s ≡ notify_peers p g excluded ids s
      unfolding notify_peers
      notify_peers_agree excluded [] s c = refl
      notify_peers_agree excluded (id ∷ rest) s c =
          chain_agree (notify_peers p f excluded rest) (notify_peers p g excluded rest)
            (notify_peer p f excluded id s)
            (λ j out. notify_peer-Shut p f shuts excluded id s j (c j out))
            (notify_peers_agree excluded rest)
          ∙ ap (λ r. chain r (λ _. notify_peers p g excluded rest))
              (notify_peer_agree excluded id s c)

      when_ready_agree :
          (b : Bool) (id : ℕ) (s : State p)
          → Covers open_ids s.1
          → when b (remove_ready p f id) s ≡ when b (remove_ready p g id) s
      unfolding remove_ready broadcast_with remove_peer
      when_ready_agree true id s c =
          let t = remove_peer (rpc_host p) id s.0 s.1 in
          notify_peers_agree none (peers (connection_of p t.1 id).network_name t.1.rooms) t c
      when_ready_agree false id s c = refl

  -- What is left open when a connection has left.
  abbrev others : ℕ → List ℕ → List ℕ
  others id open_ids = filter (λ j. not (eqb j id)) open_ids

  mem-others :
      (id j : ℕ) (open_ids : List ℕ)
      → mem j (others id open_ids) ≡ false
      → (j ≡ id) ⊎ (mem j open_ids ≡ false)
  mem-others id j [] h = inr refl
  mem-others id j (k ∷ ks) h = ground (arith, mem-others id j ks)

  length-others_le : (id : ℕ) (open_ids : List ℕ) → length (others id open_ids) ≤ length open_ids
  length-others_le id [] = omega arith
  length-others_le id (k ∷ ks) = ground (arith, length-others_le id ks)

  length-others :
      (id : ℕ) (open_ids : List ℕ)
      → mem id open_ids ≡ true
      → suc (length (others id open_ids)) ≤ length open_ids
  length-others id [] h = ground arith
  length-others id (k ∷ ks) h = ground (arith, length-others id ks, length-others_le id ks)

  leave_id : (f : Closer p) (id : ℕ) (w : Relay p) → phase_of p (leave p f id w) id ≡ closed
  leave_id f id w = ground (
    arith,
    phase_of-put_entry p id id
        (record (entry_of p w id) { connection = record (connection_of p w id) { phase = closed } })
        w,
  )

  leave-Covers :
      (f : Closer p) (shuts : Shuts p f) (id : ℕ) (open_ids : List ℕ) (w : Relay p)
      → Covers open_ids w
      → Covers (others id open_ids) (leave p f id w)
  leave-Covers f shuts id open_ids w c j out = elim (mem-others id j open_ids out) [
    | inl same ↦ subst (λ i. phase_of p (leave p f id w) i ≡ closed) (sym same) (leave_id f id w)
    | inr away ↦ leave_shut p f shuts id w j (c j away)
  ]

  remove_with-Agree :
      (f g : Closer p) (shuts : Shuts p f) (id : ℕ) (open_ids : List ℕ)
      → Agree (others id open_ids) f g
      → (s : State p) → Covers open_ids s.1
      → remove_with p f id s ≡ remove_with p g id s
  unfolding remove_with
  remove_with-Agree f g shuts id open_ids agree s c =
      elim (Bool-cases (is_closed (phase_of p s.1 id))) [
        | inl shut ↦ rw shut refl
        | inr live ↦ rw live (
            ap (λ r. chain r (λ _. on_relay p (dispose p g id)))
              (when_ready_agree (others id open_ids) f g shuts agree (is_ready (phase_of p s.1 id))
                id (s.0, leave p f id s.1) (leave-Covers f shuts id open_ids s.1 c)))
      ]

  conclude_agree :
      (open_ids : List ℕ) (last last' : ServerAction p (Unit {0}))
      (r : Result Fault (Unit {0}) × State p)
      → Covers open_ids r.1.1
      → ((t : State p) → Covers open_ids t.1 → last t ≡ last' t)
      → conclude r last ≡ conclude r last'
  conclude_agree open_ids last last' (ok a, t) c h = h t c
  conclude_agree open_ids last last' (err e, t) c h = ap (λ r. chain r (λ _. raise e)) (h t c)

  closed_of : (phase : Phase) → phase ≡ closed → is_closed phase ≡ true
  closed_of phase h = rw h refl

  close_step :
      (fuel : ℕ) (open_ids : List ℕ)
      → length open_ids ≤ fuel
      → Agree open_ids (close p fuel) (close p (suc fuel))
  unfolding close
  close_step zero [] le id code s c = rw (closed_of (phase_of p s.1 id) (c id refl)) refl
  close_step zero (k ∷ ks) le id code s c = absurd (omega arith)
  close_step (suc fuel) open_ids le id code s c =
      elim (Bool-cases (is_closed (phase_of p s.1 id))) [
        | inl shut ↦ rw shut refl
        | inr live ↦ rw live (
            conclude_agree open_ids (remove_with p (close p fuel) id)
              (remove_with p (close p (suc fuel)) id) (close_socket p id code s)
              (λ j out. close_socket-Shut p id code s j (c j out))
              (remove_with-Agree (close p fuel) (close p (suc fuel)) (close-Shut p fuel) id open_ids
                (close_step fuel (others id open_ids) (fewer live))))
      ]
    where
      fewer : is_closed (phase_of p s.1 id) ≡ false → length (others id open_ids) ≤ fuel
      fewer live = elim (Bool-cases (mem id open_ids)) [
        | inl inside ↦ omega (arith, length-others id open_ids inside)
        | inr outside ↦ absurd (ground (arith, closed_of (phase_of p s.1 id) (c id outside)))
      ]

  same_fuel :
      {m n : ℕ} (id code : ℕ) (s : State p) → m ≡ n → close p m id code s ≡ close p n id code s
  same_fuel id code s e = ap (λ k. close p k id code s) e

  -- Where a list holds every connection that is not closed, fuel for its length is enough for a
  -- closing and all that it sets off: more fuel changes neither the result nor the state.
  pub close_enough :
      (extra fuel id code : ℕ) (open_ids : List ℕ) (s : State p)
      → Covers open_ids s.1
      → length open_ids ≤ fuel
      → close p (extra + fuel) id code s ≡ close p fuel id code s
  close_enough zero fuel id code open_ids s c le = same_fuel id code s (omega arith)
  close_enough (suc extra) fuel id code open_ids s c le =
      same_fuel id code s (omega arith)
      ∙ sym (close_step (extra + fuel) open_ids (omega arith) id code s c)
      ∙ close_enough extra fuel id code open_ids s c le

  closed_if : (phase : Phase) → is_closed phase ≡ true → phase ≡ closed
  closed_if closed h = refl
  closed_if msg1 h = ground arith
  closed_if msg3 h = ground arith
  closed_if ready h = ground arith

  remove_with_closes :
      (f : Closer p) (shuts : Shuts p f) (id : ℕ) (s : State p)
      → phase_of p (remove_with p f id s).1.1 id ≡ closed
  unfolding remove_with
  remove_with_closes f shuts id s = elim (Bool-cases (is_closed (phase_of p s.1 id))) [
    | inl shut ↦ rw shut (closed_if (phase_of p s.1 id) shut)
    | inr live ↦
        let left : State p = (s.0, leave p f id s.1) in
        rw live (
          chain-Shut p (on_relay p (dispose p f id)) left
            (when (is_ready (phase_of p s.1 id)) (remove_ready p f id) left)
            (when_ready-Shut p f shuts (is_ready (phase_of p s.1 id)) id left)
            (λ t. dispose_shut p f shuts id t.1) id (leave_id f id s.1))
  ]

  conclude_closes :
      (fuel id : ℕ) (r : Result Fault (Unit {0}) × State p)
      → phase_of p (conclude r (remove_with p (close p fuel) id)).1.1 id ≡ closed
  conclude_closes fuel id (ok a, t) = remove_with_closes (close p fuel) (close-Shut p fuel) id t
  conclude_closes fuel id (err e, t) =
      chain-Shut p (raise e) (remove_with p (close p fuel) id t).1
        (remove_with p (close p fuel) id t) (λ j down. down) (λ u j down. down) id
        (remove_with_closes (close p fuel) (close-Shut p fuel) id t)

  -- With one unit of fuel or more, closing ends with the connection closed, whichever sockets fail,
  -- and no connection that was closed is open afterwards.
  pub close_closes :
      (fuel id code : ℕ) (s : State p)
      → let after = close p (suc fuel) id code s in
        (phase_of p after.1.1 id ≡ closed) × StayClosed p s.1 after.1.1
  unfolding close
  close_closes fuel id code s = (
    elim (Bool-cases (is_closed (phase_of p s.1 id))) [
      | inl shut ↦ rw shut (closed_if (phase_of p s.1 id) shut)
      | inr live ↦ rw live (conclude_closes fuel id (close_socket p id code s))
    ],
    close-Shut p (suc fuel) id code s,
  )
