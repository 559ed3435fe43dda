-- ===== src/Server/Closing/Monotone.antt =====
-- No step of a closing opens a connection that was closed.
use intranet_penetration_clo.Common.{
  ℕ, zero, suc, refl, Bool, true, false, not, ◌||◌, Option, none, List, [], ◌∷◌, Bool-cases, inl,
  inr,
}
use intranet_penetration_clo.Common.Result.{Result, ok, err}
use intranet_penetration_clo.Common.Action.{raise, chain, rescue, conclude, when}
use intranet_penetration_clo.Connection.{closed, dispose_connection}
use intranet_penetration_clo.Rooms.{peers}
use intranet_penetration_clo.RouteSync.{remove_peer}
use intranet_penetration_clo.RouteSync.Requests.{send_route_update_action}
use intranet_penetration_clo.RouteSync.Effects.{send_route_update-kept}
use intranet_penetration_clo.Server.{Platform, Relay, Fault, entry_of, connection_of, rpc_host}
use intranet_penetration_clo.Server.Closing.{
  State, ServerAction, is_ready, is_closed, is_excluded, on_relay, close_socket, notify_peer,
  notify_peers, broadcast_with, remove_ready, remove_with, leave, dispose, close,
}
use intranet_penetration_clo.Server.Closing.Phases.{
  phase_of, StayClosed, put_entry-StayClosed, put_entry-closes, rpc_host-IsKept,
}

module _ (p : Platform) where
  abbrev pub Shut : {A : Type 0} → State p → Result Fault A × State p → Type 0
  Shut s r = StayClosed p s.1 r.1.1

  abbrev pub Closer : Type 0
  Closer = ℕ → ℕ → ServerAction p (Unit {0})

  abbrev pub Shuts : Closer → Type 0
  Shuts f = (id code : ℕ) (s : State p) → Shut s (f id code s)

  pub update-Shut :
      (id : ℕ) (s : State p) → Shut s (send_route_update_action (rpc_host p) id false s.1.clock s)
  update-Shut id s =
      send_route_update-kept (rpc_host p) (StayClosed p) (rpc_host-IsKept p) id false s.1.clock s.0
        s.1

  pub chain-Shut :
      (m : ServerAction p (Unit {0})) (s : State p) (r : Result Fault (Unit {0}) × State p)
      → Shut s r
      → ((t : State p) → Shut t (m t))
      → Shut s (chain r (λ _. m))
  chain-Shut m s (ok a, t) h k = λ j down. k t j (h j down)
  chain-Shut m s (err e, t) h k = h

  module _ (f : Closer) (shuts : Shuts f) where
    rescue-Shut :
        (id code : ℕ) (s : State p) (r : Result Fault (Unit {0}) × State p)
        → Shut s r
        → Shut s (rescue r (λ e. f id code))
    rescue-Shut id code s (ok a, t) h j down = h j down
    rescue-Shut id code s (err e, t) h j down = shuts id code t j (h j down)

    pub notify_peer-Shut :
        (excluded : Option ℕ) (id : ℕ) (s : State p) → Shut s (notify_peer p f excluded id s)
    unfolding notify_peer
    notify_peer-Shut excluded id s =
        let c = connection_of p s.1 id in
        elim (Bool-cases (is_excluded c.peer_id excluded || not (is_ready c.phase))) [
          | inl skipped ↦ rw skipped (λ j down. down)
          | inr told ↦ rw told (
              rescue-Shut id 1011 s (send_route_update_action (rpc_host p) id false s.1.clock s)
                (update-Shut id s))
        ]

    notify_peers-Shut :
        (excluded : Option ℕ) (ids : List ℕ) (s : State p)
        → Shut s (notify_peers p f excluded ids s)
    unfolding notify_peers
    notify_peers-Shut excluded [] s = λ j down. down
    notify_peers-Shut excluded (id ∷ rest) s =
        chain-Shut (notify_peers p f excluded rest) s (notify_peer p f excluded id s)
          (notify_peer-Shut excluded id s) (notify_peers-Shut excluded rest)

    remove_ready-Shut : (id : ℕ) (s : State p) → Shut s (remove_ready p f id s)
    unfolding remove_ready broadcast_with remove_peer
    remove_ready-Shut id s =
        let t = remove_peer (rpc_host p) id s.0 s.1 in
        notify_peers-Shut none (peers (connection_of p t.1 id).network_name t.1.rooms) t

    pub leave_shut : (id : ℕ) (w : Relay p) → StayClosed p w (leave p f id w)
    leave_shut id w =
        put_entry-closes p id
          (record (entry_of p w id) {
            connection = record (connection_of p w id) { phase = closed };
          })
          w refl

    pub dispose_shut : (id : ℕ) (w : Relay p) → StayClosed p w (dispose p f id w)
    unfolding dispose_connection
    dispose_shut id w =
        put_entry-StayClosed p id
          (record (entry_of p w id) {
            connection = dispose_connection (connection_of p w id);
            secure = none;
          })
          w refl

    pub when_ready-Shut :
        (b : Bool) (id : ℕ) (s : State p) → Shut s (when b (remove_ready p f id) s)
    when_ready-Shut true id s = remove_ready-Shut id s
    when_ready-Shut false id s = λ j down. down

    pub remove_with-Shut : (id : ℕ) (s : State p) → Shut s (remove_with p f id s)
    unfolding remove_with
    remove_with-Shut id s = elim (Bool-cases (is_closed (phase_of p s.1 id))) [
      | inl shut ↦ rw shut (λ j down. down)
      | inr live ↦
          let left : State p = (s.0, leave p f id s.1) in
          let told = when (is_ready (phase_of p s.1 id)) (remove_ready p f id) left in
          rw live (
            chain-Shut (on_relay p (dispose p f id)) s told
              (λ j down.
                when_ready-Shut (is_ready (phase_of p s.1 id)) id left j (leave_shut id s.1 j down))
              (λ t. dispose_shut id t.1))
    ]

  pub close_socket-Shut : (id code : ℕ) (s : State p) → Shut s (close_socket p id code s)
  unfolding close_socket
  close_socket-Shut id code s = elim (Bool-cases (p.close_throws id s.1.socket_calls)) [
    | inl bad ↦ rw bad (λ j down. down)
    | inr good ↦
        rw good
          (put_entry-StayClosed p id (record (entry_of p s.1 id) { is_open = false }) s.1 refl)
  ]

  conclude-Shut :
      (last : ServerAction p (Unit {0})) (s : State p) (r : Result Fault (Unit {0}) × State p)
      → Shut s r
      → ((t : State p) → Shut t (last t))
      → Shut s (conclude r last)
  conclude-Shut last s (ok a, t) h k = λ j down. k t j (h j down)
  conclude-Shut last s (err e, t) h k =
      chain-Shut (raise e) s (last t) (λ j down. k t j (h j down)) (λ u j down. down)

  pub close-Shut : (fuel id code : ℕ) (s : State p) → Shut s (close p fuel id code s)
  unfolding close
  close-Shut zero id code s = elim (Bool-cases (is_closed (phase_of p s.1 id))) [
    | inl shut ↦ rw shut (λ j down. down)
    | inr live ↦ rw live (λ j down. down)
  ]
  close-Shut (suc fuel) id code s = elim (Bool-cases (is_closed (phase_of p s.1 id))) [
    | inl shut ↦ rw shut (λ j down. down)
    | inr live ↦ rw live (
        conclude-Shut (remove_with p (close p fuel) id) s (close_socket p id code s)
          (close_socket-Shut id code s) (remove_with-Shut (close p fuel) (close-Shut fuel) id))
  ]
