-- ===== src/Server/Closing.antt =====
-- Closing a connection, which tells the others of its network, and may close them in turn: `close`,
-- `removeConnection` and `broadcastRouteUpdate` of cloudflare/src/server.ts. Each closing marks one
-- more connection closed, so fuel for those that are not suffices.
pub mod Phases
pub mod Monotone
pub mod Fuel
use intranet_penetration_clo.Common.{
  ℕ, zero, suc, String, Bool, true, false, not, ◌&&◌, ◌||◌, Option, none, some, List, [], ◌∷◌, eqb,
  filter, if◌then◌else◌,
}
use intranet_penetration_clo.Common.Result.{ok, err}
use intranet_penetration_clo.Common.Action.{Action, pure, ◌>>◌, catching, finally, update, when}
use intranet_penetration_clo.Connection.{Phase, msg1, msg3, ready, closed, dispose_connection}
use intranet_penetration_clo.RouteSync.{SyncStates, remove_peer}
use intranet_penetration_clo.RouteSync.Requests.{send_route_update_action}
use intranet_penetration_clo.Rooms.{delete_connection, peers}
use intranet_penetration_clo.Server.{
  Platform, Relay, Fault, entry_of, connection_of, put_entry, put_connection, rpc_host,
  socket_fault, out_of_fuel,
}

abbrev pub is_ready : Phase → Bool
is_ready ready = true
is_ready msg1 = false
is_ready msg3 = false
is_ready closed = false

abbrev pub is_closed : Phase → Bool
is_closed closed = true
is_closed msg1 = false
is_closed msg3 = false
is_closed ready = false

-- `peer.peerId === excludePeerId`
abbrev pub is_excluded : ℕ → Option ℕ → Bool
is_excluded peer_id none = false
is_excluded peer_id (some excluded) = eqb peer_id excluded

abbrev is_empty : List ℕ → Bool
is_empty [] = true
is_empty (_ ∷ _) = false

module _ (p : Platform) where
  abbrev pub State : Type 0
  State = SyncStates × Relay p

  abbrev pub ServerAction : Type 0 → Type 0
  ServerAction A = Action Fault State A

  abbrev pub on_relay : (Relay p → Relay p) → ServerAction (Unit {0})
  on_relay f = update (λ s. (s.0, f s.1))

  -- `connection.socket.close`
  pub close_socket : ℕ → ℕ → ServerAction (Unit {0})
  close_socket id code s =
      if p.close_throws id s.1.socket_calls
      then (err socket_fault, (s.0, record s.1 { socket_calls = suc s.1.socket_calls }))
      else on_relay
          (λ w. record (put_entry p id (record (entry_of p w id) { is_open = false }) w) {
            socket_calls = suc w.socket_calls;
            closings = (id, code) ∷ w.closings;
          })
          s

  module _ (close : ℕ → ℕ → ServerAction (Unit {0})) where
    -- The round of the loop for one peer. A peer that an earlier round has closed is not ready.
    pub notify_peer : Option ℕ → ℕ → ServerAction (Unit {0})
    notify_peer excluded id s =
        let c = connection_of p s.1 id in
        if is_excluded c.peer_id excluded || not (is_ready c.phase)
        then (ok tt, s)
        else catching (send_route_update_action (rpc_host p) id false s.1.clock)
            (λ e. close id 1011) s

    pub notify_peers : Option ℕ → List ℕ → ServerAction (Unit {0})
    unfolding notify_peer
    notify_peers excluded [] = pure tt
    notify_peers excluded (id ∷ rest) = do notify_peer excluded id; notify_peers excluded rest

    unfoldable pub broadcast_with : String → Option ℕ → ServerAction (Unit {0})
    unfolding notify_peers
    broadcast_with network excluded s = notify_peers excluded (peers network s.1.rooms) s

    -- `this.rpc.removePeer` and the broadcast, for a connection that was ready.
    pub remove_ready : ℕ → ServerAction (Unit {0})
    unfolding broadcast_with
    remove_ready id = do
      (λ s. (ok tt, remove_peer (rpc_host p) id s.0 s.1))
      (λ s. broadcast_with (connection_of p s.1 id).network_name none s)

    abbrev pub leave : ℕ → Relay p → Relay p
    leave id w =
        let c = connection_of p w id in
        let rest = filter (λ other. not (eqb other id)) w.connections in
        record (put_connection p id (record c { phase = closed }) w) {
          connections = rest;
          maintenance_timer = w.maintenance_timer && not (is_empty rest);
          rooms = (delete_connection c.network_name c.peer_id id w.rooms).0;
        }

    abbrev pub dispose : ℕ → Relay p → Relay p
    dispose id w =
        put_entry p id
          (record (entry_of p w id) {
            connection = dispose_connection (connection_of p w id);
            secure = none;
          })
          w

    unfoldable pub remove_with : ℕ → ServerAction (Unit {0})
    unfolding remove_ready
    remove_with id s =
        let phase = (connection_of p s.1 id).phase in
        if is_closed phase
        then (ok tt, s)
        else (do
          on_relay (leave id)
          when (is_ready phase) (remove_ready id)
          on_relay (dispose id))
            s

  unfoldable pub close : ℕ → ℕ → ℕ → ServerAction (Unit {0})
  unfolding close_socket
  close zero id code s =
      if is_closed (connection_of p s.1 id).phase then (ok tt, s) else (err out_of_fuel, s)
  close (suc fuel) id code s =
      if is_closed (connection_of p s.1 id).phase
      then (ok tt, s)
      else finally (close_socket id code) (remove_with (close fuel) id) s
