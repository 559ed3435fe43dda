-- ===== src/Server/Closing/Phases.antt =====
-- No operation of a closing opens a connection again.
use intranet_penetration_clo.Common.{
  ℕ, ◌≡◌, refl, Bool, Option, none, some, eqb, length, if◌then◌else◌, arith, Bool-cases, inl, inr,
}
use intranet_penetration_clo.Common.Result.{Result, ok, err}
use intranet_penetration_clo.Common.Dict.{lookup-insert}
use intranet_penetration_clo.Common.Key.{nat_key}
use intranet_penetration_clo.Packet.{Bytes}
use intranet_penetration_clo.Connection.{
  Connection, Phase, SendError, closed, send_connection, meter_packet, refresh_window,
}
use intranet_penetration_clo.RouteSync.Effects.{IsKept}
use intranet_penetration_clo.Server.{
  Platform, Entry, Relay, entry_of, connection_of, put_entry, put_connection, rpc_host, call_secure,
  send_packet, with_secure, deliver,
}

send_connection-phase :
    (now size : ℕ) (is_open : Bool) (c : Connection)
    → (send_connection now is_open size c).1.phase ≡ c.phase
unfolding send_connection refresh_window meter_packet
send_connection-phase now size is_open c = ground arith

module _ (p : Platform) where
  abbrev pub phase_of : Relay p → ℕ → Phase
  phase_of w id = (connection_of p w id).phase

  -- What is closed stays closed.
  abbrev pub StayClosed : Relay p → Relay p → Type 0
  StayClosed w w' = (id : ℕ) → phase_of w id ≡ closed → phase_of w' id ≡ closed

  pub phase_of-put_entry :
      (id j : ℕ) (entry : Entry p) (w : Relay p)
      → phase_of (put_entry p id entry w) j
        ≡ (if eqb id j then entry.connection.phase else phase_of w j)
  phase_of-put_entry id j entry w = ground (arith, lookup-insert id j entry w.entries)

  pub put_entry-StayClosed :
      (id : ℕ) (entry : Entry p) (w : Relay p)
      → entry.connection.phase ≡ phase_of w id
      → StayClosed w (put_entry p id entry w)
  put_entry-StayClosed id entry w same j down = ground (arith, phase_of-put_entry id j entry w)

  pub put_entry-closes :
      (id : ℕ) (entry : Entry p) (w : Relay p)
      → entry.connection.phase ≡ closed
      → StayClosed w (put_entry p id entry w)
  put_entry-closes id entry w shut j down = ground (arith, phase_of-put_entry id j entry w)

  with_secure-StayClosed :
      {A : Type 0} (id : ℕ) (operation : p.Secure → Option A × p.Secure) (secure : Option p.Secure)
      (w : Relay p)
      → StayClosed w (with_secure p id operation secure w).1
  unfolding with_secure
  with_secure-StayClosed id operation none w j down = down
  with_secure-StayClosed id operation (some secure) w j down =
      put_entry-StayClosed id (record (entry_of p w id) { secure = some (operation secure).1 }) w
        refl j down

  call_secure-StayClosed :
      {A : Type 0} (id : ℕ) (operation : p.Secure → Option A × p.Secure) (w : Relay p)
      → StayClosed w (call_secure p id operation w).1
  unfolding call_secure
  call_secure-StayClosed id operation w =
      with_secure-StayClosed id operation (entry_of p w id).secure w

  deliver-StayClosed :
      (id : ℕ) (packet : Bytes) (r : Result SendError (Unit {0})) (w : Relay p)
      → StayClosed w (deliver p id packet r w).1
  unfolding deliver
  deliver-StayClosed id packet (err e) w j down = down
  deliver-StayClosed id packet (ok _) w j down =
      elim (Bool-cases (p.send_throws id w.socket_calls)) [
        | inl bad ↦ rw bad down
        | inr good ↦ rw good down
      ]

  send_packet-StayClosed :
      (id : ℕ) (packet : Bytes) (w : Relay p) → StayClosed w (send_packet p id packet w).1
  unfolding send_packet
  send_packet-StayClosed id packet w j down =
      let metered =
        send_connection w.clock (entry_of p w id).is_open (length packet) (connection_of p w id) in
      deliver-StayClosed id packet metered.0 (put_connection p id metered.1 w) j (
        put_entry-StayClosed id (record (entry_of p w id) { connection = metered.1 }) w
          (send_connection-phase w.clock (length packet) (entry_of p w id).is_open
            (connection_of p w id))
          j down)

  pub rpc_host-IsKept : IsKept (rpc_host p) StayClosed
  rpc_host-IsKept = record {
    stays = λ w j down. down;
    follows = λ u v w f g j down. g j (f j down);
    building = λ peer full now w j down. down;
    encrypting = λ peer packet w. call_secure-StayClosed peer (p.encrypt_packet packet) w;
    sending = send_packet-StayClosed;
  }
