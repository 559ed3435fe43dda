-- ===== src/Connection.antt =====
-- A WebSocket connection: cloudflare/src/runtime/connection.ts. The socket and the secure peer are
-- known by the connection's number, and belong to the state of the relay.
pub mod Window
mod Tests
use intranet_penetration_clo.Common.{
  ℕ, ◌+◌, ◌*◌, String, Bool, true, false, ◌||◌, Option, none, some, List, [], ltb, leb, eqb, length,
  if◌then◌else◌,
}
use intranet_penetration_clo.Common.Result.{Result, ok, err}
use intranet_penetration_clo.Packet.{Bytes}

pub data Phase : Type 0 where
  msg1 msg3 ready closed : Phase

abbrev pub handshake_timeout_ms : ℕ
handshake_timeout_ms = 10_000

abbrev pub send_window_ms : ℕ
send_window_ms = 1_000

abbrev pub max_send_bytes_per_window : ℕ
max_send_bytes_per_window = 32 * 1024 * 1024

abbrev pub max_send_frames_per_window : ℕ
max_send_frames_per_window = 4_096

pub record Connection : Type 0 where
  pub peer_id : ℕ
  pub network_name : String
  pub server_session_id : ℕ
  pub remote_public_key : Bytes
  pub phase : Phase
  pub handshake_timer : Bool
  pub send_window_started_at : ℕ
  pub sent_bytes_in_window : ℕ
  pub sent_frames_in_window : ℕ

-- `randomU64` on the two words that the runtime draws.
unfoldable pub random_u64 : (high low : ℕ) → ℕ
random_u64 high low = if eqb (high * 4294967296 + low) 0 then 1 else high * 4294967296 + low

-- `createConnection`, at the time of its call.
unfoldable pub create_connection : (now high low : ℕ) → Connection
unfolding random_u64
create_connection now high low = record {
  peer_id = 0;
  network_name = "";
  server_session_id = random_u64 high low;
  remote_public_key = [];
  phase = msg1;
  handshake_timer = true;
  send_window_started_at = now;
  sent_bytes_in_window = 0;
  sent_frames_in_window = 0;
}

unfoldable pub complete_handshake : Connection → Connection
complete_handshake c = record c { handshake_timer = false; phase = ready }

-- `disposeConnection`, less the release of the secure peer.
unfoldable pub dispose_connection : Connection → Connection
dispose_connection c = record c { handshake_timer = false }

pub data SendError : Type 0 where
  capacity_exceeded not_open : SendError

-- A window that has run its second starts anew.
unfoldable pub refresh_window : ℕ → Connection → Connection
refresh_window now c =
    if leb (c.send_window_started_at + send_window_ms) now
    then record c {
      send_window_started_at = now;
      sent_bytes_in_window = 0;
      sent_frames_in_window = 0;
    }
    else c

abbrev pub over_capacity : ℕ → Connection → Bool
over_capacity size c =
    ltb max_send_bytes_per_window (c.sent_bytes_in_window + size)
    || leb max_send_frames_per_window c.sent_frames_in_window

-- `sendConnection` from the capacity test up to `socket.send`, for a packet of `size` bytes.
unfoldable pub meter_packet :
    (is_open : Bool) → (size : ℕ) → Connection → Result SendError (Unit {0}) × Connection
meter_packet is_open size c =
    if over_capacity size c
    then (err capacity_exceeded, c)
    else if is_open
    then (
      ok tt,
      record c {
        sent_bytes_in_window = c.sent_bytes_in_window + size;
        sent_frames_in_window = c.sent_frames_in_window + 1;
      },
    )
    else (err not_open, c)

-- `sendConnection` up to `socket.send`: the connection changes also where it throws.
unfoldable pub send_connection :
    (now : ℕ)
    → (is_open : Bool) → (size : ℕ) → Connection
    → Result SendError (Unit {0}) × Connection
send_connection now is_open size c = meter_packet is_open size (refresh_window now c)
