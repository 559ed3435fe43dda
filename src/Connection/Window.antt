-- ===== src/Connection/Window.antt =====
-- The budget of a connection: what it sends in one window of its own.
use intranet_penetration_clo.Common.{
  ℕ, ◌+◌, ◌≤◌, ◌<◌, ◌≡◌, refl, Bool, false, List, [], ◌∷◌, leb, if◌then◌else◌, arith, All,
  Bool-cases, inl, inr, leb→le, sym,
}
use intranet_penetration_clo.Common.Result.{Result, ok, err}
use intranet_penetration_clo.Connection.{
  SendError, Connection, create_connection, meter_packet, send_connection, refresh_window,
  over_capacity, max_send_bytes_per_window, max_send_frames_per_window, send_window_ms,
}

-- A packet that the socket was given: the time and the size.
pub record Sent : Type 0 where
  pub at : ℕ
  pub size : ℕ

-- The bytes and the packets sent from a time on.
unfoldable pub bytes_since : ℕ → List Sent → ℕ
bytes_since start [] = 0
bytes_since start (p ∷ log) = (if leb start p.at then p.size else 0) + bytes_since start log

unfoldable pub frames_since : ℕ → List Sent → ℕ
frames_since start [] = 0
frames_since start (p ∷ log) = (if leb start p.at then 1 else 0) + frames_since start log

abbrev logged : ℕ → ℕ → Result SendError (Unit {0}) → List Sent → List Sent
logged now size (ok _) log = record { at = now; size = size } ∷ log
logged now size (err _) log = log

-- At time `now` the counters count what was sent since the window began, within the limits, and
-- nothing was sent after the window's end.
pub record IsMetered (now : ℕ) (c : Connection) (log : List Sent) : Type 0 where
  pub begun : c.send_window_started_at ≤ now
  pub recent : All (λ p. p.at < c.send_window_started_at + send_window_ms) log
  pub bytes : c.sent_bytes_in_window ≡ bytes_since c.send_window_started_at log
  pub frames : c.sent_frames_in_window ≡ frames_since c.send_window_started_at log
  pub byte_limit : c.sent_bytes_in_window ≤ max_send_bytes_per_window
  pub frame_limit : c.sent_frames_in_window ≤ max_send_frames_per_window

bytes_since-none :
    (start : ℕ) (log : List Sent) → All (λ p. p.at < start) log → bytes_since start log ≡ 0
unfolding bytes_since
bytes_since-none start [] h = refl
bytes_since-none start (p ∷ log) h = ground (arith, bytes_since-none start log)

frames_since-none :
    (start : ℕ) (log : List Sent) → All (λ p. p.at < start) log → frames_since start log ≡ 0
unfolding frames_since
frames_since-none start [] h = refl
frames_since-none start (p ∷ log) h = ground (arith, frames_since-none start log)

All-lt_mono :
    (a b : ℕ) (log : List Sent) → a ≤ b → All (λ p. p.at < a) log → All (λ p. p.at < b) log
All-lt_mono a b [] h all = tt
All-lt_mono a b (p ∷ log) h all = (omega arith, All-lt_mono a b log h all.1)

refresh_window-IsMetered :
    (now : ℕ) (t : ℕ) (c : Connection) (log : List Sent)
    → IsMetered t c log
    → t ≤ now
    → IsMetered now (refresh_window now c) log
      × (now < (refresh_window now c).send_window_started_at + send_window_ms)
unfolding refresh_window
refresh_window-IsMetered now t c log m le =
    elim (Bool-cases (leb (c.send_window_started_at + send_window_ms) now)) [
      | inl over ↦
          let before =
            All-lt_mono (c.send_window_started_at + send_window_ms) now log (leb→le _ _ over)
              m.recent in
          rw over (
            record {
              begun = omega arith;
              recent = All-lt_mono now (now + send_window_ms) log (omega arith) before;
              bytes = sym (bytes_since-none now log before);
              frames = sym (frames_since-none now log before);
              byte_limit = omega arith;
              frame_limit = omega arith;
            },
            omega arith,
          )
      | inr within ↦ rw within (
        record {
          begun = omega (arith, m.begun);
          recent = m.recent;
          bytes = m.bytes;
          frames = m.frames;
          byte_limit = m.byte_limit;
          frame_limit = m.frame_limit;
        },
        ground arith,
      )
    ]

counted :
    (now size : ℕ) (c : Connection) (log : List Sent)
    → IsMetered now c log
    → now < c.send_window_started_at + send_window_ms
    → over_capacity size c ≡ false
    → IsMetered now
        (record c {
          sent_bytes_in_window = c.sent_bytes_in_window + size;
          sent_frames_in_window = c.sent_frames_in_window + 1;
        })
        (record { at = now; size = size } ∷ log)
unfolding bytes_since frames_since
counted now size c log m within fits = record {
  begun = m.begun;
  recent = (within, m.recent);
  bytes = ground (arith, m.bytes, m.begun);
  frames = ground (arith, m.frames, m.begun);
  byte_limit = ground arith;
  frame_limit = ground arith;
}

meter_packet-IsMetered :
    (now size : ℕ) (is_open : Bool) (c : Connection) (log : List Sent)
    → IsMetered now c log
    → now < c.send_window_started_at + send_window_ms
    → let r = meter_packet is_open size c in IsMetered now r.1 (logged now size r.0 log)
unfolding meter_packet
meter_packet-IsMetered now size is_open c log m within = elim (Bool-cases (over_capacity size c)) [
  | inl over ↦ rw over m
  | inr fits ↦ elim (Bool-cases is_open) [
    | inl up ↦ rw (fits, up) (counted now size c log m within fits)
    | inr down ↦ rw (fits, down) m
  ]
]

pub send_connection-IsMetered :
    (now t size : ℕ) (is_open : Bool) (c : Connection) (log : List Sent)
    → IsMetered t c log
    → t ≤ now
    → let r = send_connection now is_open size c in IsMetered now r.1 (logged now size r.0 log)
unfolding send_connection
send_connection-IsMetered now t size is_open c log m le =
    let (m', within) = refresh_window-IsMetered now t c log m le in
    meter_packet-IsMetered now size is_open (refresh_window now c) log m' within

-- One call of `send`: its time, whether the socket is open, and the packet's size.
pub record Attempt : Type 0 where
  pub at : ℕ
  pub is_open : Bool
  pub size : ℕ

-- A run of calls, with what the socket was given.
unfoldable pub send_all : Connection × List Sent → List Attempt → Connection × List Sent
send_all (c, log) [] = (c, log)
send_all (c, log) (a ∷ rest) =
    let r = send_connection a.at a.is_open a.size c in
    send_all (r.1, logged a.at a.size r.0 log) rest

abbrev pub InOrder : ℕ → List Attempt → Type 0
InOrder now [] = Unit
InOrder now (a ∷ rest) = (now ≤ a.at) × InOrder a.at rest

abbrev pub last_time : ℕ → List Attempt → ℕ
last_time now [] = now
last_time now (a ∷ rest) = last_time a.at rest

send_all-IsMetered :
    (now : ℕ) (c : Connection) (log : List Sent) (attempts : List Attempt)
    → IsMetered now c log
    → InOrder now attempts
    → let end = send_all (c, log) attempts in IsMetered (last_time now attempts) end.0 end.1
unfolding send_all
send_all-IsMetered now c log [] m h = m
send_all-IsMetered now c log (a ∷ rest) m h =
    send_all-IsMetered a.at _ _ rest
      (send_connection-IsMetered a.at now a.size a.is_open c log m h.0) h.1

-- Whatever calls of `send` a new connection gets, at times that do not run backwards, what the
-- socket was given since the current window began is what the counters say: at most 32 MiB and
-- 4096 packets, none of them later than one second after the window's begin.
pub send_all_budget :
    (now high low : ℕ) (attempts : List Attempt)
    → InOrder now attempts
    → let end = send_all (create_connection now high low, []) attempts in
      IsMetered (last_time now attempts) end.0 end.1
unfolding create_connection bytes_since frames_since
send_all_budget now high low attempts h = send_all-IsMetered now _ [] attempts (omega arith) h
