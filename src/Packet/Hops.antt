-- ===== src/Packet/Hops.antt =====
-- The hop limit: how often one frame can be forwarded from relay to relay.
use intranet_penetration_clo.Common.{
  ℕ, zero, suc, ◌+◌, ◌%◌, ◌≤◌, ◌<◌, ◌≡◌, refl, drop, arith, set, ◌∙◌, ◌⊎◌, inl, inr,
}
use intranet_penetration_clo.Common.Result.{Result, ok, err, ◌>>=◌}
use native.Mathlib.Decide.{dec_le}
use intranet_penetration_clo.Packet.{
  Bytes, PacketHeader, PacketError, hop_limit_exceeded, max_forward_hops, parse_packet,
  increment_forward_counter,
}
use intranet_penetration_clo.Packet.Codec.{drop-set}
use intranet_penetration_clo.Packet.Frames.{
  parse_packet-Accepts, Accepts-parse_packet, Accepts-set_counter, Accepts,
}

-- A frame that passes `n` relays.
pub forward_times : ℕ → Bytes → Result PacketError Bytes
forward_times zero b = ok b
forward_times (suc n) b = do next ← increment_forward_counter b; forward_times n next

-- One relay adds one to the counter and keeps every other field and the payload.
pub increment_forward_counter_lem :
    (b : Bytes) (h : PacketHeader)
    → parse_packet b ≡ ok h
    → h.forward_counter ≤ max_forward_hops
    → (next : Bytes) × (increment_forward_counter b ≡ ok next)
      × (parse_packet next ≡ ok (record h { forward_counter = h.forward_counter + 1 }))
      × (drop 16 next ≡ drop 16 b)
increment_forward_counter_lem b h e le =
    let a : Accepts b h = parse_packet-Accepts b h e in
    let wraps : (h.forward_counter + 1) % 256 ≡ h.forward_counter + 1 = omega arith in
    (
      set b 10 (h.forward_counter + 1),
      unfold increment_forward_counter in rw e (ground arith),
      Accepts-parse_packet (set b 10 (h.forward_counter + 1))
          (record h { forward_counter = h.forward_counter + 1 })
          (Accepts-set_counter b h (h.forward_counter + 1) a),
      drop-set b 10 (h.forward_counter + 1) (omega arith),
    )

increment_refuses :
    (b : Bytes) (h : PacketHeader)
    → parse_packet b ≡ ok h
    → max_forward_hops < h.forward_counter
    → increment_forward_counter b ≡ err hop_limit_exceeded
unfolding increment_forward_counter
increment_refuses b h e lt = rw e (ground arith)

passes_relays :
    (n : ℕ) (b : Bytes) (h : PacketHeader)
    → parse_packet b ≡ ok h
    → h.forward_counter + n ≤ 8
    → (last : Bytes) × (forward_times n b ≡ ok last)
      × (parse_packet last ≡ ok (record h { forward_counter = h.forward_counter + n }))
      × (drop 16 last ≡ drop 16 b)
unfolding forward_times
passes_relays zero b h e le = (b, refl, ground arith, refl)
passes_relays (suc n) b h e le =
    let (next, sent, parsed, kept) = increment_forward_counter_lem b h e (omega arith) in
    let (last, rest, parsed', kept') =
      passes_relays n next (record h { forward_counter = h.forward_counter + 1 }) parsed
        (omega arith) in
    (last, rw sent rest, ground arith, kept' ∙ kept)

stops_at_limit :
    (n : ℕ) (b : Bytes) (h : PacketHeader)
    → parse_packet b ≡ ok h
    → h.forward_counter ≤ 8
    → 8 < h.forward_counter + n
    → forward_times n b ≡ err hop_limit_exceeded
unfolding forward_times
stops_at_limit zero b h e le lt = absurd (omega arith)
stops_at_limit (suc n) b h e le lt = elim (dec_le h.forward_counter max_forward_hops) [
  | yes more ↦
      let (next, sent, parsed, _) = increment_forward_counter_lem b h e more in
      rw sent (
        stops_at_limit n next (record h { forward_counter = h.forward_counter + 1 }) parsed
          (omega arith) (omega arith))
  | no last ↦ rw (increment_refuses b h e (omega arith))
]

-- What `n` relays make of a frame with header `h`: with room below the limit, the same frame with
-- a higher counter, and otherwise the error.
abbrev pub Relayed : ℕ → Bytes → PacketHeader → Type 0
Relayed n b h =
    ((h.forward_counter + n ≤ 8)
      × (last : Bytes) × (forward_times n b ≡ ok last)
      × (parse_packet last ≡ ok (record h { forward_counter = h.forward_counter + n }))
      × (drop 16 last ≡ drop 16 b))
    ⊎ ((8 < h.forward_counter + n) × (forward_times n b ≡ err hop_limit_exceeded))

-- An accepted frame whose counter `c` is at most 8 passes `n` relays exactly when `c + n` is at
-- most 8: then the counter has grown by `n` and nothing else has changed, and otherwise some relay
-- refuses it for the hop limit.
pub forward_times_limit :
    (n : ℕ) (b : Bytes) (h : PacketHeader)
    → parse_packet b ≡ ok h
    → h.forward_counter ≤ 8
    → Relayed n b h
forward_times_limit n b h e le = elim (dec_le (h.forward_counter + n) 8) [
  | yes room ↦
      let (last, sent, parsed, kept) = passes_relays n b h e room in
      inl (room, last, sent, parsed, kept)
  | no more ↦ inr (omega arith, stops_at_limit n b h e le (omega arith))
]
