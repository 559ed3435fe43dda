-- ===== src/PeerCenter/Answers.antt =====
-- What the peer center answers, and what its digest stands for.
use intranet_penetration_clo.Common.{
  ℕ, ◌≡◌, ◌≢◌, refl, String, Bool, true, false, not, ◌&&◌, Option, none, some, List, [], ◌∷◌, eqb,
  if◌then◌else◌, arith, Bool-cases, inl, inr, ◌⊎◌, ◌∙◌, ap, sym,
}
use intranet_penetration_clo.Common.Dict.{Dict, lookup}
use intranet_penetration_clo.Common.Dict.Sums.{IsDistinct}
use intranet_penetration_clo.Common.Key.{pair_key, text_key, nat_key, list_same, list_same_iff}
use intranet_penetration_clo.PeerCenter.{
  Pair, InfoEntry, Center, group_of, insert_sorted, sorted, hashed, get_global_peer_map,
  pair_before,
}
use intranet_penetration_clo.PeerCenter.Reports.{told, latency_of, told-group_by_source_new}
use intranet_penetration_clo.PeerCenter.View.{entry_of}
use intranet_penetration_clo.PeerCenter.Invariant.{
  IsGroup, IsReached, IsReached-IsCenter, group_of-IsGroup,
}

tests_swap :
    (a b : Bool) (x y : ℕ) (z : Option ℕ)
    → (a && b) ≡ false
    → (if b then some y else if a then some x else z)
      ≡ (if a then some x else if b then some y else z)
tests_swap true true x y z h = ground arith
tests_swap true false x y z h = refl
tests_swap false b x y z h = refl

not_both :
    (p q k : Pair) → pair_key.same q p ≡ false → (pair_key.same p k && pair_key.same q k) ≡ false
not_both p q k apart =
    ground (arith, apart, pair_key.same_iff p k, pair_key.same_iff q k, pair_key.same_iff q p)

latency_of-if :
    (b : Bool) (entry : InfoEntry) (r : Option InfoEntry)
    → latency_of (if b then some entry else r) ≡ (if b then some entry.latency_ms else latency_of r)
latency_of-if true entry r = refl
latency_of-if false entry r = refl

lookup-insert_sorted :
    (k : Pair) (e : Pair × InfoEntry) (es : List (Pair × InfoEntry))
    → lookup e.0 (hashed es) ≡ none
    → lookup k (hashed (insert_sorted e es))
      ≡ (if pair_key.same e.0 k then some e.1.latency_ms else lookup k (hashed es))
unfolding lookup
lookup-insert_sorted k (p, entry) [] new = refl
lookup-insert_sorted k (p, entry) ((q, other) ∷ es) new = elim (Bool-cases (pair_before q p)) [
  | inr after ↦ rw after refl
  | inl before ↦
      let apart : pair_key.same q p ≡ false = ground (arith, new) in
      let fresh : lookup p (hashed es) ≡ none = ground (arith, new) in
      rw before (
        ap (λ r. if pair_key.same q k then some other.latency_ms else r)
          (lookup-insert_sorted k (p, entry) es fresh)
        ∙ tests_swap (pair_key.same p k) (pair_key.same q k) entry.latency_ms other.latency_ms
            (lookup k (hashed es)) (not_both p q k apart))
]

-- The list that is hashed has the latencies of the map.
lookup-sorted :
    (k : Pair) (m : Dict Pair InfoEntry)
    → IsDistinct m
    → lookup k (hashed (sorted m)) ≡ latency_of (lookup k m)
unfolding sorted lookup
lookup-sorted k [] h = refl
lookup-sorted k ((p, entry) ∷ m) h =
    lookup-insert_sorted k (p, entry) (sorted m) (lookup-sorted p m h.1 ∙ ap latency_of h.0)
    ∙ ap (λ r. if pair_key.same p k then some entry.latency_ms else r) (lookup-sorted k m h.1)
    ∙ sym (latency_of-if (pair_key.same p k) entry (lookup k m))

same_or_not : (a b : List (Pair × ℕ)) → (a ≡ b) ⊎ (a ≢ b)
same_or_not a b = elim (Bool-cases (list_same a b)) [
  | inl same ↦ inl ((list_same_iff a b).0 same)
  | inr differ ↦
      inr (λ e.
        let hit : list_same a b ≡ true = (list_same_iff a b).1 e in ground (arith, differ, hit))
]

differs_or_zero :
    (digest own : ℕ)
    → (eqb digest own && not (eqb digest 0)) ≡ false
    → (digest ≢ own) ⊎ (digest ≡ 0)
differs_or_zero digest own h = elim (Bool-cases (eqb digest own)) [
  | inl same ↦ inr (ground (arith, same))
  | inr differ ↦ inl (ground (arith, differ))
]

module _ (hash : List (Pair × ℕ) → ℕ) where
  abbrev entries : String → Center → List (Pair × ℕ)
  entries network center = hashed (sorted (group_of network center).global_peer_map)

  current_digest :
      (network : String) (digest : ℕ) (center : Center)
      → IsGroup hash (group_of network center)
      → (eqb digest (group_of network center).digest && not (eqb digest 0)) ≡ true
      → digest ≡ hash (entries network center)
  current_digest network digest center h current = elim h.digest [
    | inl zero ↦ ground (arith, zero, current)
    | inr e ↦ ground (arith, e, current)
  ]

  -- What a center answers to a digest: that nothing has changed, for its own digest where that is not
  -- zero, which is then the hash of the network's latencies; and for every other digest its own, with
  -- exactly the latencies that it has.
  abbrev pub Answers : String → ℕ → ℕ → ℕ → Center → Type 0
  Answers network digest s d center =
      ((digest ≡ (group_of network center).digest)
        × (digest ≢ 0)
        × ((get_global_peer_map network digest center).0.digest ≡ none)
        × (told s d (get_global_peer_map network digest center).0.global_peer_map ≡ none)
        × (digest ≡ hash (entries network center)))
      ⊎ (((digest ≢ (group_of network center).digest) ⊎ (digest ≡ 0))
          × ((get_global_peer_map network digest center).0.digest
              ≡ some (group_of network center).digest)
          × (told s d (get_global_peer_map network digest center).0.global_peer_map
              ≡ latency_of (entry_of network (s, d) center)))

  -- Asked with a digest that is its own and not zero, a reached center answers that nothing has
  -- changed, without a latency, and the digest is the hash of the network's latencies. Asked with any
  -- other digest, it answers with its own digest and exactly the latencies that it has.
  pub get_global_peer_map-Answers :
      (network : String) (digest s d : ℕ) (center : Center)
      → IsReached hash center
      → Answers network digest s d center
  unfolding get_global_peer_map lookup
  get_global_peer_map-Answers network digest s d center r =
      let h = group_of-IsGroup hash network center (IsReached-IsCenter hash center r) in
      elim (Bool-cases (eqb digest (group_of network center).digest && not (eqb digest 0))) [
        | inl current ↦ rw current (
            inl (
              ground arith,
              ground arith,
              refl,
              refl,
              current_digest network digest center h current,
            ))
        | inr other ↦ rw other (
            inr (
              differs_or_zero digest (group_of network center).digest other,
              refl,
              told-group_by_source_new s d (group_of network center).global_peer_map h.pairs,
            ))
      ]

  -- An answer without a digest is given to a current digest alone, which is not zero.
  answered_current :
      (network : String) (digest : ℕ) (center : Center)
      → (get_global_peer_map network digest center).0.digest ≡ none
      → (eqb digest (group_of network center).digest && not (eqb digest 0)) ≡ true
  unfolding get_global_peer_map
  answered_current network digest center e =
      elim (Bool-cases (eqb digest (group_of network center).digest && not (eqb digest 0))) [
        | inl current ↦ current
        | inr other ↦ absurd (ground (arith, e, other))
      ]

  told_digest :
      (network : String) (before digest : ℕ) (center : Center)
      → IsGroup hash (group_of network center)
      → (get_global_peer_map network before center).0.digest ≡ some digest
      → (digest ≡ (group_of network center).digest)
        × ((s d : ℕ)
            → told s d (get_global_peer_map network before center).0.global_peer_map
              ≡ lookup (s, d) (entries network center))
  unfolding get_global_peer_map
  told_digest network before digest center h e =
      elim (Bool-cases (eqb before (group_of network center).digest && not (eqb before 0))) [
        | inl current ↦ absurd (ground (arith, e, current))
        | inr other ↦ rw other (
          ground (arith, e, other),
          λ s d.
              told-group_by_source_new s d (group_of network center).global_peer_map h.pairs
              ∙ sym (lookup-sorted (s, d) (group_of network center).global_peer_map h.pairs),
        )
      ]

  -- Where the center answers a second time that nothing has changed, the latencies of the first
  -- answer, whose digest was sent back, are the current ones, or two lists of latencies collide.
  pub get_global_peer_map-Current :
      (network : String) (asked_first digest s d : ℕ) (before after : Center)
      → IsReached hash before
      → IsReached hash after
      → (get_global_peer_map network asked_first before).0.digest ≡ some digest
      → (get_global_peer_map network digest after).0.digest ≡ none
      → (told s d (get_global_peer_map network asked_first before).0.global_peer_map
          ≡ latency_of (entry_of network (s, d) after))
        ⊎ ((entries network before ≢ entries network after)
            × (hash (entries network before) ≡ hash (entries network after)))
  get_global_peer_map-Current network asked_first digest s d before after r r' first second =
      let h = group_of-IsGroup hash network before (IsReached-IsCenter hash before r) in
      let h' = group_of-IsGroup hash network after (IsReached-IsCenter hash after r') in
      let (same_digest, tells) = told_digest network asked_first digest before h first in
      let current = answered_current network digest after second in
      let hash_after = current_digest network digest after h' current in
      let hash_before : digest ≡ hash (entries network before) = elim h.digest [
        | inl zero ↦ absurd (ground (arith, zero, same_digest, current))
        | inr e ↦ same_digest ∙ e
      ] in
      elim (same_or_not (entries network before) (entries network after)) [
        | inr differ ↦ inr (differ, sym hash_before ∙ hash_after)
        | inl same ↦ inl (
            tells s d
            ∙ ap (lookup (s, d)) same
            ∙ lookup-sorted (s, d) (group_of network after).global_peer_map h'.pairs)
      ]
