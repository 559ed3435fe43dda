-- ===== src/PeerCenter/View.antt =====
-- The peer center as a function from a network and two peers to a latency, and its operations on it.
use intranet_penetration_clo.Common.{
  ℕ, ◌≡◌, refl, String, Bool, true, ◌&&◌, ◌||◌, Option, none, some, List, [], ◌∷◌, eqb,
  if◌then◌else◌, arith, Bool-cases, inl, inr, ◌∙◌, ap, eqb_iff, Option-cases, subst,
}
use intranet_penetration_clo.Common.Dict.{
  Dict, lookup, insert, delete, lookup-insert, lookup-delete,
}
use intranet_penetration_clo.Common.Dict.Sums.{IsDistinct, insert-IsDistinct}
use intranet_penetration_clo.Common.Key.{same_refl, pair_key, text_key, nat_key}
use intranet_penetration_clo.PeerCenter.{
  Pair, InfoEntry, CenterGroup, Center, Report, group_of, insert_reports, retain, avoids, is_nil,
  is_empty, report_peers, center_remove_peer, forget_in, reported_group, without_peer,
}
use intranet_penetration_clo.PeerCenter.Reports.{lookup-insert_reports, lookup-retain}

-- The entry of two peers in a network.
abbrev pub entry_of : String → Pair → Center → Option InfoEntry
entry_of network pair center = lookup pair (group_of network center).global_peer_map

pub insert_reports-IsDistinct :
    (src now : ℕ) (reports : List (ℕ × ℕ)) (m : Dict Pair InfoEntry)
    → IsDistinct m
    → IsDistinct (insert_reports src now reports m)
unfolding insert_reports
insert_reports-IsDistinct src now [] m h = h
insert_reports-IsDistinct src now ((dst, latency) ∷ rest) m h =
    insert_reports-IsDistinct src now rest
      (insert (src, dst) (record { latency_ms = latency; update_time_ms = now }) m)
      (insert-IsDistinct (src, dst) (record { latency_ms = latency; update_time_ms = now }) m h)

-- What a report says of a pair, if anything.
abbrev pub new_entry : ℕ → Option ℕ → Option InfoEntry → Option InfoEntry
new_entry now none before = before
new_entry now (some latency) before = some (record { latency_ms = latency; update_time_ms = now })

new_entry_step :
    (src now dst latency d : ℕ) (reported : Option ℕ) (before : Option InfoEntry)
    → (eqb dst d ≡ true → reported ≡ none)
    → new_entry now reported
        (if pair_key.same (src, dst) (src, d) then new_entry now (some latency) none else before)
      ≡ new_entry now (if eqb dst d then some latency else reported) before
new_entry_step src now dst latency d reported before fresh = elim (Bool-cases (eqb dst d)) [
  | inl same ↦ rw (same_refl {A = ℕ} src, same, fresh same) refl
  | inr other ↦ rw (same_refl {A = ℕ} src, other) refl
]

lookup-insert_reports_own :
    (src now d : ℕ) (reports : List (ℕ × ℕ)) (m : Dict Pair InfoEntry)
    → IsDistinct reports
    → lookup (src, d) (insert_reports src now reports m)
      ≡ new_entry now (lookup d reports) (lookup (src, d) m)
unfolding insert_reports lookup
lookup-insert_reports_own src now d [] m h = refl
lookup-insert_reports_own src now d ((dst, latency) ∷ rest) m h =
    let entry : InfoEntry = record { latency_ms = latency; update_time_ms = now } in
    lookup-insert_reports_own src now d rest (insert (src, dst) entry m) h.1
    ∙ ap (new_entry now (lookup d rest)) (lookup-insert (src, dst) (src, d) entry m)
    ∙ new_entry_step src now dst latency d (lookup d rest) (lookup (src, d) m)
        (λ same. subst (λ k. lookup k rest ≡ none) ((eqb_iff dst d).0 same) h.0)

-- What the reports of `src` make of a pair.
lookup-insert_reports_all :
    (src now s d : ℕ) (reports : List (ℕ × ℕ)) (m : Dict Pair InfoEntry)
    → IsDistinct reports
    → lookup (s, d) (insert_reports src now reports m)
      ≡ (if eqb src s then new_entry now (lookup d reports) (lookup (s, d) m) else lookup (s, d) m)
lookup-insert_reports_all src now s d reports m h = elim (Bool-cases (eqb src s)) [
  | inl same ↦ rw same (
      subst
        (λ k.
          lookup (k, d) (insert_reports src now reports m)
          ≡ new_entry now (lookup d reports) (lookup (k, d) m))
        ((eqb_iff src s).0 same) (lookup-insert_reports_own src now d reports m h))
  | inr other ↦
      rw other (lookup-insert_reports s d src now reports m (λ e. ground (arith, other, e)))
]

-- One network's entry after a write to another's, or its own.
entry_of-insert :
    (network other : String) (pair : Pair) (g : CenterGroup) (center : Center)
    → entry_of other pair (insert network g center) ≡ (
        if text_key.same network other
        then lookup pair g.global_peer_map
        else entry_of other pair center)
entry_of-insert network other pair g center =
    rw (lookup-insert network other g center) (elim (Bool-cases (text_key.same network other)) [
      | inl same ↦ rw same refl
      | inr apart ↦ rw apart refl
    ])

no_entry : (pair : Pair) → lookup {V = InfoEntry} pair [] ≡ none
unfolding lookup
no_entry pair = refl

entry_of-absent :
    (network : String) (pair : Pair) (center : Center)
    → lookup network center ≡ none
    → entry_of network pair center ≡ none
entry_of-absent network pair center absent = rw absent (no_entry pair)

entry_of-delete :
    (network other : String) (pair : Pair) (center : Center)
    → entry_of other pair (delete network center)
      ≡ (if text_key.same network other then none else entry_of other pair center)
entry_of-delete network other pair center =
    rw (lookup-delete network other center) (elim (Bool-cases (text_key.same network other)) [
      | inl same ↦ rw same (no_entry pair)
      | inr apart ↦ rw apart refl
    ])

-- A group without entries.
lookup-is_nil : (pair : Pair) (m : Dict Pair InfoEntry) → is_nil m ≡ true → lookup pair m ≡ none
unfolding lookup
lookup-is_nil pair [] h = refl
lookup-is_nil pair (e ∷ m) h = ground arith

module _ (hash : List (Pair × ℕ) → ℕ) where
  -- A report changes the pairs alone whose source is the reporter, in its own network, and it
  -- changes nothing where the reporter is not the peer of the connection.
  pub report_peers-View :
      (network other : String) (authenticated now s d : ℕ) (report : Report) (center : Center)
      → IsDistinct report.direct_peers
      → entry_of other (s, d) (report_peers hash network authenticated report now center).1 ≡ (
          if eqb report.my_peer_id authenticated
            && (text_key.same network other && eqb report.my_peer_id s)
          then new_entry now (lookup d report.direct_peers) (entry_of other (s, d) center)
          else entry_of other (s, d) center)
  unfolding report_peers
  report_peers-View network other authenticated now s d report center h =
      elim (Bool-cases (eqb report.my_peer_id authenticated)) [
        | inr foreign ↦ rw foreign refl
        | inl own ↦
            rw
              (
                own,
                lookup-insert network other (reported_group hash network report now center) center,
              )
              (elim (Bool-cases (text_key.same network other)) [
                | inr apart ↦ rw apart refl
                | inl same ↦
                    let e : network ≡ other = (text_key.same_iff network other).0 same in
                    rw same (
                      lookup-insert_reports_all report.my_peer_id now s d report.direct_peers
                        (group_of network center).global_peer_map h
                      ∙ ap
                          (λ n.
                            if eqb report.my_peer_id s
                            then new_entry now (lookup d report.direct_peers)
                                (entry_of n (s, d) center)
                            else entry_of n (s, d) center)
                          e)
              ])
      ]

  entry_of-forget_in :
      (network other : String) (pair : Pair) (peer_id : ℕ) (g : CenterGroup) (center : Center)
      → entry_of other pair (forget_in hash network peer_id (some g) center) ≡ (
          if text_key.same network other
          then lookup pair (retain (avoids peer_id) g.global_peer_map)
          else entry_of other pair center)
  unfolding forget_in
  entry_of-forget_in network other pair peer_id g center =
      elim (Bool-cases (is_empty (without_peer hash peer_id g))) [
        | inr kept ↦
            rw kept (entry_of-insert network other pair (without_peer hash peer_id g) center)
        | inl empty ↦
            let nothing : lookup pair (retain (avoids peer_id) g.global_peer_map) ≡ none =
              lookup-is_nil pair (retain (avoids peer_id) g.global_peer_map)
                (ground (arith, empty)) in
            rw (empty, nothing) (entry_of-delete network other pair center)
      ]

  removed_absent :
      (network other : String) (pair : Pair) (gone : Bool) (center : Center)
      → lookup network center ≡ none
      → entry_of other pair center
        ≡ (if text_key.same network other && gone then none else entry_of other pair center)
  removed_absent network other pair gone center absent =
      elim (Bool-cases (text_key.same network other && gone)) [
        | inr kept ↦ rw kept refl
        | inl hit ↦
            let e : network ≡ other = (text_key.same_iff network other).0 (ground (arith, hit)) in
            rw hit (
              subst (λ n. entry_of n pair center ≡ none) e
                (entry_of-absent network pair center absent))
      ]

  removed_own :
      (network other : String) (s d peer_id : ℕ) (g : CenterGroup) (center : Center)
      → lookup network center ≡ some g
      → (if text_key.same network other
          then lookup (s, d) (retain (avoids peer_id) g.global_peer_map)
          else entry_of other (s, d) center)
        ≡ (if text_key.same network other && (eqb s peer_id || eqb d peer_id)
            then none
            else entry_of other (s, d) center)
  removed_own network other s d peer_id g center found =
      elim (Bool-cases (text_key.same network other)) [
        | inr apart ↦ rw apart refl
        | inl same ↦
            let e : network ≡ other = (text_key.same_iff network other).0 same in
            let own : lookup other center ≡ some g =
              subst (λ n. lookup n center ≡ some g) e found in
            rw (same, own) (lookup-retain s d peer_id g.global_peer_map)
      ]

  -- Removing a peer takes every pair with it out of its network, and changes no other pair and no
  -- other network.
  pub center_remove_peer-View :
      (network other : String) (peer_id s d : ℕ) (center : Center)
      → entry_of other (s, d) (center_remove_peer hash network peer_id center) ≡ (
          if text_key.same network other && (eqb s peer_id || eqb d peer_id)
          then none
          else entry_of other (s, d) center)
  unfolding center_remove_peer
  center_remove_peer-View network other peer_id s d center =
      elim (Option-cases (lookup network center)) [
        | inl absent ↦
            rw absent
              (removed_absent network other (s, d) (eqb s peer_id || eqb d peer_id) center absent)
        | inr (g, found) ↦ rw found (
            entry_of-forget_in network other (s, d) peer_id g center
            ∙ removed_own network other s d peer_id g center found)
      ]
