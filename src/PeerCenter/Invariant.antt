-- ===== src/PeerCenter/Invariant.antt =====
-- The state of the peer center, and the calls that lead to it.
use intranet_penetration_clo.Common.{
  ℕ, ◌≡◌, refl, String, Bool, not, ◌&&◌, none, List, [], ◌∷◌, eqb, arith, Bool-cases, inl, inr, ◌⊎◌,
  Option-cases, min, ltb, ◌-◌, ◌*◌,
}
use intranet_penetration_clo.Common.Dict.{Dict, lookup}
use intranet_penetration_clo.Common.Dict.Sums.{
  IsDistinct, Every, Every-lookup, insert-Every, delete-Every,
}
use intranet_penetration_clo.Common.Key.{pair_key, text_key, nat_key}
use intranet_penetration_clo.PeerCenter.{
  Pair, InfoEntry, CenterGroup, Center, Report, group_of, calc_digest, retain, avoids, is_empty,
  report_peers, center_remove_peer, forget_in, reported_group, without_peer, get_global_peer_map,
  clean_group, clean_outdated,
}
use intranet_penetration_clo.PeerCenter.View.{insert_reports-IsDistinct}

lookup-retain-none :
    (k : Pair) (keep : Pair → InfoEntry → Bool) (m : Dict Pair InfoEntry)
    → lookup k m ≡ none
    → lookup k (retain keep m) ≡ none
unfolding lookup
lookup-retain-none k keep [] h = refl
lookup-retain-none k keep ((p, entry) ∷ m) h = ground (arith, lookup-retain-none k keep m)

retain-IsDistinct :
    (keep : Pair → InfoEntry → Bool) (m : Dict Pair InfoEntry)
    → IsDistinct m
    → IsDistinct (retain keep m)
retain-IsDistinct keep [] h = tt
retain-IsDistinct keep ((p, entry) ∷ m) h = elim (Bool-cases (keep p entry)) [
  | inl kept ↦ rw kept (lookup-retain-none p keep m h.0, retain-IsDistinct keep m h.1)
  | inr dropped ↦ rw dropped (retain-IsDistinct keep m h.1)
]

module _ (hash : List (Pair × ℕ) → ℕ) where
  -- A group has one entry for each pair, and a digest that is zero or that of its entries.
  pub record IsGroup (g : CenterGroup) : Type 0 where
    pub pairs : IsDistinct g.global_peer_map
    pub digest : (g.digest ≡ 0) ⊎ (g.digest ≡ calc_digest hash g.global_peer_map)

  abbrev pub IsCenter : Center → Type 0
  IsCenter center = Every IsGroup center

  pub group_of-IsGroup :
      (network : String) (center : Center) → IsCenter center → IsGroup (group_of network center)
  group_of-IsGroup network center h = elim (Option-cases (lookup network center)) [
    | inl absent ↦ rw absent (record { pairs = tt; digest = inl refl })
    | inr (g, found) ↦ rw found (Every-lookup IsGroup network g center h found)
  ]

  pub report_peers-IsCenter :
      (network : String) (authenticated now : ℕ) (report : Report) (center : Center)
      → IsCenter center
      → IsCenter (report_peers hash network authenticated report now center).1
  unfolding report_peers
  report_peers-IsCenter network authenticated now report center h =
      elim (Bool-cases (eqb report.my_peer_id authenticated)) [
        | inr foreign ↦ rw foreign h
        | inl own ↦ rw own (
            insert-Every IsGroup network (reported_group hash network report now center) center h
              (record {
                pairs =
                    insert_reports-IsDistinct report.my_peer_id now report.direct_peers
                      (group_of network center).global_peer_map
                      (group_of-IsGroup network center h).pairs;
                digest = inr refl;
              }))
      ]

  pub center_remove_peer-IsCenter :
      (network : String) (peer_id : ℕ) (center : Center)
      → IsCenter center
      → IsCenter (center_remove_peer hash network peer_id center)
  unfolding center_remove_peer forget_in
  center_remove_peer-IsCenter network peer_id center h =
      elim (Option-cases (lookup network center)) [
        | inl absent ↦ rw absent h
        | inr (g, found) ↦ rw found (elim (Bool-cases (is_empty (without_peer hash peer_id g))) [
          | inl empty ↦ rw empty (delete-Every IsGroup network center h)
          | inr full ↦ rw full (
              insert-Every IsGroup network (without_peer hash peer_id g) center h (record {
                pairs =
                    retain-IsDistinct (avoids peer_id) g.global_peer_map
                      (Every-lookup IsGroup network g center h found).pairs;
                digest = inr refl;
              }))
        ])
      ]

  pub clean_outdated-IsCenter :
      (now ttl_sec : ℕ) (center : Center)
      → IsCenter center
      → IsCenter (clean_outdated hash now ttl_sec center)
  unfolding clean_outdated
  clean_outdated-IsCenter now ttl_sec [] h = tt
  clean_outdated-IsCenter now ttl_sec ((network, g) ∷ rest) h =
      elim (Bool-cases
        (is_empty (clean_group hash now (min (ttl_sec * 1000) 18_446_744_073_709_551_615) g))) [
          | inl empty ↦ rw empty (clean_outdated-IsCenter now ttl_sec rest h.1)
          | inr full ↦ rw full (
            record {
              pairs =
                  retain-IsDistinct
                    (λ pair entry.
                      ltb (now - entry.update_time_ms)
                        (min (ttl_sec * 1000) 18_446_744_073_709_551_615))
                    g.global_peer_map h.0.pairs;
              digest = inr refl;
            },
            clean_outdated-IsCenter now ttl_sec rest h.1,
          )
        ]

  get_global_peer_map-IsCenter :
      (network : String) (digest : ℕ) (center : Center)
      → IsCenter center
      → IsCenter (get_global_peer_map network digest center).1
  unfolding get_global_peer_map
  get_global_peer_map-IsCenter network digest center h =
      let kept =
        insert-Every IsGroup network (group_of network center) center h
          (group_of-IsGroup network center h) in
      elim (Bool-cases (eqb digest (group_of network center).digest && not (eqb digest 0))) [
        | inl current ↦ rw current kept
        | inr other ↦ rw other kept
      ]

  -- A call of the peer center.
  pub data CenterStep : Center → Center → Type 0 where
    reported :
        (network : String) (authenticated now : ℕ) (report : Report) (center : Center)
        → CenterStep center (report_peers hash network authenticated report now center).1
    removed :
        (network : String) (peer_id : ℕ) (center : Center)
        → CenterStep center (center_remove_peer hash network peer_id center)
    cleaned :
        (now ttl_sec : ℕ) (center : Center)
        → CenterStep center (clean_outdated hash now ttl_sec center)
    asked :
        (network : String) (digest : ℕ) (center : Center)
        → CenterStep center (get_global_peer_map network digest center).1

  -- The centers that calls lead to from a new one.
  pub data IsReached : Center → Type 0 where
    new_center : IsReached []
    called : (c c' : Center) → IsReached c → CenterStep c c' → IsReached c'

  CenterStep-IsCenter : (c c' : Center) → CenterStep c c' → IsCenter c → IsCenter c'
  CenterStep-IsCenter c c' (reported network authenticated now report _) h =
      report_peers-IsCenter network authenticated now report c h
  CenterStep-IsCenter c c' (removed network peer_id _) h =
      center_remove_peer-IsCenter network peer_id c h
  CenterStep-IsCenter c c' (cleaned now ttl_sec _) h = clean_outdated-IsCenter now ttl_sec c h
  CenterStep-IsCenter c c' (asked network digest _) h =
      get_global_peer_map-IsCenter network digest c h

  -- Whatever calls have been made, a network has one entry for each pair, and a digest that is zero
  -- or the hash of its entries.
  pub IsReached-IsCenter : (center : Center) → IsReached center → IsCenter center
  IsReached-IsCenter _ new_center = tt
  IsReached-IsCenter _ (called c c' r step) = CenterStep-IsCenter c c' step (IsReached-IsCenter c r)
