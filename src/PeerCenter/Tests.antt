-- ===== src/PeerCenter/Tests.antt =====
-- Two peers report each other, and a third asks.
use intranet_penetration_clo.Common.{ℕ, ◌+◌, ◌≡◌, ◌≢◌, ◌⊎◌, refl, none, some, List, [], ◌∷◌}
use intranet_penetration_clo.Common.Dict.{lookup, insert}
use intranet_penetration_clo.PeerCenter.{
  Pair, Center, Report, report_peers, get_global_peer_map, sorted, hashed, insert_reports, group_of,
  group_by_source,
}
use intranet_penetration_clo.PeerCenter.Reports.{told, latency_of}
use intranet_penetration_clo.PeerCenter.View.{entry_of, report_peers-View}
use intranet_penetration_clo.PeerCenter.Invariant.{
  IsCenter, IsReached, new_center, called, reported, IsReached-IsCenter,
}
use intranet_penetration_clo.PeerCenter.Answers.{
  Answers, get_global_peer_map-Answers, get_global_peer_map-Current,
}

-- A hash, of the latencies alone.
abbrev checksum : List (Pair × ℕ) → ℕ
checksum [] = 1
checksum ((pair, latency) ∷ rest) = latency + checksum rest

abbrev of_seven : Report
of_seven = record { my_peer_id = 7; direct_peers = (8, 20) ∷ (9, 30) ∷ [] }

abbrev of_eight : Report
of_eight = record { my_peer_id = 8; direct_peers = (7, 21) ∷ [] }

abbrev after_seven : Center
after_seven = (report_peers checksum "home" 7 of_seven 1_000 []).1

abbrev after_both : Center
after_both = (report_peers checksum "home" 8 of_eight 2_000 after_seven).1

after_seven-IsReached : IsReached checksum after_seven
after_seven-IsReached = called [] after_seven new_center (reported "home" 7 1_000 of_seven [])

after_both-IsReached : IsReached checksum after_both
after_both-IsReached =
    called after_seven after_both after_seven-IsReached
      (reported "home" 8 2_000 of_eight after_seven)

digest_of_both : (get_global_peer_map "home" 0 after_both).0.digest ≡ some 72
unfolding report_peers get_global_peer_map insert_reports sorted group_by_source lookup insert
digest_of_both = refl

current : (get_global_peer_map "home" 72 after_both).0.digest ≡ none
unfolding report_peers get_global_peer_map insert_reports sorted group_by_source lookup insert
current = refl

report_peers-View_example :
    entry_of "home" (8, 7) after_both ≡ some (record { latency_ms = 21; update_time_ms = 2_000 })
unfolding lookup
report_peers-View_example =
    report_peers-View checksum "home" "home" 8 2_000 8 7 of_eight after_seven (refl, tt)

IsReached-IsCenter_example : IsCenter checksum after_both
IsReached-IsCenter_example = IsReached-IsCenter checksum after_both after_both-IsReached

get_global_peer_map-Answers_example : Answers checksum "home" 72 8 7 after_both
get_global_peer_map-Answers_example =
    get_global_peer_map-Answers checksum "home" 72 8 7 after_both after_both-IsReached

get_global_peer_map-Current_example :
    (told 8 7 (get_global_peer_map "home" 0 after_both).0.global_peer_map
      ≡ latency_of (entry_of "home" (8, 7) after_both))
    ⊎ ((hashed (sorted (group_of "home" after_both).global_peer_map)
          ≢ hashed (sorted (group_of "home" after_both).global_peer_map))
        × (checksum (hashed (sorted (group_of "home" after_both).global_peer_map))
            ≡ checksum (hashed (sorted (group_of "home" after_both).global_peer_map))))
get_global_peer_map-Current_example =
    get_global_peer_map-Current checksum "home" 0 72 8 7 after_both after_both after_both-IsReached
      after_both-IsReached digest_of_both current
