-- ===== src/PeerCenter.antt =====
-- The peer center, `PeerCenter` of cloudflare/wasm/src/peer_center.rs: for each network, which peer
-- reports which as directly connected. The hash of the standard library is a parameter; a request or
-- response is the message that its bytes decode to.
pub mod Reports
pub mod View
pub mod Invariant
pub mod Answers
mod Tests
use intranet_penetration_clo.Common.{
  ℕ, ◌+◌, ◌-◌, ◌*◌, min, String, Bool, true, false, not, ◌&&◌, ◌||◌, Option, none, some, List, [],
  ◌∷◌, eqb, ltb, if◌then◌else◌,
}
use intranet_penetration_clo.Common.Result.{Result, ok, err}
use intranet_penetration_clo.Common.Dict.{Dict, lookup, insert, delete}
pub use intranet_penetration_clo.Common.Dict.{retain}
use intranet_penetration_clo.Common.Key.{pair_key, text_key, nat_key}

-- `SrcDstPeerPair`
abbrev pub Pair : Type 0
Pair = ℕ × ℕ

-- `PeerCenterInfoEntry`, whose info is a latency, an int32 as its pattern of 32 bits.
pub record InfoEntry : Type 0 where
  pub latency_ms : ℕ
  pub update_time_ms : ℕ

pub record CenterGroup : Type 0 where
  pub global_peer_map : Dict Pair InfoEntry
  pub peer_report_time : Dict ℕ ℕ
  pub digest : ℕ

abbrev pub new_group : CenterGroup
new_group = record { global_peer_map = []; peer_report_time = []; digest = 0 }

abbrev pub Center : Type 0
Center = Dict String CenterGroup

pub record Report : Type 0 where
  pub my_peer_id : ℕ
  pub direct_peers : List (ℕ × ℕ)

pub data CenterError : Type 0 where
  foreign_report : CenterError

-- The peers that one peer reports, with their latencies.
abbrev pub PeerLatencies : Type 0
PeerLatencies = Dict ℕ ℕ

pub record GlobalMap : Type 0 where
  pub global_peer_map : Dict ℕ PeerLatencies
  pub digest : Option ℕ

-- `Option<…>::unwrap_or_default` on a map's entry.
abbrev pub or_new {ℓ} : {A : Type ℓ} → Option A → A → A
or_new none d = d
or_new (some a) d = a

abbrev pub group_of : String → Center → CenterGroup
group_of network center = or_new (lookup network center) new_group

-- The order of the pairs.
abbrev pair_before : Pair → Pair → Bool
pair_before (s, d) (s', d') = ltb s s' || (eqb s s' && ltb d d')

abbrev pub insert_sorted : Pair × InfoEntry → List (Pair × InfoEntry) → List (Pair × InfoEntry)
insert_sorted e [] = e ∷ []
insert_sorted e (f ∷ fs) = if pair_before f.0 e.0 then f ∷ insert_sorted e fs else e ∷ f ∷ fs

unfoldable pub sorted : Dict Pair InfoEntry → List (Pair × InfoEntry)
sorted [] = []
sorted (e ∷ es) = insert_sorted e (sorted es)

abbrev pub hashed : List (Pair × InfoEntry) → List (Pair × ℕ)
hashed [] = []
hashed ((pair, entry) ∷ rest) = (pair, entry.latency_ms) ∷ hashed rest

unfoldable pub insert_reports : ℕ → ℕ → List (ℕ × ℕ) → Dict Pair InfoEntry → Dict Pair InfoEntry
insert_reports src now [] m = m
insert_reports src now ((dst, latency) ∷ rest) m =
    insert_reports src now rest
      (insert (src, dst) (record { latency_ms = latency; update_time_ms = now }) m)

abbrev pub avoids : ℕ → Pair → InfoEntry → Bool
avoids peer_id (src, dst) entry = not (eqb src peer_id) && not (eqb dst peer_id)

abbrev pub is_nil {ℓ} : {A : Type ℓ} → List A → Bool
is_nil [] = true
is_nil (_ ∷ _) = false

abbrev pub is_empty : CenterGroup → Bool
is_empty g = is_nil g.global_peer_map && is_nil g.peer_report_time

-- `entry(pair.src).or_insert_with(…).direct_peers.insert(pair.dst, …)`
abbrev pub add_latency : Pair → InfoEntry → Dict ℕ PeerLatencies → Dict ℕ PeerLatencies
add_latency (src, dst) entry m =
    insert src (insert dst entry.latency_ms (or_new (lookup src m) [])) m

unfoldable pub group_by_source : Dict Pair InfoEntry → Dict ℕ PeerLatencies → Dict ℕ PeerLatencies
group_by_source [] m = m
group_by_source ((pair, entry) ∷ rest) m = group_by_source rest (add_latency pair entry m)

-- The empty message tells the requester that its digest is current.
unfoldable pub get_global_peer_map : String → ℕ → Center → GlobalMap × Center
get_global_peer_map network digest center =
    let g = group_of network center in
    let center' = insert network g center in
    if eqb digest g.digest && not (eqb digest 0)
    then (record { global_peer_map = []; digest = none }, center')
    else (
      record { global_peer_map = group_by_source g.global_peer_map []; digest = some g.digest },
      center',
    )

module _ (hash : List (Pair × ℕ) → ℕ) where
  -- `calc_digest_internal`
  abbrev pub calc_digest : Dict Pair InfoEntry → ℕ
  calc_digest m = hash (hashed (sorted m))

  abbrev pub reported_group : String → Report → ℕ → Center → CenterGroup
  reported_group network report now center =
      let data' = group_of network center in
      let reported =
        insert_reports report.my_peer_id now report.direct_peers data'.global_peer_map in
      record {
        global_peer_map = reported;
        peer_report_time = insert report.my_peer_id now data'.peer_report_time;
        digest = calc_digest reported;
      }

  unfoldable pub report_peers :
      String → ℕ → Report → ℕ → Center → Result CenterError (Unit {0}) × Center
  report_peers network authenticated report now center =
      if not (eqb report.my_peer_id authenticated)
      then (err foreign_report, center)
      else (ok tt, insert network (reported_group network report now center) center)

  abbrev pub without_peer : ℕ → CenterGroup → CenterGroup
  without_peer peer_id g =
      let rest = retain (avoids peer_id) g.global_peer_map in
      record {
        global_peer_map = rest;
        peer_report_time = delete peer_id g.peer_report_time;
        digest = calc_digest rest;
      }

  pub forget_in : String → ℕ → Option CenterGroup → Center → Center
  forget_in network peer_id none center = center
  forget_in network peer_id (some g) center =
      if is_empty (without_peer peer_id g)
      then delete network center
      else insert network (without_peer peer_id g) center

  unfoldable pub center_remove_peer : String → ℕ → Center → Center
  unfolding forget_in
  center_remove_peer network peer_id center =
      forget_in network peer_id (lookup network center) center

  abbrev pub clean_group : ℕ → ℕ → CenterGroup → CenterGroup
  clean_group now ttl_ms g =
      let rest = retain (λ pair entry. ltb (now - entry.update_time_ms) ttl_ms) g.global_peer_map in
      record {
        global_peer_map = rest;
        peer_report_time = retain (λ peer_id time. ltb (now - time) ttl_ms) g.peer_report_time;
        digest = calc_digest rest;
      }

  unfoldable pub clean_outdated : ℕ → ℕ → Center → Center
  clean_outdated now ttl_sec [] = []
  clean_outdated now ttl_sec ((network, g) ∷ rest) =
      let g' = clean_group now (min (ttl_sec * 1000) 18_446_744_073_709_551_615) g in
      if is_empty g'
      then clean_outdated now ttl_sec rest
      else (network, g') ∷ clean_outdated now ttl_sec rest
