-- ===== src/PeerCenter/Reports.antt =====
-- What the peer center tells is what was reported.
use intranet_penetration_clo.Common.{
  ℕ, ◌≡◌, ◌≢◌, refl, ◌&&◌, ◌||◌, Option, none, some, List, [], ◌∷◌, eqb, eqb_iff, if◌then◌else◌,
  arith, Bool-cases, inl, inr, ◌∙◌, ap, subst,
}
use intranet_penetration_clo.Common.Dict.{Dict, lookup, insert, lookup-insert}
use intranet_penetration_clo.Common.Dict.Sums.{IsDistinct}
use intranet_penetration_clo.Common.Key.{pair_key, text_key, nat_key}
use intranet_penetration_clo.PeerCenter.{
  Pair, InfoEntry, PeerLatencies, or_new, insert_reports, retain, avoids, add_latency,
  group_by_source,
}

abbrev pub latency_of : Option InfoEntry → Option ℕ
latency_of none = none
latency_of (some entry) = some entry.latency_ms

-- The latency from one peer to another in an answer.
abbrev pub told : ℕ → ℕ → Dict ℕ PeerLatencies → Option ℕ
told src dst m = lookup dst (or_new (lookup src m) [])

told-add_latency :
    (s d src dst : ℕ) (entry : InfoEntry) (m : Dict ℕ PeerLatencies)
    → told s d (add_latency (src, dst) entry m)
      ≡ (if eqb src s && eqb dst d then some entry.latency_ms else told s d m)
told-add_latency s d src dst entry m =
    rw (lookup-insert src s (insert dst entry.latency_ms (or_new (lookup src m) [])) m)
      (elim (Bool-cases (eqb src s)) [
        | inr other ↦ rw other refl
        | inl same ↦
            let e : src ≡ s = (eqb_iff src s).0 same in
            rw (same, lookup-insert dst d entry.latency_ms (or_new (lookup src m) [])) (rw e refl)
      ])

-- The reported latency, or what was there before.
abbrev pub reported_or : Option InfoEntry → Option ℕ → Option ℕ
reported_or none before = before
reported_or (some entry) before = some entry.latency_ms

-- One more entry, of a pair that the others do not have.
reported_or_step :
    (s d src dst : ℕ) (entry : InfoEntry) (es : Dict Pair InfoEntry) (before : Option ℕ)
    → lookup (src, dst) es ≡ none
    → reported_or
        (lookup (s, d) es)
        (if eqb src s && eqb dst d then some entry.latency_ms else before)
      ≡ reported_or (if eqb src s && eqb dst d then some entry else lookup (s, d) es) before
reported_or_step s d src dst entry es before new = elim (Bool-cases (eqb src s && eqb dst d)) [
  | inr other ↦ rw other refl
  | inl hit ↦
      let e : (src, dst) ≡ (s, d) = (pair_key.same_iff (src, dst) (s, d)).0 hit in
      let absent : lookup (s, d) es ≡ none = subst (λ k. lookup k es ≡ none) e new in
      rw (hit, absent) refl
]

told-group_by_source :
    (s d : ℕ) (es : Dict Pair InfoEntry) (m : Dict ℕ PeerLatencies)
    → IsDistinct es
    → told s d (group_by_source es m) ≡ reported_or (lookup (s, d) es) (told s d m)
unfolding group_by_source lookup
told-group_by_source s d [] m h = refl
told-group_by_source s d (((src, dst), entry) ∷ es) m h =
    told-group_by_source s d es (add_latency (src, dst) entry m) h.1
    ∙ ap (reported_or (lookup (s, d) es)) (told-add_latency s d src dst entry m)
    ∙ reported_or_step s d src dst entry es (told s d m) h.0

told_nothing : (s d : ℕ) → told s d [] ≡ none
unfolding lookup
told_nothing s d = refl

reported_or-none : (o : Option InfoEntry) → reported_or o none ≡ latency_of o
reported_or-none none = refl
reported_or-none (some entry) = refl

-- Grouping by source keeps every latency.
pub told-group_by_source_new :
    (s d : ℕ) (es : Dict Pair InfoEntry)
    → IsDistinct es
    → told s d (group_by_source es []) ≡ latency_of (lookup (s, d) es)
told-group_by_source_new s d es h =
    told-group_by_source s d es [] h
    ∙ ap (reported_or (lookup (s, d) es)) (told_nothing s d)
    ∙ reported_or-none (lookup (s, d) es)

pub lookup-insert_reports :
    (s d src now : ℕ) (reports : List (ℕ × ℕ)) (m : Dict Pair InfoEntry)
    → src ≢ s
    → lookup (s, d) (insert_reports src now reports m) ≡ lookup (s, d) m
unfolding insert_reports
lookup-insert_reports s d src now [] m n = refl
lookup-insert_reports s d src now ((dst, latency) ∷ rest) m n = ground (
  arith,
  lookup-insert_reports s d src now rest
      (insert (src, dst) (record { latency_ms = latency; update_time_ms = now }) m) n,
  lookup-insert (src, dst) (s, d) (record { latency_ms = latency; update_time_ms = now }) m,
)

pub lookup-retain :
    (s d p : ℕ) (m : Dict Pair InfoEntry)
    → lookup (s, d) (retain (avoids p) m) ≡ (if eqb s p || eqb d p then none else lookup (s, d) m)
unfolding lookup
lookup-retain s d p [] = ground arith
lookup-retain s d p (((src, dst), entry) ∷ m) = ground (arith, lookup-retain s d p m)
