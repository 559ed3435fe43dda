-- ===== src/Routes/Conn/Caches.antt =====
-- The caches of the connection information against its computation.
use intranet_penetration_clo.Common.{
  ℕ, ◌<◌, ◌≡◌, refl, Bool, true, false, Option, none, some, List, [], ◌∷◌, length, eqb, ltb,
  if◌then◌else◌, arith, All, Bool-cases, inl, inr, ◌⊎◌, ap,
}
use intranet_penetration_clo.Common.Result.{Result, ok, err}
use intranet_penetration_clo.Common.Dict.{lookup}
use intranet_penetration_clo.Common.Key.{nat_key, same_refl}
use intranet_penetration_clo.Routes.{
  RouteGroup, ConnInfo, conn_bitmap, conn_peer_list, RouteError, too_many_legacy_peers, add,
  contains, bump_all_conn_versions,
}
use intranet_penetration_clo.Routes.Updates.{relevant_peers}
use intranet_penetration_clo.Routes.Conn.{
  compute_bitmap, compute_peer_list, cached, is_up_to_date, build_conn_info, list_or_cached,
  bitmap_or_cached, max_legacy_bitmap_peers,
}

-- Peers in order, as a BTreeSet has them.
abbrev pub IsSorted : List ℕ → Type 0
IsSorted [] = Unit
IsSorted (x ∷ xs) = All (λ y. x < y) xs × IsSorted xs

All-contains : (x y : ℕ) (ys : List ℕ) → contains x ys ≡ true → All (λ z. y < z) ys → y < x
All-contains x y [] h a = ground (arith, h)
All-contains x y (z ∷ zs) h a = elim (Bool-cases (eqb x z)) [
  | inl same ↦ ground (arith, same, a.0)
  | inr other ↦ All-contains x y zs (ground (arith, h, other)) a.1
]

-- Adding a member changes nothing.
pub add-known : (x : ℕ) (xs : List ℕ) → contains x xs ≡ true → IsSorted xs → add x xs ≡ xs
add-known x [] h s = ground (arith, h)
add-known x (y ∷ ys) h s = elim (Bool-cases (eqb x y)) [
  | inl same ↦ let least : ltb x y ≡ false = ground (arith, same) in rw (least, same) refl
  | inr other ↦
      let inside : contains x ys ≡ true = ground (arith, h, other) in
      let above : y < x = All-contains x y ys inside s.0 in
      let least : ltb x y ≡ false = ground (arith, above) in
      rw (least, other) (ap (λ zs. y ∷ zs) (add-known x ys inside s.1))
]

contains-add : (x y : ℕ) (ys : List ℕ) → contains x ys ≡ true → contains x (add y ys) ≡ true
contains-add x y [] h = ground (arith, h)
contains-add x y (z ∷ zs) h = elim (Bool-cases (contains x zs)) [
  | inl inside ↦ ground (arith, contains-add x y zs inside)
  | inr outside ↦ ground (arith, h, outside)
]

All-add : (z x : ℕ) (xs : List ℕ) → z < x → All (λ y. z < y) xs → All (λ y. z < y) (add x xs)
All-add z x [] h a = (h, tt)
All-add z x (y ∷ ys) h a = elim (Bool-cases (ltb x y)) [
  | inl first ↦ rw first (h, a)
  | inr later ↦ elim (Bool-cases (eqb x y)) [
    | inl same ↦ rw (later, same) a
    | inr other ↦ rw (later, other) (a.0, All-add z x ys h a.1)
  ]
]

All-below : (x y : ℕ) (ys : List ℕ) → x < y → All (λ z. y < z) ys → All (λ z. x < z) ys
All-below x y [] h a = tt
All-below x y (z ∷ zs) h a = (omega (arith, h, a.0), All-below x y zs h a.1)

pub add-IsSorted : (x : ℕ) (xs : List ℕ) → IsSorted xs → IsSorted (add x xs)
add-IsSorted x [] s = (tt, tt)
add-IsSorted x (y ∷ ys) s = elim (Bool-cases (ltb x y)) [
  | inl first ↦
      let below : x < y = ground (arith, first) in rw first ((below, All-below x y ys below s.0), s)
  | inr later ↦ elim (Bool-cases (eqb x y)) [
    | inl same ↦ rw (later, same) s
    | inr other ↦
        let above : y < x = ground (arith, later, other) in
        rw (later, other) (All-add y x ys above s.0, add-IsSorted x ys s.1)
  ]
]

-- What is cached for the current topology is what would be computed.
pub record IsCached (my_peer_id : ℕ) (g : RouteGroup) : Type 0 where
  pub in_order : IsSorted g.peers
  pub list :
      (cached g.topology_version g.cached_conn_peer_list ≡ none)
      ⊎ (cached g.topology_version g.cached_conn_peer_list
          ≡ some (compute_peer_list my_peer_id (add my_peer_id g.peers) g.peer_conn_versions))
  pub bitmap :
      (cached g.topology_version g.cached_conn_bitmap ≡ none)
      ⊎ ((cached g.topology_version g.cached_conn_bitmap
            ≡ some (compute_bitmap my_peer_id (add my_peer_id g.peers) g.peer_conn_versions))
          × (ltb max_legacy_bitmap_peers (length (add my_peer_id g.peers)) ≡ false))

-- The connection information without caches.
abbrev pub fresh_conn_info :
    ℕ → List ℕ → ℕ → Bool → ℕ → RouteGroup → Result RouteError (Option ConnInfo)
fresh_conn_info my_peer_id relevant target supports now g =
    if eqb (length relevant) 0
    then ok none
    else if is_up_to_date now g (lookup target g.sessions)
    then ok none
    else if supports
    then ok (some (conn_peer_list (compute_peer_list my_peer_id relevant g.peer_conn_versions)))
    else if ltb max_legacy_bitmap_peers (length relevant)
    then err too_many_legacy_peers
    else ok (some (conn_bitmap (compute_bitmap my_peer_id relevant g.peer_conn_versions)))

-- A result is the fresh one, and leaves the caches right.
abbrev pub IsFresh :
    ℕ
    → Result RouteError (Option ConnInfo)
    → Result RouteError (RouteGroup × Option ConnInfo)
    → Type 0
IsFresh my_peer_id fresh (ok (g, info)) = (fresh ≡ ok info) × IsCached my_peer_id g
IsFresh my_peer_id fresh (err e) = fresh ≡ err e

cached_same : {A : Type 0} (version : ℕ) (a : A) → cached version (some (version, a)) ≡ some a
cached_same version a = rw (same_refl {A = ℕ} version) refl

list-IsFresh :
    (my_peer_id : ℕ) (g : RouteGroup)
    → IsCached my_peer_id g
    → IsFresh my_peer_id
        (ok (
          some (
            conn_peer_list
              (compute_peer_list my_peer_id (add my_peer_id g.peers) g.peer_conn_versions))))
        (ok (
          list_or_cached my_peer_id
            (add my_peer_id g.peers)
            g
            (cached g.topology_version g.cached_conn_peer_list)))
unfolding list_or_cached
list-IsFresh my_peer_id g h = elim h.list [
  | inl empty ↦ rw empty (
    refl,
    record {
      in_order = h.in_order;
      list = inr (cached_same g.topology_version _);
      bitmap = h.bitmap;
    },
  )
  | inr hit ↦ rw hit (refl, h)
]

bitmap-IsFresh :
    (my_peer_id : ℕ) (g : RouteGroup)
    → IsCached my_peer_id g
    → IsFresh my_peer_id
        (if ltb max_legacy_bitmap_peers (length (add my_peer_id g.peers))
          then err too_many_legacy_peers
          else ok (
              some (
                conn_bitmap
                  (compute_bitmap my_peer_id (add my_peer_id g.peers) g.peer_conn_versions))))
        (bitmap_or_cached my_peer_id
          (add my_peer_id g.peers)
          g
          (cached g.topology_version g.cached_conn_bitmap))
unfolding bitmap_or_cached
bitmap-IsFresh my_peer_id g h = elim h.bitmap [
  | inr (hit, fits) ↦ rw (hit, fits) (refl, h)
  | inl empty ↦ elim (Bool-cases (ltb max_legacy_bitmap_peers (length (add my_peer_id g.peers)))) [
    | inl many ↦ rw (empty, many) refl
    | inr fits ↦
        rw (empty, fits)
          (
            refl,
            record {
              in_order = h.in_order;
              list = h.list;
              bitmap = inr (cached_same g.topology_version _, fits);
            },
          )
  ]
]

-- A list of peers with the target.
relevant_of_member :
    (my_peer_id target : ℕ) (g : RouteGroup)
    → contains target g.peers ≡ true
    → IsSorted g.peers
    → relevant_peers my_peer_id target g ≡ add my_peer_id g.peers
relevant_of_member my_peer_id target g h s =
    add-known target (add my_peer_id g.peers) (contains-add target my_peer_id g.peers h)
      (add-IsSorted my_peer_id g.peers s)

-- For a known peer, and while the caches are right, the connection information is the one that would
-- be computed without caches, errors included, and the caches stay right.
pub build_conn_info-IsFresh :
    (my_peer_id target : ℕ) (supports : Bool) (now : ℕ) (g : RouteGroup)
    → contains target g.peers ≡ true
    → IsCached my_peer_id g
    → IsFresh my_peer_id
        (fresh_conn_info my_peer_id (relevant_peers my_peer_id target g) target supports now g)
        (build_conn_info my_peer_id (relevant_peers my_peer_id target g) target supports now g)
unfolding build_conn_info
build_conn_info-IsFresh my_peer_id target supports now g member h =
    rw (relevant_of_member my_peer_id target g member h.in_order)
      (elim (Bool-cases (eqb (length (add my_peer_id g.peers)) 0)) [
        | inl nobody ↦ rw nobody (refl, h)
        | inr somebody ↦ elim (Bool-cases (is_up_to_date now g (lookup target g.sessions))) [
          | inl current ↦ rw (somebody, current) (refl, h)
          | inr outdated ↦ elim (Bool-cases supports) [
            | inl list ↦ rw (somebody, outdated, list) (list-IsFresh my_peer_id g h)
            | inr legacy ↦ rw (somebody, outdated, legacy) (bitmap-IsFresh my_peer_id g h)
          ]
        ]
      ])

-- A change of the topology empties the caches.
pub bump-IsCached :
    (my_peer_id : ℕ) (g : RouteGroup)
    → IsSorted g.peers
    → IsCached my_peer_id (bump_all_conn_versions my_peer_id g)
unfolding bump_all_conn_versions
bump-IsCached my_peer_id g s = record { in_order = s; list = inl refl; bitmap = inl refl }
