-- ===== src/Routes/Sync/Ownership.antt =====
-- Who may publish what: a peer's information is its own, under the key it has authenticated with.
use intranet_penetration_clo.Common.{
  ℕ, ◌≡◌, ◌≢◌, refl, Bool, true, false, ◌||◌, Option, none, some, List, [], ◌∷◌, eqb, if◌then◌else◌,
  arith, length, ◌/◌, Bool-cases, ◌⊎◌, inl, inr, ◌∙◌, sym, ap,
}
use intranet_penetration_clo.Common.Result.{Result, ok, err}
use intranet_penetration_clo.Common.Action.{chain}
use intranet_penetration_clo.Common.Dict.{
  lookup, insert, delete, lookup-insert, lookup-insert_ne, lookup-insert_self, lookup-delete, has,
}
use intranet_penetration_clo.Common.Key.{nat_key, list_key}
use intranet_penetration_clo.Packet.{Bytes}
use intranet_penetration_clo.Routes.{
  RouteGroup, RoutePeerInfo, RouteError, bump_all_conn_versions, contains, add,
}
use intranet_penetration_clo.Routes.Updates.{
  SyncRequest, same_bytes, add_peer, remove_peer, is_other_key,
}
use intranet_penetration_clo.Routes.Sync.{
  Publishing, accept_info, publish_info, publish_infos, after_publishing, finish_sync,
  handle_sync_request, instance_changed, is_newer,
}

abbrev Bound : Option RoutePeerInfo → Option Bytes → Type 0
Bound none key = Unit
Bound (some info) none = ⊥
Bound (some info) (some key) = info.noise_static_pubkey ≡ key

-- Every published information carries the key that its peer is bound to.
abbrev pub IsBound : RouteGroup → Type 0
IsBound g = (q : ℕ) → Bound (lookup q g.peer_infos) (lookup q g.authenticated_peer_keys)

eqb-eq : (a b : ℕ) → eqb a b ≡ true → a ≡ b
eqb-eq a b h = ground arith

accept_info_others :
    (info : RoutePeerInfo) (now q : ℕ) (current : Option RoutePeerInfo) (p : Publishing)
    → info.peer_id ≢ q
    → lookup q (accept_info info now current p).group.peer_infos ≡ lookup q p.group.peer_infos
unfolding accept_info
accept_info_others info now q current p n =
    elim (Bool-cases (instance_changed info current || is_newer info current)) [
      | inl taken ↦ rw taken (
          lookup-insert_ne info.peer_id q (record info { last_update = some (now / 1000) })
            p.group.peer_infos n)
      | inr left ↦ rw left refl
    ]

accept_info_keys :
    (info : RoutePeerInfo) (now : ℕ) (current : Option RoutePeerInfo) (p : Publishing)
    → (accept_info info now current p).group.authenticated_peer_keys
      ≡ p.group.authenticated_peer_keys
unfolding accept_info
accept_info_keys info now current p =
    elim (Bool-cases (instance_changed info current || is_newer info current)) [
      | inl taken ↦ rw taken refl
      | inr left ↦ rw left refl
    ]

accept_info-IsBound :
    (info : RoutePeerInfo) (now : ℕ) (current : Option RoutePeerInfo) (p : Publishing)
    → lookup info.peer_id p.group.authenticated_peer_keys ≡ some info.noise_static_pubkey
    → IsBound p.group
    → IsBound (accept_info info now current p).group
unfolding accept_info
accept_info-IsBound info now current p own b q =
    elim (Bool-cases (instance_changed info current || is_newer info current)) [
      | inr left ↦ rw left (b q)
      | inl taken ↦
          rw
            (
              taken,
              lookup-insert info.peer_id q (record info { last_update = some (now / 1000) })
                  p.group.peer_infos,
            )
            (elim (Bool-cases (eqb info.peer_id q)) [
              | inl same ↦ rw (same, ← eqb-eq info.peer_id q same, own) refl
              | inr other ↦ rw other (b q)
            ])
    ]

-- A step of the loop, for the peer `from`.
record Kept (from : ℕ) (p p' : Publishing) : Type 0 where
  keys : p'.group.authenticated_peer_keys ≡ p.group.authenticated_peer_keys
  others : (q : ℕ) → from ≢ q → lookup q p'.group.peer_infos ≡ lookup q p.group.peer_infos
  bound : IsBound p'.group

Kept-trans : (from : ℕ) (p q r : Publishing) → Kept from p q → Kept from q r → Kept from p r
Kept-trans from p q r a b = record {
  keys = b.keys ∙ a.keys;
  others = λ x n. b.others x n ∙ a.others x n;
  bound = b.bound;
}

Kept-refl : (from : ℕ) (p : Publishing) → IsBound p.group → Kept from p p
Kept-refl from p b = record { keys = refl; others = λ q n. refl; bound = b }

publish_info-Kept :
    (from now : ℕ) (info : RoutePeerInfo) (key : Option Bytes) (p : Publishing)
    → info.peer_id ≡ from
    → lookup from p.group.authenticated_peer_keys ≡ key
    → IsBound p.group
    → Kept from p (publish_info info now key p).1
unfolding publish_info
publish_info-Kept from now info none p own e b = Kept-refl from p b
publish_info-Kept from now info (some key) p own e b =
    elim (Bool-cases (same_bytes info.noise_static_pubkey key)) [
      | inr foreign ↦ rw foreign (Kept-refl from p b)
      | inl same ↦
          let current = lookup info.peer_id p.group.peer_infos in
          rw same (record {
            keys = accept_info_keys info now current p;
            others = λ q n. accept_info_others info now q current p (rw own n);
            bound =
                accept_info-IsBound info now current p
                  (rw own
                    (e ∙ ap some (sym ((list_key.same_iff info.noise_static_pubkey key).0 same))))
                  b;
          })
    ]

chain-Kept :
    (from : ℕ) (p : Publishing) (m : Publishing → Result RouteError (Unit {0}) × Publishing)
    (r : Result RouteError (Unit {0}) × Publishing)
    → Kept from p r.1
    → ((p' : Publishing) → IsBound p'.group → Kept from p' (m p').1)
    → Kept from p (chain r (λ _. m)).1
chain-Kept from p m (ok _, p') h k = Kept-trans from p p' (m p').1 h (k p' h.bound)
chain-Kept from p m (err e, p') h k = h

publish_infos-Kept :
    (from now : ℕ) (infos : List RoutePeerInfo) (p : Publishing)
    → IsBound p.group
    → Kept from p (publish_infos from now infos p).1
unfolding publish_infos
publish_infos-Kept from now [] p b = Kept-refl from p b
publish_infos-Kept from now (info ∷ rest) p b = elim (Bool-cases (eqb info.peer_id from)) [
  | inr other ↦ rw other (publish_infos-Kept from now rest p b)
  | inl own ↦
      let key = lookup from p.group.authenticated_peer_keys in
      let first = publish_info-Kept from now info key p (eqb-eq info.peer_id from own) refl b in
      rw own (
        chain-Kept from p (publish_infos from now rest) (publish_info info now key p) first
          (publish_infos-Kept from now rest))
]

bump_keeps :
    (my_peer_id : ℕ) (b : Bool) (g : RouteGroup)
    → let g' = if b then bump_all_conn_versions my_peer_id g else g in
      (g'.peer_infos ≡ g.peer_infos) × (g'.authenticated_peer_keys ≡ g.authenticated_peer_keys)
unfolding bump_all_conn_versions
bump_keeps my_peer_id true g = (refl, refl)
bump_keeps my_peer_id false g = (refl, refl)

bump-IsBound :
    (my_peer_id : ℕ) (b : Bool) (g : RouteGroup)
    → IsBound g
    → IsBound (if b then bump_all_conn_versions my_peer_id g else g)
unfolding bump_all_conn_versions
bump-IsBound my_peer_id true g h = h
bump-IsBound my_peer_id false g h = h

-- What a request may change.
abbrev pub Owned : ℕ → RouteGroup → RouteGroup → Type 0
Owned q g g' =
    (lookup q g'.peer_infos ≡ lookup q g.peer_infos)
    × (g'.authenticated_peer_keys ≡ g.authenticated_peer_keys)
    × IsBound g'

after_publishing-Owned :
    (my_peer_id from q : ℕ) (req : SyncRequest) (changed : Bool) (p : Publishing)
    (r : Result RouteError (Unit {0}) × Publishing)
    → from ≢ q
    → Kept from p r.1
    → Owned q p.group (after_publishing my_peer_id from req changed r).1
unfolding after_publishing finish_sync
after_publishing-Owned my_peer_id from q req changed p (ok _, p') n h =
    let (infos, keys) = bump_keeps my_peer_id p'.need_bump p'.group in
    (
      ap (λ m. lookup q m) infos ∙ h.others q n,
      keys ∙ h.keys,
      bump-IsBound my_peer_id p'.need_bump p'.group h.bound,
    )
after_publishing-Owned my_peer_id from q req changed p (err e, p') n h =
    (h.others q n, h.keys, h.bound)

-- Whatever a peer sends in a route request, accepted or not, the information published for every
-- other peer stays as it was, and no key binding changes. Where every information carried the key
-- that its peer is bound to, it still does.
pub handle_sync_request-Owned :
    (my_peer_id from q : ℕ) (req : SyncRequest) (now : ℕ) (g : RouteGroup)
    → from ≢ q
    → IsBound g
    → Owned q g (handle_sync_request my_peer_id from req now g).1
unfolding handle_sync_request
handle_sync_request-Owned my_peer_id from q req now g n b =
    elim (Bool-cases (eqb req.my_peer_id from)) [
      | inr foreign ↦ rw foreign (refl, refl, b)
      | inl own ↦
          rw own (
            after_publishing-Owned my_peer_id from q req _ _ _ n
              (publish_infos-Kept from now _ _ b))
    ]

rebound :
    (info : Option RoutePeerInfo) (o : Option Bytes) (key : Bytes)
    → is_other_key key o ≡ false
    → Bound info o
    → Bound info (some key)
rebound none o key same b = tt
rebound (some info) none key same b = absurd b
rebound (some info) (some current) key same b = b ∙ (list_key.same_iff current key).0 (ground arith)

insert_key-IsBound :
    (peer_id : ℕ) (key : Bytes) (g : RouteGroup) (ids : List ℕ)
    → is_other_key key (lookup peer_id g.authenticated_peer_keys) ≡ false
    → IsBound g
    → IsBound (record g {
      authenticated_peer_keys = insert peer_id key g.authenticated_peer_keys;
      peers = ids;
    })
insert_key-IsBound peer_id key g ids free b q =
    rw (lookup-insert peer_id q key g.authenticated_peer_keys) (elim (Bool-cases (eqb peer_id q)) [
      | inr other ↦ rw other (b q)
      | inl same ↦
          rw (same, ← eqb-eq peer_id q same)
            (rebound (lookup peer_id g.peer_infos) (lookup peer_id g.authenticated_peer_keys) key
              free (b peer_id))
    ])

-- The outcome of binding a peer to a key.
abbrev pub Binds : ℕ → Bytes → RouteGroup → Result RouteError RouteGroup → Type 0
Binds peer_id key g (ok g') =
    IsBound g'
    × (lookup peer_id g'.authenticated_peer_keys ≡ some key)
    × (is_other_key key (lookup peer_id g.authenticated_peer_keys) ≡ false)
    × (length key ≡ 32)
Binds peer_id key g (err e) =
    (length key ≢ 32) ⊎ (is_other_key key (lookup peer_id g.authenticated_peer_keys) ≡ true)

-- A peer is bound to a key of 32 bytes, unless it is bound to another, and only then. Every
-- information keeps the key that its peer is bound to.
pub add_peer-Binds :
    (my_peer_id peer_id : ℕ) (key : Bytes) (g : RouteGroup)
    → IsBound g
    → Binds peer_id key g (add_peer my_peer_id peer_id key g)
unfolding add_peer bump_all_conn_versions
add_peer-Binds my_peer_id peer_id key g b = elim (Bool-cases (eqb (length key) 32)) [
  | inr bad ↦ rw bad (inl (ground arith))
  | inl fits ↦ elim (Bool-cases (is_other_key key (lookup peer_id g.authenticated_peer_keys))) [
    | inl other ↦ rw (fits, other) (inr other)
    | inr free ↦
        let bound = insert_key-IsBound peer_id key g (add peer_id g.peers) free b in
        let own = lookup-insert_self peer_id key g.authenticated_peer_keys in
        elim (Bool-cases (contains peer_id g.peers)) [
          | inl known ↦ rw (fits, free, known) (bound, own, free, eqb-eq (length key) 32 fits)
          | inr new ↦ rw (fits, free, new) (bound, own, free, eqb-eq (length key) 32 fits)
        ]
  ]
]

forgotten :
    (peer_id : ℕ) (g : RouteGroup)
    → IsBound g
    → (q : ℕ)
    → Bound
        (lookup q (delete peer_id g.peer_infos))
        (lookup q (delete peer_id g.authenticated_peer_keys))
forgotten peer_id g b q =
    rw (lookup-delete peer_id q g.peer_infos, lookup-delete peer_id q g.authenticated_peer_keys)
      (elim (Bool-cases (eqb peer_id q)) [ inl same ↦ rw same tt | inr other ↦ rw other (b q) ])

-- Removing a peer forgets its information together with its key.
pub remove_peer-IsBound :
    (my_peer_id peer_id : ℕ) (g : RouteGroup)
    → IsBound g
    → IsBound (remove_peer my_peer_id peer_id g)
unfolding remove_peer bump_all_conn_versions
remove_peer-IsBound my_peer_id peer_id g b =
    elim (Bool-cases (contains peer_id g.peers || has peer_id g.peer_infos)) [
      | inl known ↦ rw known (forgotten peer_id g b)
      | inr unknown ↦ rw unknown (forgotten peer_id g b)
    ]
