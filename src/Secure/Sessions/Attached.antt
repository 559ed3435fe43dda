-- ===== src/Secure/Sessions/Attached.antt =====
-- Sessions that connections are attached to, over any run of the store's operations.
use intranet_penetration_clo.Common.{
  ℕ, ◌+◌, ◌-◌, ◌<◌, ◌≤◌, ◌≡◌, refl, String, true, Option, none, some, List, [], ◌∷◌, length, leb,
  arith, Bool-cases, inl, inr, ap, sym, ◌∙◌, subst,
}
use intranet_penetration_clo.Common.Result.{Result, ok, Result-cases}
use intranet_penetration_clo.Common.Dict.{lookup, insert, lookup-insert}
use intranet_penetration_clo.Common.Key.{pair_key, text_key, nat_key, list_key}
use intranet_penetration_clo.Packet.{Bytes}
use intranet_penetration_clo.Secure.{
  Traffic, SessionKey, StoredSession, Store, SecureError, max_stored_sessions,
}
use intranet_penetration_clo.Secure.Sessions.{
  is_kept, prune, select_session, upsert_session, on_session, change_session, attach_session,
  attached, confirm_session_public_key, confirmed, persist_session_state, saved, detach_session,
  detach_in, detached, synced_traffic, is_other, is_generation,
}
use intranet_penetration_clo.Secure.Sessions.Bounds.{lookup-retain_present}
use intranet_penetration_clo.Secure.Sessions.Calls.{
  StoreCall, upsert, attach, detach, confirm, persist, store_after, store_run, leaves, departures,
}

module _ (root remote : Bytes) (algorithm : String) (k : SessionKey) where
  -- A session with these keys and at least `n` attachments.
  pub record Good (n : ℕ) (s : StoredSession) : Type 0 where
    pub counted : n ≤ s.attachments
    pub rooted : s.root_key ≡ root
    pub named : s.client_algorithm ≡ algorithm
    pub confirmed_key : s.remote_public_key ≡ some remote

  pub record Holds (n : ℕ) (store : Store) : Type 0 where
    pub session : StoredSession
    pub stored : lookup k store ≡ some session
    pub good : Good n session

  less-Holds : (n m : ℕ) (store : Store) → m ≤ n → Holds n store → Holds m store
  less-Holds n m store le h = record {
    session = h.session;
    stored = h.stored;
    good = record {
      counted = let c = h.good.counted in omega arith;
      rooted = h.good.rooted;
      named = h.good.named;
      confirmed_key = h.good.confirmed_key;
    };
  }

  put-Holds :
      (n m : ℕ) (j : SessionKey) (t : StoredSession) (store : Store)
      → Holds n store
      → m ≤ n
      → ((s : StoredSession)
          → pair_key.same j k ≡ true
          → lookup j store ≡ some s
          → Good n s
          → Good m t)
      → Holds m (insert j t store)
  put-Holds n m j t store h le change = elim (Bool-cases (pair_key.same j k)) [
    | inl same ↦ record {
      session = t;
      stored = lookup-insert j k t store ∙ ground (arith, same);
      good = change h.session same (rw ((pair_key.same_iff j k).0 same) h.stored) h.good;
    }
    | inr other ↦ record {
      session = h.session;
      stored = lookup-insert j k t store ∙ (ground (arith, other) ∙ h.stored);
      good = record {
        counted = let c = h.good.counted in omega arith;
        rooted = h.good.rooted;
        named = h.good.named;
        confirmed_key = h.good.confirmed_key;
      };
    }
  ]

  Good-same : (n : ℕ) (a b : StoredSession) → Good n a → some a ≡ some b → Good n b
  Good-same n a b g e = let p : a ≡ b = ground (arith, e) in subst (Good n) p g

  change-Holds :
      (n : ℕ) (j : SessionKey) (change : StoredSession → Result SecureError StoredSession)
      (o : Option StoredSession) (store : Store)
      → lookup j store ≡ o
      → Holds n store
      → ((s t : StoredSession) → change s ≡ ok t → Good n s → Good n t)
      → Holds n (on_session j change o store).1
  change-Holds n j change none store e h keeps = h
  change-Holds n j change (some s) store e h keeps = elim (Result-cases (change s)) [
    | inl failed ↦ rw (failed.1, on_session) h
    | inr done ↦
        rw (done.1, on_session)
          (put-Holds n n j done.0 store h (omega arith) (λ found here same good.
            keeps s done.0 done.1 (Good-same n found s good (sym same ∙ e))))
  ]

  prune-Holds : (n now : ℕ) (store : Store) → 0 < n → Holds n store → Holds n (prune now store)
  prune-Holds n now store pos h = record {
    session = h.session;
    stored =
        lookup-retain_present k (λ key. is_kept now) h.session store h.stored
          (ground (arith, pos, h.good.counted));
    good = h.good;
  }

  touched-Good :
      (n : ℕ) (s : StoredSession) (t : Traffic) (now : ℕ)
      → Good n s
      → Good n (record s { traffic = t; last_touch_ms = now })
  touched-Good n s t now g = record {
    counted = g.counted;
    rooted = g.rooted;
    named = g.named;
    confirmed_key = g.confirmed_key;
  }

  touch-Holds :
      (n : ℕ) (key : SessionKey) (s : StoredSession) (t : Traffic) (now : ℕ) (store : Store)
      → lookup key store ≡ some s
      → Holds n store
      → Holds n (insert key (record s { traffic = t; last_touch_ms = now }) store)
  touch-Holds n key s t now store e h =
      put-Holds n n key (record s { traffic = t; last_touch_ms = now }) store h (omega arith)
        (λ found here same good. touched-Good n s t now (Good-same n found s good (sym same ∙ e)))

  select-Holds :
      (n : ℕ) (key : SessionKey) (generation : Option ℕ) (name : String) (now : ℕ)
      (random : Option Bytes) (o : Option StoredSession) (store : Store)
      → lookup key store ≡ o
      → Holds n store
      → Holds n (select_session key generation name now random o store).1
  unfolding select_session
  select-Holds n key generation name now none none store e h =
      elim (Bool-cases (leb max_stored_sessions (length store))) [
        | inl full ↦ rw full h
        | inr room ↦ rw room h
      ]
  select-Holds n key generation name now (some root_key) none store e h =
      elim (Bool-cases (leb max_stored_sessions (length store))) [
        | inl full ↦ rw full h
        | inr room ↦ rw room (
            put-Holds n n key _ store h (omega arith)
              (λ found here same good. absurd (ground (arith, sym same ∙ e))))
      ]
  select-Holds n key generation name now random (some s) store e h =
      elim (Bool-cases (text_key.same s.client_algorithm name)) [
        | inl same ↦ elim (Bool-cases (is_generation s.generation generation)) [
          | inl known ↦ rw (same, known) (touch-Holds n key s s.traffic now store e h)
          | inr stale ↦
              rw (same, stale) (touch-Holds n key s (synced_traffic now s.traffic) now store e h)
        ]
        | inr other ↦ rw other h
      ]

  attached-Good : (n now : ℕ) (s t : StoredSession) → attached now s ≡ ok t → Good n s → Good n t
  attached-Good n now s t e g = elim (Bool-cases (leb 4_294_967_295 s.attachments)) [
    | inl full ↦ absurd (ground (arith, e, full))
    | inr room ↦
        let r : StoredSession = record s { attachments = s.attachments + 1; last_touch_ms = now } in
        let p : r ≡ t = ground (arith, e, room) in
        subst (Good n) p (record {
          counted = omega (arith, g.counted);
          rooted = g.rooted;
          named = g.named;
          confirmed_key = g.confirmed_key;
        })
  ]

  confirmed-Good :
      (n : ℕ) (key : Bytes) (now : ℕ) (s t : StoredSession)
      → confirmed key now s ≡ ok t
      → Good n s
      → Good n t
  confirmed-Good n key now s t e g = elim (Bool-cases (is_other key s.remote_public_key)) [
    | inl other ↦ absurd (ground (arith, e, other))
    | inr same ↦
        let r : StoredSession = record s { remote_public_key = some key; last_touch_ms = now } in
        let p : r ≡ t = ground (arith, e, same) in
        let q : list_key.same remote key ≡ true = ground (arith, g.confirmed_key, same) in
        subst (Good n) p (record {
          counted = g.counted;
          rooted = g.rooted;
          named = g.named;
          confirmed_key = ap some (sym ((list_key.same_iff remote key).0 q));
        })
  ]

  saved-Good :
      (n : ℕ) (traffic : Traffic) (now : ℕ) (s t : StoredSession)
      → saved traffic now s ≡ ok t
      → Good n s
      → Good n t
  saved-Good n traffic now s t e g =
      let r : StoredSession = record s { traffic = traffic; last_touch_ms = now } in
      let p : r ≡ t = ground (arith, e) in subst (Good n) p (touched-Good n s traffic now g)

  detached-Good : (n m now : ℕ) (s : StoredSession) → m ≡ n - 1 → Good n s → Good m (detached now s)
  detached-Good n m now s e g = record {
    counted = omega (arith, e, g.counted);
    rooted = g.rooted;
    named = g.named;
    confirmed_key = g.confirmed_key;
  }

  detach-Holds :
      (n : ℕ) (key : SessionKey) (now : ℕ) (o : Option StoredSession) (store : Store)
      → lookup key store ≡ o
      → Holds n store
      → Holds (n - leaves k (detach key now)) (detach_in key now o store)
  detach-Holds n key now none store e h =
      less-Holds n (n - leaves k (detach key now)) store (omega arith) h
  detach-Holds n key now (some s) store e h =
      put-Holds n (n - leaves k (detach key now)) key (detached now s) store h (omega arith)
        (λ found here same good.
          detached-Good n (n - leaves k (detach key now)) now s (ground (arith, here))
            (Good-same n found s good (sym same ∙ e)))

  after-Holds :
      (n : ℕ) (call : StoreCall) (store : Store)
      → 0 < n
      → Holds n store
      → Holds (n - leaves k call) (store_after call store)
  unfolding store_after upsert_session attach_session confirm_session_public_key
      persist_session_state detach_session
  after-Holds n (upsert key generation name now random) store pos h =
      let kept = prune now store in
      less-Holds n (n - 0) (select_session key generation name now random (lookup key kept) kept).1
        (omega arith)
        (select-Holds n key generation name now random (lookup key kept) kept refl
          (prune-Holds n now store pos h))
  after-Holds n (attach key now) store pos h =
      less-Holds n (n - 0) (change_session key (attached now) store).1 (omega arith)
        (change-Holds n key (attached now) (lookup key store) store refl h (attached-Good n now))
  after-Holds n (confirm key found now) store pos h =
      less-Holds n (n - 0) (change_session key (confirmed found now) store).1 (omega arith) (
        change-Holds n key (confirmed found now) (lookup key store) store refl h
          (confirmed-Good n found now))
  after-Holds n (persist key t now) store pos h =
      less-Holds n (n - 0) (change_session key (saved t now) store).1 (omega arith)
        (change-Holds n key (saved t now) (lookup key store) store refl h (saved-Good n t now))
  after-Holds n (detach key now) store pos h =
      detach-Holds n key now (lookup key store) store refl h

  -- A session that more connections are attached to than leave it in a run of the store's operations,
  -- by whatever peers, is in the store after the run, with its root key, algorithm and confirmed
  -- client key, and with the remaining attachments at least.
  pub store_run-Holds :
      (n : ℕ) (calls : List StoreCall) (store : Store)
      → departures k calls < n
      → Holds n store
      → Holds (n - departures k calls) (store_run calls store)
  unfolding store_run departures
  store_run-Holds n [] store enough h = less-Holds n (n - 0) store (omega arith) h
  store_run-Holds n (call ∷ calls) store enough h =
      less-Holds (n - leaves k call - departures k calls) (n - (leaves k call + departures k calls))
        (store_run calls (store_after call store)) (omega arith)
        (store_run-Holds (n - leaves k call) calls (store_after call store) (omega arith)
          (after-Holds n call store (omega arith) h))
