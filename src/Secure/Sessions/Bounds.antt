-- ===== src/Secure/Sessions/Bounds.antt =====
-- The session store over any run of its operations: how many sessions there are, and which of them
-- stay.
use intranet_penetration_clo.Common.{
  ℕ, ◌+◌, ◌<◌, ◌≤◌, ◌≡◌, refl, String, Bool, true, false, Option, none, some, List, [], ◌∷◌, length,
  leb, arith, Bool-cases, inl, inr,
}
use intranet_penetration_clo.Common.Result.{Result, Result-cases}
use intranet_penetration_clo.Common.Dict.{lookup, insert, retain}
use intranet_penetration_clo.Common.Key.{pair_key, text_key, nat_key, list_key}
use intranet_penetration_clo.Packet.{Bytes}
use intranet_penetration_clo.Secure.{
  SessionKey, StoredSession, Store, SecureError, max_stored_sessions,
}
use intranet_penetration_clo.Secure.Sessions.Calls.{
  StoreCall, upsert, attach, detach, confirm, persist, store_after, store_run,
}
use intranet_penetration_clo.Secure.Sessions.{
  is_kept, prune, select_session, upsert_session, on_session, attach_session, attached,
  confirm_session_public_key, confirmed, persist_session_state, saved, detach_session, detach_in,
  detached, synced_traffic,
}

length-insert_le :
    (k : SessionKey) (v : StoredSession) (m : Store) → length (insert k v m) ≤ length m + 1
unfolding insert
length-insert_le k v [] = omega arith
length-insert_le k v ((j, w) ∷ m) = ground (arith, length-insert_le k v m)

length-insert_present :
    (k : SessionKey) (v w : StoredSession) (m : Store)
    → lookup k m ≡ some w
    → length (insert k v m) ≡ length m
unfolding insert lookup
length-insert_present k v w [] h = absurd (ground (arith, h))
length-insert_present k v w ((j, x) ∷ m) h = ground (arith, h, length-insert_present k v w m)

length-retain_le :
    (keep : SessionKey → StoredSession → Bool) (m : Store) → length (retain keep m) ≤ length m
length-retain_le keep [] = omega arith
length-retain_le keep ((j, w) ∷ m) = ground (arith, length-retain_le keep m)

length-prune : (now : ℕ) (store : Store) → length (prune now store) ≤ length store
length-prune now store = length-retain_le (λ key. is_kept now) store

leb_room :
    (store : Store)
    → leb max_stored_sessions (length store) ≡ false
    → length store < max_stored_sessions
leb_room store h = ground (arith, h)

insert_bounded :
    (key : SessionKey) (v : StoredSession) (store : Store)
    → length store < max_stored_sessions
    → length (insert key v store) ≤ max_stored_sessions
insert_bounded key v store h = omega (arith, length-insert_le key v store)

select_session_bounded :
    (key : SessionKey) (generation : Option ℕ) (algorithm : String) (now : ℕ)
    (random : Option Bytes) (o : Option StoredSession) (store : Store)
    → lookup key store ≡ o
    → length store ≤ max_stored_sessions
    → length (select_session key generation algorithm now random o store).1 ≤ max_stored_sessions
unfolding select_session
select_session_bounded key generation algorithm now none none store e h = ground (arith, h)
select_session_bounded key generation algorithm now (some root_key) none store e h =
    elim (Bool-cases (leb max_stored_sessions (length store))) [
      | inl full ↦ rw full h
      | inr room ↦ rw room (insert_bounded key _ store (leb_room store room))
    ]
select_session_bounded key generation algorithm now random (some s) store e h = ground (
  arith,
  h,
  length-insert_present key (record s { last_touch_ms = now }) s store e,
  length-insert_present key
      (record s { traffic = synced_traffic now s.traffic; last_touch_ms = now }) s store e,
)

pub lookup-retain_present :
    (k : SessionKey) (keep : SessionKey → StoredSession → Bool) (v : StoredSession) (m : Store)
    → lookup k m ≡ some v
    → keep k v ≡ true
    → lookup k (retain keep m) ≡ some v
unfolding lookup
lookup-retain_present k keep v [] h good = h
lookup-retain_present k keep v ((j, w) ∷ m) h good = elim (Bool-cases (pair_key.same j k)) [
  | inl same ↦
      let f : w ≡ v = ground (arith, h, same) in
      let g : keep j w ≡ true = rw ((pair_key.same_iff j k).0 same, f) good in ground (arith, g, h)
  | inr other ↦
      let ih : lookup k (retain keep m) ≡ some v =
        lookup-retain_present k keep v m (ground (arith, h, other)) good in
      ground (arith, ih, other)
]

-- An operation on a session that is there, or not.
length-on_session :
    (key : SessionKey) (change : StoredSession → Result SecureError StoredSession)
    (o : Option StoredSession) (store : Store)
    → lookup key store ≡ o
    → length (on_session key change o store).1 ≡ length store
length-on_session key change none store e = refl
length-on_session key change (some s) store e = elim (Result-cases (change s)) [
  | inl failed ↦ rw (failed.1, on_session) refl
  | inr done ↦ rw (done.1, on_session) (length-insert_present key done.0 s store e)
]

length-detach_in :
    (key : SessionKey) (now : ℕ) (o : Option StoredSession) (store : Store)
    → lookup key store ≡ o
    → length (detach_in key now o store) ≡ length store
length-detach_in key now none store e = refl
length-detach_in key now (some s) store e = length-insert_present key (detached now s) s store e

after_bounded :
    (call : StoreCall) (store : Store)
    → length store ≤ max_stored_sessions
    → length (store_after call store) ≤ max_stored_sessions
unfolding store_after upsert_session attach_session confirm_session_public_key persist_session_state
    detach_session
after_bounded (upsert key generation name now random) store h =
    let kept = prune now store in
    select_session_bounded key generation name now random (lookup key kept) kept refl
      (omega (arith, length-prune now store))
after_bounded (attach key now) store h =
    rw (length-on_session key (attached now) (lookup key store) store refl) h
after_bounded (confirm key found now) store h =
    rw (length-on_session key (confirmed found now) (lookup key store) store refl) h
after_bounded (persist key t now) store h =
    rw (length-on_session key (saved t now) (lookup key store) store refl) h
after_bounded (detach key now) store h =
    rw (length-detach_in key now (lookup key store) store refl) h

-- No run of the store's operations, by whatever peers, leads from a store of at most 2048 sessions to
-- one of more.
pub store_run_bounded :
    (calls : List StoreCall) (store : Store)
    → length store ≤ max_stored_sessions
    → length (store_run calls store) ≤ max_stored_sessions
unfolding store_run
store_run_bounded [] store h = h
store_run_bounded (call ∷ calls) store h =
    store_run_bounded calls (store_after call store) (after_bounded call store h)
