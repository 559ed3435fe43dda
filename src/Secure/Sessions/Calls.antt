-- ===== src/Secure/Sessions/Calls.antt =====
-- Runs of the store's operations.
use intranet_penetration_clo.Common.{ℕ, ◌+◌, String, Option, List, [], ◌∷◌, if◌then◌else◌}
use intranet_penetration_clo.Common.Key.{pair_key, text_key, nat_key, list_key}
use intranet_penetration_clo.Packet.{Bytes}
use intranet_penetration_clo.Secure.{Traffic, SessionKey, Store}
use intranet_penetration_clo.Secure.Sessions.{
  upsert_session, attach_session, confirm_session_public_key, persist_session_state, detach_session,
}

-- The operations on the store, by whatever peers.
pub data StoreCall : Type 0 where
  upsert :
      (key : SessionKey) (generation : Option ℕ) (algorithm : String) (now : ℕ)
      (random : Option Bytes)
      → StoreCall
  attach detach : (key : SessionKey) (now : ℕ) → StoreCall
  confirm : (key : SessionKey) (remote : Bytes) (now : ℕ) → StoreCall
  persist : (key : SessionKey) (t : Traffic) (now : ℕ) → StoreCall

unfoldable pub store_after : StoreCall → Store → Store
store_after (upsert key generation algorithm now random) store =
    (upsert_session key generation algorithm now random store).1
store_after (attach key now) store = (attach_session key now store).1
store_after (detach key now) store = detach_session key now store
store_after (confirm key remote now) store = (confirm_session_public_key key remote now store).1
store_after (persist key t now) store = (persist_session_state key t now store).1

unfoldable pub store_run : List StoreCall → Store → Store
store_run [] store = store
store_run (call ∷ calls) store = store_run calls (store_after call store)

-- How often connections of a session leave it.
abbrev pub leaves : SessionKey → StoreCall → ℕ
leaves k (detach key now) = if pair_key.same key k then 1 else 0
leaves k (upsert key generation algorithm now random) = 0
leaves k (attach key now) = 0
leaves k (confirm key remote now) = 0
leaves k (persist key t now) = 0

unfoldable pub departures : SessionKey → List StoreCall → ℕ
departures k [] = 0
departures k (call ∷ calls) = leaves k call + departures k calls
