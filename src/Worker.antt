-- ===== src/Worker.antt =====
-- The worker's entry: `fetch` of cloudflare/src/index.ts, on the path, the method and the `Upgrade`
-- header of a request.
mod Tests
use intranet_penetration_clo.Common.{
  ℕ, String, ◌≡◌, refl, ◌↔◌, ◌≢◌, ◌⊎◌, inl, inr, Bool, true, false, not, ◌&&◌, ◌||◌, Option, none,
  some, length, if◌then◌else◌, arith, Bool-cases, subst,
}
use intranet_penetration_clo.Common.Result.{Result, ok, err, Result-cases}
use intranet_penetration_clo.Common.Key.{text_key}
use intranet_penetration_clo.Packet.{server_peer_id}
use intranet_penetration_clo.Config.{Env, ServerConfig, ConfigError, read_server_config}
use intranet_penetration_clo.Server.{Platform}

pub data Method : Type 0 where
  get head other : Method

pub data WorkerResponse : Type 0 where
  healthy : (networks : ℕ) → WorkerResponse
  unhealthy not_found redirect invalid_configuration : WorkerResponse
  -- The request is handed to the one durable object.
  delegated : WorkerResponse

abbrev is_get : Method → Bool
is_get get = true
is_get head = false
is_get other = false

abbrev is_head : Method → Bool
is_head get = false
is_head head = true
is_head other = false

health_ne_root :
    (path : String) (b : Bool) → (text_key.same path "/healthz" && b) ≡ true → path ≢ "/"
health_ne_root path b h e =
    let clash : (text_key.same "/" "/healthz" && b) ≡ true =
      subst (λ t. (text_key.same t "/healthz" && b) ≡ true) e h in
    ground (arith, clash)

module _ (p : Platform) where
  check_keys : ServerConfig → Option p.Secure → WorkerResponse
  check_keys config none = unhealthy
  check_keys config (some secure) = healthy (length config.rooms)

  check_health : Result ConfigError ServerConfig → WorkerResponse
  unfolding check_keys
  check_health (err e) = unhealthy
  check_health (ok config) =
      check_keys config
        (p.new_secure config.local_private_key config.local_public_key server_peer_id)

  delegate : Result ConfigError ServerConfig → WorkerResponse
  delegate (err e) = invalid_configuration
  delegate (ok config) = delegated

  unfoldable pub worker_fetch : Env → String → Method → (is_websocket : Bool) → WorkerResponse
  unfolding check_health delegate
  worker_fetch env path method is_websocket =
      if text_key.same path "/healthz" && is_get method
      then check_health (read_server_config p.runtime env)
      else if not (text_key.same path "/")
      then not_found
      else if not is_websocket
      then (if is_get method || is_head method then redirect else not_found)
      else delegate (read_server_config p.runtime env)

  check_keys_ne : (config : ServerConfig) (o : Option p.Secure) → check_keys config o ≢ delegated
  unfolding check_keys
  check_keys_ne config none = λ h. ground arith
  check_keys_ne config (some secure) = λ h. ground arith

  check_health_ne : (r : Result ConfigError ServerConfig) → check_health r ≢ delegated
  unfolding check_health
  check_health_ne (err e) = λ h. ground arith
  check_health_ne (ok config) =
      check_keys_ne config
        (p.new_secure config.local_private_key config.local_public_key server_peer_id)

  -- What decides whether a request is handed on.
  abbrev pub Routed : Env → String → Bool → WorkerResponse → Type 0
  Routed env path is_websocket response =
      ((response ≡ delegated)
        × (path ≡ "/")
        × (is_websocket ≡ true)
        × (config : ServerConfig) × (read_server_config p.runtime env ≡ ok config))
      ⊎ ((response ≢ delegated)
          × ((path ≢ "/")
              ⊎ (is_websocket ≡ false)
              ⊎ ((e : ConfigError) × (read_server_config p.runtime env ≡ err e))))

  -- Exactly the WebSocket upgrades of the path `/` under a valid configuration are handed to the
  -- durable object.
  pub worker_fetch-Routed :
      (env : Env) (path : String) (method : Method) (is_websocket : Bool)
      → Routed env path is_websocket (worker_fetch env path method is_websocket)
  unfolding worker_fetch delegate
  worker_fetch-Routed env path method is_websocket =
      elim (Bool-cases (text_key.same path "/healthz" && is_get method)) [
        | inl health ↦ rw health (
            inr (
              check_health_ne (read_server_config p.runtime env),
              inl (health_ne_root path (is_get method) health),
            ))
        | inr other_path ↦ elim (Bool-cases (text_key.same path "/")) [
          | inr away ↦
              rw (other_path, away)
                (inr (λ h. ground arith, inl (ground (arith, text_key.same_iff path "/"))))
          | inl root ↦ elim (Bool-cases is_websocket) [
            | inr plain ↦ rw (other_path, root, plain) (inr (ground arith, inr (inl refl)))
            | inl upgrade ↦ elim (Result-cases (read_server_config p.runtime env)) [
              | inl (e, bad) ↦
                  rw (other_path, root, upgrade, bad) (inr (λ h. ground arith, inr (inr (e, refl))))
              | inr (config, good) ↦
                  rw (other_path, root, upgrade, good)
                    (inl (refl, (text_key.same_iff path "/").0 root, refl, config, refl))
            ]
          ]
        ]
      ]
