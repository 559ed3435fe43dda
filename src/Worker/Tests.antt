-- ===== src/Worker/Tests.antt =====
-- A WebSocket upgrade without a usable configuration.
use intranet_penetration_clo.Common.{true, none}
use intranet_penetration_clo.Config.{Env}
use intranet_penetration_clo.Server.Tests.{platform}
use intranet_penetration_clo.Worker.{Routed, get, worker_fetch, worker_fetch-Routed}

abbrev env : Env
env = record {
  easytier_networks = "[home]";
  local_private_key = "private";
  local_public_key = "public";
  easytier_hostname = none;
  max_frame_bytes = none;
}

worker_fetch-Routed_example : Routed platform env "/" true (worker_fetch platform env "/" get true)
worker_fetch-Routed_example = worker_fetch-Routed platform env "/" get true
