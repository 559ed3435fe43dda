-- ===== src/Connection/Tests.antt =====
-- A new connection that sends three packets, one of them after its window has run out.
use intranet_penetration_clo.Common.{ℕ, List, [], ◌∷◌, true, arith}
use intranet_penetration_clo.Connection.{create_connection}
use intranet_penetration_clo.Connection.Window.{Attempt, IsMetered, send_all, send_all_budget}

abbrev attempt : ℕ → ℕ → Attempt
attempt at size = record { at = at; is_open = true; size = size }

abbrev attempts : List Attempt
attempts = attempt 100 1000 ∷ attempt 200 2000 ∷ attempt 1500 30 ∷ []

send_all_budget_example :
    IsMetered 1500
      (send_all (create_connection 50 1 2, []) attempts).0
      (send_all (create_connection 50 1 2, []) attempts).1
send_all_budget_example = send_all_budget 50 1 2 attempts (omega arith)
