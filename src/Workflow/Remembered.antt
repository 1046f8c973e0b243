-- ===== src/Workflow/Remembered.antt =====
-- What the broker remembers of the reports for its observers (broker_workflow.py).
use pi_tmux_orchestrator.Prelude.{
  ℕ, ◌≤◌, String, ◌≡◌, Option, some, none, List, [], ◌∷◌, ◌==◌, String_eq, if◌then◌else◌,
}
use pi_tmux_orchestrator.Prelude.Table.{insert}
use pi_tmux_orchestrator.Broker.State.{Broker, ReportEvent}

-- latest_reports.get(role), its round
abbrev pub latest : String → List (String × ℕ) → Option ℕ
latest role [] = none
latest role ((name, n) ∷ rest) = if name == role then some n else latest role rest

-- A round that is not before this one.
abbrev pub IsFrom : ℕ → Option ℕ → Type 0
IsFrom round none = ⊥
IsFrom round (some n) = round ≤ n

abbrev pub EndsWith : ReportEvent → List ReportEvent → Type 0
EndsWith event rows = (older : List ReportEvent) × (rows ≡ insert event older)
