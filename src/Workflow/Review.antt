-- ===== src/Workflow/Review.antt =====
-- `maybe_assign_reviewer` (broker_workflow.py).
use pi_tmux_orchestrator.Prelude.{
  ℕ, String, Bool, true, false, not, ◌&&◌, ◌||◌, Option, none, some, List, [], ◌∷◌, ◌++◌, map, leb,
  ◌==◌, String_eq, ℕ_eq, Option_eq, if◌then◌else◌, contains, is_some,
}
use pi_tmux_orchestrator.Prelude.Result.{ok, err}
use pi_tmux_orchestrator.Prelude.Table.{select, select_last, exists}
use pi_tmux_orchestrator.Store.Rows.{Db, Assignment, Report, Activation, Kind, Kind_eq}
use pi_tmux_orchestrator.Store.Writes.{Tx}
use pi_tmux_orchestrator.Broker.Transport.{Exec, ◌>>=◌, when, transact}
use pi_tmux_orchestrator.Roles.Contracts.{Contracts, specialist_kind}
use pi_tmux_orchestrator.Specialists.Activation.{public_specialist_activations}
use pi_tmux_orchestrator.Workflow.Deliver.{Run}
use pi_tmux_orchestrator.Workflow.Assign.{assign}

unfoldable pub configured : List String → List String → List String
unfolding contains
configured roles [] = []
configured roles (name ∷ rest) =
    let others = configured roles rest in if contains roles name then name ∷ others else others

-- The specialists whose decisions the review waits for.
unfoldable pub specialists : Run → List String
unfolding configured
specialists run =
    configured run.roles ("probe" ∷ "playwright" ∷ "django" ∷ [])
    ++ (if leb 7 run.version then map (λ item. item.0) run.custom_contracts else [])

-- SELECT 1 FROM reports WHERE role='implementer' AND round=? AND kind='implementation'
abbrev pub is_implementation : ℕ → Report → Bool
is_implementation round x =
    x.role == "implementer" && x.round == round && x.kind == Kind.implementation

-- completed.get(role): the kind of the role's last report of the round
unfoldable pub completed : Db → ℕ → String → Option Kind
unfolding select_last
completed db round role =
    elim (select_last (λ (x : Report). x.round == round && x.role == role) db.reports) [
      | none ↦ none
      | some x ↦ some x.kind
    ]

abbrev pub is_skipped : Option Activation → Bool
is_skipped none = false
is_skipped (some a) = a.decision == "skipped"

abbrev pub is_done : Db → ℕ → Option Activation → String → Bool
is_done db round none name = false
is_done db round (some a) name = a.decision == "skipped" || is_some (completed db round name)

-- A decision is there, and it skips the specialist or the specialist has reported.
unfoldable pub specialists_ready : Db → ℕ → List Activation → List String → Bool
unfolding select
specialists_ready db round activations [] = true
specialists_ready db round activations (name ∷ rest) =
    is_done db round (select (λ (a : Activation). a.role == name) activations) name
    && specialists_ready db round activations rest

unfoldable pub contracts_completed : Db → ℕ → Contracts → Bool
contracts_completed db round [] = true
contracts_completed db round ((role, s) ∷ rest) =
    completed db round role == some (specialist_kind s) && contracts_completed db round rest

-- SELECT 1 FROM assignments WHERE role='reviewer' AND round=?
abbrev pub is_review : ℕ → Assignment → Bool
is_review round a = a.role == "reviewer" && a.round == round

module _ (run : Run) (round : ℕ) where
  -- The test of `maybe_assign_reviewer`, on the decisions of the round.
  unfoldable pub is_due : Db → List Activation → Bool
  is_due db activations =
      exists (is_implementation round) db.reports
      && specialists_ready db round activations (specialists run)
      && (leb 7 run.version || contracts_completed db round run.custom_contracts)
      && not (exists (is_review round) db.assignments)

  unfoldable pub review_tx : Tx Bool
  review_tx db = elim (public_specialist_activations round db.activations) [
    | err code ↦ err code
    | ok activations ↦ ok (is_due db activations, db)
  ]

  abbrev pub assign_if : Bool → Exec (Unit {0})
  assign_if due = when due (assign run "reviewer" Kind.review round)

  unfoldable pub maybe_assign_reviewer : Exec (Unit {0})
  maybe_assign_reviewer = transact review_tx >>= assign_if
