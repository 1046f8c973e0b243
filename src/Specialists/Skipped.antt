-- ===== src/Specialists/Skipped.antt =====
-- When a specialist is skipped (specialist_activation.py).
use pi_tmux_orchestrator.Prelude.{
  ◌≡◌, refl, Bool, true, false, some, List, [], ◌∷◌, arith, Option-cases, Bool-cases, inl, inr, ◌⊎◌,
}
use pi_tmux_orchestrator.Prelude.Json.{Value}
use pi_tmux_orchestrator.Prelude.Table.{All, All-map}
use pi_tmux_orchestrator.Roles.Contracts.{Specialist, probe, playwright, django}
use pi_tmux_orchestrator.Specialists.Paths.{Codes}
use pi_tmux_orchestrator.Specialists.Decide.{
  any, all, normalized_paths, is_documentation, django_path, is_browser, is_frontend, on_paths,
  decide_specialist,
}

-- A path that this specialist has nothing to see to.
abbrev pub IsHarmless : Specialist → Codes → Type 0
IsHarmless probe path = is_documentation path ≡ true
IsHarmless playwright path = (is_documentation path ≡ true) × (is_browser path ≡ false)
IsHarmless django path =
    ((is_documentation path ≡ true) ⊎ (is_frontend path ≡ true)) × (django_path path ≡ false)

all-All :
    {A : Type 0} (test : A → Bool) (xs : List A) → all test xs ≡ true → All (λ x. test x ≡ true) xs
unfolding all
all-All test [] h = tt
all-All test (x ∷ rest) h = (ground arith, all-All test rest (ground arith))

any-All :
    {A : Type 0} (test : A → Bool) (xs : List A)
    → any test xs ≡ false
    → All (λ x. test x ≡ false) xs
unfolding any
any-All test [] h = tt
any-All test (x ∷ rest) h = (ground arith, any-All test rest (ground arith))

All-both :
    {A : Type 0} (P Q R : A → Type 0) (xs : List A)
    → ((x : A) → P x → Q x → R x)
    → All P xs
    → All Q xs
    → All R xs
All-both P Q R [] k p q = tt
All-both P Q R (x ∷ rest) k p q = (k x p.0 q.0, All-both P Q R rest k p.1 q.1)

documentation_or_frontend :
    (paths : List Codes)
    → (all is_documentation paths ≡ true) ⊎ (all is_frontend paths ≡ true)
    → All (λ p. (is_documentation p ≡ true) ⊎ (is_frontend p ≡ true)) paths
documentation_or_frontend paths (inl docs) =
    All-map _ _ paths (λ p k. inl k) (all-All is_documentation paths docs)
documentation_or_frontend paths (inr front) =
    All-map _ _ paths (λ p k. inr k) (all-All is_frontend paths front)

harmless :
    (s : Specialist) (paths : List Codes)
    → (on_paths s paths).run ≡ false
    → All (IsHarmless s) paths
harmless probe paths h = all-All is_documentation paths (ground arith)
harmless playwright paths h =
    All-both _ _ _ paths (λ p d b. (d, b)) (all-All is_documentation paths (ground arith))
      (any-All is_browser paths (ground arith))
harmless django paths h =
    All-both _ _ _ paths (λ p d f. (d, f)) (documentation_or_frontend paths (skipped_for paths h))
      (any-All django_path paths (ground arith))
  where
    skipped_for :
        (paths : List Codes)
        → (on_paths django paths).run ≡ false
        → (all is_documentation paths ≡ true) ⊎ (all is_frontend paths ≡ true)
    skipped_for paths h = elim (Bool-cases (all is_documentation paths)) [
      | inl docs ↦ inl docs
      | inr other ↦ inr (ground (arith, other))
    ]

-- A specialist is skipped only if it was not forced, the changed paths are a list of texts that is not
-- empty, and each of them is harmless to it: documentation, or for django front end; no browser path
-- for playwright, no framework path for django.
pub decide_specialist_skips :
    (s : Specialist) (changed_paths : Value) (is_forced : Bool)
    → (decide_specialist s changed_paths is_forced).run ≡ false
    → (is_forced ≡ false)
      × (paths : List Codes) × (normalized_paths changed_paths ≡ some paths)
      × All (IsHarmless s) paths
unfolding decide_specialist
decide_specialist_skips s changed_paths true h = absurd (ground arith)
decide_specialist_skips s changed_paths false h =
    elim (Option-cases (normalized_paths changed_paths)) [
      | inl none_given ↦ absurd (ground (arith, none_given))
      | inr (paths, given) ↦ (refl, paths, given, harmless s paths (rw given at h))
    ]
