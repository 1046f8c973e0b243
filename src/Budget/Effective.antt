-- ===== src/Budget/Effective.antt =====
-- What `effective_budget_policy` makes of the overrides, and what `validate_budget_config` accepts
-- (budgeting.py).
use pi_tmux_orchestrator.Prelude.{
  ◌≤◌, String, ◌≡◌, sym, ap, ◌∙◌, inl, inr, true, false, ◌&&◌, Option, List, [], ◌∷◌, arith,
  String_eq, if◌then◌else◌, Bool-cases, leb,
}
use pi_tmux_orchestrator.Prelude.Result.{
  Result, ok, err, continue-eq-ok, invalid_arguments, orchestration_error,
}
use pi_tmux_orchestrator.Prelude.Json.{
  Value, Fields, object, array, text, int, neg_int, real, bool, null, get, keys_within,
}
use pi_tmux_orchestrator.Prelude.Table.{exists, length}
use pi_tmux_orchestrator.Control.Request.{is_one}
use pi_tmux_orchestrator.Budget.Amount.{Amount}
use pi_tmux_orchestrator.Budget.Policy.{
  Key, same_key, Thresholds, Policy, threshold, put, validate_budget_order, validate_budget_config,
  configured_policy, effective_budget_policy, apply_overrides, validated_effective_override,
  is_seen, enforced, max_budget_overrides, Override, budget_config_fields, enforcement_of,
  merge_level, packaged_budget_policy,
}
use pi_tmux_orchestrator.Budget.Order.{
  IsOrdered, validate_budget_order-eq, threshold-put-same, threshold-put-other, same_key-eq,
}

abbrev pub named : Key → Result Override → Option Amount → Option Amount
named k (ok o) default = if same_key k o.key then o.value else default
named k (err code) default = default

-- What the overrides say of a threshold: the value of the one that names it, or else the default.
abbrev pub chosen : Key → List Value → Option Amount → Option Amount
chosen k [] default = default
chosen k (value ∷ rest) default =
    named k (validated_effective_override value) (chosen k rest default)

seen-step :
    (k : Key) (o : Override) (seen : List Key)
    → is_seen seen k ≡ true
    → is_seen seen o.key ≡ false
    → same_key k o.key ≡ false
seen-step k o seen h new = elim (Bool-cases (same_key k o.key)) [
  | inr other ↦ other
  | inl same ↦
      let keys : k ≡ o.key = same_key-eq k o.key same in
      let there : is_seen seen o.key ≡ true = sym (ap (is_seen seen) keys) ∙ h in absurd (cc)
]

seen-cons : (k j : Key) (seen : List Key) → is_seen seen k ≡ true → is_seen (j ∷ seen) k ≡ true
unfolding exists
seen-cons k j seen h = ground arith

-- One step of the loop that returns.
applied :
    (value : Value) (rest : List Value) (seen : List Key) (rows final : Thresholds)
    → apply_overrides (value ∷ rest) seen rows ≡ ok final
    → (o : Override) × (validated_effective_override value ≡ ok o)
      × (is_seen seen o.key ≡ false)
      × (apply_overrides rest (o.key ∷ seen) (put o.key o.value rows) ≡ ok final)
unfolding apply_overrides
applied value rest seen rows final h =
    let (o, e, step) = continue-eq-ok (validated_effective_override value) _ h in
    elim (Bool-cases (is_seen seen o.key)) [
      | inl known ↦ absurd (ground (arith, known, step))
      | inr new ↦ (o, e, new, ground (arith, new, step))
    ]

-- A key that was overridden is not overridden again.
threshold-seen :
    (k : Key) (overrides : List Value) (seen : List Key) (rows final : Thresholds)
    → is_seen seen k ≡ true
    → apply_overrides overrides seen rows ≡ ok final
    → threshold k final ≡ threshold k rows
unfolding apply_overrides
threshold-seen k [] seen rows final h e = ground arith
threshold-seen k (value ∷ rest) seen rows final h e =
    let (o, valid, new, next) = applied value rest seen rows final e in
    threshold-seen k rest (o.key ∷ seen) (put o.key o.value rows) final (seen-cons k o.key seen h)
      next
    ∙ threshold-put-other o.key k o.value rows (seen-step k o seen h new)

seen-here : (k j : Key) (seen : List Key) → same_key k j ≡ true → is_seen (j ∷ seen) k ≡ true
unfolding exists
seen-here k j seen h = ground arith

threshold-put-named :
    (k : Key) (o : Override) (rows : Thresholds)
    → same_key k o.key ≡ true
    → threshold k (put o.key o.value rows) ≡ o.value
threshold-put-named k o rows same =
    ap (λ j. threshold j (put o.key o.value rows)) (same_key-eq k o.key same)
    ∙ threshold-put-same o.key o.value rows

threshold-apply :
    (k : Key) (overrides : List Value) (seen : List Key) (rows final : Thresholds)
    → apply_overrides overrides seen rows ≡ ok final
    → threshold k final ≡ chosen k overrides (threshold k rows)
unfolding apply_overrides
threshold-apply k [] seen rows final e = ground arith
threshold-apply k (value ∷ rest) seen rows final e =
    let (o, valid, new, next) = applied value rest seen rows final e in
    elim (Bool-cases (same_key k o.key)) [
      | inl same ↦
          rw (valid, same)
            (threshold-seen k rest (o.key ∷ seen) (put o.key o.value rows) final
                (seen-here k o.key seen same) next
              ∙ threshold-put-named k o rows same)
      | inr other ↦
          rw (valid, other)
            (threshold-apply k rest (o.key ∷ seen) (put o.key o.value rows) final next
              ∙ ap (chosen k rest) (threshold-put-other o.key k o.value rows other))
    ]

enforced-thresholds :
    (enforcement : Option String) (policy : Policy) {p : Policy}
    → enforced enforcement policy ≡ ok p
    → p.thresholds ≡ policy.thresholds
enforced-thresholds enforcement policy {p} h = ground arith

-- A policy that is made effective has, of every threshold, what the overrides say of it: the value of
-- the one override that names it, or else what was configured. Each warning is no later than its hard
-- limit, and there were at most 60 overrides.
pub effective_budget_policy-chosen :
    (configured : Policy) (enforcement : Option String) (overrides : List Value) {p : Policy}
    → effective_budget_policy configured enforcement overrides ≡ ok p
    → (k : Key)
    → (threshold k p.thresholds ≡ chosen k overrides (threshold k configured.thresholds))
      × IsOrdered p
      × (length overrides ≤ 60)
unfolding effective_budget_policy
effective_budget_policy-chosen configured enforcement overrides {p} h k =
    let (policy, e, h1) = continue-eq-ok (enforced enforcement configured) _ h in
    elim (Bool-cases (leb (length overrides) max_budget_overrides)) [
      | inr many ↦ absurd (ground (arith, many, h1))
      | inl few ↦
          let (rows, a, h2) =
            continue-eq-ok (apply_overrides overrides [] policy.thresholds)
              (λ rows.
                validate_budget_order invalid_arguments (record policy { thresholds = rows }))
              (ground (arith, few, h1)) in
          let (same, ordered) =
            validate_budget_order-eq invalid_arguments (record policy { thresholds = rows }) {p = p}
              h2 in
          (
            ap (λ q. threshold k q.thresholds) (sym same)
                ∙ threshold-apply k overrides [] policy.thresholds rows a
                ∙ ap (λ t. chosen k overrides (threshold k t))
                    (enforced-thresholds enforcement configured e),
            ordered,
            ground (arith, few),
          )
    ]

configured_policy-IsOrdered :
    (value : Fields) {p : Policy} → configured_policy value ≡ ok p → IsOrdered p
unfolding configured_policy
configured_policy-IsOrdered value {p} h =
    let (enforcement, e, h1) = continue-eq-ok (enforcement_of (get "enforcement" value)) _ h in
    let (warned, w, h2) =
      continue-eq-ok (merge_level "warning" (get "warning" value) packaged_budget_policy.thresholds)
        _ h1 in
    let (all, a, h3) = continue-eq-ok (merge_level "hard" (get "hard" value) warned) _ h2 in
    (validate_budget_order-eq orchestration_error
      (record { enforcement = enforcement; thresholds = all }) {p = p} h3).1

-- A configuration that is accepted has no warning that is later than its hard limit.
pub validate_budget_config-IsOrdered :
    (value : Value) {p : Policy} → validate_budget_config value ≡ ok p → IsOrdered p
unfolding validate_budget_config
validate_budget_config-IsOrdered (object value) {p} h =
    elim (Bool-cases (keys_within budget_config_fields value && is_one (get "version" value))) [
      | inr other ↦ absurd (ground (arith, other))
      | inl known ↦ configured_policy-IsOrdered value {p = p} (ground (arith, known))
    ]
validate_budget_config-IsOrdered (array value) h = absurd (ground arith)
validate_budget_config-IsOrdered (text value) h = absurd (ground arith)
validate_budget_config-IsOrdered (int value) h = absurd (ground arith)
validate_budget_config-IsOrdered (neg_int value) h = absurd (ground arith)
validate_budget_config-IsOrdered (real value) h = absurd (ground arith)
validate_budget_config-IsOrdered (bool value) h = absurd (ground arith)
validate_budget_config-IsOrdered null h = absurd (ground arith)
