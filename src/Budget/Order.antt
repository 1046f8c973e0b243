-- ===== src/Budget/Order.antt =====
-- The policies that are accepted (budgeting.py).
use pi_tmux_orchestrator.Prelude.{
  String, ◌≡◌, refl, sym, ap, ◌∙◌, inl, inr, true, false, Option, some, none, [], ◌∷◌, arith,
  String_eq, Bool-cases, eq_iff, eq_refl,
}
use pi_tmux_orchestrator.Prelude.Result.{ok, ErrorCode}
use pi_tmux_orchestrator.Store.Writes.{delete}
use pi_tmux_orchestrator.Budget.Amount.{Amount, at_most}
use pi_tmux_orchestrator.Budget.Policy.{
  Key, key, same_key, Thresholds, Policy, threshold, without, put, is_below, all_below,
  validate_budget_order,
}

-- Where both are there, the warning comes no later than the hard limit.
abbrev pub NoLater : Option Amount → Option Amount → Type 0
NoLater (some w) (some h) = at_most w h ≡ true
NoLater _ _ = Unit

abbrev pub IsOrdered : Policy → Type 0
IsOrdered policy =
    (scope metric : String)
    → NoLater (threshold (key "warning" scope metric) policy.thresholds)
        (threshold (key "hard" scope metric) policy.thresholds)

pub same_key-eq : (k j : Key) → same_key k j ≡ true → k ≡ j
same_key-eq k j h =
    let l : k.level ≡ j.level = ground (arith, eq_iff k.level j.level) in
    let s : k.scope ≡ j.scope = ground (arith, eq_iff k.scope j.scope) in
    let m : k.metric ≡ j.metric = ground (arith, eq_iff k.metric j.metric) in cc

same_key_refl : (k : Key) → same_key k k ≡ true
same_key_refl k = ground (arith, eq_refl k.level, eq_refl k.scope, eq_refl k.metric)

-- A threshold that is found was tested against its hard limit.
found-below :
    (all rows : Thresholds) (k : Key) (w : Amount)
    → all_below all rows ≡ true
    → threshold k rows ≡ some w
    → is_below all k w ≡ true
unfolding all_below threshold
found-below all [] k w h e = cc
found-below all ((j, a) ∷ rest) k w h e = elim (Bool-cases (same_key k j)) [
  | inl same ↦
      let keys : k ≡ j = same_key-eq k j same in
      let amounts : a ≡ w = ground (arith, same) in
      let tested : is_below all j a ≡ true = ground arith in rw (keys, sym amounts) tested
  | inr other ↦ found-below all rest k w (ground arith) (ground (arith, other))
]

NoLater-intro :
    (w h : Option Amount)
    → ((a b : Amount) → w ≡ some a → h ≡ some b → at_most a b ≡ true)
    → NoLater w h
NoLater-intro (some w) (some h) k = k w h refl refl
NoLater-intro (some w) none k = tt
NoLater-intro none h k = tt

all_below-IsOrdered :
    (policy : Policy) → all_below policy.thresholds policy.thresholds ≡ true → IsOrdered policy
all_below-IsOrdered policy h scope metric = NoLater-intro _ _ λ w hard e f.
    let tested =
      found-below policy.thresholds policy.thresholds (key "warning" scope metric) w h e in
    ground (arith, f, tested)

pub validate_budget_order-eq :
    (code : ErrorCode) (policy : Policy) {p : Policy}
    → validate_budget_order code policy ≡ ok p
    → (policy ≡ p) × IsOrdered p
validate_budget_order-eq code policy {p} h =
    elim (Bool-cases (all_below policy.thresholds policy.thresholds)) [
      | inl below ↦
          let same : p ≡ policy = ground (arith, below) in
          (sym same, rw same (all_below-IsOrdered policy below))
      | inr above ↦ absurd (ground (arith, above))
    ]

-- The thresholds without one key.
threshold-without-same : (k : Key) (rows : Thresholds) → threshold k (without k rows) ≡ none
unfolding without delete threshold
threshold-without-same k [] = refl
threshold-without-same k ((j, a) ∷ rest) = ground (arith, threshold-without-same k rest)

threshold-without-other :
    (k j : Key) (rows : Thresholds)
    → same_key j k ≡ false
    → threshold j (without k rows) ≡ threshold j rows
unfolding without delete threshold
threshold-without-other k j [] h = refl
threshold-without-other k j ((i, a) ∷ rest) h = elim (Bool-cases (same_key k i)) [
  | inl same ↦
      let keys : k ≡ i = same_key-eq k i same in
      let apart : same_key j i ≡ false = ap (same_key j) (sym keys) ∙ h in
      ground (arith, same, apart, threshold-without-other k j rest h)
  | inr other ↦ ground (arith, other, threshold-without-other k j rest h)
]

-- What a put leaves of each key.
pub threshold-put-same :
    (k : Key) (a : Option Amount) (rows : Thresholds) → threshold k (put k a rows) ≡ a
unfolding threshold
threshold-put-same k none rows = threshold-without-same k rows
threshold-put-same k (some a) rows = ground (arith, same_key_refl k)

pub threshold-put-other :
    (k j : Key) (a : Option Amount) (rows : Thresholds)
    → same_key j k ≡ false
    → threshold j (put k a rows) ≡ threshold j rows
unfolding threshold
threshold-put-other k j none rows h = threshold-without-other k j rows h
threshold-put-other k j (some a) rows h = ground (arith, h, threshold-without-other k j rows h)
