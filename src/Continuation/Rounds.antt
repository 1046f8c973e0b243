-- ===== src/Continuation/Rounds.antt =====
-- How one more assignment changes the number of repair rounds (continuation.py).
use pi_tmux_orchestrator.Prelude.{
  ℕ, ◌+◌, ◌≤◌, ◌≡◌, refl, Bool, true, false, not, ◌&&◌, ◌||◌, List, [], ◌∷◌, arith, ◌==◌, String_eq,
  ℕ_eq, contains, Bool-cases, inl, inr, if◌then◌else◌,
}
use pi_tmux_orchestrator.Prelude.Table.{exists, insert, length}
use pi_tmux_orchestrator.Store.Rows.{Assignment, Kind_eq}
use pi_tmux_orchestrator.Continuation.Policy.{is_repair, distinct_rounds}

abbrev is_repair_of : ℕ → Assignment → Bool
is_repair_of r a = is_repair a && a.round == r

contains_if :
    (b : Bool) (n r : ℕ) (rest : List ℕ)
    → contains (if b && not (contains rest n) then n ∷ rest else rest) r
      ≡ ((b && n == r) || contains rest r)
unfolding contains
contains_if false n r rest = refl
contains_if true n r rest = elim (Bool-cases (contains rest n)) [
  | inl there ↦ elim (Bool-cases (n == r)) [
    | inl same ↦ let e : n ≡ r = ground arith in ground (arith, there, same)
    | inr other ↦ ground (arith, there, other)
  ]
  | inr fresh ↦ ground (arith, fresh)
]

contains-distinct_rounds :
    (rows : List Assignment) (r : ℕ)
    → contains (distinct_rounds rows) r ≡ exists (is_repair_of r) rows
unfolding distinct_rounds exists contains
contains-distinct_rounds [] r = refl
contains-distinct_rounds (a ∷ rest) r =
    rw (contains_if (is_repair a) a.round r (distinct_rounds rest), contains-distinct_rounds rest r)
      refl

exists-insert :
    {A : Type 0} (test : A → Bool) (x : A) (rows : List A)
    → exists test rows ≡ true
    → exists test (insert x rows) ≡ true
unfolding exists
exists-insert test x [] h = absurd (ground arith)
exists-insert test x (y ∷ rest) h = ground (arith, exists-insert test x rest)

contains-insert :
    (a : Assignment) (rows : List Assignment) (r : ℕ)
    → contains (distinct_rounds rows) r ≡ true
    → contains (distinct_rounds (insert a rows)) r ≡ true
contains-insert a rows r h =
    rw (contains-distinct_rounds (insert a rows) r)
      (exists-insert (is_repair_of r) a rows (rw (contains-distinct_rounds rows r) at h))

-- At most one round more.
pub length-distinct_rounds :
    (a : Assignment) (rows : List Assignment)
    → length (distinct_rounds (insert a rows)) ≤ length (distinct_rounds rows) + 1
unfolding distinct_rounds contains
length-distinct_rounds a [] = ground arith
length-distinct_rounds a (x ∷ rest) =
    ground (arith, length-distinct_rounds a rest, contains-insert a rest x.round)

-- An assignment that is no repair counts for none.
pub distinct_rounds-insert :
    (a : Assignment) (rows : List Assignment)
    → is_repair a ≡ false
    → distinct_rounds (insert a rows) ≡ distinct_rounds rows
unfolding distinct_rounds contains
distinct_rounds-insert a [] h = ground arith
distinct_rounds-insert a (x ∷ rest) h = rw (distinct_rounds-insert a rest h) refl
