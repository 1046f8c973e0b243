-- ===== src/Prelude/Table.antt =====
-- SQLite tables as lists of rows in the order of insertion, and the statements the broker executes.
use Prim.Native.Nat.{ℕ, suc, ◌+◌, ◌≤◌}
use mathlib.Core.Path.{◌≡◌, refl}
use mathlib.Core.Bool.{Bool, true, false, ◌||◌}
use mathlib.Core.Option.{Option, none, some}
use mathlib.Core.List.{List, [], ◌∷◌, ◌++◌}
use native.Mathlib.Omega.{arith}
use pi_tmux_orchestrator.Prelude.Tests.{if◌then◌else◌}

abbrev pub All {ℓ κ} : {A : Type ℓ} → (A → Type κ) → List A → Type κ
All P [] = Unit
All P (x ∷ xs) = P x × All P xs

module _ {ℓ} {A : Type ℓ} where
  -- SELECT … WHERE test, `fetchone()`
  unfoldable pub select : (A → Bool) → List A → Option A
  select test [] = none
  select test (x ∷ xs) = if test x then some x else select test xs

  -- SELECT … WHERE test ORDER BY created_at DESC LIMIT 1, `fetchone()`
  unfoldable pub select_last : (A → Bool) → List A → Option A
  select_last test [] = none
  select_last test (x ∷ xs) = elim (select_last test xs) [
    | some later ↦ some later
    | none ↦ if test x then some x else none
  ]

  -- UPDATE … SET … WHERE test
  unfoldable pub update : (A → Bool) → (A → A) → List A → List A
  update test set [] = []
  update test set (x ∷ xs) = (if test x then set x else x) ∷ update test set xs

  -- SELECT COUNT(*) … WHERE test
  unfoldable pub count : (A → Bool) → List A → ℕ
  count test [] = 0
  count test (x ∷ xs) = (if test x then 1 else 0) + count test xs

  -- SELECT 1 … WHERE test, `fetchone() is not None`
  unfoldable pub exists : (A → Bool) → List A → Bool
  exists test [] = false
  exists test (x ∷ xs) = test x || exists test xs

  -- INSERT INTO …
  abbrev pub insert : A → List A → List A
  insert x xs = xs ++ x ∷ []

  pub count-insert :
      (test : A → Bool) (x : A) (xs : List A)
      → count test (insert x xs) ≡ count test xs + (if test x then 1 else 0)
  unfolding count
  count-insert test x [] = omega arith
  count-insert test x (y ∷ ys) = omega (arith, count-insert test x ys)

  pub count-le-count :
      (p q : A → Bool) (xs : List A) → ((x : A) → p x ≡ true → q x ≡ true) → count p xs ≤ count q xs
  unfolding count
  count-le-count p q [] h = omega arith
  count-le-count p q (x ∷ xs) h = ground (arith, h x, count-le-count p q xs h)

  pub select-insert-some :
      (test : A → Bool) (x : A) (xs : List A) {y : A}
      → select test xs ≡ some y
      → select test (insert x xs) ≡ some y
  unfolding select
  select-insert-some test x [] {y} h = cc
  select-insert-some test x (z ∷ zs) {y} h = ground (arith, select-insert-some test x zs {y = y})

  pub select-insert-none :
      (test : A → Bool) (x : A) (xs : List A)
      → select test xs ≡ none
      → select test (insert x xs) ≡ (if test x then some x else none)
  unfolding select
  select-insert-none test x [] h = refl
  select-insert-none test x (z ∷ zs) h = ground (arith, select-insert-none test x zs)

  pub select_sound :
      (test : A → Bool) (xs : List A) {x : A} → select test xs ≡ some x → test x ≡ true
  unfolding select
  select_sound test [] h = cc
  select_sound test (y ∷ ys) {x} h = ground (arith, select_sound test ys {x = x})

module _ {ℓ κ} {A : Type ℓ} (P : A → Type κ) where
  pub All-insert : (x : A) (xs : List A) → P x → All P xs → All P (insert x xs)
  All-insert x [] p h = (p, tt)
  All-insert x (y ∷ ys) p h = (h.0, All-insert x ys p h.1)

  pub All-update :
      (test : A → Bool) (set : A → A) (xs : List A)
      → ((x : A) → test x ≡ true → P x → P (set x))
      → All P xs
      → All P (update test set xs)
  unfolding update
  All-update test set [] k h = tt
  All-update test set (x ∷ xs) k h = (here (test x) (k x), All-update test set xs k h.1)
    where
      here : (b : Bool) → (b ≡ true → P x → P (set x)) → P (if b then set x else x)
      here true k' = k' refl h.0
      here false k' = h.0

  pub All-select :
      (test : A → Bool) (xs : List A) {x : A} → select test xs ≡ some x → All P xs → P x
  unfolding select
  All-select test [] e h = cc
  All-select test (y ∷ ys) {x} e h = ground (arith, All-select test ys {x = x})

module _ {ℓ κ μ} {A : Type ℓ} (P : A → Type κ) (Q : A → Type μ) where
  -- An update that turns `P` into `Q`: on the rows that it writes, and on the others.
  pub All-update_into :
      (test : A → Bool) (set : A → A) (xs : List A)
      → ((x : A) → test x ≡ true → P x → Q (set x))
      → ((x : A) → test x ≡ false → P x → Q x)
      → All P xs
      → All Q (update test set xs)
  unfolding update
  All-update_into test set [] k l h = tt
  All-update_into test set (x ∷ xs) k l h =
      (here (test x) (k x) (l x), All-update_into test set xs k l h.1)
    where
      here :
          (b : Bool)
          → (b ≡ true → P x → Q (set x))
          → (b ≡ false → P x → Q x)
          → Q (if b then set x else x)
      here true k' l' = k' refl h.0
      here false k' l' = l' refl h.0

  pub All-map : (xs : List A) → ((x : A) → P x → Q x) → All P xs → All Q xs
  All-map [] k h = tt
  All-map (x ∷ xs) k h = (k x h.0, All-map xs k h.1)

module _ {ℓ κ} {A : Type ℓ} (P : A → Type κ) where
  -- What an update makes of each row.
  pub All-written :
      (test : A → Bool) (set : A → A) (xs : List A)
      → ((x : A) → test x ≡ true → P (set x))
      → ((x : A) → test x ≡ false → P x)
      → All P (update test set xs)
  unfolding update
  All-written test set [] k l = tt
  All-written test set (x ∷ xs) k l = (here (test x) (k x) (l x), All-written test set xs k l)
    where
      here : (b : Bool) → (b ≡ true → P (set x)) → (b ≡ false → P x) → P (if b then set x else x)
      here true k' l' = k' refl
      here false k' l' = l' refl

-- len(rows)
abbrev pub length {ℓ} : {A : Type ℓ} → List A → ℕ
length [] = 0
length (x ∷ xs) = suc (length xs)
