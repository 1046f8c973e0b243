-- ===== src/Prelude/Json.antt =====
-- Decoded JSON values: what `json.loads` and Python callers hand to the validators.
use Prim.Native.Nat.{ℕ}
use Prim.Native.String.{String}
use mathlib.Core.Bool.{Bool, true, ◌&&◌}
use mathlib.Core.Option.{Option, none, some}
use mathlib.Core.List.{List, [], ◌∷◌}
use pi_tmux_orchestrator.Prelude.Tests.{◌==◌, String_eq, contains, if◌then◌else◌, is_some}

-- A float: `finite negative m e` is m / 2 ^ e, or its negation; infinities and NaN are `not_finite`.
pub data Real : Type 0 where
  finite : Bool → ℕ → ℕ → Real
  not_finite : Real

-- `int n` is n and `neg_int n` is -(n + 1), of type int; bool is not int here,
-- since the code tests `type(value) is int`.
mutual
  pub data Value : Type 0 where
    object : Fields → Value
    array : Items → Value
    text : String → Value
    int neg_int : ℕ → Value
    real : Real → Value
    bool : Bool → Value
    null : Value

  pub data Fields : Type 0 where
    end : Fields
    field : String → Value → Fields → Fields

  pub data Items : Type 0 where
    nil : Items
    cons : Value → Items → Items

-- value.get(key)
unfoldable pub get : String → Fields → Option Value
get key end = none
get key (field name value rest) = if name == key then some value else get key rest

-- set(value) <= set(names)
unfoldable pub keys_within : List String → Fields → Bool
unfolding contains
keys_within names end = true
keys_within names (field name value rest) = contains names name && keys_within names rest

-- set(names) <= set(value)
unfoldable pub keys_include : List String → Fields → Bool
unfolding get
keys_include [] fields = true
keys_include (name ∷ names) fields = is_some (get name fields) && keys_include names fields

-- A JSON column of the `meta` table: no row, a text that is too long, is no JSON or repeats a field,
-- or the value that it decodes to.
pub data Stored : Type 0 where
  absent : Stored
  unreadable : Stored
  decoded : Value → Stored
