-- ===== src/Roles/Identity.antt =====
-- `valid_custom_role_id` (role_registry.py) and `valid_role_identity` (role_contracts.py).
use Prim.Native.Char.{code}
use pi_tmux_orchestrator.Prelude.{
  ℕ, String, Bool, false, not, ◌&&◌, ◌||◌, Option, none, some, List, [], ◌∷◌, ◌++◌, leb, ◌==◌, ℕ_eq,
  String_eq, contains, if◌then◌else◌,
}
use pi_tmux_orchestrator.Prelude.Json.{Value, text}
use pi_tmux_orchestrator.Prelude.Text.{len}

-- The built-in roles, KNOWN_ROLES of constants.py.
abbrev pub known_roles : List String
known_roles = "implementer" ∷ "reviewer" ∷ "probe" ∷ "playwright" ∷ "django" ∷ []

abbrev pub reserved_suffixes : List String
reserved_suffixes =
    known_roles
    ++ "all" ∷ "parent" ∷ "controller" ∷ "broker" ∷ "monitor" ∷ "orchestrator" ∷ "coordinator"
      ∷ "writer" ∷ "review" ∷ "system" ∷ "user" ∷ "assistant" ∷ "tool" ∷ "django-expert"
      ∷ "playwright-tester" ∷ "technical-probe" ∷ []

abbrev is_lower : ℕ → Bool
is_lower n = leb b'a' n && leb n b'z'

abbrev is_lower_or_digit : ℕ → Bool
is_lower_or_digit n = is_lower n || leb b'0' n && leb n b'9'

-- What the prefix leaves of a text that starts with it.
unfoldable pub strip_prefix : String → String → Option String
strip_prefix String.[] s = some s
strip_prefix (String.◌∷◌ c rest) String.[] = none
strip_prefix (String.◌∷◌ c rest) (String.◌∷◌ d s) =
    if code c == code d then strip_prefix rest s else none

-- [a-z0-9]*(?:-[a-z0-9]+)*, where `after_dash` wants a letter or a digit next.
unfoldable pub is_dashed : (after_dash : Bool) → String → Bool
is_dashed after_dash String.[] = not after_dash
is_dashed after_dash (String.◌∷◌ c rest) =
    (is_lower_or_digit (code c) || not after_dash && code c == b'-')
    && is_dashed (not (is_lower_or_digit (code c))) rest

-- [a-z][a-z0-9]*(?:-[a-z0-9]+)*
unfoldable pub is_name : String → Bool
unfolding is_dashed
is_name String.[] = false
is_name (String.◌∷◌ c rest) = is_lower (code c) && is_dashed false rest

unfoldable pub is_custom_name : Option String → Bool
unfolding is_name contains
is_custom_name none = false
is_custom_name (some name) = is_name name && not (contains reserved_suffixes name)

unfoldable pub valid_custom_role_id : Value → Bool
valid_custom_role_id (text value) =
    leb (len value) 32 && is_custom_name (strip_prefix "custom-" value)
valid_custom_role_id _ = false

unfoldable pub valid_role_identity : Value → Bool
unfolding contains
valid_role_identity (text value) = contains known_roles value || valid_custom_role_id (text value)
valid_role_identity _ = false
