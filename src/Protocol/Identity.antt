-- ===== src/Protocol/Identity.antt =====
-- Tokens, and `validate_runtime_identity` and `compare_runtime_identity` (protocol.py).
use Prim.Native.Char.{code}
use pi_tmux_orchestrator.Prelude.{
  ℕ, String, Bool, true, not, ◌&&◌, ◌||◌, Option, none, some, List, [], ◌∷◌, leb, ◌==◌, ℕ_eq,
  String_eq, if◌then◌else◌, contains,
}
use pi_tmux_orchestrator.Prelude.Result.{Result, ok, err, ◌>>=◌, invalid_protocol}
use pi_tmux_orchestrator.Prelude.Json.{Value, text, object, Fields, get, keys_within, keys_include}
use pi_tmux_orchestrator.Prelude.Text.{len}
use pi_tmux_orchestrator.Protocol.Report.{has_exactly}

unfoldable pub all_hex : String → Bool
all_hex String.[] = true
all_hex (String.◌∷◌ c rest) =
    (leb b'a' (code c) && leb (code c) b'f' || leb b'0' (code c) && leb (code c) b'9')
    && all_hex rest

-- RPC_TOKEN_PATTERN: [a-f0-9]{32}
unfoldable pub is_token : String → Bool
unfolding all_hex len
is_token s = len s == 32 && all_hex s

abbrev pub token_of : Option Value → Result String
token_of (some (text s)) = if is_token s then ok s else err invalid_protocol
token_of _ = err invalid_protocol

-- What `\s` matches, by code point.
abbrev pub is_pattern_space : ℕ → Bool
is_pattern_space n =
    leb 9 n && leb n 13
    || leb 28 n && leb n 32
    || n == 133
    || n == 160
    || n == 5760
    || leb 8192 n && leb n 8202
    || n == 8232
    || n == 8233
    || n == 8239
    || n == 8287
    || n == 12288

unfoldable pub all_visible : String → Bool
all_visible String.[] = true
all_visible (String.◌∷◌ c rest) =
    not (is_pattern_space (code c)) && leb 32 (code c) && not (code c == 127) && all_visible rest

-- `_identity_token`: [^\s\x00-\x1f\x7f]{1,256}
unfoldable pub identity_token : Option Value → Result String
unfolding all_visible len
identity_token (some (text s)) =
    if leb 1 (len s) && leb (len s) 256 && all_visible s then ok s else err invalid_protocol
identity_token _ = err invalid_protocol

pub data Identity : Type 0 where
  unavailable : Identity
  identified : (provider model thinking : String) → Identity

abbrev pub thinking_levels : List String
thinking_levels = "off" ∷ "minimal" ∷ "low" ∷ "medium" ∷ "high" ∷ "xhigh" ∷ "max" ∷ []

-- The levels are a tuple, so that the test of membership compares and never raises.
abbrev pub thinking_of : Option Value → Result String
thinking_of (some (text s)) = if contains thinking_levels s then ok s else err invalid_protocol
thinking_of _ = err invalid_protocol

abbrev pub availability_of : Option Value → Result Identity
availability_of (some (text s)) =
    if s == "unavailable" then ok unavailable else err invalid_protocol
availability_of _ = err invalid_protocol

abbrev pub identity_fields : Fields → Result Identity
identity_fields value = do
  thinking ← thinking_of (get "thinking" value)
  provider ← identity_token (get "provider" value)
  model ← identity_token (get "model" value)
  ok (identified provider model thinking)

unfoldable pub validate_runtime_identity : Value → Result Identity
unfolding get keys_within keys_include contains identity_token
validate_runtime_identity (object value) =
    if has_exactly ("availability" ∷ []) value
    then availability_of (get "availability" value)
    else if has_exactly ("provider" ∷ "model" ∷ "thinking" ∷ []) value
    then identity_fields value
    else err invalid_protocol
validate_runtime_identity _ = err invalid_protocol

-- The launch configuration of a role, as far as it is compared.
pub record Launch : Type 0 where
  pub provider : String
  pub model : String
  pub thinking : String

unfoldable pub compare_runtime_identity : Option Identity → Launch → String
compare_runtime_identity none config = "omitted"
compare_runtime_identity (some unavailable) config = "unavailable"
compare_runtime_identity (some (identified provider model thinking)) config =
    if provider == config.provider && model == config.model && thinking == config.thinking
    then "matching"
    else "conflicting"
