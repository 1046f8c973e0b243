-- ===== src/Attention/Validate.antt =====
-- `validate_attention` of worker_attention.py.
use Prim.Native.Char.{code}
use pi_tmux_orchestrator.Prelude.{
  ℕ, String, Bool, true, false, ◌&&◌, ◌||◌, Option, none, some, List, [], ◌∷◌, leb, ltb, ◌==◌,
  String_eq, ℕ_eq, contains, if◌then◌else◌,
}
use pi_tmux_orchestrator.Prelude.Result.{Result, ok, err, invalid_protocol}
use pi_tmux_orchestrator.Prelude.Json.{Value, text, object, Fields, get, keys_within}
use pi_tmux_orchestrator.Prelude.Text.{len}

abbrev pub attention_reasons : List String
attention_reasons = "clarification" ∷ "blocked" ∷ "tool_failure" ∷ "report_failure" ∷ []

abbrev pub attention_text_limit : ℕ
attention_text_limit = 500

-- The characters that `str.strip` removes, by code point.
abbrev is_space : ℕ → Bool
is_space n =
    leb 9 n && leb n 13
    || leb 28 n && leb n 32
    || n == 133
    || n == 160
    || n == 5760
    || leb 8192 n && leb n 8202
    || n == 8232
    || n == 8233
    || n == 8239
    || n == 8287
    || n == 12288

-- A character that no attention text may hold.
abbrev pub is_forbidden : ℕ → Bool
is_forbidden n = ltb n 32 || leb 127 n && leb n 159 || leb 55296 n && leb n 57343

-- not text.strip()
unfoldable pub is_blank : String → Bool
is_blank String.[] = true
is_blank (String.◌∷◌ c rest) = is_space (code c) && is_blank rest

unfoldable pub any_forbidden : String → Bool
any_forbidden String.[] = false
any_forbidden (String.◌∷◌ c rest) = is_forbidden (code c) || any_forbidden rest

-- The test on an optional text field.
unfoldable pub is_bad_text : Option Value → Bool
unfolding is_blank any_forbidden len
is_bad_text none = false
is_bad_text (some (text s)) = is_blank s || ltb attention_text_limit (len s) || any_forbidden s
is_bad_text (some other) = true

-- The reason, if it is one of the four.
unfoldable pub reason_of : Option Value → Option String
unfolding contains
reason_of (some (text reason)) = if contains attention_reasons reason then some reason else none
reason_of _ = none

abbrev attention_fields : List String
attention_fields = "reason" ∷ "summary" ∷ "question" ∷ []

pub record Attention : Type 0 where
  pub reason : String
  pub summary : Option Value
  pub question : Option Value

checked : Option String → Fields → Result Attention
unfolding is_bad_text get
checked none fields = err invalid_protocol
checked (some reason) fields =
    if is_bad_text (get "summary" fields) || is_bad_text (get "question" fields)
    then err invalid_protocol
    else ok (record {
      reason = reason;
      summary = get "summary" fields;
      question = get "question" fields;
    })

unfoldable pub validate_attention : Value → Result Attention
unfolding reason_of checked get keys_within
validate_attention (object fields) =
    if keys_within attention_fields fields
    then checked (reason_of (get "reason" fields)) fields
    else err invalid_protocol
validate_attention _ = err invalid_protocol
