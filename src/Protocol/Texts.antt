-- ===== src/Protocol/Texts.antt =====
-- `_bounded_string`, `_bounded_strings` and `_relative_paths` (protocol.py).
use Prim.Native.Char.{code}
use pi_tmux_orchestrator.Prelude.{
  ℕ, ◌+◌, String, Bool, true, false, not, ◌&&◌, ◌||◌, List, [], ◌∷◌, leb, ltb, ◌==◌, String_eq,
  ℕ_eq, if◌then◌else◌, contains,
}
use pi_tmux_orchestrator.Prelude.Result.{Result, ok, err, ◌>>=◌, invalid_protocol, internal_error}
use pi_tmux_orchestrator.Prelude.Json.{
  Value, text, array, object, Fields, end, field, Items, nil, cons,
}
use pi_tmux_orchestrator.Prelude.Table.{length}
use pi_tmux_orchestrator.Prelude.Text.{len}
use pi_tmux_orchestrator.Attention.Validate.{is_blank}
use pi_tmux_orchestrator.Specialists.Paths.{Codes, codes, split_slash, is_text}
use pi_tmux_orchestrator.Specialists.Decide.{any}

-- "\x00" in value
unfoldable pub has_nul : String → Bool
has_nul String.[] = false
has_nul (String.◌∷◌ c rest) = code c == 0 || has_nul rest

-- A text that is not blank, not too long, and has no NUL.
unfoldable pub bounded_string : ℕ → Value → Result String
unfolding is_blank len has_nul
bounded_string maximum (text value) =
    if is_blank value || ltb maximum (len value) || has_nul value
    then err invalid_protocol
    else ok value
bounded_string maximum _ = err invalid_protocol

unfoldable pub item_count : Items → ℕ
item_count nil = 0
item_count (cons value rest) = 1 + item_count rest

unfoldable pub bounded_items : ℕ → Items → Result (List String)
unfolding bounded_string
bounded_items maximum nil = ok []
bounded_items maximum (cons value rest) = do
  first ← bounded_string maximum value
  more ← bounded_items maximum rest
  ok (first ∷ more)

unfoldable pub bounded_strings : (maximum_items maximum_chars : ℕ) → Value → Result (List String)
unfolding bounded_items item_count
bounded_strings maximum_items maximum_chars (array items) =
    if leb (item_count items) maximum_items
    then bounded_items maximum_chars items
    else err invalid_protocol
bounded_strings maximum_items maximum_chars _ = err invalid_protocol

-- [^\x00-\x1f\x7f]*
unfoldable pub is_printable : Codes → Bool
is_printable [] = true
is_printable (n ∷ rest) = leb 32 n && not (n == 127) && is_printable rest

abbrev pub is_absolute : Codes → Bool
is_absolute [] = false
is_absolute (n ∷ rest) = n == b'/'

abbrev pub is_dots : Codes → Bool
is_dots part = is_text part ".."

-- A relative path without a step up and of 1 to 500 printable characters.
unfoldable pub is_relative : Codes → Bool
unfolding split_slash is_text any is_printable
is_relative path =
    not (is_absolute path)
    && not (is_text path ".")
    && not (any is_dots (split_slash path))
    && is_printable path
    && leb 1 (length path)
    && leb (length path) 500

abbrev pub is_relative_path : String → Bool
is_relative_path path = is_relative (codes path)

unfoldable pub all_relative : List String → Bool
unfolding is_relative codes
all_relative [] = true
all_relative (path ∷ rest) = is_relative_path path && all_relative rest

abbrev pub relative_or_refused : List String → Result (List String)
relative_or_refused paths = if all_relative paths then ok paths else err invalid_protocol

unfoldable pub relative_paths : (maximum_items maximum_chars : ℕ) → Value → Result (List String)
unfolding bounded_strings all_relative
relative_paths maximum_items maximum_chars value =
    bounded_strings maximum_items maximum_chars value >>= relative_or_refused

-- `for … in value`: the keys of a dict and the characters of a text are texts, and no other value
-- but a list can be iterated.
abbrev pub key_items : Fields → Items
key_items end = nil
key_items (field name value rest) = cons (text name) (key_items rest)

abbrev pub char_items : String → Items
char_items String.[] = nil
char_items (String.◌∷◌ c rest) = cons (text (String.◌∷◌ c String.[])) (char_items rest)

abbrev pub iterate : Value → Result Items
iterate (array items) = ok items
iterate (object fields) = ok (key_items fields)
iterate (text value) = ok (char_items value)
iterate _ = err internal_error

-- value in names: a list or a dict has no hash, and raises.
abbrev pub is_among : List String → Value → Result Bool
is_among names (text value) = ok (contains names value)
is_among names (array items) = err internal_error
is_among names (object fields) = err internal_error
is_among names _ = ok false
