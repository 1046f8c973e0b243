-- ===== src/Protocol/Body.antt =====
-- A validated report, and the size of its JSON text (protocol.py).
use Prim.Native.Char.{code}
use Prim.Native.Nat.{◌/◌}
use pi_tmux_orchestrator.Prelude.{
  ℕ, zero, suc, ◌+◌, ◌*◌, String, Bool, false, ◌&&◌, ◌||◌, Option, none, some, List, [], ◌∷◌, ◌++◌,
  map, leb, ltb, ◌==◌, ℕ_eq, if◌then◌else◌,
}
use pi_tmux_orchestrator.Prelude.Result.{Result, ok, err, invalid_protocol, internal_error}
use pi_tmux_orchestrator.Store.Rows.{Kind}
use pi_tmux_orchestrator.Specialists.Decide.{any}

pub record Check : Type 0 where
  pub name : String
  pub status : String

pub record Finding : Type 0 where
  pub severity : String
  pub path : Option String
  pub line : Option ℕ
  pub summary : String
  pub acceptance : Option String

-- What only a plan has.
pub record Plan : Type 0 where
  pub relevant_paths : List String
  pub relevant_symbols : List String
  pub intended_changes : List String
  pub required_checks : List String
  pub open_questions : List String

pub record Body : Type 0 where
  pub kind : Kind
  pub summary : String
  pub changed_paths : List String
  pub checks : List Check
  pub findings : List Finding
  pub risks : List String
  pub limitations : List String
  pub verdict : Option String
  pub plan : Option Plan

-- `_empty_common_report`
abbrev pub empty_common_report : Kind → String → Body
empty_common_report kind summary = record {
  kind = kind;
  summary = summary;
  changed_paths = [];
  checks = [];
  findings = [];
  risks = [];
  limitations = [];
  verdict = none;
  plan = none;
}

abbrev pub max_report_bytes : ℕ
max_report_bytes = 32 * 1024

-- The bytes of one character in a JSON text that is not restricted to ASCII: `"`, `\` and five control
-- characters are escaped by two, the others by six, and the rest is UTF-8.
abbrev pub char_size : ℕ → ℕ
char_size n =
    if n == 34 || n == 92 || leb 8 n && leb n 10 || n == 12 || n == 13
    then 2
    else if ltb n 32
    then 6
    else if ltb n 128
    then 1
    else if ltb n 2048
    then 2
    else if ltb n 65536
    then 3
    else 4

unfoldable pub chars_size : String → ℕ
chars_size String.[] = 0
chars_size (String.◌∷◌ c rest) = char_size (code c) + chars_size rest

unfoldable pub text_size : String → ℕ
unfolding chars_size
text_size s = 2 + chars_size s

-- The digits of a number. Python neither reads nor prints one of more than 4300.
unfoldable pub digits : ℕ → ℕ → ℕ
digits zero n = 1
digits (suc fuel) n = let rest = digits fuel (n / 10) in if ltb n 10 then 1 else rest + 1

-- Brackets, items and the commas between them.
abbrev pub joined_size : List ℕ → ℕ
joined_size [] = 0
joined_size (n ∷ []) = n
joined_size (n ∷ m ∷ rest) = n + 1 + joined_size (m ∷ rest)

abbrev pub array_size : List ℕ → ℕ
array_size sizes = 2 + joined_size sizes

-- A field: its key of that many characters in quotes, a colon and the value.
abbrev pub field_size : ℕ → ℕ → ℕ
field_size key value = key + 3 + value

abbrev pub texts_size : List String → ℕ
texts_size texts = array_size (map text_size texts)

abbrev pub optional_text_size : Option String → ℕ
optional_text_size none = 4
optional_text_size (some s) = text_size s

abbrev pub line_size : Option ℕ → ℕ
line_size none = 4
line_size (some n) = digits 4300 n

abbrev pub check_size : Check → ℕ
check_size c = array_size (field_size 4 (text_size c.name) ∷ field_size 6 (text_size c.status) ∷ [])

abbrev pub finding_size : Finding → ℕ
finding_size f = array_size (
    field_size 8 (text_size f.severity)
    ∷ field_size 4 (optional_text_size f.path)
    ∷ field_size 4 (line_size f.line)
    ∷ field_size 7 (text_size f.summary)
    ∷ field_size 10 (optional_text_size f.acceptance)
    ∷ [])

abbrev pub kind_length : Kind → ℕ
kind_length Kind.plan = 4
kind_length Kind.implementation = 14
kind_length Kind.review = 6
kind_length Kind.probe = 5
kind_length Kind.playwright = 10
kind_length Kind.django = 6

abbrev pub plan_sizes : Option Plan → List ℕ
plan_sizes none = []
plan_sizes (some p) =
    field_size 14 (texts_size p.relevant_paths)
    ∷ field_size 16 (texts_size p.relevant_symbols)
    ∷ field_size 16 (texts_size p.intended_changes)
    ∷ field_size 15 (texts_size p.required_checks)
    ∷ field_size 14 (texts_size p.open_questions)
    ∷ []

-- len(json.dumps(report, separators=(",", ":"), ensure_ascii=False).encode())
unfoldable pub report_size : Body → ℕ
unfolding text_size digits
report_size r = array_size (
    field_size 4 (2 + kind_length r.kind)
    ∷ field_size 7 (text_size r.summary)
    ∷ field_size 13 (texts_size r.changed_paths)
    ∷ field_size 6 (array_size (map check_size r.checks))
    ∷ field_size 8 (array_size (map finding_size r.findings))
    ∷ field_size 5 (texts_size r.risks)
    ∷ field_size 11 (texts_size r.limitations)
    ∷ field_size 7 (optional_text_size r.verdict)
    ∷ plan_sizes r.plan)

-- Half of a surrogate pair has no UTF-8, and `encode` raises.
unfoldable pub has_surrogate : String → Bool
has_surrogate String.[] = false
has_surrogate (String.◌∷◌ c rest) = leb 55296 (code c) && leb (code c) 57343 || has_surrogate rest

abbrev pub optional_text : Option String → List String
optional_text none = []
optional_text (some s) = s ∷ []

unfoldable pub finding_texts : List Finding → List String
finding_texts [] = []
finding_texts (f ∷ rest) =
    f.summary ∷ (optional_text f.path ++ (optional_text f.acceptance ++ finding_texts rest))

abbrev pub plan_texts : Option Plan → List String
plan_texts none = []
plan_texts (some p) =
    p.relevant_paths
    ++ (p.relevant_symbols ++ (p.intended_changes ++ (p.required_checks ++ p.open_questions)))

-- The texts of a report that are not from a fixed set.
unfoldable pub report_texts : Body → List String
unfolding finding_texts
report_texts r =
    r.summary
    ∷ (r.changed_paths
        ++ (map (λ (c : Check). c.name) r.checks
            ++ (finding_texts r.findings ++ (r.risks ++ (r.limitations ++ plan_texts r.plan)))))

-- The last test of `validate_report`.
unfoldable pub within_bytes : Body → Result Body
unfolding has_surrogate report_texts report_size any
within_bytes r =
    if any has_surrogate (report_texts r)
    then err internal_error
    else if leb (report_size r) max_report_bytes
    then ok r
    else err invalid_protocol
