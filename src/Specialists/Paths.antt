-- ===== src/Specialists/Paths.antt =====
-- The paths and words that specialist_activation.py looks at, as lists of code points: `str.lower`,
-- `PurePosixPath` and the word pattern, as Python 3.11 to 3.13 have them.
use Prim.Native.Char.{code}
use pi_tmux_orchestrator.Prelude.{
  ℕ, ◌+◌, String, Bool, true, false, not, ◌&&◌, ◌||◌, Option, none, some, List, [], ◌∷◌, ◌++◌, leb,
  ◌==◌, ℕ_eq, if◌then◌else◌,
}

abbrev pub Codes : Type 0
Codes = List ℕ

unfoldable pub codes : String → Codes
codes String.[] = []
codes (String.◌∷◌ c rest) = code c ∷ codes rest

-- The lower case of one code point. Besides A to Z, two others have a lower case with an ASCII letter;
-- those that go from one non-ASCII letter to another are left alone, since only ASCII texts are compared.
abbrev pub lower_code : ℕ → Codes
lower_code n =
    if leb b'A' n && leb n b'Z'
    then (n + 32) ∷ []
    else if n == 8490
    then b'k' ∷ []
    else if n == 304
    then b'i' ∷ 775 ∷ []
    else n ∷ []

-- text.lower()
unfoldable pub lower : Codes → Codes
lower [] = []
lower (n ∷ rest) = lower_code n ++ lower rest

-- text.replace("\\\\", "/")
unfoldable pub slashes : Codes → Codes
slashes [] = []
slashes (n ∷ rest) = (if n == 92 then b'/' else n) ∷ slashes rest

unfoldable pub is_text : Codes → String → Bool
is_text [] String.[] = true
is_text (n ∷ rest) (String.◌∷◌ c s) = n == code c && is_text rest s
is_text _ _ = false

-- text in names
unfoldable pub is_in : List String → Codes → Bool
unfolding is_text
is_in [] text = false
is_in (name ∷ names) text = is_text text name || is_in names text

abbrev pub push : Bool → ℕ → List Codes → List Codes
push true n parts = [] ∷ parts
push false n [] = (n ∷ []) ∷ []
push false n (part ∷ parts) = (n ∷ part) ∷ parts

-- text.split("/")
unfoldable pub split_slash : Codes → List Codes
split_slash [] = [] ∷ []
split_slash (n ∷ rest) = push (n == b'/') n (split_slash rest)

abbrev pub is_part : Codes → Bool
is_part [] = false
is_part (n ∷ []) = not (n == b'.')
is_part _ = true

-- PurePosixPath(path).parts, but for the root
unfoldable pub parts_of : List Codes → List Codes
parts_of [] = []
parts_of (part ∷ rest) =
    let others = parts_of rest in if is_part part then part ∷ others else others

abbrev pub last_of : List Codes → Codes
last_of [] = []
last_of (part ∷ []) = part
last_of (part ∷ other ∷ rest) = last_of (other ∷ rest)

unfoldable pub parts : Codes → List Codes
unfolding split_slash parts_of
parts path = parts_of (split_slash path)

-- PurePosixPath(path).name
abbrev pub name_of : Codes → Codes
name_of path = last_of (parts path)

-- What stands before and after the last dot.
unfoldable pub last_dot : Codes → Option (Codes × Codes)
last_dot [] = none
last_dot (n ∷ rest) = elim (last_dot rest) [
  | some (before, after) ↦ some (n ∷ before, after)
  | none ↦ if n == b'.' then some ([], rest) else none
]

-- The suffix is empty unless something stands on both sides of the dot.
abbrev pub suffix_in : Option (Codes × Codes) → Codes
suffix_in (some (n ∷ before, m ∷ after)) = b'.' ∷ m ∷ after
suffix_in _ = []

abbrev pub stem_in : Codes → Option (Codes × Codes) → Codes
stem_in name (some (n ∷ before, m ∷ after)) = n ∷ before
stem_in name _ = name

abbrev pub suffix_of : Codes → Codes
suffix_of path = suffix_in (last_dot (name_of path))

abbrev pub stem_of : Codes → Codes
stem_of path = stem_in (name_of path) (last_dot (name_of path))

abbrev pub extend_word : Bool → ℕ → Bool × Codes × List Codes → Bool × Codes × List Codes
extend_word true n (inside, word, words) = (true, n ∷ word, words)
extend_word false n (true, word, words) = (false, [], word ∷ words)
extend_word false n (false, word, words) = (false, [], words)

-- The words of the text: whether it starts within one, that one, and the others.
unfoldable pub scan_words : Codes → Bool × Codes × List Codes
scan_words [] = (false, [], [])
scan_words (n ∷ rest) = extend_word (leb b'a' n && leb n b'z') n (scan_words rest)

abbrev pub all_words : Bool × Codes × List Codes → List Codes
all_words (true, word, words) = word ∷ words
all_words (false, word, words) = words

-- re.findall(r"[a-z]+", text)
abbrev pub words_of : Codes → List Codes
words_of text = all_words (scan_words text)
