-- ===== src/Prelude/Text.antt =====
-- Python's text operations, as far as the code uses them.
use Prim.Native.Nat.{ℕ, suc, ◌+◌, ◌-◌, ◌*◌}
use Prim.Native.Char.{code}
use Prim.Native.String.{String, [], ◌∷◌}
use mathlib.Core.Bool.{Bool, true, false, ◌&&◌}
use pi_tmux_orchestrator.Prelude.Tests.{leb, ◌==◌, ℕ_eq, if◌then◌else◌}

-- len(text)
unfoldable pub len : String → ℕ
len [] = 0
len (c ∷ rest) = suc (len rest)

-- text.partition(separator): the head, whether the separator was found, and the tail.
unfoldable pub partition : ℕ → String → String × Bool × String
partition separator [] = ([], false, [])
partition separator (c ∷ rest) =
    let (head, found, tail) = partition separator rest in
    if code c == separator then ([], true, rest) else (c ∷ head, found, tail)

is_digit : ℕ → Bool
is_digit n = leb b'0' n && leb n b'9'

all_digits : String → Bool
unfolding is_digit
all_digits [] = true
all_digits (c ∷ rest) = is_digit (code c) && all_digits rest

-- text.isascii() and text.isdecimal(): not empty, and every character one of 0 to 9.
unfoldable pub is_ascii_decimal : String → Bool
unfolding all_digits
is_ascii_decimal [] = false
is_ascii_decimal (c ∷ rest) = all_digits (c ∷ rest)

digits_from : ℕ → String → ℕ
digits_from n [] = n
digits_from n (c ∷ rest) = digits_from (n * 10 + (code c - b'0')) rest

-- int(text), for a text of ASCII digits.
unfoldable pub to_int : String → ℕ
unfolding digits_from
to_int s = digits_from 0 s
