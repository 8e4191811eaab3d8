-- ===== src/Base/Text.antt =====
-- Texts as lists of code points: Python's `startswith`, `in` and `split` on a separator.
use Prim.Native.Char.{code}
use Prim.Native.Nat.{ℕ}
use Prim.Native.String.{String, ◌++◌ as str_append}
use mathlib.Core.Path.{◌≡◌}
use native.Mathlib.Omega.{arith}
use mathlib.Core.Bool.{Bool, true, false, not, ◌&&◌, ◌||◌}
use mathlib.Core.List.{List, [], ◌∷◌}
use mathlib.Core.Option.{Option, none, some}
use coinjoin_pipeline.Base.Tests.{leb, ◌==◌, nat_equality, if◌then◌else◌, string_equality}

abbrev pub codes : String → List ℕ
codes String.[] = []
codes (String.◌∷◌ c s) = code c ∷ codes s

-- `text.startswith(prefix)`
unfoldable pub has_prefix : List ℕ → List ℕ → Bool
has_prefix [] text = true
has_prefix (p ∷ ps) [] = false
has_prefix (p ∷ ps) (c ∷ cs) = p == c && has_prefix ps cs

unfoldable pub starts_with : String → String → Bool
unfolding has_prefix
starts_with text prefix = has_prefix (codes prefix) (codes text)

unfoldable pub occurs : List ℕ → List ℕ → Bool
unfolding has_prefix
occurs part [] = has_prefix part []
occurs part (c ∷ cs) = has_prefix part (c ∷ cs) || occurs part cs

-- `part in text`
unfoldable pub has_substring : String → String → Bool
unfolding occurs
has_substring text part = occurs (codes part) (codes text)

-- Put a code point in front of the first word.
abbrev add_to_first : ℕ → List (List ℕ) → List (List ℕ)
add_to_first c [] = (c ∷ []) ∷ []
add_to_first c (word ∷ words) = (c ∷ word) ∷ words

-- `text.split(separator)`
unfoldable pub split : ℕ → List ℕ → List (List ℕ)
split separator [] = [] ∷ []
split separator (c ∷ cs) =
    let rest = split separator cs in if c == separator then [] ∷ rest else add_to_first c rest

-- `c in [0-9]`, `c in [a-z]`, `c in [A-Z]`
abbrev pub within : ℕ → ℕ → ℕ → Bool
within low high c = leb low c && leb c high

abbrev pub is_digit : ℕ → Bool
is_digit = within b'0' b'9'

abbrev pub is_alphanumeric : ℕ → Bool
is_alphanumeric c = is_digit c || within b'A' b'Z' c || within b'a' b'z' c

-- Python's truth of a text that may be `None`.
abbrev pub is_given : Option String → Bool
is_given none = false
is_given (some text) = not (text == "")

abbrev pub is_some {ℓ} : {A : Type ℓ} → Option A → Bool
is_some none = false
is_some (some x) = true

-- `value == text` for a value that may be `None`.
abbrev pub is_text : Option String → String → Bool
is_text none text = false
is_text (some value) text = value == text

-- The text of an f-string from its parts.
unfoldable pub format : List String → String
format [] = ""
format (part ∷ parts) = str_append part (format parts)

-- One message if the rule is broken.
abbrev pub complain : Bool → String → List String
complain true message = message ∷ []
complain false message = []

pub complain-empty : (b : Bool) (message : String) → complain b message ≡ [] → b ≡ false
complain-empty b message h = ground arith
