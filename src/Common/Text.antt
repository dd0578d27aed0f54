-- ===== src/Common/Text.antt =====
-- Texts: equality, emptiness, and the character classes of the code's regular expressions.
use Prim.Native.Nat.{ℕ, compare, Ordering}
use mathlib.Core.Option.{Option, none, some}
use Prim.Native.Char.{code}
use Prim.Native.String.{String}
use mathlib.Core.Path.{◌≡◌}
use mathlib.Core.Bool.{Bool, true, false, not, ◌&&◌, ◌||◌}
use mathlib.Core.List.{List, [], ◌∷◌}
use text.Mathlib.Text.{◌==◌ as text_eq}
use text.Mathlib.TextPositions.{eq_refl}
use cashu_fault_lab.Common.Tests.{leb, ◌==◌}
use cashu_fault_lab.Common.Lists.{all, length}

abbrev pub str_eq : String → String → Bool
str_eq s t = text_eq s t

pub str_eq_refl : (s : String) → str_eq s s ≡ true
str_eq_refl s = eq_refl s

-- The code points of a text.
abbrev pub codes : String → List ℕ
codes String.[] = []
codes (String.◌∷◌ c s) = code c ∷ codes s

abbrev pub is_blank : String → Bool
is_blank String.[] = true
is_blank (String.◌∷◌ c s) = false

-- [a-z], [A-Z], [0-9], [a-f0-9]
abbrev pub is_lower : ℕ → Bool
is_lower c = leb b'a' c && leb c b'z'

abbrev pub is_upper : ℕ → Bool
is_upper c = leb b'A' c && leb c b'Z'

abbrev pub is_digit : ℕ → Bool
is_digit c = leb b'0' c && leb c b'9'

abbrev pub is_hex : ℕ → Bool
is_hex c = is_digit c || (leb b'a' c && leb c b'f')

-- [A-Za-z0-9_-]
abbrev pub is_base64url : ℕ → Bool
is_base64url c = is_lower c || is_upper c || is_digit c || c == b'_' || c == b'-'

-- ['…', …].includes(s)
abbrev pub includes : List String → String → Bool
includes [] s = false
includes (t ∷ ts) s = str_eq t s || includes ts s

-- /^[c]{n}$/
abbrev pub matches : (ℕ → Bool) → ℕ → String → Bool
matches class n s = all class (codes s) && length (codes s) == n

-- /^[0-9a-f]{64}$/
unfoldable pub is_hash : String → Bool
is_hash s = matches is_hex 64 s

-- [...new Set(xs)]: the texts without repetition, in the order of their first occurrence
abbrev pub without : String → List String → List String
without s [] = []
without s (t ∷ ts) = let rest = without s ts in elim (str_eq t s) [ true ↦ rest | false ↦ t ∷ rest ]

unfoldable pub unique : List String → List String
unique [] = []
unique (s ∷ ss) = s ∷ without s (unique ss)

-- The order of `sort` on texts, as far as they hold no characters beyond the first plane.
abbrev pub codes_le : List ℕ → List ℕ → Bool
codes_le [] t = true
codes_le (c ∷ s) [] = false
codes_le (c ∷ s) (d ∷ t) =
    let rest = codes_le s t in
    elim (compare c d) [ Ordering.lt ↦ true | Ordering.gt ↦ false | Ordering.eq ↦ rest ]

unfoldable pub insert_sorted : String → List String → List String
insert_sorted s [] = s ∷ []
insert_sorted s (t ∷ ts) =
    let rest = insert_sorted s ts in
    elim (codes_le (codes s) (codes t)) [ true ↦ s ∷ t ∷ ts | false ↦ t ∷ rest ]

unfoldable pub sort : List String → List String
unfolding insert_sorted
sort [] = []
sort (s ∷ ss) = insert_sorted s (sort ss)

-- a string of JavaScript that is present and truthy
abbrev pub truthy : Option String → Bool
truthy none = false
truthy (some s) = not (is_blank s)
