-- ===== src/Prelude/Text.antt =====
-- Texts as code points, for the regular expressions of the program.
use Prim.Native.Nat.{ℕ, ◌+◌}
use Prim.Native.Char.{Char, code}
use Prim.Native.String.{String}
use mathlib.Core.Path.{◌≡◌, refl}
use mathlib.Core.Bool.{Bool, false, ◌&&◌, ◌||◌}
use mathlib.Core.List.{List, [], ◌∷◌}
use drive_guard.Prelude.Tests.{leb, ◌==◌, if◌then◌else◌}
use drive_guard.Prelude.Lists.{length, all}

abbrev pub codes : String → List ℕ
codes String.[] = []
codes (String.◌∷◌ c s) = code c ∷ codes s

abbrev pub is_digit : ℕ → Bool
is_digit c = leb b'0' c && leb c b'9'

abbrev pub is_alphanumeric : ℕ → Bool
is_alphanumeric c = is_digit c || (leb b'A' c && leb c b'Z') || (leb b'a' c && leb c b'z')

-- [A-Za-z0-9._:-]
abbrev is_id_char : ℕ → Bool
is_id_char c = is_alphanumeric c || c == b'.' || c == b'_' || c == b':' || c == b'-'

-- ^[A-Za-z0-9][A-Za-z0-9._:-]{0,rest}$
is_safe_codes : ℕ → List ℕ → Bool
is_safe_codes rest [] = false
is_safe_codes rest (c ∷ cs) = is_alphanumeric c && all is_id_char cs && leb (length cs) rest

unfoldable pub is_safe_id : ℕ → String → Bool
unfolding is_safe_codes
is_safe_id rest s = is_safe_codes rest (codes s)

-- [a-f0-9]
abbrev is_hex : ℕ → Bool
is_hex c = is_digit c || (leb b'a' c && leb c b'f')

-- ^[a-f0-9]{64}$
unfoldable pub is_fingerprint : String → Bool
is_fingerprint s = all is_hex (codes s) && length (codes s) == 64

-- text.split(".")
abbrev prepend : Char → List String → List String
prepend c [] = []
prepend c (w ∷ ws) = String.◌∷◌ c w ∷ ws

unfoldable pub split_dot : String → List String
split_dot String.[] = String.[] ∷ []
split_dot (String.◌∷◌ c s) =
    let rest = split_dot s in if code c == b'.' then String.[] ∷ rest else prepend c rest

split_dot_test : split_dot "vehicle.doors.trunk" ≡ "vehicle" ∷ "doors" ∷ "trunk" ∷ []
unfolding split_dot
split_dot_test = refl

-- The length of a JavaScript string: code points above the basic plane count twice.
abbrev utf16_units : List ℕ → ℕ
utf16_units [] = 0
utf16_units (c ∷ cs) = (if leb 65536 c then 2 else 1) + utf16_units cs

unfoldable pub js_length : String → ℕ
js_length s = utf16_units (codes s)
