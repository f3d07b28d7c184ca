-- ===== src/Base/Text.antt =====
-- Text: equality, the lower-casing of ASCII letters, and membership tests in lists of texts.
use Prim.Native.Nat.{ℕ, zero, suc, ◌-◌, ◌<◌}
use Prim.Native.Char.{Char, code}
use Prim.Native.String
use Prim.Native.String.{String, char_at}
use mathlib.Core.Logic.{◌↔◌, inl, inr}
use mathlib.Core.Path.{◌≡◌, refl, ap, ap₂, ◌∙◌}
use mathlib.Core.Bool.{Bool, true, false, ◌&&◌, ◌||◌}
use mathlib.Core.List.{List, [], ◌∷◌}
use native.Mathlib.Omega.{arith}
use text.Mathlib.Text.{◌==◌ as text_eq}
use text.Mathlib.TextEquality.{eq_iff}
use tinyland_auth.Base.Lists.{In}
use tinyland_auth.Base.Tests.{if◌then◌else◌, leb, nat_eq, Bool-cases}

-- `===` on strings
infix 50 ◌==◌
abbrev pub ◌==◌ : String → String → Bool
◌==◌ = text_eq

-- `!s`, for a string
abbrev pub is_empty : String → Bool
is_empty s = s == ""

abbrev pub is_upper : Char → Bool
is_upper c = leb b'A' (code c) && leb (code c) b'Z'

-- One character of `toLowerCase`.
unfoldable pub lower_char : Char → Char
lower_char c = if is_upper c then char_at "abcdefghijklmnopqrstuvwxyz" (code c - b'A') else c

unfoldable pub to_lower : String → String
to_lower String.[] = ""
to_lower (String.◌∷◌ c s) = String.◌∷◌ (lower_char c) (to_lower s)

-- `/-/g` replaced by `_`
abbrev dash_char : Char → Char
dash_char c = if nat_eq (code c) b'-' then char_at "_" 0 else c

unfoldable pub replace_dashes : String → String
replace_dashes String.[] = ""
replace_dashes (String.◌∷◌ c s) = String.◌∷◌ (dash_char c) (replace_dashes s)

-- A template literal: its pieces, joined.
abbrev pub concat : List String → String
concat [] = ""
concat (s ∷ ss) = String.◌++◌ s (concat ss)

-- `list.includes(s)`
abbrev pub includes : String → List String → Bool
includes s [] = false
includes s (t ∷ ts) = s == t || includes s ts

-- Every letter of the lower-case alphabet is outside the range of capitals.
abbrev all_lower : ℕ → Bool
all_lower zero = true
all_lower (suc n) = leb b'a' (code (char_at "abcdefghijklmnopqrstuvwxyz" n)) && all_lower n

all_lower_sound :
    (n k : ℕ)
    → all_lower n ≡ true
    → k < n
    → leb b'a' (code (char_at "abcdefghijklmnopqrstuvwxyz" k)) ≡ true
all_lower_sound zero k h lt = elim lt [ ]
all_lower_sound (suc n) k h lt = ground (arith, all_lower_sound n k)

lower_char-not_upper : (c : Char) → is_upper (lower_char c) ≡ false
unfolding lower_char
lower_char-not_upper c = ground (arith, all_lower_sound 26 (code c - b'A') refl)

lower_char_idem : (c : Char) → lower_char (lower_char c) ≡ lower_char c
unfolding lower_char
lower_char_idem c = ground (arith, lower_char-not_upper c)

pub to_lower_idem : (s : String) → to_lower (to_lower s) ≡ to_lower s
unfolding to_lower
to_lower_idem String.[] = refl
to_lower_idem (String.◌∷◌ c s) = ap₂ String.◌∷◌ (lower_char_idem c) (to_lower_idem s)

dash_char-not_dash : (c : Char) → nat_eq (code (dash_char c)) b'-' ≡ false
dash_char-not_dash c = elim (Bool-cases (nat_eq (code c) b'-')) [
  | inl e ↦ rw e refl
  | inr e ↦ rw e e
]

dash_char_idem : (c : Char) → dash_char (dash_char c) ≡ dash_char c
dash_char_idem c = rw (dash_char-not_dash c)

lower_underscore : lower_char (char_at "_" 0) ≡ char_at "_" 0
unfolding lower_char
lower_underscore = refl

lower-dash_char : (c : Char) → lower_char (dash_char (lower_char c)) ≡ dash_char (lower_char c)
lower-dash_char c = elim (Bool-cases (nat_eq (code (lower_char c)) b'-')) [
  | inl e ↦ rw e lower_underscore
  | inr e ↦ rw e (lower_char_idem c)
]

-- Lower-casing and then replacing dashes is done by one pass.
pub normalize_text_idem :
    (s : String)
    → replace_dashes (to_lower (replace_dashes (to_lower s))) ≡ replace_dashes (to_lower s)
unfolding to_lower replace_dashes
normalize_text_idem String.[] = refl
normalize_text_idem (String.◌∷◌ c s) =
    ap₂ String.◌∷◌ (ap dash_char (lower-dash_char c) ∙ dash_char_idem (lower_char c))
      (normalize_text_idem s)

pub includes_iff : (s : String) (ts : List String) → (includes s ts ≡ true) ↔ In s ts
includes_iff s [] = ground arith
includes_iff s (t ∷ ts) = ground (arith, eq_iff s t, includes_iff s ts)
