-- ===== src/Base/Strings.antt =====
-- JavaScript strings as their UTF-16 code units, and what the source calls of them:
-- `===`, `toLowerCase`, `trim`, `startsWith`, and the two patterns for hexadecimal ids.
use Prim.Native.Nat.{ℕ, ◌+◌}
use Prim.Native.Char.{code}
use Prim.Native.String.{String}
use mathlib.Core.Path.{◌≡◌, refl}
use mathlib.Core.Logic.{◌↔◌}
use mathlib.Core.Bool.{Bool, true, false, ◌&&◌, ◌||◌}
use mathlib.Core.List.{List, [], ◌∷◌, ◌++◌, reverse}
use native.Mathlib.Omega.{arith}
use macula_mcp.Base.Tests.{leb, ◌==◌, if◌then◌else◌}
use macula_mcp.Base.Lists.{length, all}

abbrev pub Text : Type 0
Text = List ℕ

-- The code units of an ASCII literal.
abbrev pub codes : String → Text
codes String.[] = []
codes (String.◌∷◌ c s) = code c ∷ codes s

-- `a === b`
unfoldable pub same : Text → Text → Bool
same [] [] = true
same (a ∷ s) (b ∷ t) = a == b && same s t
same _ _ = false

pub same_refl : (s : Text) → same s s ≡ true
unfolding same
same_refl [] = refl
same_refl (a ∷ s) = ground (arith, same_refl s)

pub same_sound : (s t : Text) → same s t ≡ true → s ≡ t
unfolding same
same_sound [] [] h = refl
same_sound (a ∷ s) (b ∷ t) h = ground (arith, same_sound s t)
same_sound _ _ h = cc

pub same_iff : (s t : Text) → (same s t ≡ true) ↔ (s ≡ t)
same_iff s t = (same_sound s t, λ e. rw e (same_refl t))

-- `toLowerCase` on one code unit. Beyond ASCII only the Kelvin sign and the dotted capital I have
-- ASCII in their lower case; the other units are left as they are, since no test of the source
-- tells one unit outside ASCII from another.
abbrev pub lower_unit : ℕ → Text
lower_unit c =
    if leb b'A' c && leb c b'Z'
    then (c + 32) ∷ []
    else if c == 0x212a
    then b'k' ∷ []
    else if c == 0x130
    then b'i' ∷ 0x307 ∷ []
    else c ∷ []

unfoldable pub to_lower_case : Text → Text
to_lower_case [] = []
to_lower_case (c ∷ s) = lower_unit c ++ to_lower_case s

-- White space and line ends, as `trim` reads them.
unfoldable pub is_space : ℕ → Bool
is_space c =
    leb 9 c && leb c 13
    || c == 32
    || c == 0xa0
    || c == 0x1680
    || leb 0x2000 c && leb c 0x200a
    || c == 0x2028
    || c == 0x2029
    || c == 0x202f
    || c == 0x205f
    || c == 0x3000
    || c == 0xfeff

abbrev drop_space : Text → Text
drop_space [] = []
drop_space (c ∷ s) = let rest = drop_space s in if is_space c then rest else c ∷ s

unfoldable pub trim : Text → Text
unfolding is_space
trim s = reverse (drop_space (reverse (drop_space s)))

unfoldable pub starts_with : Text → Text → Bool
starts_with [] s = true
starts_with (p ∷ ps) (c ∷ s) = p == c && starts_with ps s
starts_with (p ∷ ps) [] = false

-- `s.slice(n)` for a text no shorter than n
abbrev pub drop : ℕ → Text → Text
drop ℕ.zero s = s
drop (ℕ.suc n) [] = []
drop (ℕ.suc n) (c ∷ s) = drop n s

abbrev pub is_digit : ℕ → Bool
is_digit c = leb b'0' c && leb c b'9'

abbrev pub is_lower_hex : ℕ → Bool
is_lower_hex c = is_digit c || leb b'a' c && leb c b'f'

abbrev pub is_hex : ℕ → Bool
is_hex c = is_lower_hex c || leb b'A' c && leb c b'F'

-- /^[0-9a-f]{32}$/, /^[0-9a-f]{64}$/ and /^[0-9a-fA-F]{64}$/
unfoldable pub is_hex32 : Text → Bool
is_hex32 s = length s == 32 && all is_lower_hex s

unfoldable pub is_lower_hex64 : Text → Bool
is_lower_hex64 s = length s == 64 && all is_lower_hex s

unfoldable pub is_hex64 : Text → Bool
is_hex64 s = length s == 64 && all is_hex s

-- Lower case is stable, and a hexadecimal text keeps its length and stays hexadecimal.
pub to_lower_case_idem : (s : Text) → to_lower_case (to_lower_case s) ≡ to_lower_case s
unfolding to_lower_case
to_lower_case_idem [] = refl
to_lower_case_idem (c ∷ s) = ground (arith, to_lower_case_idem s)

to_lower_case-all_hex :
    (s : Text)
    → all is_hex s ≡ true
    → (all is_lower_hex (to_lower_case s) ≡ true) × (length (to_lower_case s) ≡ length s)
unfolding to_lower_case
to_lower_case-all_hex [] h = (refl, refl)
to_lower_case-all_hex (c ∷ s) h = ground (arith, to_lower_case-all_hex s)

pub to_lower_case_of_lower_hex : (s : Text) → all is_lower_hex s ≡ true → to_lower_case s ≡ s
unfolding to_lower_case
to_lower_case_of_lower_hex [] h = refl
to_lower_case_of_lower_hex (c ∷ s) h = ground (arith, to_lower_case_of_lower_hex s)

pub lower_hex64-to_lower_case :
    (s : Text) → is_hex64 s ≡ true → is_lower_hex64 (to_lower_case s) ≡ true
unfolding is_hex64 is_lower_hex64
lower_hex64-to_lower_case s h = ground (arith, to_lower_case-all_hex s)

all_hex_of_lower : (s : Text) → all is_lower_hex s ≡ true → all is_hex s ≡ true
all_hex_of_lower [] h = refl
all_hex_of_lower (c ∷ s) h = ground (arith, all_hex_of_lower s)

pub is_hex64_of_lower : (s : Text) → is_lower_hex64 s ≡ true → is_hex64 s ≡ true
unfolding is_hex64 is_lower_hex64
is_hex64_of_lower s h = ground (arith, all_hex_of_lower s)
