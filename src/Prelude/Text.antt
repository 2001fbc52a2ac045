-- ===== src/Prelude/Text.antt =====
-- Rust's `String` methods that the code calls, over the code points of a native `String`.
use Prim.Native.Nat.{ℕ, ◌+◌}
use Prim.Native.Char.{code}
use Prim.Native.String.{String}
use mathlib.Core.Path.{◌≡◌, refl}
use mathlib.Core.Bool.{Bool, true, false, ◌&&◌, ◌||◌}
use mathlib.Core.List.{List, [], ◌∷◌}
use native.Mathlib.Omega.{arith}
use text.Mathlib.Text.{◌==◌ as text_eq}
use text.Mathlib.TextEquality.{eq_iff}
use nagisa_lake.Prelude.Tests.{leb, ◌==◌, if◌then◌else◌}
use nagisa_lake.Prelude.Lists.{all}

-- `==` on strings.
infix 50 ◌=ˢ◌
abbrev pub ◌=ˢ◌ : String → String → Bool
s =ˢ t = text_eq s t

pub =ˢ_refl : (s : String) → (s =ˢ s) ≡ true
=ˢ_refl s = (eq_iff s s).1 refl

-- `str::chars`, as code points.
abbrev pub codes : String → List ℕ
codes String.[] = []
codes (String.◌∷◌ c s) = code c ∷ codes s

abbrev within : ℕ → ℕ → ℕ → Bool
within lo hi c = leb lo c && leb c hi

-- `char::is_whitespace`: the code points with the property White_Space.
unfoldable pub is_whitespace : ℕ → Bool
is_whitespace c =
    within 9 13 c
    || (c == 32)
    || (c == 0x85)
    || (c == 0xa0)
    || (c == 0x1680)
    || within 0x2000 0x200a c
    || (c == 0x2028)
    || (c == 0x2029)
    || (c == 0x202f)
    || (c == 0x205f)
    || (c == 0x3000)

-- `value.trim().is_empty()`: nothing is left when every character is white space.
unfoldable pub is_blank : List ℕ → Bool
is_blank = all is_whitespace

unfoldable pub is_ascii_digit : ℕ → Bool
is_ascii_digit c = within b'0' b'9' c

unfoldable pub is_ascii_alphanumeric : ℕ → Bool
unfolding is_ascii_digit
is_ascii_alphanumeric c = is_ascii_digit c || within b'A' b'Z' c || within b'a' b'z' c

unfoldable pub is_ascii_hexdigit : ℕ → Bool
unfolding is_ascii_digit
is_ascii_hexdigit c = is_ascii_digit c || within b'A' b'F' c || within b'a' b'f' c

unfoldable pub to_ascii_lowercase : ℕ → ℕ
to_ascii_lowercase c = if within b'A' b'Z' c then c + 32 else c

-- `str::eq_ignore_ascii_case`.
unfoldable pub eq_ignore_ascii_case : List ℕ → List ℕ → Bool
unfolding to_ascii_lowercase
eq_ignore_ascii_case [] [] = true
eq_ignore_ascii_case (c ∷ s) (d ∷ t) =
    (to_ascii_lowercase c == to_ascii_lowercase d) && eq_ignore_ascii_case s t
eq_ignore_ascii_case _ _ = false

pub eq_ignore_ascii_case_refl : (s : List ℕ) → eq_ignore_ascii_case s s ≡ true
unfolding eq_ignore_ascii_case
eq_ignore_ascii_case_refl [] = refl
eq_ignore_ascii_case_refl (c ∷ s) = ground (arith, eq_ignore_ascii_case_refl s)

pub eq_ignore_ascii_case_trans :
    (s t u : List ℕ)
    → eq_ignore_ascii_case s t ≡ true
    → eq_ignore_ascii_case t u ≡ true
    → eq_ignore_ascii_case s u ≡ true
unfolding eq_ignore_ascii_case
eq_ignore_ascii_case_trans [] [] [] p q = refl
eq_ignore_ascii_case_trans [] [] (x ∷ u) p q = q
eq_ignore_ascii_case_trans [] (x ∷ t) u p q = cc
eq_ignore_ascii_case_trans (x ∷ s) [] u p q = cc
eq_ignore_ascii_case_trans (x ∷ s) (y ∷ t) [] p q = cc
eq_ignore_ascii_case_trans (x ∷ s) (y ∷ t) (z ∷ u) p q =
    ground (arith, eq_ignore_ascii_case_trans s t u)
