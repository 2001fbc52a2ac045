-- ===== src/Prelude/Joins.antt =====
-- Two texts joined around a character that the first one does not have.
use Prim.Native.Nat.{ℕ}
use Prim.Native.Char.{Char, code}
use Prim.Native.String.append
use Prim.Native.String.{String, ◌++◌ as join}
use mathlib.Core.Path.{◌≡◌, refl, sym, ap, ◌∙◌}
use mathlib.Core.Logic.{◌≢◌}
use text.Mathlib.TextEquality.{Char-path}
use nagisa_lake.Prelude.Lists.{All}
use nagisa_lake.Prelude.Text.{codes}

tail : String → String
tail String.[] = String.[]
tail (String.◌∷◌ c s) = s

head_code : String → ℕ
head_code String.[] = 0
head_code (String.◌∷◌ c s) = code c

pub join-single : (c : Char) (u : String) → join (String.◌∷◌ c String.[]) u ≡ String.◌∷◌ c u
join-single c u = append.cons c String.[] u ∙ ap (λ t. String.◌∷◌ c t) (append.nil u)

join_heads : (c d : Char) (s t : String) → code c ≡ code d → s ≡ t → String.◌∷◌ c s ≡ String.◌∷◌ d t
join_heads c d s t h p = λ i. String.◌∷◌ (Char-path c d h i) (p i)

abbrev pub Lacks : Char → String → Type 0
Lacks sep s = All (λ c. c ≢ code sep) (codes s)

-- The joined text has one reading.
pub join_injective :
    (sep : Char) (s t u v : String)
    → Lacks sep s
    → Lacks sep t
    → join s (String.◌∷◌ sep u) ≡ join t (String.◌∷◌ sep v)
    → (s ≡ t) × (u ≡ v)
unfolding tail head_code
join_injective sep String.[] String.[] u v a b h =
    (refl, ap tail (sym (append.nil _) ∙ h ∙ append.nil _))
join_injective sep String.[] (String.◌∷◌ d t) u v a b h =
    absurd (b.0 (sym (ap head_code (sym (append.nil _) ∙ h ∙ append.cons d t _))))
join_injective sep (String.◌∷◌ c s) String.[] u v a b h =
    absurd (a.0 (sym (ap head_code (sym (append.nil _) ∙ sym h ∙ append.cons c s _))))
join_injective sep (String.◌∷◌ c s) (String.◌∷◌ d t) u v a b h =
    let e = sym (append.cons c s _) ∙ h ∙ append.cons d t _ in
    let (p, q) = join_injective sep s t u v a.1 b.1 (ap tail e) in
    (join_heads c d s t (ap head_code e) p, q)
