-- ===== src/Prelude/Maps.antt =====
-- `BTreeMap<String, V>`: an association list in the order of its keys. Rust orders strings by
-- their UTF-8 bytes, which is the order of their code points.
use Prim.Native.Nat.{ℕ, compare, Ordering}
use Prim.Native.String.{String}
use mathlib.Core.Path.{◌≡◌, refl, subst}
use mathlib.Core.Logic.{inl, inr}
use mathlib.Core.Bool.{Bool, true, false, not}
use mathlib.Core.Option.{Option, none, some}
use mathlib.Core.List.{List, [], ◌∷◌}
use native.Mathlib.Omega.{arith}
use text.Mathlib.TextEquality.{eq_iff}
use nagisa_lake.Prelude.Tests.{if◌then◌else◌, Bool-cases}
use nagisa_lake.Prelude.Lists.{All, retain}
use nagisa_lake.Prelude.Text.{◌=ˢ◌, codes}

unfoldable pub lex_lt : List ℕ → List ℕ → Bool
lex_lt [] [] = false
lex_lt [] (d ∷ t) = true
lex_lt (c ∷ s) [] = false
lex_lt (c ∷ s) (d ∷ t) =
    let rest = lex_lt s t in
    elim (compare c d) [ Ordering.lt ↦ true | Ordering.eq ↦ rest | Ordering.gt ↦ false ]

unfoldable pub str_lt : String → String → Bool
unfolding lex_lt
str_lt s t = lex_lt (codes s) (codes t)

abbrev pub Dict {ℓ} : Type ℓ → Type ℓ
Dict V = List (String × V)

module _ {ℓ} {V : Type ℓ} where
  unfoldable pub get : String → Dict V → Option V
  get k [] = none
  get k ((j, v) ∷ m) = if j =ˢ k then some v else get k m

  -- The entry goes in its place, and replaces one of the same key.
  unfoldable pub insert : String → V → Dict V → Dict V
  unfolding str_lt
  insert k v [] = (k, v) ∷ []
  insert k v ((j, w) ∷ m) =
      let later = insert k v m in
      if j =ˢ k then (k, v) ∷ m else (if str_lt k j then (k, v) ∷ (j, w) ∷ m else (j, w) ∷ later)

  unfoldable pub remove : String → Dict V → Dict V
  remove k [] = []
  remove k ((j, w) ∷ m) = if j =ˢ k then remove k m else (j, w) ∷ remove k m

  pub get-insert :
      (k j : String) (v : V) (m : Dict V)
      → get j (insert k v m) ≡ (if k =ˢ j then some v else get j m)
  unfolding get insert
  get-insert k j v [] = refl
  get-insert k j v ((i, w) ∷ m) =
      ground (arith, eq_iff k j, eq_iff i k, eq_iff i j, get-insert k j v m)

  pub get-remove :
      (k j : String) (m : Dict V) → get j (remove k m) ≡ (if k =ˢ j then none else get j m)
  unfolding get remove
  get-remove k j [] = ground arith
  get-remove k j ((i, w) ∷ m) = ground (arith, eq_iff k j, eq_iff i k, eq_iff i j, get-remove k j m)

  -- Every entry's value satisfies `P`.
  abbrev pub AllValues {κ} : (V → Type κ) → Dict V → Type κ
  AllValues P m = All (λ e. P e.1) m

module _ {ℓ κ} {V : Type ℓ} (P : V → Type κ) where
  pub AllValues-get : (k : String) (m : Dict V) (v : V) → AllValues P m → get k m ≡ some v → P v
  unfolding get
  AllValues-get k [] v a e = absurd (cc)
  AllValues-get k ((j, w) ∷ m) v a e = elim (Bool-cases (j =ˢ k)) [
    | inl hit ↦ let q : w ≡ v = ground arith in subst P q a.0
    | inr miss ↦ AllValues-get k m v a.1 (rw miss at e)
  ]

  pub AllValues-insert :
      (k : String) (v : V) (m : Dict V) → P v → AllValues P m → AllValues P (insert k v m)
  unfolding insert
  AllValues-insert k v [] p a = (p, tt)
  AllValues-insert k v ((j, w) ∷ m) p a = elim (Bool-cases (j =ˢ k)) [
    | inl hit ↦ rw hit (p, a.1)
    | inr miss ↦ rw miss (elim (Bool-cases (str_lt k j)) [
      | inl before ↦ rw before (p, a)
      | inr after ↦ rw after (a.0, AllValues-insert k v m p a.1)
    ])
  ]

  pub AllValues-remove : (k : String) (m : Dict V) → AllValues P m → AllValues P (remove k m)
  unfolding remove
  AllValues-remove k [] a = tt
  AllValues-remove k ((j, w) ∷ m) a = elim (Bool-cases (j =ˢ k)) [
    | inl hit ↦ rw hit (AllValues-remove k m a.1)
    | inr miss ↦ rw miss (a.0, AllValues-remove k m a.1)
  ]

  pub AllValues-retain :
      (test : String × V → Bool) (m : Dict V) → AllValues P m → AllValues P (retain test m)
  AllValues-retain test [] a = tt
  AllValues-retain test (e ∷ m) a = elim (Bool-cases (test e)) [
    | inl stays ↦ rw stays (a.0, AllValues-retain test m a.1)
    | inr goes ↦ rw goes (AllValues-retain test m a.1)
  ]

  -- What a filter on the values leaves has passed it.
  pub AllValues-passed :
      (goes : V → Bool)
      → ((v : V) → goes v ≡ false → P v)
      → (m : Dict V) → AllValues P (retain (λ e. not (goes e.1)) m)
  AllValues-passed goes h [] = tt
  AllValues-passed goes h ((k, v) ∷ m) = elim (Bool-cases (goes v)) [
    | inl out ↦ rw out (AllValues-passed goes h m)
    | inr in' ↦ rw in' (h v in', AllValues-passed goes h m)
  ]
