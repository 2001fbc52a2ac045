-- ===== src/Prelude/HashMaps.antt =====
-- `HashMap<String, V>`: an association list in the order in which the table happens to be walked.
-- Reads and removals are those of `Dict`.
use Prim.Native.String.{String}
use mathlib.Core.Path.{◌≡◌, refl, subst}
use mathlib.Core.Logic.{inl, inr}
use mathlib.Core.Bool.{Bool}
use mathlib.Core.Option.{none, some}
use mathlib.Core.List.{[], ◌∷◌}
use native.Mathlib.Omega.{arith}
use text.Mathlib.TextEquality.{eq_iff}
use nagisa_lake.Prelude.Tests.{if◌then◌else◌, Bool-cases}
use nagisa_lake.Prelude.Lists.{retain}
use nagisa_lake.Prelude.Text.{◌=ˢ◌}
use nagisa_lake.Prelude.Maps.{Dict, get, remove, AllValues, get-remove}

module _ {ℓ} {V : Type ℓ} where
  -- `HashMap::insert`.
  unfoldable pub put : String → V → Dict V → Dict V
  put k v [] = (k, v) ∷ []
  put k v ((j, w) ∷ m) = if j =ˢ k then (k, v) ∷ m else (j, w) ∷ put k v m

  pub get-put :
      (k j : String) (v : V) (m : Dict V) → get j (put k v m) ≡ (if k =ˢ j then some v else get j m)
  unfolding get put
  get-put k j v [] = refl
  get-put k j v ((i, w) ∷ m) = ground (arith, eq_iff k j, eq_iff i k, eq_iff i j, get-put k j v m)

  -- No key stands twice.
  abbrev pub Distinct : Dict V → Type ℓ
  Distinct [] = Unit
  Distinct ((k, v) ∷ m) = (get k m ≡ none) × Distinct m

  pub Distinct-put : (k : String) (v : V) (m : Dict V) → Distinct m → Distinct (put k v m)
  unfolding put get
  Distinct-put k v [] d = (refl, tt)
  Distinct-put k v ((j, w) ∷ m) d = elim (Bool-cases (j =ˢ k)) [
    | inl hit ↦ rw hit (subst (λ i. get i m ≡ none) ((eq_iff j k).0 hit) d.0, d.1)
    | inr miss ↦
        rw miss (ground (arith, get-put k j v m, eq_iff k j, eq_iff j k), Distinct-put k v m d.1)
  ]

  pub Distinct-remove : (k : String) (m : Dict V) → Distinct m → Distinct (remove k m)
  unfolding remove
  Distinct-remove k [] d = tt
  Distinct-remove k ((j, w) ∷ m) d = elim (Bool-cases (j =ˢ k)) [
    | inl hit ↦ rw hit (Distinct-remove k m d.1)
    | inr miss ↦ rw miss (ground (arith, get-remove k j m), Distinct-remove k m d.1)
  ]

  get-retain-none :
      (test : String × V → Bool) (k : String) (m : Dict V)
      → get k m ≡ none
      → get k (retain test m) ≡ none
  unfolding get
  get-retain-none test k [] h = refl
  get-retain-none test k ((j, w) ∷ m) h = ground (arith, get-retain-none test k m)

  pub Distinct-retain :
      (test : String × V → Bool) (m : Dict V) → Distinct m → Distinct (retain test m)
  Distinct-retain test [] d = tt
  Distinct-retain test ((j, w) ∷ m) d = elim (Bool-cases (test (j, w))) [
    | inl stays ↦ rw stays (get-retain-none test j m d.0, Distinct-retain test m d.1)
    | inr goes ↦ rw goes (Distinct-retain test m d.1)
  ]

module _ {ℓ κ} {V : Type ℓ} (P : V → Type κ) where
  pub AllValues-put :
      (k : String) (v : V) (m : Dict V) → P v → AllValues P m → AllValues P (put k v m)
  unfolding put
  AllValues-put k v [] p a = (p, tt)
  AllValues-put k v ((j, w) ∷ m) p a = elim (Bool-cases (j =ˢ k)) [
    | inl hit ↦ rw hit (p, a.1)
    | inr miss ↦ rw miss (a.0, AllValues-put k v m p a.1)
  ]
