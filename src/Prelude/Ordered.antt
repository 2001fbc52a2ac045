-- ===== src/Prelude/Ordered.antt =====
-- Lists whose entries have increasing numbers: slots by their access, events by their sequence.
use Prim.Native.Nat.{ℕ, zero, suc, ◌+◌, ◌≤◌}
use mathlib.Core.Logic.{inl, inr}
use mathlib.Core.Bool.{Bool}
use mathlib.Core.List.{List, [], ◌∷◌, ◌++◌}
use native.Mathlib.Omega.{arith}
use nagisa_lake.Prelude.Tests.{Bool-cases}
use nagisa_lake.Prelude.Lists.{retain, drop}

module _ {ℓ} {S : Type ℓ} (number : S → ℕ) where
  -- All numbers are from `low` on and below `high`.
  abbrev pub Increasing : ℕ → ℕ → List S → Type 0
  Increasing low high [] = low ≤ high
  Increasing low high (s ∷ order) = (low ≤ number s) × Increasing (number s + 1) high order

  pub Increasing-low :
      (m low high : ℕ) (order : List S)
      → m ≤ low
      → Increasing low high order
      → Increasing m high order
  Increasing-low m low high [] le h = omega arith
  Increasing-low m low high (s ∷ order) le h = (omega (arith, h.0), h.1)

  pub Increasing-le : (low high : ℕ) (order : List S) → Increasing low high order → low ≤ high
  Increasing-le low high [] h = h
  Increasing-le low high (s ∷ order) h =
      omega (arith, h.0, Increasing-le (number s + 1) high order h.1)

  pub Increasing-retain :
      (p : S → Bool) (low high : ℕ) (order : List S)
      → Increasing low high order
      → Increasing low high (retain p order)
  Increasing-retain p low high [] h = h
  Increasing-retain p low high (s ∷ order) h = elim (Bool-cases (p s)) [
    | inl e ↦ rw e (h.0, Increasing-retain p (number s + 1) high order h.1)
    | inr e ↦ rw e (
        Increasing-low low (number s + 1) high _ (omega (arith, h.0))
          (Increasing-retain p (number s + 1) high order h.1))
  ]

  pub Increasing-drop :
      (n low high : ℕ) (order : List S)
      → Increasing low high order
      → Increasing low high (drop n order)
  Increasing-drop zero low high order h = h
  Increasing-drop (suc n) low high [] h = h
  Increasing-drop (suc n) low high (s ∷ order) h =
      Increasing-low low (number s + 1) high _ (omega (arith, h.0))
        (Increasing-drop n (number s + 1) high order h.1)

  pub Increasing-push :
      (low high : ℕ) (order : List S) (s : S)
      → high ≤ number s
      → Increasing low high order
      → Increasing low (number s + 1) (order ++ (s ∷ []))
  Increasing-push low high [] s e h = (omega arith, omega arith)
  Increasing-push low high (t ∷ order) s e h =
      (h.0, Increasing-push (number t + 1) high order s e h.1)

  pub Increasing-high :
      (low high m : ℕ) (order : List S)
      → high ≤ m
      → Increasing low high order
      → Increasing low m order
  Increasing-high low high m [] le h = omega arith
  Increasing-high low high m (s ∷ order) le h =
      (h.0, Increasing-high (number s + 1) high m order le h.1)
