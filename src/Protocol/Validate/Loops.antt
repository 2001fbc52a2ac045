-- ===== src/Protocol/Validate/Loops.antt =====
-- What it means that the chains and the loops of crates/nagisalake-protocol/src/validate.rs pass.
use nagisa_lake.Prelude.{
  ◌≡◌, refl, ◌↔◌, Bool, true, false, ◌||◌, List, [], ◌∷◌, ok, err, ◌>>◌, fail_if, All, any, arith,
}
use nagisa_lake.Protocol.Validate.{Validated, ValidationError, each, each_once}

abbrev pub Passes : Validated → Type 0
Passes v = v ≡ ok tt

Passes-both : (a b : Validated) → Passes (a >> b) ↔ (Passes a × Passes b)
Passes-both (ok _) b = (λ h. (refl, h), λ h. h.1)
Passes-both (err e) b = (λ h. absurd (cc), λ h. absurd (cc))

pub Passes-and :
    {P Q : Type 0} (a b : Validated) → Passes a ↔ P → Passes b ↔ Q → Passes (a >> b) ↔ (P × Q)
Passes-and a b (f, g) (f', g') =
    let (p, q) = Passes-both a b in (λ h. (f (p h).0, f' (p h).1), λ h. q (g h.0, g' h.1))

pub Passes-fail_if : (b : Bool) (e : ValidationError) → Passes (fail_if b e) ↔ (b ≡ false)
Passes-fail_if true e = (λ h. absurd (cc), λ h. absurd (cc))
Passes-fail_if false e = (λ h. refl, λ h. refl)

Passes-four :
    (a : Validated) (b : Bool) (e : ValidationError) (c d : Validated)
    → Passes (a >> (fail_if b e >> (c >> d))) ↔ (Passes a × (b ≡ false) × Passes c × Passes d)
Passes-four (ok _) true e c d = (λ h. absurd (cc), λ h. absurd (cc))
Passes-four (ok _) false e (ok _) d = (λ h. (refl, refl, refl, h), λ h. h.3)
Passes-four (ok _) false e (err x) d = (λ h. absurd (cc), λ h. absurd (cc))
Passes-four (err x) b e c d = (λ h. absurd (cc), λ h. absurd (cc))

module _ {ℓ} {A : Type ℓ} (check : A → Validated) where
  pub each-Passes : (xs : List A) → Passes (each check xs) ↔ All (λ x. Passes (check x)) xs
  unfolding each
  each-Passes [] = (λ h. tt, λ h. refl)
  each-Passes (x ∷ xs) =
      let (f, g) = each-Passes xs in
      let (p, q) = Passes-both (check x) (each check xs) in
      (λ h. ((p h).0, f (p h).1), λ h. q (h.0, g h.1))

neither_left : (a b : Bool) → (a || b) ≡ false → a ≡ false
neither_left a b h = ground arith

neither_right : (a b : Bool) → (a || b) ≡ false → b ≡ false
neither_right a b h = ground arith

neither : (a b : Bool) → a ≡ false → b ≡ false → (a || b) ≡ false
neither a b p q = ground arith

module _ {ℓ κ} {A : Type ℓ} {K : Type κ} (eq : K → K → Bool) (key : A → K) where
  -- No key is equal to a later one.
  abbrev pub Once : List A → Type 0
  Once [] = Unit {0}
  Once (x ∷ xs) = All (λ y. eq (key x) (key y) ≡ false) xs × Once xs

  abbrev Fresh : List K → List A → Type 0
  Fresh seen xs = All (λ y. any (λ k. eq k (key y)) seen ≡ false) xs

  Fresh-cons :
      (k : K) (seen : List K) (xs : List A)
      → Fresh (k ∷ seen) xs ↔ (All (λ y. eq k (key y) ≡ false) xs × Fresh seen xs)
  Fresh-cons k seen [] = (λ h. (tt, tt), λ h. tt)
  Fresh-cons k seen (x ∷ xs) =
      let (f, g) = Fresh-cons k seen xs in
      (
        λ h. ((neither_left _ _ h.0, (f h.1).0), (neither_right _ _ h.0, (f h.1).1)),
        λ h. (neither _ _ h.0.0 h.1.0, g (h.0.1, h.1.1)),
      )

  Fresh-nil : (xs : List A) → Fresh [] xs
  Fresh-nil [] = tt
  Fresh-nil (x ∷ xs) = (refl, Fresh-nil xs)

  module _ (again : ValidationError) (before after : A → Validated) where
    abbrev pub Checked : List A → Type 0
    Checked xs = All (λ x. Passes (before x) × Passes (after x)) xs

    each_once-Passes_seen :
        (seen : List K) (xs : List A)
        → Passes (each_once eq key again before after seen xs)
          ↔ (Checked xs × Once xs × Fresh seen xs)
    unfolding each_once
    each_once-Passes_seen seen [] = (λ h. (tt, tt, tt), λ h. refl)
    each_once-Passes_seen seen (x ∷ xs) =
        let (f, g) = each_once-Passes_seen (key x ∷ seen) xs in
        let (p, q) =
          Passes-four (before x) (any (λ k. eq k (key x)) seen) again (after x)
            (each_once eq key again before after (key x ∷ seen) xs) in
        let (u, v) = Fresh-cons (key x) seen xs in
        (
          λ h.
              let (b, n, a, r) = p h in
              let (c, o, n') = f r in (((b, a), c), ((u n').0, o), (n, (u n').1)),
          λ h. q (h.0.0.0, h.2.0, h.0.0.1, g (h.0.1, h.1.1, v (h.1.0, h.2.1))),
        )

    -- Such a loop passes exactly if all entries do and no key comes twice.
    pub each_once-Passes :
        (xs : List A) → Passes (each_once eq key again before after [] xs) ↔ (Checked xs × Once xs)
    each_once-Passes xs =
        let (f, g) = each_once-Passes_seen [] xs in
        (λ h. ((f h).0, (f h).1), λ h. g (h.0, h.1, Fresh-nil xs))
