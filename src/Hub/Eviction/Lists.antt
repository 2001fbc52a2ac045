-- ===== src/Hub/Eviction/Lists.antt =====
-- Lists under the filters and removals of ratelimit.rs and hub/state.rs.
use nagisa_lake.Prelude.{
  ℕ, ◌≤◌, ◌<◌, ◌≡◌, refl, ap, Bool, true, false, List, [], ◌∷◌, ◌++◌, any, ◌||◌, retain, All,
  length, arith, Bool-cases, inl, inr, if◌then◌else◌,
}
use nagisa_lake.Hub.Eviction.{Unique}

module _ {ℓ} {A : Type ℓ} where
  -- The first entry that passes the test leaves.
  unfoldable pub erase_first : (A → Bool) → List A → List A
  erase_first p [] = []
  erase_first p (a ∷ items) = if p a then items else a ∷ erase_first p items

  pub All-map {κ μ} :
      {P : A → Type κ} {Q : A → Type μ}
      → ((a : A) → P a → Q a)
      → (items : List A) → All P items
      → All Q items
  All-map f [] h = tt
  All-map f (a ∷ items) h = (f a h.0, All-map f items h.1)

  module _ {κ} (P : A → Type κ) where
    pub All-erase_first :
        (p : A → Bool) (items : List A) → All P items → All P (erase_first p items)
    unfolding erase_first
    All-erase_first p [] h = tt
    All-erase_first p (a ∷ items) h = elim (Bool-cases (p a)) [
      | inl e ↦ rw e h.1
      | inr e ↦ rw e (h.0, All-erase_first p items h.1)
    ]

    pub All-retain : (p : A → Bool) (items : List A) → All P items → All P (retain p items)
    All-retain p [] h = tt
    All-retain p (a ∷ items) h = elim (Bool-cases (p a)) [
      | inl e ↦ rw e (h.0, All-retain p items h.1)
      | inr e ↦ rw e (All-retain p items h.1)
    ]

  pub erase_first-lt :
      (p : A → Bool) (items : List A)
      → any p items ≡ true
      → length (erase_first p items) < length items
  unfolding erase_first
  erase_first-lt p [] h = cc
  erase_first-lt p (a ∷ items) h = ground (arith, erase_first-lt p items)

  -- The entry that leaves, with what stands before it and behind it.
  pub erase_first-split :
      (p : A → Bool) (items : List A)
      → any p items ≡ true
      → (before after : List A) × (gone : A) × (p gone ≡ true)
        × (items ≡ before ++ (gone ∷ after))
        × (erase_first p items ≡ before ++ after)
  unfolding erase_first
  erase_first-split p [] h = absurd (ground arith)
  erase_first-split p (a ∷ items) h = elim (Bool-cases (p a)) [
    | inl e ↦ ([], items, a, e, refl, rw e)
    | inr e ↦
        let (before, after, gone, hit, same, rest) = erase_first-split p items (rw e at h) in
        (a ∷ before, after, gone, hit, ap (λ m. a ∷ m) same, rw e (ap (λ m. a ∷ m) rest))
  ]

  pub length-erase_first-le :
      (p : A → Bool) (items : List A) → length (erase_first p items) ≤ length items
  unfolding erase_first
  length-erase_first-le p [] = omega arith
  length-erase_first-le p (a ∷ items) = ground (arith, length-erase_first-le p items)

  module _ (number : A → ℕ) where
    pub Unique-erase_first :
        (p : A → Bool) (items : List A) → Unique number items → Unique number (erase_first p items)
    unfolding erase_first
    Unique-erase_first p [] h = tt
    Unique-erase_first p (a ∷ items) h = elim (Bool-cases (p a)) [
      | inl e ↦ rw e h.1
      | inr e ↦ rw e (All-erase_first _ p items h.0, Unique-erase_first p items h.1)
    ]

    pub Unique-retain :
        (p : A → Bool) (items : List A) → Unique number items → Unique number (retain p items)
    Unique-retain p [] h = tt
    Unique-retain p (a ∷ items) h = elim (Bool-cases (p a)) [
      | inl e ↦ rw e (All-retain _ p items h.0, Unique-retain p items h.1)
      | inr e ↦ rw e (Unique-retain p items h.1)
    ]

    -- A test that decides by the number alone passes at most one entry.
    pub erase_first-gone :
        (p : A → Bool) (n : ℕ)
        → ((a : A) → p a ≡ true → number a ≡ n)
        → (items : List A) → Unique number items
        → All (λ a. p a ≡ false) (erase_first p items)
    unfolding erase_first
    erase_first-gone p n only [] h = tt
    erase_first-gone p n only (a ∷ items) h = elim (Bool-cases (p a)) [
      | inl e ↦ rw e (All-map (λ b ne. ground (arith, only a, only b)) items h.0)
      | inr e ↦ rw e (e, erase_first-gone p n only items h.1)
    ]

  pub any-erase_first :
      (p q : A → Bool)
      → ((a : A) → p a ≡ true → q a ≡ false)
      → (items : List A) → any p items ≡ true
      → any p (erase_first q items) ≡ true
  unfolding erase_first
  any-erase_first p q f [] h = cc
  any-erase_first p q f (a ∷ items) h = ground (arith, f a, any-erase_first p q f items)

  pub any-holds :
      (p q : A → Bool)
      → ((a : A) → p a ≡ true → q a ≡ true)
      → (items : List A) → any p items ≡ true
      → any q items ≡ true
  any-holds p q f [] h = cc
  any-holds p q f (a ∷ items) h = ground (arith, f a, any-holds p q f items)

  pub any-retain :
      (p q : A → Bool) (items : List A)
      → ((a : A) → p a ≡ true → q a ≡ true)
      → any p items ≡ true
      → any p (retain q items) ≡ true
  any-retain p q [] f h = cc
  any-retain p q (a ∷ items) f h = ground (arith, f a, any-retain p q items f)

  pub any-append_single :
      (p : A → Bool) (items : List A) (a : A) → any p (items ++ (a ∷ [])) ≡ (any p items || p a)
  any-append_single p [] a = ground arith
  any-append_single p (b ∷ items) a = ground (arith, any-append_single p items a)

  pub any-none :
      (p : A → Bool) (items : List A) → any p items ≡ false → All (λ a. p a ≡ false) items
  any-none p [] h = tt
  any-none p (a ∷ items) h = (ground arith, any-none p items (ground arith))

  pub All-passed : (p : A → Bool) (items : List A) → All (λ a. p a ≡ true) (retain p items)
  All-passed p [] = tt
  All-passed p (a ∷ items) = elim (Bool-cases (p a)) [
    | inl e ↦ rw e (e, All-passed p items)
    | inr e ↦ rw e (All-passed p items)
  ]

  pub All-zip {κ μ ν} :
      {P : A → Type κ} {Q : A → Type μ} {R : A → Type ν}
      → ((a : A) → P a → Q a → R a)
      → (items : List A) → All P items
      → All Q items
      → All R items
  All-zip f [] h k = tt
  All-zip f (a ∷ items) h k = (f a h.0 k.0, All-zip f items h.1 k.1)

  -- What holds for some entry, whichever it is.
  pub All-some : {Q : Type 0} (items : List A) → 0 < length items → All (λ _. Q) items → Q
  All-some [] some_entry h = absurd (omega arith)
  All-some (a ∷ items) some_entry h = h.0
