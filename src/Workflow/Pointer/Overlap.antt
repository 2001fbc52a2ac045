-- ===== src/Workflow/Pointer/Overlap.antt =====
-- When two pointers of crates/nagisalake-workflow/src/pointer.rs overlap, and that a list of pointers
-- that `insert_pointer` has built has no two that do.
use nagisa_lake.Prelude.{
  ◌≡◌, refl, sym, ap, subst, ◌∙◌, ◌⊎◌, ◌↔◌, inl, inr, Bool, true, false, ◌&&◌, ◌||◌, none, some,
  List, [], ◌∷◌, ◌++◌, length, ◌==◌, ==_iff, arith, All, Result, ok, err, Bool-cases, Option-cases,
}
use nagisa_lake.Workflow.Pointer.{
  Text, WorkflowError, overlapping_pointers, same, starts_with, slash_at, pointers_overlap,
  find_overlap, insert_pointer,
}

-- `right` is behind `left` and a slash.
abbrev pub Below : Text → Text → Type 0
Below left right = (rest : Text) × (right ≡ left ++ (b'/' ∷ rest))

conjuncts : (a b : Bool) → a && b ≡ true → (a ≡ true) × (b ≡ true)
conjuncts a b h = (ground arith, ground arith)

conjunction : (a b : Bool) → a ≡ true → b ≡ true → a && b ≡ true
conjunction a b p q = ground arith

three_conjuncts : (a b c : Bool) → (a && b) && c ≡ true → (a ≡ true) × (b && c ≡ true)
three_conjuncts a b c h = (ground arith, ground arith)

three_conjunction : (a b c : Bool) → a ≡ true → b && c ≡ true → (a && b) && c ≡ true
three_conjunction a b c p q = ground arith

disjuncts : (a b c : Bool) → (a || b) || c ≡ true → (a ≡ true) ⊎ ((b ≡ true) ⊎ (c ≡ true))
disjuncts true b c h = inl refl
disjuncts false true c h = inr (inl refl)
disjuncts false false c h = inr (inr h)

disjunction : (a b c : Bool) → (a ≡ true) ⊎ ((b ≡ true) ⊎ (c ≡ true)) → (a || b) || c ≡ true
disjunction a b c (inl h) = ground arith
disjunction a b c (inr (inl h)) = ground arith
disjunction a b c (inr (inr h)) = ground arith

same_iff : (xs ys : Text) → (same xs ys ≡ true) ↔ (xs ≡ ys)
unfolding same
same_iff [] [] = (λ h. refl, λ h. refl)
same_iff [] (y ∷ ys) = (λ h. cc, λ h. cc)
same_iff (x ∷ xs) [] = (λ h. cc, λ h. cc)
same_iff (x ∷ xs) (y ∷ ys) =
    let (f, g) = same_iff xs ys in
    (
      λ h. cc (
        (==_iff x y).0 (conjuncts (x == y) (same xs ys) h).0,
        f (conjuncts (x == y) (same xs ys) h).1,
      ),
      λ h. conjunction _ _ ((==_iff x y).1 (cc h)) (g (cc h)),
    )

Below-iff :
    (left right : Text)
    → (starts_with right left && slash_at (length left) right ≡ true) ↔ Below left right
unfolding starts_with slash_at
Below-iff [] [] = (λ h. cc, λ h. cc (h.1))
Below-iff [] (y ∷ ys) =
    (λ h. (ys, ap (λ z. z ∷ ys) ((==_iff y b'/').0 h)), λ h. (==_iff y b'/').1 (cc (h.1)))
Below-iff (x ∷ xs) [] = (λ h. cc, λ h. cc (h.1))
Below-iff (x ∷ xs) (y ∷ ys) =
    let (f, g) = Below-iff xs ys in
    (
      λ h.
          let (e, t) = three_conjuncts (y == x) (starts_with ys xs) (slash_at (length xs) ys) h in
          let (rest, p) = f t in (rest, cc ((==_iff y x).0 e, p)),
      λ h. three_conjunction _ _ _ ((==_iff y x).1 (cc (h.1))) (g (h.0, cc (h.1))),
    )

-- Two pointers overlap exactly if they are equal, or one of them is behind the other and a slash.
pub pointers_overlap_iff :
    (left right : Text)
    → (pointers_overlap left right ≡ true)
      ↔ ((left ≡ right) ⊎ (Below left right ⊎ Below right left))
unfolding pointers_overlap
pointers_overlap_iff left right = (λ h. there (disjuncts _ _ _ h), λ h. disjunction _ _ _ (back h))
  where
    there :
        (same left right ≡ true)
          ⊎ ((starts_with right left && slash_at (length left) right ≡ true)
              ⊎ (starts_with left right && slash_at (length right) left ≡ true))
        → (left ≡ right) ⊎ (Below left right ⊎ Below right left)
    there (inl h) = inl ((same_iff left right).0 h)
    there (inr (inl h)) = inr (inl ((Below-iff left right).0 h))
    there (inr (inr h)) = inr (inr ((Below-iff right left).0 h))

    back :
        (left ≡ right) ⊎ (Below left right ⊎ Below right left)
        → (same left right ≡ true)
          ⊎ ((starts_with right left && slash_at (length left) right ≡ true)
              ⊎ (starts_with left right && slash_at (length right) left ≡ true))
    back (inl h) = inl ((same_iff left right).1 h)
    back (inr (inl h)) = inr (inl ((Below-iff left right).1 h))
    back (inr (inr h)) = inr (inr ((Below-iff right left).1 h))

-- No two pointers of the list overlap.
abbrev pub Apart : List Text → Type 0
Apart [] = Unit {0}
Apart (p ∷ ps) = All (λ q. pointers_overlap p q ≡ false) ps × Apart ps

find_overlap-none :
    (ps : List Text) (p : Text)
    → find_overlap ps p ≡ none
    → All (λ q. pointers_overlap q p ≡ false) ps
unfolding find_overlap
find_overlap-none [] p h = tt
find_overlap-none (q ∷ ps) p h = elim (Bool-cases (pointers_overlap q p)) [
  | inl e ↦ absurd (cc (rw e at h))
  | inr e ↦ (e, find_overlap-none ps p (rw e at h))
]

Apart-snoc :
    (ps : List Text) (p : Text)
    → Apart ps
    → All (λ q. pointers_overlap q p ≡ false) ps
    → Apart (ps ++ (p ∷ []))
Apart-snoc [] p a h = (tt, tt)
Apart-snoc (q ∷ ps) p a h = (All-snoc ps a.0 h.0, Apart-snoc ps p a.1 h.1)
  where
    All-snoc :
        (ps : List Text)
        → All (λ r. pointers_overlap q r ≡ false) ps
        → pointers_overlap q p ≡ false
        → All (λ r. pointers_overlap q r ≡ false) (ps ++ (p ∷ []))
    All-snoc [] a h = (h, tt)
    All-snoc (r ∷ ps) a h = (a.0, All-snoc ps a.1 h)

-- A pointer that is inserted leaves the pointers apart, if they were.
pub insert_pointer-Apart :
    (ps : List Text) (p : Text) (qs : List Text) → Apart ps → insert_pointer ps p ≡ ok qs → Apart qs
unfolding insert_pointer
insert_pointer-Apart ps p qs a h = elim (Option-cases (find_overlap ps p)) [
  | inl e ↦
      subst Apart (inserted _ _ (sym (accepted e) ∙ h))
        (Apart-snoc ps p a (find_overlap-none ps p e))
  | inr (q, e) ↦ absurd (clash _ _ (sym (refused q e) ∙ h))
]
  where
    accepted : find_overlap ps p ≡ none → insert_pointer ps p ≡ ok (ps ++ (p ∷ []))
    accepted e = rw (e, insert_pointer) refl

    refused :
        (q : Text)
        → find_overlap ps p ≡ some q
        → insert_pointer ps p ≡ err (overlapping_pointers q p)
    refused q e = rw (e, insert_pointer) refl

    inserted : (x y : List Text) → ◌≡◌ {A = Result WorkflowError (List Text)} (ok x) (ok y) → x ≡ y
    inserted x y e = cc

    clash :
        (e : WorkflowError) (y : List Text)
        → ◌≡◌ {A = Result WorkflowError (List Text)} (err e) (ok y)
        → ⊥
    clash e y h = cc
