-- ===== src/Workflow/Pointer/Segments.antt =====
-- Pointers of crates/nagisalake-workflow/src/pointer.rs that are written from segments.
use nagisa_lake.Prelude.{
  ℕ, ◌≡◌, refl, sym, ap, ◌∙◌, false, List, [], ◌∷◌, ◌++◌, map, ◌==◌, Bool-cases, ==_iff, inl, inr,
}
use mathlib.Core.List.{append-nil}
use nagisa_lake.Workflow.Pointer.{
  Text, replace_char, replace_pair, unescape_pointer_segment, escape_pointer_segment, split,
  pointer_segments,
}

replace_pair-other :
    (a b by x : ℕ) (xs : Text)
    → (x == a) ≡ false
    → replace_pair a b by (x ∷ xs) ≡ x ∷ replace_pair a b by xs
unfolding replace_pair
replace_pair-other a b by x [] h = refl
replace_pair-other a b by x (y ∷ xs) h = rw h refl

-- The second replacement of the reading undoes the first one of the writing.
unescape_tilde :
    (s : Text) → replace_pair b'~' b'0' b'~' (replace_char b'~' (b'~' ∷ b'0' ∷ []) s) ≡ s
unfolding replace_char replace_pair
unescape_tilde [] = refl
unescape_tilde (x ∷ s) = elim (Bool-cases (x == b'~')) [
  | inl e ↦ rw ((==_iff x b'~').0 e) (ap (λ t. b'~' ∷ t) (unescape_tilde s))
  | inr e ↦ rw e (replace_pair-other b'~' b'0' b'~' x _ e ∙ ap (λ t. x ∷ t) (unescape_tilde s))
]

replace_char-other :
    (c : ℕ) (by : Text) (x : ℕ) (xs : Text)
    → (x == c) ≡ false
    → replace_char c by (x ∷ xs) ≡ x ∷ replace_char c by xs
unfolding replace_char
replace_char-other c by x xs h = rw h refl

escape-other :
    (x : ℕ) (s : Text)
    → (x == b'~') ≡ false
    → (x == b'/') ≡ false
    → escape_pointer_segment (x ∷ s) ≡ x ∷ escape_pointer_segment s
unfolding escape_pointer_segment replace_char
escape-other x s h k = rw (h, k) refl

-- The first replacement of the reading undoes the second one of the writing.
unescape_slash :
    (s : Text)
    → replace_pair b'~' b'1' b'/' (escape_pointer_segment s)
      ≡ replace_char b'~' (b'~' ∷ b'0' ∷ []) s
unfolding replace_char replace_pair escape_pointer_segment
unescape_slash [] = refl
unescape_slash (x ∷ s) = elim (Bool-cases (x == b'~')) [
  | inl e ↦ rw ((==_iff x b'~').0 e) (
      ap (λ t. b'~' ∷ t)
        (replace_pair-other b'~' b'1' b'/' b'0' (escape_pointer_segment s) refl
          ∙ ap (λ t. b'0' ∷ t) (unescape_slash s)))
  | inr e ↦ elim (Bool-cases (x == b'/')) [
    | inl k ↦ rw ((==_iff x b'/').0 k) (ap (λ t. b'/' ∷ t) (unescape_slash s))
    | inr k ↦
        ap (replace_pair b'~' b'1' b'/') (escape-other x s e k)
        ∙ replace_pair-other b'~' b'1' b'/' x (escape_pointer_segment s) e
        ∙ ap (λ t. x ∷ t) (unescape_slash s)
        ∙ sym (replace_char-other b'~' (b'~' ∷ b'0' ∷ []) x s e)
  ]
]

pub unescape-escape : (s : Text) → unescape_pointer_segment (escape_pointer_segment s) ≡ s
unfolding unescape_pointer_segment
unescape-escape s = ap (replace_pair b'~' b'0' b'~') (unescape_slash s) ∙ unescape_tilde s

-- The text of a pointer: each segment escaped, behind a slash.
unfoldable pub render : List Text → Text
render [] = []
render (s ∷ ss) = b'/' ∷ (escape_pointer_segment s ++ render ss)

split-other :
    (x : ℕ) (xs : Text) → (x == b'/') ≡ false → split (x ∷ xs) ≡ (x ∷ (split xs).0, (split xs).1)
unfolding split
split-other x xs h = rw h refl

-- An escaped segment has no slash in it, so it is the start of the first part.
split-escape :
    (s rest : Text)
    → split (escape_pointer_segment s ++ rest)
      ≡ (escape_pointer_segment s ++ (split rest).0, (split rest).1)
unfolding split escape_pointer_segment replace_char
split-escape [] rest = refl
split-escape (x ∷ s) rest = elim (Bool-cases (x == b'~')) [
  | inl e ↦ rw ((==_iff x b'~').0 e) (ap (λ p. (b'~' ∷ b'0' ∷ p.0, p.1)) (split-escape s rest))
  | inr e ↦ elim (Bool-cases (x == b'/')) [
    | inl k ↦ rw ((==_iff x b'/').0 k) (ap (λ p. (b'~' ∷ b'1' ∷ p.0, p.1)) (split-escape s rest))
    | inr k ↦
        ap (λ t. split (t ++ rest)) (escape-other x s e k)
        ∙ split-other x (escape_pointer_segment s ++ rest) k
        ∙ ap (λ p. (x ∷ p.0, p.1)) (split-escape s rest)
        ∙ ap (λ t. (t ++ (split rest).0, (split rest).1)) (sym (escape-other x s e k))
  ]
]

nothing_before : (ss : List Text) → (split (render ss)).0 ≡ []
unfolding split render
nothing_before [] = refl
nothing_before (s ∷ ss) = refl

escaped_parts : (ss : List Text) → (split (render ss)).1 ≡ map escape_pointer_segment ss
unfolding split render
escaped_parts [] = refl
escaped_parts (s ∷ ss) =
    ap (λ p. p.0 ∷ p.1) (split-escape s (render ss))
    ∙ rw (nothing_before ss, append-nil, escaped_parts ss) refl

-- Any segments, those with slashes and tildes in them included, are read back from their pointer.
pub pointer_segments-render : (ss : List Text) → pointer_segments (render ss) ≡ ss
unfolding pointer_segments
pointer_segments-render ss = ap (map unescape_pointer_segment) (escaped_parts ss) ∙ each ss
  where
    each : (ss : List Text) → map unescape_pointer_segment (map escape_pointer_segment ss) ≡ ss
    each [] = refl
    each (s ∷ ss) = rw (unescape-escape s, each ss) refl
