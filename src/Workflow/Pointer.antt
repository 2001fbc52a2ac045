-- ===== src/Workflow/Pointer.antt =====
-- crates/nagisalake-workflow/src/pointer.rs: JSON pointers, as the lists of their code points. The
-- lookup of a pointer in a JSON value is of serde_json.
pub mod Segments
pub mod Overlap
use nagisa_lake.Prelude.{
  ℕ, suc, Bool, true, false, ◌&&◌, ◌||◌, not, Option, none, some, List, [], ◌∷◌, ◌++◌, map, length,
  drop, leb, ◌==◌, if◌then◌else◌, Result, ok, err, is_some,
}

abbrev pub Text : Type 0
Text = List ℕ

-- `str::replace` with a character for a pattern.
unfoldable pub replace_char : ℕ → Text → Text → Text
replace_char c by [] = []
replace_char c by (x ∷ xs) = if x == c then by ++ replace_char c by xs else x ∷ replace_char c by xs

-- `str::replace` with two different characters for a pattern.
unfoldable pub replace_pair : ℕ → ℕ → ℕ → Text → Text
replace_pair a b by [] = []
replace_pair a b by (x ∷ []) = x ∷ []
replace_pair a b by (x ∷ y ∷ xs) =
    if (x == a) && (y == b) then by ∷ replace_pair a b by xs else x ∷ replace_pair a b by (y ∷ xs)

unfoldable pub unescape_pointer_segment : Text → Text
unescape_pointer_segment segment = replace_pair b'~' b'0' b'~' (replace_pair b'~' b'1' b'/' segment)

unfoldable pub escape_pointer_segment : Text → Text
escape_pointer_segment segment =
    replace_char b'/' (b'~' ∷ b'1' ∷ []) (replace_char b'~' (b'~' ∷ b'0' ∷ []) segment)

-- `split('/')`: the part before the first slash, and the parts after it.
unfoldable pub split : Text → Text × List Text
split [] = ([], [])
split (x ∷ xs) =
    let (part, parts) = split xs in if x == b'/' then ([], part ∷ parts) else (x ∷ part, parts)

-- `split('/').skip(1)`, unescaped.
unfoldable pub pointer_segments : Text → List Text
unfolding split
pointer_segments pointer = map unescape_pointer_segment (split pointer).1

unfoldable pub pointer_node_id : Text → Option Text
pointer_node_id pointer = elim (pointer_segments pointer) [ [] ↦ none | s ∷ ss ↦ some s ]

unfoldable pub same : Text → Text → Bool
same [] [] = true
same (x ∷ xs) (y ∷ ys) = (x == y) && same xs ys
same _ _ = false

abbrev pub inputs : Text
inputs = b'i' ∷ b'n' ∷ b'p' ∷ b'u' ∷ b't' ∷ b's' ∷ []

unfoldable pub pointer_field : Text → Option Text
pointer_field pointer = elim (pointer_segments pointer) [
  | s ∷ t ∷ u ∷ ss ↦ if same t inputs then some u else none
  | _ ↦ none
]

-- `str::starts_with`.
unfoldable pub starts_with : Text → Text → Bool
starts_with xs [] = true
starts_with [] (y ∷ ys) = false
starts_with (x ∷ xs) (y ∷ ys) = (x == y) && starts_with xs ys

-- `as_bytes().get(n) == Some(&b'/')`, behind a prefix of that length.
unfoldable pub slash_at : ℕ → Text → Bool
slash_at n xs = elim (drop n xs) [ [] ↦ false | y ∷ ys ↦ y == b'/' ]

unfoldable pub pointers_overlap : Text → Text → Bool
unfolding same starts_with slash_at
pointers_overlap left right =
    same left right
    || (starts_with right left && slash_at (length left) right)
    || (starts_with left right && slash_at (length right) left)

pub data WorkflowError : Type 0 where
  overlapping_pointers : Text → Text → WorkflowError

-- `iter().find(…)`.
unfoldable pub find_overlap : List Text → Text → Option Text
unfolding pointers_overlap
find_overlap [] pointer = none
find_overlap (p ∷ ps) pointer =
    if pointers_overlap p pointer then some p else find_overlap ps pointer

unfoldable pub insert_pointer : List Text → Text → Result WorkflowError (List Text)
insert_pointer pointers pointer = elim (find_overlap pointers pointer) [
  | some existing ↦ err (overlapping_pointers existing pointer)
  | none ↦ ok (pointers ++ (pointer ∷ []))
]
