-- ===== src/Examples/Pointers.antt =====
-- Pointers on concrete segments.
use nagisa_lake.Prelude.{◌≡◌, ◌⊎◌, ◌↔◌, refl, true, [], ◌∷◌}
use nagisa_lake.Workflow.Pointer.{
  Text, pointer_segments, pointers_overlap, insert_pointer, find_overlap,
}
use nagisa_lake.Workflow.Pointer.Segments.{render, pointer_segments-render}
use nagisa_lake.Workflow.Pointer.Overlap.{Below, Apart, pointers_overlap_iff, insert_pointer-Apart}

-- The segments `6` and `a/~b`.
pointer_segments-render_example :
    pointer_segments (render ((b'6' ∷ []) ∷ (b'a' ∷ b'/' ∷ b'~' ∷ b'b' ∷ []) ∷ []))
    ≡ (b'6' ∷ []) ∷ (b'a' ∷ b'/' ∷ b'~' ∷ b'b' ∷ []) ∷ []
pointer_segments-render_example =
    pointer_segments-render ((b'6' ∷ []) ∷ (b'a' ∷ b'/' ∷ b'~' ∷ b'b' ∷ []) ∷ [])

abbrev six : Text
six = b'/' ∷ b'6' ∷ []

abbrev six_x : Text
six_x = b'/' ∷ b'6' ∷ b'/' ∷ b'x' ∷ []

-- `/6` and `/6/x`.
pointers_overlap_iff_example :
    (pointers_overlap six six_x ≡ true) ↔ ((six ≡ six_x) ⊎ (Below six six_x ⊎ Below six_x six))
pointers_overlap_iff_example = pointers_overlap_iff six six_x

-- `/6` and `/60`.
insert_pointer-Apart_example : Apart ((b'/' ∷ b'6' ∷ []) ∷ (b'/' ∷ b'6' ∷ b'0' ∷ []) ∷ [])
unfolding insert_pointer find_overlap
insert_pointer-Apart_example =
    insert_pointer-Apart ((b'/' ∷ b'6' ∷ []) ∷ []) (b'/' ∷ b'6' ∷ b'0' ∷ [])
      ((b'/' ∷ b'6' ∷ []) ∷ (b'/' ∷ b'6' ∷ b'0' ∷ []) ∷ []) (tt, tt) refl
