-- ===== src/Protocol/Float.antt =====
-- The values of Rust's `f32`, as messages.rs carries them in `JobEvent::progress`.
-- Every finite `f32` is a whole multiple of 2^-149, so a sign and that multiple write it exactly.
use nagisa_lake.Prelude.{ℕ, ◌^◌, ◌≡◌, Bool, true, false, ◌&&◌, ◌||◌, arith, ◌==◌, leb}

pub data F32 : Type 0 where
  finite : Bool → ℕ → F32
  infinite : Bool → F32
  nan : F32

abbrev pub units_of_one : ℕ
units_of_one = 2 ^ 149

abbrev same_sign : Bool → Bool → Bool
same_sign true true = true
same_sign false false = true
same_sign _ _ = false

unfoldable pub is_finite : F32 → Bool
is_finite (finite s m) = true
is_finite _ = false

-- `(0.0..=1.0).contains(&x)`; minus zero lies in it.
unfoldable pub in_unit_interval : F32 → Bool
in_unit_interval (finite true m) = m == 0
in_unit_interval (finite false m) = leb m units_of_one
in_unit_interval _ = false

-- `==` on `f32`: the two zeros are equal, and NaN is equal to nothing.
unfoldable pub f32_eq : F32 → F32 → Bool
f32_eq (finite s m) (finite t n) = (m == n) && (same_sign s t || (m == 0))
f32_eq (infinite s) (infinite t) = same_sign s t
f32_eq _ _ = false

pub f32_eq_refl : (x : F32) → is_finite x ≡ true → f32_eq x x ≡ true
unfolding f32_eq is_finite
f32_eq_refl (finite true m) h = ground arith
f32_eq_refl (finite false m) h = ground arith
f32_eq_refl _ h = ground arith
