-- ===== src/Protocol/Json.antt =====
-- `serde_json::Value`, of a library outside the repository: a type with the operations that the
-- code calls. `==` on values is an equivalence, since the type implements `Eq`.
use nagisa_lake.Prelude.{◌≡◌, Bool, true}

pub record JsonOps (J : Type 0) : Type 0 where
  pub is_object : J → Bool
  pub json_eq : J → J → Bool
  pub json_eq_refl : (a : J) → json_eq a a ≡ true
  pub json_eq_trans : (a b c : J) → json_eq a b ≡ true → json_eq b c ≡ true → json_eq a c ≡ true
