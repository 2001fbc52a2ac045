-- ===== src/Rpc/Words.antt =====
-- Integers as bytes: `put_u64_le` and `u64::from_le_bytes` of crates/nagisalake-rpc/src/protocol.rs,
-- `put_u32` and `u32::from_be_bytes` of crates/nagisalake-rpc/src/framing.rs.
use nagisa_lake.Prelude.{
  ℕ, zero, suc, ◌+◌, ◌*◌, ◌/◌, ◌%◌, ◌^◌, ◌<◌, ◌≡◌, refl, ap, ◌∙◌, List, [], ◌∷◌, arith, length,
  length-append, All,
}
use mathlib.Core.List.{reverse, reverse-reverse, reverse-cons}
use native.Mathlib.Nat.{pow-suc}

-- The `k` low bytes of a number, the lowest first.
unfoldable pub to_le : ℕ → ℕ → List ℕ
to_le zero n = []
to_le (suc k) n = n % 256 ∷ to_le k (n / 256)

unfoldable pub from_le : List ℕ → ℕ
from_le [] = 0
from_le (b ∷ bs) = b + 256 * from_le bs

pub length-to_le : (k n : ℕ) → length (to_le k n) ≡ k
unfolding to_le
length-to_le zero n = refl
length-to_le (suc k) n = ap suc (length-to_le k (n / 256))

pub from_le-to_le : (k n : ℕ) → n < 256 ^ k → from_le (to_le k n) ≡ n
unfolding to_le from_le
from_le-to_le zero n h = omega arith
from_le-to_le (suc k) n h = omega (arith, from_le-to_le k (n / 256) (omega (arith, pow-suc 256 k)))

pub to_le_bytes : (k n : ℕ) → All (λ b. b < 256) (to_le k n)
unfolding to_le
to_le_bytes zero n = tt
to_le_bytes (suc k) n = (omega arith, to_le_bytes k (n / 256))

-- Big-endian order is the other way round.
unfoldable pub to_be : ℕ → ℕ → List ℕ
to_be k n = reverse (to_le k n)

unfoldable pub from_be : List ℕ → ℕ
from_be bs = from_le (reverse bs)

pub from_be-to_be : (k n : ℕ) → n < 256 ^ k → from_be (to_be k n) ≡ n
unfolding to_be from_be
from_be-to_be k n h = rw (reverse-reverse (to_le k n)) (from_le-to_le k n h)

length-reverse {ℓ} : {A : Type ℓ} (xs : List A) → length (reverse xs) ≡ length xs
length-reverse [] = refl
length-reverse (x ∷ xs) =
    omega
      (arith, ap length (reverse-cons x xs), length-append (reverse xs) (x ∷ []), length-reverse xs)

pub length-to_be : (k n : ℕ) → length (to_be k n) ≡ k
unfolding to_be
length-to_be k n = length-reverse (to_le k n) ∙ length-to_le k n
