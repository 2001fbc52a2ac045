-- ===== src/Hub/RateLimit/Address.antt =====
-- apps/nagisalake-hub/src/ratelimit.rs: which address a request is counted under. The header and the
-- peer come from axum: the header's value when it is text, and the peer's address written out.
use nagisa_lake.Prelude.{
  ℕ, ◌≡◌, ◌≢◌, refl, ap, ◌∙◌, Bool, true, false, Option, none, some, List, [], ◌∷◌, ◌++◌, map, All,
  if◌then◌else◌, ◌==◌, is_whitespace, arith,
}

abbrev Text : Type 0
Text = List ℕ

-- `str::split` at a character: the part before the first one, and the parts after it.
unfoldable pub split_on : ℕ → Text → Text × List Text
split_on sep [] = ([], [])
split_on sep (c ∷ cs) =
    let (part, parts) = split_on sep cs in
    if c == sep then ([], part ∷ parts) else (c ∷ part, parts)

unfoldable pub trim_start : Text → Text
trim_start [] = []
trim_start (c ∷ cs) = if is_whitespace c then trim_start cs else c ∷ cs

-- White space at the end goes, from the last character on.
unfoldable pub trim_end : Text → Text
trim_end [] = []
trim_end (c ∷ cs) = elim (trim_end cs) [
  | [] ↦ if is_whitespace c then [] else c ∷ []
  | d ∷ ds ↦ c ∷ d ∷ ds
]

unfoldable pub trim : Text → Text
unfolding trim_start trim_end
trim cs = trim_end (trim_start cs)

abbrev pub is_empty : Text → Bool
is_empty [] = true
is_empty (c ∷ cs) = false

-- `rfind(|value| !value.is_empty())`.
unfoldable pub last_filled : List Text → Option Text
last_filled [] = none
last_filled (part ∷ parts) = elim (last_filled parts) [
  | some found ↦ some found
  | none ↦ if is_empty part then none else some part
]

abbrev unknown : Text
unknown = b'u' ∷ b'n' ∷ b'k' ∷ b'n' ∷ b'o' ∷ b'w' ∷ b'n' ∷ []

abbrev parts_of : Text × List Text → List Text
parts_of (part, parts) = part ∷ parts

unfoldable pub forwarded_address : Option Text → Option Text
unfolding split_on trim last_filled
forwarded_address none = none
forwarded_address (some forwarded) = last_filled (map trim (parts_of (split_on b',' forwarded)))

abbrev peer_address : Option Text → Text
peer_address none = unknown
peer_address (some address) = address

unfoldable pub client_address : (headers : Option Text) (peer : Option Text) → Bool → Text
unfolding forwarded_address
client_address headers peer trust_forwarded_for =
    elim (if trust_forwarded_for then forwarded_address headers else none) [
      | some address ↦ address
      | none ↦ peer_address peer
    ]

split_on-lacks : (sep : ℕ) (cs : Text) → All (λ c. c ≢ sep) cs → split_on sep cs ≡ (cs, [])
unfolding split_on
split_on-lacks sep [] h = refl
split_on-lacks sep (c ∷ cs) h = ground (arith, split_on-lacks sep cs h.1)

-- What follows the separator is the last part.
split_on-append :
    (sep : ℕ) (before after : Text)
    → All (λ c. c ≢ sep) after
    → split_on sep (before ++ (sep ∷ after))
      ≡ ((split_on sep before).0, (split_on sep before).1 ++ (after ∷ []))
unfolding split_on
split_on-append sep [] after h = ground (arith, split_on-lacks sep after h)
split_on-append sep (c ∷ before) after h = ground (arith, split_on-append sep before after h)

last_filled-append :
    (parts : List Text) (part : Text)
    → is_empty (trim part) ≡ false
    → last_filled (map trim (parts ++ (part ∷ []))) ≡ some (trim part)
unfolding last_filled
last_filled-append [] part h = ground arith
last_filled-append (p ∷ parts) part h = rw (last_filled-append parts part h)

-- Behind a proxy, which appends what it saw after a comma, nothing that the client wrote before
-- changes the address, as long as what the proxy appended has no comma and is not blank. Without
-- one the header is not read at all.
pub client_address-trusted :
    (written appended : Text) (headers peer : Option Text)
    → All (λ c. c ≢ b',') appended
    → is_empty (trim appended) ≡ false
    → (client_address (some (written ++ (b',' ∷ appended))) peer true ≡ trim appended)
      × (client_address headers peer false ≡ client_address none peer true)
unfolding client_address
client_address-trusted written appended headers peer lacks filled =
    let parts = split_on b',' written in
    let found : forwarded_address (some (written ++ (b',' ∷ appended))) ≡ some (trim appended) =
      ap (λ s. last_filled (map trim (parts_of s))) (split_on-append b',' written appended lacks)
      ∙ last_filled-append (parts.0 ∷ parts.1) appended filled in
    (rw (found, client_address) refl, refl)
