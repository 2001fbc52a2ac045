-- ===== src/Protocol/Validate.antt =====
-- crates/nagisalake-protocol/src/validate.rs: which messages a side accepts. A message of an error is
-- the constructor of its text, with what the text is given.
pub mod Payloads
pub mod Frames
pub mod Loops
pub mod Accepted
use nagisa_lake.Prelude.{
  ℕ, String, Bool, true, false, not, ◌&&◌, ◌||◌, Option, none, some, List, [], ◌∷◌, Result, ok, err,
  ◌>>◌, ◌>>=◌, fail_if, codes, is_blank, is_ascii_alphanumeric, is_ascii_hexdigit, all, length, ltb,
  ◌==◌, ◌=ˢ◌, if◌then◌else◌, any, Dict,
}
use nagisa_lake.Protocol.Float.{F32, is_finite, in_unit_interval}
use nagisa_lake.Protocol.Json.{JsonOps}
use nagisa_lake.Protocol.Messages

pub data Reason : Type 0 where
  must_not_be_empty must_be_greater_than_zero must_contain_at_least_one_workflow : Reason
  contains_a_duplicate_id_version contains_a_duplicate_name contains_a_duplicate_job_id : Reason
  must_be_a_json_object must_be_get must_be_put must_be_get_or_put : Reason
  must_be_finite_and_between_zero_and_one must_be_a_sha256 must_not_start_with_dot : Reason
  expected_version : ℕ → ℕ → Reason
  must_contain_at_most : ℕ → Reason
  must_contain_only_identity_characters : ℕ → Reason

pub record ValidationError : Type 0 where
  pub field : String
  pub message : Reason

abbrev pub Validated : Type 0
Validated = Result ValidationError (Unit {0})

abbrev pub invalid : String → Reason → ValidationError
invalid f m = record { field = f; message = m }

unfoldable pub required : String → String → Validated
required field value = fail_if (is_blank (codes value)) (invalid field must_not_be_empty)

abbrev pub max_identity_chars : ℕ
max_identity_chars = 64

unfoldable pub identity_char : ℕ → Bool
identity_char c = is_ascii_alphanumeric c || (c == b'.') || (c == b'-') || (c == b'_')

-- `chars().find(…)`: the first character that is not allowed.
unfoldable pub offender : List ℕ → Option ℕ
offender [] = none
offender (c ∷ cs) = if not (identity_char c) then some c else offender cs

-- `starts_with('.')`.
unfoldable pub starts_with_dot : List ℕ → Bool
starts_with_dot [] = false
starts_with_dot (c ∷ cs) = c == b'.'

unfoldable pub refuse_offender : String → Option ℕ → Validated
refuse_offender field none = ok tt
refuse_offender field (some c) = err (invalid field (must_contain_only_identity_characters c))

unfoldable pub identity_component : String → String → Validated
unfolding required offender starts_with_dot refuse_offender
identity_component field value = do
  required field value
  fail_if (ltb max_identity_chars (length (codes value)))
      (invalid field (must_contain_at_most max_identity_chars))
  refuse_offender field (offender (codes value))
  fail_if (starts_with_dot (codes value)) (invalid field must_not_start_with_dot)

-- The source counts and tests bytes. A character that takes several bytes has none that is a
-- hexadecimal digit, so characters give the same answer.
unfoldable pub sha256 : String → String → Validated
sha256 field value =
    if (length (codes value) == 64) && all is_ascii_hexdigit (codes value)
    then ok tt
    else err (invalid field must_be_a_sha256)

-- `value > 0` on `i64`.
unfoldable pub positive : Messages.I64 → Bool
positive (Messages.pos n) = ltb 0 n
positive (Messages.negsuc n) = false

-- A `for` loop whose body may return an error.
unfoldable pub each {ℓ} : {A : Type ℓ} → (A → Validated) → List A → Validated
each check [] = ok tt
each check (x ∷ xs) = check x >> each check xs

-- A loop that also keeps the keys that it has seen in a `BTreeSet`, and returns `again` on a key that
-- is there; `before` and `after` are what the body checks around that.
unfoldable pub each_once {ℓ κ} :
    {A : Type ℓ} {K : Type κ}
    → (K → K → Bool)
    → (A → K)
    → ValidationError
    → (A → Validated)
    → (A → Validated)
    → List K
    → List A
    → Validated
each_once eq key again before after seen [] = ok tt
each_once eq key again before after seen (x ∷ xs) = do
  before x
  fail_if (any (λ k. eq k (key x)) seen) again
  after x
  each_once eq key again before after (key x ∷ seen) xs

unfoldable pub validate_presigned_request : Messages.PresignedRequest → Validated
unfolding required positive
validate_presigned_request r = do
  fail_if (not (r.method =ˢ "GET" || (r.method =ˢ "PUT"))) (invalid "method" must_be_get_or_put)
  required "url" r.url
  fail_if (not (positive r.expires_at_unix_ms))
      (invalid "expires_at_unix_ms" must_be_greater_than_zero)
