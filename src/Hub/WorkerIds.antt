-- ===== src/Hub/WorkerIds.antt =====
-- apps/nagisalake-hub/src/hub: the id of a Worker, from the two names that it registers with
-- (worker.rs), made safe as components of a path (api_helpers.rs).
use nagisa_lake.Prelude.{
  ◌≢◌, Lacks, join-single, join_injective, ℕ, ◌≡◌, refl, sym, ap, ◌∙◌, String, true, ◌||◌, All,
  codes, is_blank, is_ascii_digit, ◌==◌, if◌then◌else◌, arith, is_ascii_alphanumeric,
}
use Prim.Native.Char.{Char, code}
use Prim.Native.String.{◌++◌ as join}
use nagisa_lake.Protocol.Messages.{Register}
use nagisa_lake.Protocol.Validate.{identity_char}
use nagisa_lake.Protocol.Validate.Payloads.{validate_register}
use nagisa_lake.Protocol.Validate.Loops.{Passes}
use nagisa_lake.Protocol.Validate.Accepted.{IsIdentity, IsRegister, validate_register_iff}

-- A character that may stand in a path, or `_` for it.
unfoldable pub safe_char : Char → Char
safe_char c =
    if is_ascii_alphanumeric (code c) || (code c == b'.') || (code c == b'-') || (code c == b'_')
    then c
    else "_"

unfoldable pub safe_chars : String → String
unfolding safe_char
safe_chars String.[] = String.[]
safe_chars (String.◌∷◌ c s) = String.◌∷◌ (safe_char c) (safe_chars s)

unfoldable pub or_worker : String → String
or_worker String.[] = "worker"
or_worker (String.◌∷◌ c s) = String.◌∷◌ c s

unfoldable pub safe_component : String → String
unfolding safe_chars or_worker
safe_component value = or_worker (safe_chars value)

unfoldable pub worker_id : {J : Type 0} → Register J → String
worker_id r = join (safe_component r.namespace) (join "/" (safe_component r.node_name))

safe_chars_identity : (s : String) → All (λ c. identity_char c ≡ true) (codes s) → safe_chars s ≡ s
unfolding safe_chars safe_char identity_char
safe_chars_identity String.[] h = refl
safe_chars_identity (String.◌∷◌ c s) h = rw (h.0, safe_chars_identity s h.1)

-- An accepted name is its own component.
safe_component_identity : (s : String) → IsIdentity s → safe_component s ≡ s
unfolding safe_component or_worker safe_chars is_blank
safe_component_identity String.[] h = absurd (cc (h.named))
safe_component_identity (String.◌∷◌ c s) h =
    ap or_worker (safe_chars_identity (String.◌∷◌ c s) h.closed)

not_slash : (c : ℕ) → identity_char c ≡ true → c ≢ b'/'
unfolding identity_char is_ascii_alphanumeric is_ascii_digit
not_slash c h e = ground arith

no_slash : (s : String) → All (λ c. identity_char c ≡ true) (codes s) → Lacks "/" s
no_slash String.[] h = tt
no_slash (String.◌∷◌ c s) h = (not_slash (code c) h.0, no_slash s h.1)

-- Two accepted registrations get one worker id only if they have the same two names.
pub worker_id_injective :
    {J : Type 0} (r s : Register J)
    → Passes (validate_register r)
    → Passes (validate_register s)
    → worker_id r ≡ worker_id s
    → (r.namespace ≡ s.namespace) × (r.node_name ≡ s.node_name)
unfolding worker_id
worker_id_injective r s a b h =
    let x = (validate_register_iff r).0 a in
    let y = (validate_register_iff s).0 b in
    join_injective "/" r.namespace s.namespace r.node_name s.node_name
      (no_slash _ x.namespace.closed) (no_slash _ y.namespace.closed)
      (sym (plain r x) ∙ h ∙ plain s y)
  where
    plain :
        {J : Type 0} (r : Register J)
        → IsRegister r
        → worker_id r ≡ join r.namespace (String.◌∷◌ "/" r.node_name)
    plain r x =
        rw
          (
            safe_component_identity r.namespace x.namespace,
            safe_component_identity r.node_name x.node_name,
          )
          (ap (join r.namespace) (join-single "/" r.node_name))
