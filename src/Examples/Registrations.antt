-- ===== src/Examples/Registrations.antt =====
-- Registrations, events and principals on concrete values.
use nagisa_lake.Prelude.{
  ℕ, is_blank, is_whitespace, is_ascii_alphanumeric, ◌≡◌, ◌↔◌, refl, none, [], ◌∷◌, ok, get,
}
use nagisa_lake.Protocol.Messages.{Register}
use nagisa_lake.Protocol.Validate.{required, identity_component, identity_char, each, each_once}
use nagisa_lake.Protocol.Validate.Payloads.{
  validate_register, validate_job_event, validate_worker_capabilities, validate_workflow_capability,
  validate_manifest, bad_progress,
}
use nagisa_lake.Protocol.Validate.Loops.{Passes}
use nagisa_lake.Protocol.Validate.Accepted.{IsRegister, validate_register_iff}
use nagisa_lake.Hub.WorkerIds.{worker_id, worker_id_injective}
use nagisa_lake.Journal.Memory.{set_pending_event}
use nagisa_lake.Journal.Memory.Replay.{set_pending_event-replay}
use nagisa_lake.Auth.{
  Principal, operator, api_key, is_api_key, principal_allows, jobs_cancel_own, jobs_cancel_any,
  allows, at_least, scope,
}
use nagisa_lake.Auth.Privilege.{own, principal_allows-scope}
use nagisa_lake.Examples.Values.{register_of, event_of, waiting_record}

validate_register_iff_example :
    Passes (validate_register (register_of "home" "gpu-1"))
    ↔ IsRegister (register_of "home" "gpu-1")
validate_register_iff_example = validate_register_iff (register_of "home" "gpu-1")

home-Passes : Passes (validate_register (register_of "home" "gpu-1"))
unfolding validate_register identity_component is_blank is_whitespace identity_char
    is_ascii_alphanumeric each_once validate_worker_capabilities validate_workflow_capability each
    validate_manifest
home-Passes = refl

-- The same Worker, after an upgrade.
abbrev upgraded : Register ℕ
upgraded = record (register_of "home" "gpu-1") { worker_version = "2.0" }

upgraded-Passes : Passes (validate_register upgraded)
unfolding validate_register identity_component is_blank is_whitespace identity_char
    is_ascii_alphanumeric each_once validate_worker_capabilities validate_workflow_capability each
    validate_manifest
upgraded-Passes = refl

worker_id_injective_example :
    ((register_of "home" "gpu-1").namespace ≡ upgraded.namespace)
    × ((register_of "home" "gpu-1").node_name ≡ upgraded.node_name)
unfolding worker_id
worker_id_injective_example =
    worker_id_injective (register_of "home" "gpu-1") upgraded home-Passes upgraded-Passes refl

set_pending_event-replay_example :
    ((set_pending_event (("job", waiting_record) ∷ []) (event_of "hello") none).1 ≡ ok tt)
    × (get "job" (set_pending_event (("job", waiting_record) ∷ []) (event_of "hello") none).0
        ≡ get "job" (("job", waiting_record) ∷ []))
unfolding get validate_job_event required is_blank is_whitespace bad_progress
set_pending_event-replay_example =
    set_pending_event-replay (("job", waiting_record) ∷ []) waiting_record (event_of "hello") "job"
      refl refl refl refl

abbrev key : Principal
key = record {
  kind = api_key;
  actor_id = "key";
  user_id = none;
  organization_id = "org";
  role = operator;
  scopes = "jobs:cancel" ∷ [];
}

principal_allows-scope_example : own jobs_cancel_any ≡ own jobs_cancel_own
unfolding principal_allows is_api_key scope allows at_least
principal_allows-scope_example =
    principal_allows-scope key jobs_cancel_own jobs_cancel_any refl refl refl
