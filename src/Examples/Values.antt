-- ===== src/Examples/Values.antt =====
-- Concrete values: JSON values are numbers, and a text stores the field that the examples vary.
use nagisa_lake.Prelude.{ℕ, ◌==◌, ◌≡◌, true, none, some, [], ◌∷◌, arith, String}
use nagisa_lake.Protocol.Json.{JsonOps}
use nagisa_lake.Protocol.Messages.{
  DispatchJob, JobEvent, accepted, pos, WorkerCapabilities, WorkflowCapability, Register,
}
use nagisa_lake.Core.{JobRecord, new_received}
use nagisa_lake.Journal.Sqlite.Decode.{Codec, Serde}
use nagisa_lake.Hub.Sessions.{WorkerSession, WorkerView}

pub number_trans : (a b c : ℕ) → (a == b) ≡ true → (b == c) ≡ true → (a == c) ≡ true
number_trans a b c p q = ground arith

pub number_refl : (a : ℕ) → (a == a) ≡ true
number_refl a = ground arith

abbrev pub number_ops : JsonOps ℕ
number_ops = record {
  is_object = λ a. true;
  json_eq = λ a b. a == b;
  json_eq_refl = number_refl;
  json_eq_trans = number_trans;
}

abbrev pub dispatch_of : String → DispatchJob ℕ
dispatch_of id = record {
  command_id = "dispatch";
  job_id = id;
  attempt = 1;
  workflow_id = "wf";
  workflow_version = "v1";
  parameters = 5;
  inputs = [];
}

abbrev pub event_of : String → JobEvent
event_of text = record {
  job_id = "job";
  attempt = 1;
  sequence = 4;
  kind = accepted;
  progress = none;
  prompt_id = some "prompt";
  message = text;
  unix_ms = pos 1700000000000;
}

abbrev pub dispatch_serde : Serde (DispatchJob ℕ)
dispatch_serde = record { to_string = λ d. some d.job_id; from_str = λ s. some (dispatch_of s) }

abbrev pub event_serde : Serde JobEvent
event_serde = record { to_string = λ e. some e.message; from_str = λ s. some (event_of s) }

abbrev pub text_codec : Codec ℕ
text_codec = record { dispatch = dispatch_serde; event = event_serde }

abbrev pub job_record : JobRecord ℕ
job_record = new_received (dispatch_of "job")

-- A record whose event waits for its acknowledgement.
abbrev pub waiting_record : JobRecord ℕ
waiting_record = record job_record { event_sequence = 4; pending_event = some (event_of "hello") }

abbrev pub capabilities_of : ℕ → WorkerCapabilities ℕ
capabilities_of n = record {
  workflows = [];
  parallelism = n;
  queue_depth = 1;
  supports_queued_job_cancellation = true;
  labels = [];
}

abbrev pub view_of : String → ℕ → WorkerView ℕ
view_of worker load = record {
  organization_id = "org";
  owner_user_id = none;
  worker_id = worker;
  session_id = "s1";
  namespace = "home";
  node_name = "desk";
  capabilities = capabilities_of 2;
  active_jobs = load;
  queued_jobs = 0;
  connected_at = 3;
}

abbrev pub session_of : String → ℕ → WorkerSession ℕ
session_of worker load = record {
  view = view_of worker load;
  credential_id = some "cred";
  pending_capacity_reservations = [];
  confirmed_capacity_reservations = [];
  last_seen = 10;
}

abbrev pub workflow_one : WorkflowCapability ℕ
workflow_one = record {
  id = "wf";
  version = "v1";
  output_types = "image/png" ∷ [];
  manifest = none;
}

abbrev pub register_of : String → String → Register ℕ
register_of namespace node_name = record {
  protocol_version = 2;
  namespace = namespace;
  node_name = node_name;
  worker_version = "1.0";
  capabilities = record (capabilities_of 2) { workflows = workflow_one ∷ [] };
  recovery_job_ids = "a" ∷ "b" ∷ [];
}
