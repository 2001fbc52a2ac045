-- ===== src/Protocol/Validate/Payloads.antt =====
-- crates/nagisalake-protocol/src/validate.rs: the structs inside the messages.
use nagisa_lake.Prelude.{
  String, Bool, false, not, ◌&&◌, ◌||◌, Option, none, some, [], ok, ◌>>◌, fail_if, length, ltb,
  ◌==◌, ◌=ˢ◌,
}
use nagisa_lake.Protocol.Float.{F32, is_finite, in_unit_interval}
use nagisa_lake.Protocol.Json.{JsonOps}
use nagisa_lake.Protocol.Messages.{
  WorkflowInput, WorkflowOutput, WorkflowManifest, WorkflowCapability, WorkerCapabilities, JobInput,
  DispatchJob, JobEvent, ArtifactReady, Register, protocol_version_number, max_recovery_job_ids,
}
use nagisa_lake.Protocol.Validate.{
  Validated, invalid, required, identity_component, sha256, each, each_once,
  validate_presigned_request, must_be_greater_than_zero, must_contain_at_least_one_workflow,
  contains_a_duplicate_id_version, contains_a_duplicate_name, contains_a_duplicate_job_id,
  must_be_a_json_object, must_be_get, must_be_finite_and_between_zero_and_one, expected_version,
  must_contain_at_most,
}

abbrev pub same_text : String → String → Bool
same_text s t = s =ˢ t

-- What is checked of an input of a manifest after its name.
unfoldable pub validate_content_type : Option String → Validated
validate_content_type none = ok tt
validate_content_type (some t) = required "workflow.manifest.input.content_type" t

unfoldable pub validate_workflow_input : {J : Type 0} → WorkflowInput J → Validated
validate_workflow_input input = do
  required "workflow.manifest.input.type" input.value_type
  required "workflow.manifest.input.pointer" input.pointer
  validate_content_type input.content_type

unfoldable pub validate_workflow_output : WorkflowOutput → Validated
validate_workflow_output output = do
  required "workflow.manifest.output.name" output.name
  required "workflow.manifest.output.content_type" output.content_type

unfoldable pub validate_workflow_manifest : {J : Type 0} → WorkflowManifest J → Validated
validate_workflow_manifest m = do
  fail_if (m.schema_version == 0)
      (invalid "workflow.manifest.schema_version" must_be_greater_than_zero)
  required "workflow.manifest.display_name" m.display_name
  each_once same_text (λ i. i.name) (invalid "workflow.manifest.inputs" contains_a_duplicate_name)
      (λ i. required "workflow.manifest.input.name" i.name) validate_workflow_input [] m.inputs
  each_once same_text (λ o. o.name) (invalid "workflow.manifest.outputs" contains_a_duplicate_name)
      validate_workflow_output (λ o. ok tt) [] m.outputs

unfoldable pub validate_manifest : {J : Type 0} → Option (WorkflowManifest J) → Validated
validate_manifest none = ok tt
validate_manifest (some m) = validate_workflow_manifest m

unfoldable pub validate_workflow_capability : {J : Type 0} → WorkflowCapability J → Validated
validate_workflow_capability w = do
  required "workflow.id" w.id
  required "workflow.version" w.version
  each (λ t. required "workflow.output_types" t) w.output_types
  validate_manifest w.manifest

abbrev pub same_pair : String × String → String × String → Bool
same_pair a b = (a.0 =ˢ b.0) && (a.1 =ˢ b.1)

unfoldable pub validate_label : String × String → Validated
validate_label l = do
  required "capabilities.labels.key" l.0
  required "capabilities.labels.value" l.1

unfoldable pub validate_worker_capabilities : {J : Type 0} → WorkerCapabilities J → Validated
validate_worker_capabilities c = do
  fail_if (c.parallelism == 0) (invalid "capabilities.concurrency" must_be_greater_than_zero)
  fail_if (length c.workflows == 0)
      (invalid "capabilities.workflows" must_contain_at_least_one_workflow)
  each_once same_pair (λ w. (w.id, w.version))
      (invalid "capabilities.workflows" contains_a_duplicate_id_version)
      validate_workflow_capability (λ w. ok tt) [] c.workflows
  each validate_label c.labels

unfoldable pub validate_register : {J : Type 0} → Register J → Validated
validate_register r = do
  fail_if (not (r.protocol_version == protocol_version_number))
      (invalid "protocol_version" (expected_version protocol_version_number r.protocol_version))
  identity_component "namespace" r.namespace
  identity_component "node_name" r.node_name
  required "worker_version" r.worker_version
  fail_if (ltb max_recovery_job_ids (length r.recovery_job_ids))
      (invalid "recovery_job_ids" (must_contain_at_most max_recovery_job_ids))
  each_once same_text (λ id. id) (invalid "recovery_job_ids" contains_a_duplicate_job_id)
      (λ id. required "recovery_job_ids" id) (λ id. ok tt) [] r.recovery_job_ids
  validate_worker_capabilities r.capabilities

unfoldable pub validate_job_input : JobInput → Validated
validate_job_input i = do
  required "input.artifact_id" i.artifact_id
  required "input.name" i.name
  required "input.content_type" i.content_type
  sha256 "input.sha256" i.sha256
  validate_presigned_request i.download
  fail_if (not (i.download.method =ˢ "GET")) (invalid "input.download.method" must_be_get)

unfoldable pub validate_dispatch_job : {J : Type 0} → JsonOps J → DispatchJob J → Validated
validate_dispatch_job ops d = do
  required "command_id" d.command_id
  required "job_id" d.job_id
  required "workflow_id" d.workflow_id
  required "workflow_version" d.workflow_version
  fail_if (not (ops.is_object d.parameters)) (invalid "parameters" must_be_a_json_object)
  each validate_job_input d.inputs

unfoldable pub bad_progress : Option F32 → Bool
bad_progress none = false
bad_progress (some p) = not (is_finite p) || not (in_unit_interval p)

unfoldable pub validate_job_event : JobEvent → Validated
validate_job_event e = do
  required "job_id" e.job_id
  fail_if (e.sequence == 0) (invalid "sequence" must_be_greater_than_zero)
  fail_if (bad_progress e.progress) (invalid "progress" must_be_finite_and_between_zero_and_one)

unfoldable pub validate_artifact_ready : ArtifactReady → Validated
validate_artifact_ready a = do
  required "request_id" a.request_id
  required "job_id" a.job_id
  required "name" a.name
  required "content_type" a.content_type
  sha256 "sha256" a.sha256
