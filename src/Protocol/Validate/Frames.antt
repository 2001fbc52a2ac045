-- ===== src/Protocol/Validate/Frames.antt =====
-- crates/nagisalake-protocol/src/validate.rs: the messages themselves.
use nagisa_lake.Prelude.{not, ◌=ˢ◌, ◌==◌, ◌>>◌, fail_if}
use nagisa_lake.Protocol.Json.{JsonOps}
use nagisa_lake.Protocol.Messages.{
  WorkerMessage, HubMessage, register, heartbeat, command_ack, job_event, artifact_ready,
  artifact_uploaded, pong, registered, dispatch_job, cancel_job, artifact_upload, job_event_ack,
  artifact_uploaded_ack, ping, protocol_error,
}
use nagisa_lake.Protocol.Validate.{
  Validated, invalid, required, validate_presigned_request, must_be_greater_than_zero, must_be_put,
}
use nagisa_lake.Protocol.Validate.Payloads.{
  validate_register, validate_job_event, validate_artifact_ready, validate_dispatch_job,
}

unfoldable pub validate_worker_message : {J : Type 0} → WorkerMessage J → Validated
validate_worker_message (register r) = validate_register r
validate_worker_message (heartbeat h) = required "session_id" h.session_id
validate_worker_message (command_ack a) = required "command_id" a.command_id
validate_worker_message (job_event e) = validate_job_event e
validate_worker_message (artifact_ready a) = validate_artifact_ready a
validate_worker_message (artifact_uploaded a) = do
  required "request_id" a.request_id
  required "artifact_id" a.artifact_id
  required "job_id" a.job_id
validate_worker_message (pong p) = required "nonce" p.nonce

unfoldable pub validate_hub_message : {J : Type 0} → JsonOps J → HubMessage J → Validated
validate_hub_message ops (registered r) = do
  required "worker_id" r.worker_id
  required "session_id" r.session_id
  fail_if (r.heartbeat_interval_seconds == 0)
      (invalid "heartbeat_interval_seconds" must_be_greater_than_zero)
validate_hub_message ops (dispatch_job d) = validate_dispatch_job ops d
validate_hub_message ops (cancel_job c) = do
  required "command_id" c.command_id
  required "job_id" c.job_id
validate_hub_message ops (artifact_upload a) = do
  required "request_id" a.request_id
  required "artifact_id" a.artifact_id
  validate_presigned_request a.upload
  fail_if (not (a.upload.method =ˢ "PUT")) (invalid "upload.method" must_be_put)
validate_hub_message ops (job_event_ack a) = required "job_id" a.job_id
validate_hub_message ops (artifact_uploaded_ack a) = do
  required "request_id" a.request_id
  required "artifact_id" a.artifact_id
validate_hub_message ops (ping p) = required "nonce" p.nonce
validate_hub_message ops (protocol_error e) = do
  required "code" e.code
  required "message" e.message
