-- ===== src/Protocol/Messages.antt =====
-- crates/nagisalake-protocol/src/messages.rs: the messages of the control protocol. `J` is the type
-- of JSON values. Integers are plain numbers, and their widths stand beside them.
use nagisa_lake.Prelude.{ℕ, ◌+◌, String, Bool, false, Option, List, [], Dict}
use nagisa_lake.Protocol.Float.{F32}

abbrev pub protocol_version_number : ℕ
protocol_version_number = 2

abbrev pub max_recovery_job_ids : ℕ
max_recovery_job_ids = 1024

-- `expires_at_unix_ms` and `unix_ms` are `i64`: below zero, or not.
pub data I64 : Type 0 where
  pos : ℕ → I64
  negsuc : ℕ → I64

pub record PresignedRequest : Type 0 where
  pub method : String
  pub url : String
  pub headers : Dict String
  pub expires_at_unix_ms : I64

pub data WorkflowInputKind : Type 0 where
  parameter artifact : WorkflowInputKind

pub record WorkflowInput (J : Type 0) : Type 0 where
  pub name : String
  pub kind : WorkflowInputKind
  pub value_type : String
  pub content_type : Option String
  pub pointer : String
  pub required_input : Bool
  pub default : Option J
  pub options : List String
  pub node_id : Option String
  pub node_type : Option String
  pub field : Option String

pub record WorkflowOutput : Type 0 where
  pub name : String
  pub content_type : String

pub record WorkflowManifest (J : Type 0) : Type 0 where
  pub schema_version : ℕ  -- u16
  pub display_name : String
  pub description : Option String
  pub inputs : List (WorkflowInput J)
  pub outputs : List WorkflowOutput
  pub warnings : List String

pub record WorkflowCapability (J : Type 0) : Type 0 where
  pub id : String
  pub version : String
  pub output_types : List String
  pub manifest : Option (WorkflowManifest J)

pub record WorkerCapabilities (J : Type 0) : Type 0 where
  pub workflows : List (WorkflowCapability J)
  pub parallelism : ℕ  -- u16
  pub queue_depth : ℕ  -- u16
  pub supports_queued_job_cancellation : Bool
  pub labels : Dict String

-- The sum of two `u16` in a `u32`, which cannot wrap.
unfoldable pub total_capacity : {J : Type 0} → WorkerCapabilities J → ℕ
total_capacity c = c.parallelism + c.queue_depth

pub record Register (J : Type 0) : Type 0 where
  pub protocol_version : ℕ  -- u16
  pub namespace : String
  pub node_name : String
  pub worker_version : String
  pub capabilities : WorkerCapabilities J
  pub recovery_job_ids : List String

pub record Registered : Type 0 where
  pub worker_id : String
  pub session_id : String
  pub heartbeat_interval_seconds : ℕ  -- u64
  pub server_unix_ms : I64

pub record Heartbeat : Type 0 where
  pub session_id : String
  pub sequence : ℕ  -- u64
  pub active_jobs : ℕ  -- u16
  pub queued_jobs : ℕ  -- u16
  pub unix_ms : I64

pub record JobInput : Type 0 where
  pub artifact_id : String
  pub name : String
  pub content_type : String
  pub size_bytes : ℕ  -- u64
  pub sha256 : String
  pub download : PresignedRequest

pub record DispatchJob (J : Type 0) : Type 0 where
  pub command_id : String
  pub job_id : String
  pub attempt : ℕ  -- u32
  pub workflow_id : String
  pub workflow_version : String
  pub parameters : J
  pub inputs : List JobInput

pub record CancelJob : Type 0 where
  pub command_id : String
  pub job_id : String
  pub reason : String

pub record CommandAck : Type 0 where
  pub command_id : String
  pub accepted : Bool
  pub message : String

pub data JobEventKind : Type 0 where
  accepted running progressed uploading completed failed cancelled : JobEventKind

pub record JobEvent : Type 0 where
  pub job_id : String
  pub attempt : ℕ  -- u32
  pub sequence : ℕ  -- u64
  pub kind : JobEventKind
  pub progress : Option F32
  pub prompt_id : Option String
  pub message : String
  pub unix_ms : I64

pub record JobEventAck : Type 0 where
  pub job_id : String
  pub sequence : ℕ  -- u64

pub record ArtifactReady : Type 0 where
  pub request_id : String
  pub job_id : String
  pub attempt : ℕ  -- u32
  pub name : String
  pub content_type : String
  pub size_bytes : ℕ  -- u64
  pub sha256 : String

pub record ArtifactUpload : Type 0 where
  pub request_id : String
  pub artifact_id : String
  pub upload : PresignedRequest

pub record ArtifactUploaded : Type 0 where
  pub request_id : String
  pub artifact_id : String
  pub job_id : String
  pub attempt : ℕ  -- u32

pub record ArtifactUploadedAck : Type 0 where
  pub request_id : String
  pub artifact_id : String

pub record Ping : Type 0 where
  pub nonce : String

pub record Pong : Type 0 where
  pub nonce : String

pub record ProtocolError : Type 0 where
  pub code : String
  pub message : String
  pub retryable : Bool

pub data WorkerMessage (J : Type 0) : Type 0 where
  register : Register J → WorkerMessage J
  heartbeat : Heartbeat → WorkerMessage J
  command_ack : CommandAck → WorkerMessage J
  job_event : JobEvent → WorkerMessage J
  artifact_ready : ArtifactReady → WorkerMessage J
  artifact_uploaded : ArtifactUploaded → WorkerMessage J
  pong : Pong → WorkerMessage J

pub data HubMessage (J : Type 0) : Type 0 where
  registered : Registered → HubMessage J
  dispatch_job : DispatchJob J → HubMessage J
  cancel_job : CancelJob → HubMessage J
  artifact_upload : ArtifactUpload → HubMessage J
  job_event_ack : JobEventAck → HubMessage J
  artifact_uploaded_ack : ArtifactUploadedAck → HubMessage J
  ping : Ping → HubMessage J
  protocol_error : ProtocolError → HubMessage J

-- `WorkerCapabilities::default`, with `default_parallelism`.
unfoldable pub default_capabilities : {J : Type 0} → WorkerCapabilities J
default_capabilities = record {
  workflows = [];
  parallelism = 1;
  queue_depth = 0;
  supports_queued_job_cancellation = false;
  labels = [];
}
