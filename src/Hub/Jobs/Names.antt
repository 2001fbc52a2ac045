-- ===== src/Hub/Jobs/Names.antt =====
-- The names of states and kinds in the store: apps/nagisalake-hub/src/hub/state.rs.
use nagisa_lake.Prelude.{◌≡◌, refl, String, if◌then◌else◌, ◌=ˢ◌, Result, ok, err}
use Prim.Native.String.{◌++◌ as join}
use nagisa_lake.Protocol.Messages.{JobEventKind}
use nagisa_lake.Core.{
  JobState, queued, received, accepted, running, uploading, completed, failed, cancelled,
}
use nagisa_lake.Hub.Jobs.{HubError, invalid_config, ArtifactState, pending_upload, ready}

unfoldable pub artifact_state_name : ArtifactState → String
artifact_state_name pending_upload = "pending_upload"
artifact_state_name ready = "ready"

unfoldable pub parse_artifact_state : String → Result HubError ArtifactState
parse_artifact_state value =
    if value =ˢ "pending_upload"
    then ok pending_upload
    else if value =ˢ "ready"
    then ok ready
    else err (invalid_config (join "unknown persisted artifact state " value))

unfoldable pub job_state_name : JobState → String
job_state_name queued = "queued"
job_state_name received = "received"
job_state_name accepted = "accepted"
job_state_name running = "running"
job_state_name uploading = "uploading"
job_state_name completed = "completed"
job_state_name failed = "failed"
job_state_name cancelled = "cancelled"

unfoldable pub parse_job_state : String → Result HubError JobState
parse_job_state value =
    if value =ˢ "queued"
    then ok queued
    else if value =ˢ "received"
    then ok received
    else if value =ˢ "accepted"
    then ok accepted
    else if value =ˢ "running"
    then ok running
    else if value =ˢ "uploading"
    then ok uploading
    else if value =ˢ "completed"
    then ok completed
    else if value =ˢ "failed"
    then ok failed
    else if value =ˢ "cancelled"
    then ok cancelled
    else err (invalid_config (join "unknown persisted job state " value))

unfoldable pub event_kind_name : JobEventKind → String
event_kind_name JobEventKind.accepted = "accepted"
event_kind_name JobEventKind.running = "running"
event_kind_name JobEventKind.progressed = "progress"
event_kind_name JobEventKind.uploading = "uploading"
event_kind_name JobEventKind.completed = "completed"
event_kind_name JobEventKind.failed = "failed"
event_kind_name JobEventKind.cancelled = "cancelled"

unfoldable pub parse_event_kind : String → Result HubError JobEventKind
parse_event_kind value =
    if value =ˢ "accepted"
    then ok JobEventKind.accepted
    else if value =ˢ "running"
    then ok JobEventKind.running
    else if value =ˢ "progress"
    then ok JobEventKind.progressed
    else if value =ˢ "uploading"
    then ok JobEventKind.uploading
    else if value =ˢ "completed"
    then ok JobEventKind.completed
    else if value =ˢ "failed"
    then ok JobEventKind.failed
    else if value =ˢ "cancelled"
    then ok JobEventKind.cancelled
    else err (invalid_config (join "unknown persisted event kind " value))

-- What is written to the store is read back as what it was.
pub parse_job_state-name : (s : JobState) → parse_job_state (job_state_name s) ≡ ok s
unfolding parse_job_state job_state_name
parse_job_state-name queued = refl
parse_job_state-name received = refl
parse_job_state-name accepted = refl
parse_job_state-name running = refl
parse_job_state-name uploading = refl
parse_job_state-name completed = refl
parse_job_state-name failed = refl
parse_job_state-name cancelled = refl

pub parse_event_kind-name : (k : JobEventKind) → parse_event_kind (event_kind_name k) ≡ ok k
unfolding parse_event_kind event_kind_name
parse_event_kind-name JobEventKind.accepted = refl
parse_event_kind-name JobEventKind.running = refl
parse_event_kind-name JobEventKind.progressed = refl
parse_event_kind-name JobEventKind.uploading = refl
parse_event_kind-name JobEventKind.completed = refl
parse_event_kind-name JobEventKind.failed = refl
parse_event_kind-name JobEventKind.cancelled = refl
