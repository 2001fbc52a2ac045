-- ===== src/Hub/Uploads.antt =====
-- apps/nagisalake-hub/src/hub/worker.rs: the end of an upload, `complete_artifact_upload`, with
-- `artifact_record` of hub/api.rs. The call takes the lock of the data five times, and each time
-- has its own argument, so any interleaving with other calls is covered. The answers of the store,
-- of the object store and of the read cache are arguments; what the call does to the read cache is
-- not followed.
use nagisa_lake.Prelude.{
  ℕ, String, Bool, true, false, not, ◌&&◌, Option, none, some, List, [], ◌∷◌, ◌++◌, if◌then◌else◌,
  ◌==◌, ◌=ˢ◌, codes, eq_ignore_ascii_case, get, put, Result, ok, err, ok_or, fail_if, ◌>>=◌, ◌>>◌,
}
use Prim.Native.String.{◌++◌ as join}
use nagisa_lake.Protocol.Messages.{I64, pos, negsuc, ArtifactUploaded, ArtifactUploadedAck}
use nagisa_lake.Hub.Jobs.{
  HubError, invalid_config, not_found, conflict, ArtifactView, ArtifactRecord, ready, JobRecord,
  HubData, max_i64, same_id, update_job,
}
use nagisa_lake.Hub.Jobs.Names.{parse_artifact_state}
use nagisa_lake.Hub.Sessions.{contains}
pub mod Verified
pub mod Writes
pub mod Again

-- What the object store knows of an object.
pub record ObjectMetadata : Type 0 where
  pub size_bytes : ℕ  -- u64
  pub content_type : Option String
  pub sha256 : Option String

-- A row of the store.
pub record StoredArtifact : Type 0 where
  pub organization_id : String
  pub id : String
  pub job_id : Option String
  pub name : String
  pub content_type : String
  pub size_bytes : I64
  pub sha256 : String
  pub state : String
  pub object_key : String
  pub created_at : I64
  pub updated_at : I64

-- What the store answers to the requests of one call.
pub record UploadAnswers : Type 0 where
  pub request : Result HubError (Option String)
  pub artifact : Result HubError (Option StoredArtifact)
  pub completed : Result HubError Bool

unfoldable pub pending_upload_key : String → String → String
pending_upload_key organization_id request_id = join organization_id (join "\0" request_id)

unfoldable pub sha256_matches : Option String → String → Bool
sha256_matches none sha256 = false
sha256_matches (some value) sha256 = eq_ignore_ascii_case (codes value) (codes sha256)

unfoldable pub object_metadata_matches : ObjectMetadata → ArtifactView → Bool
unfolding sha256_matches
object_metadata_matches metadata artifact =
    (metadata.size_bytes == artifact.size_bytes)
    && same_id metadata.content_type (some artifact.content_type)
    && sha256_matches metadata.sha256 artifact.sha256

-- `u64::try_from`.
unfoldable pub to_size : I64 → Result HubError ℕ
to_size (pos n) = ok n
to_size (negsuc n) = err (invalid_config "persisted artifact size is negative")

unfoldable pub record_from_stored : StoredArtifact → Result HubError ArtifactRecord
unfolding to_size
record_from_stored stored = do
  size_bytes ← to_size stored.size_bytes
  state ← parse_artifact_state stored.state
  ok (record {
    organization_id = stored.organization_id;
    view = record {
      id = stored.id;
      job_id = stored.job_id;
      name = stored.name;
      content_type = stored.content_type;
      size_bytes = size_bytes;
      sha256 = stored.sha256;
      state = state;
    };
    object_key = stored.object_key;
  })

-- From memory if it is of the organization, then from the read cache, then from the store.
unfoldable pub artifact_record :
    (store : Option UploadAnswers)
    → (cached : Option ArtifactRecord) → String
    → Option ArtifactRecord
    → Result HubError ArtifactRecord
unfolding record_from_stored
artifact_record store cached organization_id resident =
    let elsewhere : Result HubError ArtifactRecord = elim cached [
      | some artifact ↦ ok artifact
      | none ↦ do
        answers ← ok_or store (not_found "artifact")
        row ← answers.artifact
        stored ← ok_or row (not_found "artifact")
        record_from_stored stored
    ] in
    elim resident [
      | none ↦ elsewhere
      | some artifact ↦
          if artifact.organization_id =ˢ organization_id then ok artifact else elsewhere
    ]

-- The artifact of an upload: the one that is remembered, or else the one that the store has.
unfoldable pub requested_artifact : Option UploadAnswers → Option String → Result HubError String
requested_artifact store (some id) = ok id
requested_artifact none none = err (not_found "upload request")
requested_artifact (some answers) none = do
  row ← answers.request
  ok_or row (not_found "upload request")

-- The store, if there is one, agrees that the upload is complete.
unfoldable pub agreed : Option UploadAnswers → Result HubError (Unit {0})
agreed none = ok tt
agreed (some answers) = do
  done ← answers.completed
  fail_if (not done) (conflict "job changed while completing the output artifact")

-- An upload that has passed all checks.
pub record Upload : Type 0 where
  pub organization_id : String
  pub artifact_id : String
  pub job_id : String
  pub artifact : ArtifactRecord

-- The data at the locks before the last one.
pub record Locks (J : Type 0) : Type 0 where
  pub seen : HubData J
  pub requests : HubData J
  pub artifacts : HubData J
  pub rechecked : HubData J

unfoldable pub completed_artifact : ArtifactRecord → ArtifactRecord
completed_artifact artifact = record artifact { view = record (artifact.view) { state = ready } }

module _ {J : Type 0} where
  -- The job is run by this session of this Worker, in this attempt.
  unfoldable pub runs_in : String → String → String → ℕ → JobRecord J → Bool
  runs_in organization_id worker_id session_id attempt job =
      (job.worker_organization_id =ˢ organization_id)
      && (job.view.worker_id =ˢ worker_id)
      && (job.view.session_id =ˢ session_id)
      && (job.dispatch.attempt == attempt)

  -- The artifact becomes an output of the job, once.
  unfoldable pub add_output : ℕ → String → I64 → JobRecord J → JobRecord J
  unfolding max_i64
  add_output attempt artifact_id now job =
      if (job.dispatch.attempt == attempt)
        && not (contains artifact_id job.view.output_artifact_ids)
      then record job {
        view = record (job.view) {
          output_artifact_ids = job.view.output_artifact_ids ++ (artifact_id ∷ []);
          updated_at_unix_ms = max_i64 job.view.updated_at_unix_ms now;
        };
      }
      else job

  -- The job of the upload, if it is run by the session.
  unfoldable pub running_job :
      String → String → String → ArtifactUploaded → HubData J → Result HubError (JobRecord J)
  unfolding runs_in
  running_job organization_id worker_id session_id uploaded seen = do
    job ← ok_or (get uploaded.job_id seen.jobs) (not_found "job")
    fail_if (not (runs_in organization_id worker_id session_id uploaded.attempt job))
        (conflict "stale worker session")
    ok job

  -- The write at the end.
  unfoldable pub commit_upload : ArtifactUploaded → I64 → Upload → HubData J → HubData J
  unfolding pending_upload_key completed_artifact add_output
  commit_upload uploaded now upload later =
      update_job upload.job_id (add_output uploaded.attempt upload.artifact_id now) (record later {
        pending_uploads =
            put (pending_upload_key upload.organization_id uploaded.request_id) upload.artifact_id
              later.pending_uploads;
        artifacts = put upload.artifact_id (completed_artifact upload.artifact) later.artifacts;
      })

  module _ (store : Option UploadAnswers) (cached : Option ArtifactRecord)
      (head : String → Result HubError ObjectMetadata)
      (organization_id worker_id session_id : String) (uploaded : ArtifactUploaded) where
    unfoldable pub verify_upload : Locks J → Result HubError Upload
    unfolding pending_upload_key requested_artifact artifact_record running_job runs_in
        object_metadata_matches agreed
    verify_upload locks = do
      owner ← running_job organization_id worker_id session_id uploaded locks.seen
      let artifact_organization_id = owner.organization_id
      let key = pending_upload_key artifact_organization_id uploaded.request_id
      artifact_id ← requested_artifact store (get key locks.requests.pending_uploads)
      fail_if (not (artifact_id =ˢ uploaded.artifact_id))
          (conflict "artifact id does not match upload request")
      artifact ←
          artifact_record store cached artifact_organization_id
            (get artifact_id locks.artifacts.artifacts)
      fail_if (not (artifact.organization_id =ˢ artifact_organization_id)) (not_found "artifact")
      job_id ← ok_or artifact.view.job_id (conflict "output artifact has no job")
      fail_if (not (uploaded.job_id =ˢ job_id)) (conflict "uploaded artifact job does not match")
      job ← ok_or (get job_id locks.rechecked.jobs) (not_found "job")
      fail_if
          (not (
            (job.organization_id =ˢ artifact_organization_id)
            && runs_in organization_id worker_id session_id uploaded.attempt job))
          (conflict "stale worker session")
      metadata ← head artifact.object_key
      fail_if (not (object_metadata_matches metadata artifact.view))
          (conflict "uploaded output failed size, content type, or SHA-256 verification")
      agreed store
      ok (record {
        organization_id = artifact_organization_id;
        artifact_id = artifact_id;
        job_id = job_id;
        artifact = artifact;
      })

    unfoldable pub complete_artifact_upload :
        I64 → Locks J → HubData J → HubData J × Result HubError ArtifactUploadedAck
    unfolding verify_upload commit_upload
    complete_artifact_upload now locks later = elim (verify_upload locks) [
      | err e ↦ (later, err e)
      | ok upload ↦ (
        commit_upload uploaded now upload later,
        ok (record { request_id = uploaded.request_id; artifact_id = upload.artifact_id }),
      )
    ]
