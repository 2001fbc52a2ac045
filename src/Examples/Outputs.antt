-- ===== src/Examples/Outputs.antt =====
-- The end of an upload, on concrete values.
use nagisa_lake.Prelude.{
  ℕ, String, ◌≡◌, refl, none, some, [], ◌∷◌, get, Result, ok, eq_ignore_ascii_case,
  to_ascii_lowercase,
}
use nagisa_lake.Protocol.Messages.{pos, ArtifactUploaded, ArtifactUploadedAck}
use nagisa_lake.Hub.Jobs.{HubError, ArtifactRecord, pending_upload, HubData}
use nagisa_lake.Hub.Uploads.{
  ObjectMetadata, Upload, runs_in, running_job, requested_artifact, artifact_record,
  pending_upload_key, object_metadata_matches, sha256_matches, agreed, verify_upload,
  completed_artifact, complete_artifact_upload,
}
use nagisa_lake.Hub.Uploads.Verified.{IsVerified, complete_artifact_upload-IsVerified}
use nagisa_lake.Hub.Uploads.Again.{undisturbed, IsListed, complete_artifact_upload-again}
use nagisa_lake.Examples.Resident.{resident_job}

abbrev picture : ArtifactRecord
picture = record {
  organization_id = "tenant";
  view = record {
    id = "a1";
    job_id = some "job";
    name = "out.png";
    content_type = "image/png";
    size_bytes = 10;
    sha256 = "ab";
    state = pending_upload;
  };
  object_key = "organizations/tenant/outputs/job/a1/out.png";
}

abbrev before_upload : HubData ℕ
before_upload = record {
  artifacts = ("a1", picture) ∷ [];
  pending_uploads = ("tenant\0r1", "a1") ∷ [];
  jobs = ("job", resident_job) ∷ [];
  idempotency = [];
}

-- The object store writes the hash in upper case.
abbrev uploaded_object : ObjectMetadata
uploaded_object = record { size_bytes = 10; content_type = some "image/png"; sha256 = some "AB" }

abbrev bucket : String → Result HubError ObjectMetadata
bucket key = ok uploaded_object

abbrev finished : ArtifactUploaded
finished = record { request_id = "r1"; artifact_id = "a1"; job_id = "job"; attempt = 1 }

abbrev after_upload : HubData ℕ × Result HubError ArtifactUploadedAck
after_upload =
    complete_artifact_upload none none bucket "org" "w1" "old" finished (pos 2)
      (undisturbed before_upload) before_upload

answered : after_upload.1 ≡ ok (record { request_id = "r1"; artifact_id = "a1" })
unfolding complete_artifact_upload verify_upload running_job runs_in get requested_artifact
    artifact_record pending_upload_key object_metadata_matches sha256_matches eq_ignore_ascii_case
    to_ascii_lowercase agreed
answered = refl

complete_artifact_upload-IsVerified_example :
    (upload : Upload) × IsVerified none none bucket "org" "w1" "old" finished before_upload upload
    × (get "a1" after_upload.0.artifacts ≡ some (completed_artifact upload.artifact))
complete_artifact_upload-IsVerified_example =
    complete_artifact_upload-IsVerified none none bucket "org" "w1" "old" finished (pos 2)
      (undisturbed before_upload) before_upload (record { request_id = "r1"; artifact_id = "a1" })
      answered

complete_artifact_upload-again_example :
    IsListed finished after_upload.0 "a1"
    × (complete_artifact_upload none none bucket "org" "w1" "old" finished
          (pos 3)
          (undisturbed after_upload.0)
          after_upload.0
        ≡ (after_upload.0, ok (record { request_id = "r1"; artifact_id = "a1" })))
complete_artifact_upload-again_example =
    complete_artifact_upload-again none none bucket "org" "w1" "old" finished (pos 2) (pos 3)
      before_upload (record { request_id = "r1"; artifact_id = "a1" }) answered
