-- ===== src/Hub/Uploads/Again.antt =====
-- A Worker sends the end of an upload until it is acknowledged, so
-- apps/nagisalake-hub/src/hub/worker.rs may write one upload twice.
use nagisa_lake.Prelude.{
  ◌==◌, ◌≡◌, sym, ap, subst, ◌∙◌, String, true, Option, some, ◌=ˢ◌, =ˢ_refl, eq_iff, get, put,
  arith, Result-cases, Result, ok, err, inl, inr,
}
use nagisa_lake.Protocol.Messages.{I64, ArtifactUploaded, ArtifactUploadedAck}
use nagisa_lake.Hub.Jobs.{HubError, ArtifactRecord, JobRecord, HubData}
use nagisa_lake.Hub.Sessions.{contains}
use nagisa_lake.Hub.Uploads.Verified.{IsVerified, verify_upload-IsVerified}
use nagisa_lake.Hub.Uploads.{
  ObjectMetadata, UploadAnswers, Locks, runs_in, running_job, requested_artifact, artifact_record,
  object_metadata_matches, agreed, verify_upload, complete_artifact_upload, Upload,
  completed_artifact, add_output, pending_upload_key, commit_upload,
}
use nagisa_lake.Hub.Uploads.Writes.{
  get-put-same, contains-add_output, add_output-keeps, without_job, commit_upload-there,
  commit_upload-again,
}

abbrev ack_of : ArtifactUploaded → String → ArtifactUploadedAck
ack_of uploaded artifact_id = record { request_id = uploaded.request_id; artifact_id = artifact_id }

-- The data at every lock, when no other task comes in between.
abbrev pub undisturbed : {J : Type 0} → HubData J → Locks J
undisturbed d = record { seen = d; requests = d; artifacts = d; rechecked = d }

-- The job of an upload is resident, and the artifact is one of its outputs.
abbrev pub IsListed : {J : Type 0} → ArtifactUploaded → HubData J → String → Type 0
IsListed {J} uploaded d artifact_id =
    (job : JobRecord J) × (get uploaded.job_id d.jobs ≡ some job)
    × (contains artifact_id job.view.output_artifact_ids ≡ true)

same_ack :
    (x y : ArtifactUploadedAck)
    → ◌≡◌ {A = Result HubError ArtifactUploadedAck} (ok x) (ok y)
    → x ≡ y
same_ack x y h = ground arith

module _ {J : Type 0} (store : Option UploadAnswers) (cached : Option ArtifactRecord)
    (head : String → Result HubError ObjectMetadata) (organization_id worker_id session_id : String)
    (uploaded : ArtifactUploaded) where
  verify_upload-resident :
      (d : HubData J) (job : JobRecord J) (artifact : ArtifactRecord) (metadata : ObjectMetadata)
      → get uploaded.job_id d.jobs ≡ some job
      → runs_in organization_id worker_id session_id uploaded.attempt job ≡ true
      → get (pending_upload_key job.organization_id uploaded.request_id) d.pending_uploads
        ≡ some uploaded.artifact_id
      → get uploaded.artifact_id d.artifacts ≡ some artifact
      → (artifact.organization_id =ˢ job.organization_id) ≡ true
      → artifact.view.job_id ≡ some uploaded.job_id
      → head artifact.object_key ≡ ok metadata
      → object_metadata_matches metadata artifact.view ≡ true
      → agreed store ≡ ok tt
      → verify_upload store cached head organization_id worker_id session_id uploaded
          (undisturbed d)
        ≡ ok (record {
          organization_id = job.organization_id;
          artifact_id = uploaded.artifact_id;
          job_id = uploaded.job_id;
          artifact = artifact;
        })
  unfolding verify_upload running_job requested_artifact artifact_record
  verify_upload-resident d job artifact metadata there runs asked held own named known matches
        agrees =
      let e1 : running_job organization_id worker_id session_id uploaded d ≡ ok job =
        rw (there, running_job) (rw runs) in
      let e2 = =ˢ_refl uploaded.artifact_id in
      let e3 : artifact_record store cached job.organization_id (some artifact) ≡ ok artifact =
        rw own in
      rw (e1, verify_upload)
        (rw asked (
          rw e2 (
            rw held (
              rw e3 (
                rw own (
                  rw named (
                    rw (=ˢ_refl uploaded.job_id) (
                      rw there (
                        rw (=ˢ_refl job.organization_id)
                          (rw runs (rw known (rw matches (rw agrees)))))))))))))

  -- The upload of a job, in the fields that the write reads.
  upload_of : JobRecord J → ArtifactRecord → Upload
  upload_of job artifact = record {
    organization_id = job.organization_id;
    artifact_id = uploaded.artifact_id;
    job_id = uploaded.job_id;
    artifact = artifact;
  }

  verify_upload-commit_upload :
      (now : I64) (d : HubData J) (job : JobRecord J) (artifact : ArtifactRecord)
      (metadata : ObjectMetadata)
      → get uploaded.job_id d.jobs ≡ some job
      → runs_in organization_id worker_id session_id uploaded.attempt job ≡ true
      → artifact.organization_id ≡ job.organization_id
      → artifact.view.job_id ≡ some uploaded.job_id
      → head artifact.object_key ≡ ok metadata
      → object_metadata_matches metadata artifact.view ≡ true
      → agreed store ≡ ok tt
      → verify_upload store cached head organization_id worker_id session_id uploaded
          (undisturbed (commit_upload uploaded now (upload_of job artifact) d))
        ≡ ok (upload_of job (completed_artifact artifact))
  unfolding upload_of without_job completed_artifact object_metadata_matches
  verify_upload-commit_upload now d job artifact metadata there runs own named known matches
        agrees =
      let up = upload_of job artifact in
      let listed = add_output uploaded.attempt uploaded.artifact_id now job in
      let (runs', org) =
        add_output-keeps organization_id worker_id session_id uploaded.attempt uploaded.attempt
          uploaded.artifact_id now job in
      let key = pending_upload_key job.organization_id uploaded.request_id in
      let made = completed_artifact artifact in
      let written = commit_upload-there uploaded now up d job there in
      let written_again : HubData J = record (without_job uploaded up d) {
        jobs = put uploaded.job_id listed d.jobs;
      } in
      let held =
        ap (λ o. get (pending_upload_key o uploaded.request_id) written_again.pending_uploads) org
        ∙ get-put-same key uploaded.artifact_id d.pending_uploads in
      let passed =
        verify_upload-resident written_again listed made metadata
          (get-put-same uploaded.job_id listed d.jobs) (runs' ∙ runs) held
          (get-put-same uploaded.artifact_id made d.artifacts)
          ((eq_iff made.organization_id listed.organization_id).1 (own ∙ sym org)) named known
          matches agrees in
      let made_of : String → Upload = λ o. record (upload_of job made) { organization_id = o } in
      ap
        (λ x.
          verify_upload store cached head organization_id worker_id session_id uploaded
            (undisturbed x))
        written
      ∙ passed
      ∙ ap (λ o. ok (made_of o)) org

  complete_artifact_upload-ok :
      (now : I64) (locks : Locks J) (later : HubData J) (upload : Upload)
      → verify_upload store cached head organization_id worker_id session_id uploaded locks
        ≡ ok upload
      → complete_artifact_upload store cached head organization_id worker_id session_id uploaded now
          locks later
        ≡ (commit_upload uploaded now upload later, ok (ack_of uploaded upload.artifact_id))
  unfolding complete_artifact_upload
  complete_artifact_upload-ok now locks later upload q = rw (q, complete_artifact_upload)

  complete_artifact_upload-err :
      (now : I64) (locks : Locks J) (later : HubData J) (e : HubError)
      → verify_upload store cached head organization_id worker_id session_id uploaded locks ≡ err e
      → complete_artifact_upload store cached head organization_id worker_id session_id uploaded now
          locks later
        ≡ (later, err e)
  unfolding complete_artifact_upload
  complete_artifact_upload-err now locks later e q = rw (q, complete_artifact_upload)

  -- An upload that has passed its checks passes them again once it is written.
  acknowledged_again :
      (now now' : I64) (d : HubData J) (upload : Upload)
      → IsVerified store cached head organization_id worker_id session_id uploaded d upload
      → (let after = commit_upload uploaded now upload d in
          complete_artifact_upload store cached head organization_id worker_id session_id uploaded
            now'
            (undisturbed after)
            after
          ≡ (after, ok (ack_of uploaded upload.artifact_id)))
  unfolding upload_of
  acknowledged_again now now' d upload v =
      let (job, there, runs, own) = v.runs in
      let (metadata, known, matches) = v.matches in
      let up = upload_of job upload.artifact in
      let again = upload_of job (completed_artifact upload.artifact) in
      let c = commit_upload uploaded now up d in
      let same : up ≡ upload = λ i. record {
        organization_id = (sym (v.tenant ∙ own)) i;
        artifact_id = (sym v.named) i;
        job_id = (sym v.asked) i;
        artifact = upload.artifact;
      } in
      let passed =
        verify_upload-commit_upload now d job upload.artifact metadata there runs own v.own_job
          known matches v.durable in
      subst
        (λ u.
          complete_artifact_upload store cached head organization_id worker_id session_id uploaded
            now' (undisturbed (commit_upload uploaded now u d)) (commit_upload uploaded now u d)
          ≡ (commit_upload uploaded now u d, ok (ack_of uploaded u.artifact_id)))
        same
        (complete_artifact_upload-ok now' (undisturbed c) c again passed
          ∙ ap (λ x. (x, ok (ack_of uploaded uploaded.artifact_id)))
              (commit_upload-again uploaded now now' up d))

  runs_in-attempt :
      (job : JobRecord J)
      → runs_in organization_id worker_id session_id uploaded.attempt job ≡ true
      → (job.dispatch.attempt == uploaded.attempt) ≡ true
  unfolding runs_in
  runs_in-attempt job h = ground arith

  commit_upload-IsListed :
      (now : I64) (d : HubData J) (upload : Upload)
      → IsVerified store cached head organization_id worker_id session_id uploaded d upload
      → IsListed uploaded (commit_upload uploaded now upload d) upload.artifact_id
  commit_upload-IsListed now d upload v =
      let (job, there, runs, own) = v.runs in
      let listed = add_output uploaded.attempt upload.artifact_id now job in
      let there' : get upload.job_id d.jobs ≡ some job = ap (λ k. get k d.jobs) v.asked ∙ there in
      (
        listed,
        ap (λ k. get k (commit_upload uploaded now upload d).jobs) (sym v.asked)
            ∙ ap (λ x. get upload.job_id x.jobs)
                (commit_upload-there uploaded now upload d job there')
            ∙ get-put-same upload.job_id listed d.jobs,
        contains-add_output uploaded.attempt upload.artifact_id now job (runs_in-attempt job runs),
      )

  -- If a Worker is told that its upload is complete, with nothing in between the locks, then the
  -- artifact is one of the outputs of its job. If it sends the same message again, with nothing in
  -- between and the store and the object store answering the same, then it is told so again, and the
  -- data stay as they are.
  pub complete_artifact_upload-again :
      (now now' : I64) (d : HubData J) (a : ArtifactUploadedAck)
      → (complete_artifact_upload store cached head organization_id worker_id session_id uploaded
          now
          (undisturbed d)
          d).1
        ≡ ok a
      → (let after : HubData J =
            (complete_artifact_upload store cached head organization_id worker_id session_id
              uploaded now
              (undisturbed d)
              d).0 in
          IsListed uploaded after a.artifact_id
          × (complete_artifact_upload store cached head organization_id worker_id session_id
                uploaded now'
                (undisturbed after)
                after
              ≡ (after, ok a)))
  complete_artifact_upload-again now now' d a h =
      elim (Result-cases (
        verify_upload store cached head organization_id worker_id session_id uploaded
          (undisturbed d))) [
            | inr (e, q) ↦
                let refused : err e ≡ ok a =
                  ap (λ r. r.1) (sym (complete_artifact_upload-err now (undisturbed d) d e q))
                  ∙ h in
                absurd (ground arith)
            | inl (upload, q) ↦
                let v =
                  verify_upload-IsVerified store cached head organization_id worker_id session_id
                    uploaded (undisturbed d) upload q in
                let done = complete_artifact_upload-ok now (undisturbed d) d upload q in
                let told = ap (λ r. r.1) (sym done) ∙ h in
                subst
                  (λ r.
                    IsListed uploaded r.0 a.artifact_id
                    × (complete_artifact_upload store cached head organization_id worker_id
                          session_id uploaded now' (undisturbed r.0) r.0
                        ≡ (r.0, ok a)))
                  (sym done)
                  (
                    subst
                        (λ x. IsListed uploaded (commit_upload uploaded now upload d) x.artifact_id)
                        (same_ack (ack_of uploaded upload.artifact_id) a told)
                        (commit_upload-IsListed now d upload v),
                    acknowledged_again now now' d upload v
                        ∙ ap (λ x. (commit_upload uploaded now upload d, x)) told,
                  )
          ]
