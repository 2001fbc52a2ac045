-- ===== src/Hub/Uploads/Verified.antt =====
-- An upload that apps/nagisalake-hub/src/hub/worker.rs acknowledges as complete has been verified.
use nagisa_lake.Prelude.{
  ◌≡◌, refl, sym, ap, subst, ◌∙◌, String, Bool, true, false, not, ◌&&◌, Option, none, some, ◌=ˢ◌,
  =ˢ_refl, eq_iff, get, put, get-put, Result, ok, err, ok_or, fail_if, ◌>>=◌, ◌>>◌, arith,
  Option-cases, Result-cases, inl, inr,
}
use nagisa_lake.Protocol.Messages.{I64, ArtifactUploaded, ArtifactUploadedAck}
use nagisa_lake.Hub.Jobs.{
  HubError, conflict, not_found, ArtifactRecord, JobRecord, HubData, update_job,
}
use nagisa_lake.Hub.Uploads.{
  ObjectMetadata, UploadAnswers, Upload, Locks, object_metadata_matches, artifact_record,
  requested_artifact, agreed, runs_in, running_job, completed_artifact, pending_upload_key,
  verify_upload, commit_upload, complete_artifact_upload,
}

-- What a step with `?` that succeeds has come from.
bind-ok {ℓ κ ι} :
    {E : Type ℓ} {A : Type κ} {B : Type ι} (m : Result E A) (f : A → Result E B) (b : B)
    → (m >>= f) ≡ ok b
    → (a : A) × (m ≡ ok a) × (f a ≡ ok b)
bind-ok (ok a) f b h = (a, refl, h)
bind-ok (err e) f b h = absurd (ground arith)

then-ok {ℓ κ} :
    {E : Type ℓ} {B : Type κ} (m : Result E (Unit {0})) (k : Result E B) (b : B)
    → (m >> k) ≡ ok b
    → (m ≡ ok tt) × (k ≡ ok b)
then-ok (ok tt) k b h = (refl, h)
then-ok (err e) k b h = absurd (ground arith)

check-ok {ℓ κ} :
    {E : Type ℓ} {B : Type κ} (b : Bool) (e : E) (k : Result E B) (y : B)
    → (fail_if (not b) e >> k) ≡ ok y
    → (b ≡ true) × (k ≡ ok y)
check-ok true e k y h = (refl, h)
check-ok false e k y h = absurd (ground arith)

ok_or-ok {ℓ κ} :
    {E : Type ℓ} {A : Type κ} (m : Option A) (e : E) (a : A) → ok_or m e ≡ ok a → m ≡ some a
ok_or-ok none e a h = absurd (ground arith)
ok_or-ok (some x) e a h = ground arith

both : (a b : Bool) → (a && b) ≡ true → (a ≡ true) × (b ≡ true)
both a b h = (ground arith, ground arith)

module _ {J : Type 0} (store : Option UploadAnswers) (cached : Option ArtifactRecord)
    (head : String → Result HubError ObjectMetadata) (organization_id worker_id session_id : String)
    (uploaded : ArtifactUploaded) where
  -- What has been checked when the write is made.
  pub record IsVerified (rechecked : HubData J) (upload : Upload) : Type 0 where
    pub named : upload.artifact_id ≡ uploaded.artifact_id
    pub asked : upload.job_id ≡ uploaded.job_id
    pub tenant : upload.organization_id ≡ upload.artifact.organization_id
    pub own_job : upload.artifact.view.job_id ≡ some uploaded.job_id
    pub runs :
        (job : JobRecord J) × (get uploaded.job_id rechecked.jobs ≡ some job)
        × (runs_in organization_id worker_id session_id uploaded.attempt job ≡ true)
        × (upload.artifact.organization_id ≡ job.organization_id)
    pub matches :
        (metadata : ObjectMetadata) × (head upload.artifact.object_key ≡ ok metadata)
        × (object_metadata_matches metadata upload.artifact.view ≡ true)
    pub durable : agreed store ≡ ok tt

  pub verify_upload-IsVerified :
      (locks : Locks J) (upload : Upload)
      → verify_upload store cached head organization_id worker_id session_id uploaded locks
        ≡ ok upload
      → IsVerified locks.rechecked upload
  unfolding verify_upload
  verify_upload-IsVerified locks upload h =
      let (owner, e1, h1) =
        bind-ok (running_job organization_id worker_id session_id uploaded locks.seen) _ upload h in
      let key = pending_upload_key owner.organization_id uploaded.request_id in
      let (id, e2, h2) =
        bind-ok (requested_artifact store (get key locks.requests.pending_uploads)) _ upload h1 in
      let (e3, h3) = check-ok (id =ˢ uploaded.artifact_id) _ _ upload h2 in
      let (artifact, e4, h4) =
        bind-ok
          (artifact_record store cached owner.organization_id (get id locks.artifacts.artifacts)) _
          upload h3 in
      let (e5, h5) = check-ok (artifact.organization_id =ˢ owner.organization_id) _ _ upload h4 in
      let (job_id, e6, h6) =
        bind-ok (ok_or artifact.view.job_id (conflict "output artifact has no job")) _ upload h5 in
      let (e7, h7) = check-ok (uploaded.job_id =ˢ job_id) _ _ upload h6 in
      let (job, e8, h8) =
        bind-ok (ok_or (get job_id locks.rechecked.jobs) (not_found "job")) _ upload h7 in
      let runs = runs_in organization_id worker_id session_id uploaded.attempt job in
      let (e9, h9) =
        check-ok ((job.organization_id =ˢ owner.organization_id) && runs) _ _ upload h8 in
      let (metadata, e10, h10) = bind-ok (head artifact.object_key) _ upload h9 in
      let (e11, h11) = check-ok (object_metadata_matches metadata artifact.view) _ _ upload h10 in
      let (e12, h12) = then-ok (agreed store) _ upload h11 in
      let made : Upload = record {
        organization_id = owner.organization_id;
        artifact_id = id;
        job_id = job_id;
        artifact = artifact;
      } in
      let same : made ≡ upload = ground arith in
      let asked : uploaded.job_id ≡ job_id = (eq_iff uploaded.job_id job_id).0 e7 in
      let passed = both _ _ e9 in
      let checked : IsVerified locks.rechecked made = record {
        named = (eq_iff id uploaded.artifact_id).0 e3;
        asked = sym asked;
        tenant = sym ((eq_iff _ _).0 e5);
        own_job = ok_or-ok _ _ _ e6 ∙ ap some (sym asked);
        runs = (
          job,
          ap (λ j. get j locks.rechecked.jobs) asked ∙ ok_or-ok _ _ _ e8,
          passed.1,
          (eq_iff _ _).0 e5 ∙ sym ((eq_iff _ _).0 passed.0),
        );
        matches = (metadata, e10, e11);
        durable = e12;
      } in
      subst (IsVerified locks.rechecked) same checked

  artifacts-commit_upload :
      (now : I64) (upload : Upload) (later : HubData J)
      → (commit_upload uploaded now upload later).artifacts
        ≡ put upload.artifact_id (completed_artifact upload.artifact) later.artifacts
  unfolding commit_upload update_job
  artifacts-commit_upload now upload later = elim (Option-cases (get upload.job_id later.jobs)) [
    | inl absent ↦ rw (absent, commit_upload, update_job)
    | inr (job, there) ↦ rw (there, commit_upload, update_job)
  ]

  stored :
      (now : I64) (upload : Upload) (later : HubData J)
      → upload.artifact_id ≡ uploaded.artifact_id
      → get uploaded.artifact_id (commit_upload uploaded now upload later).artifacts
        ≡ some (completed_artifact upload.artifact)
  stored now upload later named =
      let made = completed_artifact upload.artifact in
      ap (get uploaded.artifact_id) (artifacts-commit_upload now upload later)
      ∙ ground (
        arith,
        get-put upload.artifact_id uploaded.artifact_id made later.artifacts,
        =ˢ_refl uploaded.artifact_id,
      )

  -- Whatever other tasks did between the locks: if a Worker is told that its upload is complete,
  -- then at the last check the job that it named was run by this session in this attempt, the
  -- artifact belongs to this job and to the tenant of this job, the object store has it with its
  -- size, content type and SHA-256, the store has agreed, and the artifact is now in memory as
  -- ready.
  pub complete_artifact_upload-IsVerified :
      (now : I64) (locks : Locks J) (later : HubData J) (a : ArtifactUploadedAck)
      → (complete_artifact_upload store cached head organization_id worker_id session_id uploaded
          now locks later).1
        ≡ ok a
      → (upload : Upload) × IsVerified locks.rechecked upload
        × (get uploaded.artifact_id
              (complete_artifact_upload store cached head organization_id worker_id session_id
                uploaded now locks later).0.artifacts
            ≡ some (completed_artifact upload.artifact))
  unfolding complete_artifact_upload commit_upload update_job
  complete_artifact_upload-IsVerified now locks later a h =
      elim (Result-cases
        (verify_upload store cached head organization_id worker_id session_id uploaded locks)) [
          | inr (e, q) ↦ let h' = rw (q, complete_artifact_upload) at h in absurd (ground arith)
          | inl (upload, q) ↦
              let v = verify_upload-IsVerified locks upload q in
              (upload, v, rw (q, complete_artifact_upload) (stored now upload later v.named))
        ]
