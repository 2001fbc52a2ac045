-- ===== src/Hub/Uploads/Writes.antt =====
-- What the write at the end of an upload, in apps/nagisalake-hub/src/hub/worker.rs, does to the data.
use nagisa_lake.Prelude.{
  ℕ, ◌≡◌, sym, ap, ◌∙◌, String, Bool, true, false, not, ◌&&◌, none, some, List, [], ◌∷◌, ◌++◌,
  if◌then◌else◌, ◌==◌, ◌=ˢ◌, =ˢ_refl, Dict, get, put, get-put, arith, Bool-cases, Option-cases, inl,
  inr,
}
use nagisa_lake.Protocol.Messages.{I64, ArtifactUploaded}
use nagisa_lake.Hub.Jobs.{JobRecord, HubData, update_job}
use nagisa_lake.Hub.Sessions.{contains}
use nagisa_lake.Hub.Uploads.{
  runs_in, Upload, completed_artifact, add_output, pending_upload_key, commit_upload,
}

put-put : {V : Type 0} (k : String) (v : V) (m : Dict V) → put k v (put k v m) ≡ put k v m
unfolding put
put-put k v [] = rw (=ˢ_refl k)
put-put k v ((j, w) ∷ m) = elim (Bool-cases (j =ˢ k)) [
  | inl hit ↦ rw (hit, put) (rw (=ˢ_refl k))
  | inr miss ↦ rw (miss, put) (rw (miss, put) (ap (λ r. (j, w) ∷ r) (put-put k v m)))
]

pub get-put-same : {V : Type 0} (k : String) (v : V) (m : Dict V) → get k (put k v m) ≡ some v
get-put-same k v m = get-put k k v m ∙ rw (=ˢ_refl k)

contains-append : (k : String) (s : List String) → contains k (s ++ (k ∷ [])) ≡ true
contains-append k [] = rw (=ˢ_refl k)
contains-append k (x ∷ s) = ground (arith, contains-append k s)

never : {A : Type 0} (b : Bool) (x y : A) → (if b && false then x else y) ≡ y
never b x y = elim (Bool-cases b) [ inl h ↦ rw h | inr h ↦ rw h ]

module _ {J : Type 0} where
  add_output-add_output :
      (attempt : ℕ) (id : String) (now later : I64) (job : JobRecord J)
      → add_output attempt id later (add_output attempt id now job) ≡ add_output attempt id now job
  unfolding add_output
  add_output-add_output attempt id now later job =
      elim (Bool-cases
        ((job.dispatch.attempt == attempt) && not (contains id job.view.output_artifact_ids))) [
          | inl new ↦
              let held = contains-append id job.view.output_artifact_ids in
              rw (new, add_output) (rw held (never _ _ _))
          | inr old ↦ rw (old, add_output) (rw (old, add_output))
        ]

  pub add_output-keeps :
      (o w i : String) (attempt at : ℕ) (id : String) (now : I64) (job : JobRecord J)
      → (runs_in o w i attempt (add_output at id now job) ≡ runs_in o w i attempt job)
        × ((add_output at id now job).organization_id ≡ job.organization_id)
  unfolding add_output runs_in
  add_output-keeps o w i attempt at id now job =
      elim (Bool-cases
        ((job.dispatch.attempt == at) && not (contains id job.view.output_artifact_ids))) [
          | inl new ↦ (rw (new, add_output), rw (new, add_output))
          | inr old ↦ (rw (old, add_output), rw (old, add_output))
        ]

  pub contains-add_output :
      (attempt : ℕ) (id : String) (now : I64) (job : JobRecord J)
      → (job.dispatch.attempt == attempt) ≡ true
      → contains id (add_output attempt id now job).view.output_artifact_ids ≡ true
  unfolding add_output
  contains-add_output attempt id now job current =
      elim (Bool-cases (contains id job.view.output_artifact_ids)) [
        | inl listed ↦ rw (current, listed, add_output) listed
        | inr new ↦ rw (current, new, add_output) (contains-append id job.view.output_artifact_ids)
      ]

  -- What a write makes of the data, with its job in memory or not.
  unfoldable pub without_job : ArtifactUploaded → Upload → HubData J → HubData J
  without_job uploaded upload later = record later {
    pending_uploads =
        put (pending_upload_key upload.organization_id uploaded.request_id) upload.artifact_id
          later.pending_uploads;
    artifacts = put upload.artifact_id (completed_artifact upload.artifact) later.artifacts;
  }

  module _ (uploaded : ArtifactUploaded) (now : I64) (upload : Upload) (later : HubData J) where
    commit_upload-absent :
        get upload.job_id later.jobs ≡ none
        → commit_upload uploaded now upload later ≡ without_job uploaded upload later
    unfolding commit_upload update_job without_job
    commit_upload-absent absent = rw (absent, commit_upload, update_job)

    pub commit_upload-there :
        (job : JobRecord J)
        → get upload.job_id later.jobs ≡ some job
        → commit_upload uploaded now upload later ≡ record (without_job uploaded upload later) {
          jobs =
              put upload.job_id (add_output uploaded.attempt upload.artifact_id now job) later.jobs;
        }
    unfolding commit_upload update_job without_job
    commit_upload-there job there = rw (there, commit_upload, update_job)

  -- An upload that was written, and is written again when its artifact is ready, whatever the time,
  -- changes nothing.
  pub commit_upload-again :
      (uploaded : ArtifactUploaded) (now now' : I64) (upload : Upload) (later : HubData J)
      → commit_upload uploaded now'
          (record upload { artifact = completed_artifact upload.artifact })
          (commit_upload uploaded now upload later)
        ≡ commit_upload uploaded now upload later
  unfolding completed_artifact without_job
  commit_upload-again uploaded now now' upload later =
      let again : Upload = record upload { artifact = completed_artifact upload.artifact } in
      let key = pending_upload_key upload.organization_id uploaded.request_id in
      let made = completed_artifact upload.artifact in
      let remembered = put-put key upload.artifact_id later.pending_uploads in
      let kept = put-put upload.artifact_id made later.artifacts in
      elim (Option-cases (get upload.job_id later.jobs)) [
        | inl absent ↦
            let e = commit_upload-absent uploaded now upload later absent in
            ap (commit_upload uploaded now' again) e
            ∙ commit_upload-absent uploaded now' again (without_job uploaded upload later) absent
            ∙ (λ i. record later { pending_uploads = remembered i; artifacts = kept i })
            ∙ sym e
        | inr (job, there) ↦
            let listed = add_output uploaded.attempt upload.artifact_id now job in
            let e = commit_upload-there uploaded now upload later job there in
            let jobs = put upload.job_id listed later.jobs in
            let found : get upload.job_id jobs ≡ some listed =
              get-put-same upload.job_id listed later.jobs in
            let same =
              ap (λ j. put upload.job_id j jobs)
                (add_output-add_output uploaded.attempt upload.artifact_id now now' job)
              ∙ put-put upload.job_id listed later.jobs in
            ap (commit_upload uploaded now' again) e
            ∙ commit_upload-there uploaded now' again
                (record (without_job uploaded upload later) { jobs = jobs }) listed found
            ∙ (λ i. record later {
              pending_uploads = remembered i;
              artifacts = kept i;
              jobs = same i;
            })
            ∙ sym e
      ]
