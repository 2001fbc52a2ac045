-- ===== src/Journal/Sqlite/Refinement.antt =====
-- The table of crates/nagisalake-journal/src/sqlite.rs does to each job what `job_step` says.
use nagisa_lake.Prelude.{
  ℕ, ◌^◌, ◌<◌, ◌≡◌, refl, sym, ap, ◌∙◌, subst, String, Bool, true, false, Option, none, some, arith,
  Bool-cases, inl, inr, ok, ◌=ˢ◌, =ˢ_refl, eq_iff, if◌then◌else◌, lt→ltb, ◌==◌,
}
use nagisa_lake.Protocol.Json.{JsonOps}
use nagisa_lake.Protocol.Messages.{DispatchJob, JobEvent, I64, pos}
use nagisa_lake.Core.{JobState, JobRecord, new_received, is_terminal, can_transition_to}
use nagisa_lake.Journal.State.{same_dispatch_identity, parse_state, state_str}
use nagisa_lake.Journal.State.Names.{parse_state-state_str}
use nagisa_lake.Journal.Spec.{
  Request, upsert, set_state, set_prompt, set_pending, clear_pending, target, job_step, stale,
  allowed, or_same,
}
use nagisa_lake.Journal.Sqlite.WorkerJobs.{
  Row, Table, find, find-insert_row, find-update_where, find-job_id, find-update_own,
  find-update_missing, find-update_also, rows_affected-none, rows_affected-some,
}
use nagisa_lake.Journal.Sqlite.Represents.{
  Stored, Represents, Agree, Storable, decode_job-Represents,
}
use nagisa_lake.Journal.Sqlite.Events.{event_row-job_id, event_row-Represents, check_event_lem}
use nagisa_lake.Journal.Sqlite.Decode.{Codec, decode_pending, i64_eq, to_i64}
use nagisa_lake.Journal.Sqlite.{handle, received_row, clear_pending_event, event_row}

module _ {J : Type 0} (codec : Codec J) where
  Agree-none : (x : Option Row) → Agree codec x none → x ≡ none
  Agree-none none a = refl
  Agree-none (some row) a = absurd a

  Agree-some :
      (x : Option Row) (r : JobRecord J)
      → Agree codec x (some r)
      → (row : Row) × (x ≡ some row) × Represents codec row r
  Agree-some none r a = absurd a
  Agree-some (some row) r a = (row, refl, a)

  related_at :
      (x : Option Row) (row : Row) (r : JobRecord J)
      → x ≡ some row
      → Represents codec row r
      → Agree codec x (some r)
  related_at x row r e h = subst (λ y. Agree codec y (some r)) (sym e) h

i64_eq-to_i64 : (x : I64) (m n : ℕ) → x ≡ pos m → n < 2 ^ 63 → i64_eq x (to_i64 n) ≡ (m == n)
unfolding i64_eq to_i64
i64_eq-to_i64 x m n e h = rw (e, lt→ltb n (2 ^ 63) h)

module _ {J : Type 0} (ops : JsonOps J) (codec : Codec J) (t : Table) (now : I64) where
  -- The answer, and the job's own row afterwards.
  abbrev pub Own : Request J → Option (JobRecord J) → Type 0
  Own q o =
      ((handle codec ops t now q).1 ≡ (job_step ops q o).1)
      × Agree codec (find (target q) (handle codec ops t now q).0) (job_step ops q o).0

  upsert-new :
      (d : DispatchJob J) → Stored codec.dispatch d → find d.job_id t ≡ none → Own (upsert d) none
  unfolding handle job_step new_received decode_pending state_str
  upsert-new d (text, written, read) e = (
    ground arith,
    related_at codec _ (received_row codec d text now) (new_received d)
        (ground
          (arith, find-insert_row d.job_id (received_row codec d text now) t, =ˢ_refl d.job_id))
        (record {
          dispatched = read;
          named = refl;
          prompted = refl;
          numbered = refl;
          pended = refl;
        }),
  )

  upsert-known :
      (d : DispatchJob J) (r : JobRecord J) (row : Row)
      → Stored codec.dispatch d
      → find d.job_id t ≡ some row
      → Represents codec row r
      → Own (upsert d) (some r)
  unfolding handle job_step
  upsert-known d r row (text, written, read) e h =
      let decoded = decode_job-Represents codec row r h in
      let key = find-job_id d.job_id t row e in
      elim (Bool-cases (same_dispatch_identity ops r.dispatch d)) [
        | inr other ↦ rw (other) (ground arith, related_at codec _ row r (ground arith) h)
        | inl same ↦ rw same (elim (Bool-cases (is_terminal r.state)) [
          | inl ended ↦ rw ended (ground arith, related_at codec _ row r (ground arith) h)
          | inr live ↦ rw live (
            ground arith,
            related_at codec _ (record row { dispatch_json = text; updated_at = now })
                (record r { dispatch = d })
                (ground (
                  arith,
                  eq_iff row.job_id d.job_id,
                  find-update_where (λ row. row.job_id =ˢ d.job_id)
                      (λ row. record row { dispatch_json = text; updated_at = now }) (λ row. refl)
                      d.job_id t,
                ))
                (record {
                  dispatched = read;
                  named = h.named;
                  prompted = h.prompted;
                  numbered = h.numbered;
                  pended = h.pended;
                }),
          )
        ])
      ]

  set_state-known :
      (k : String) (s : JobState) (r : JobRecord J) (row : Row)
      → find k t ≡ some row
      → Represents codec row r
      → Own (set_state k s) (some r)
  unfolding handle job_step
  set_state-known k s r row e h =
      let read : parse_state row.state ≡ ok r.state =
        ap parse_state h.named ∙ parse_state-state_str r.state in
      elim (Bool-cases (can_transition_to r.state s)) [
        | inr no_way ↦ rw no_way (ground arith, related_at codec _ row r (ground arith) h)
        | inl way ↦ rw way (
          ground arith,
          related_at codec _ (record row { state = state_str s; updated_at = now })
              (record r { state = s })
              (ground (
                arith,
                find-update_own (λ row. record row { state = state_str s; updated_at = now })
                    (λ row. refl) t k row e,
              ))
              (record {
                dispatched = h.dispatched;
                named = refl;
                prompted = h.prompted;
                numbered = h.numbered;
                pended = h.pended;
              }),
        )
      ]

  set_prompt-known :
      (k p : String) (r : JobRecord J) (row : Row)
      → find k t ≡ some row
      → Represents codec row r
      → Own (set_prompt k p) (some r)
  unfolding handle job_step
  set_prompt-known k p r row e h = (
    ground (arith, rows_affected-some k t row e),
    related_at codec _ (record row { prompt_id = some p; updated_at = now })
        (record r { prompt_id = some p })
        (find-update_own (λ row. record row { prompt_id = some p; updated_at = now }) (λ row. refl)
          t k row e)
        (record {
          dispatched = h.dispatched;
          named = h.named;
          prompted = refl;
          numbered = h.numbered;
          pended = h.pended;
        }),
  )

  set_prompt-missing : (k p : String) → find k t ≡ none → Own (set_prompt k p) none
  unfolding handle job_step
  set_prompt-missing k p e = (
    ground (arith, rows_affected-none k t e),
    subst (λ x. Agree codec x none) (sym (find-update_missing _ (λ row. refl) t _ k e)) tt,
  )

  clear_pending-known :
      (k : String) (n : ℕ) (r : JobRecord J) (row : Row)
      → n < 2 ^ 63
      → find k t ≡ some row
      → Represents codec row r
      → Own (clear_pending k n) (some r)
  unfolding handle job_step decode_pending
  clear_pending-known k n r row small e h = elim (Bool-cases (r.event_sequence == n)) [
    | inr later ↦
        rw later (refl, related_at codec _ row r (written false (numbered_test ∙ later)) h)
    | inl now' ↦ rw now' (
      refl,
      related_at codec _ (record row { pending_event_json = none; updated_at = now })
          (record r { pending_event = none }) (written true (numbered_test ∙ now'))
          (record {
            dispatched = h.dispatched;
            named = h.named;
            prompted = h.prompted;
            numbered = h.numbered;
            pended = refl;
          }),
    )
  ]
    where
      numbered_test : i64_eq row.event_sequence (to_i64 n) ≡ (r.event_sequence == n)
      numbered_test = i64_eq-to_i64 row.event_sequence r.event_sequence n h.numbered small

      written :
          (b : Bool)
          → i64_eq row.event_sequence (to_i64 n) ≡ b
          → find k (clear_pending_event t now k n).0
            ≡ some (if b then record row { pending_event_json = none; updated_at = now } else row)
      written b p =
          find-update_also (λ row. record row { pending_event_json = none; updated_at = now })
            (λ row. refl) t (λ row. i64_eq row.event_sequence (to_i64 n)) k row e
          ∙ ap
              (λ c.
                some
                  (if c then record row { pending_event_json = none; updated_at = now } else row))
              p

  clear_pending-missing : (k : String) (n : ℕ) → find k t ≡ none → Own (clear_pending k n) none
  unfolding handle job_step
  clear_pending-missing k n e =
      (refl, subst (λ x. Agree codec x none) (sym (find-update_missing _ (λ row. refl) t _ k e)) tt)

  set_pending-known :
      (e : JobEvent) (s : Option JobState) (r : JobRecord J) (row : Row)
      → Stored codec.event e
      → e.sequence < 2 ^ 63
      → find e.job_id t ≡ some row
      → Represents codec row r
      → Own (set_pending e s) (some r)
  unfolding handle job_step
  set_pending-known e s r row (text, written, read) small at h =
      let checked = check_event_lem codec t s e text row r at h written in
      elim (Bool-cases (stale r e)) [
        | inl old ↦ rw old (ground arith, related_at codec _ row r (ground arith) h)
        | inr new ↦ rw new (elim (Bool-cases (allowed r.state s)) [
          | inr no_way ↦ rw no_way (ground arith, related_at codec _ row r (ground arith) h)
          | inl way ↦ rw way (
            ground (arith, rows_affected-some e.job_id t row at),
            related_at codec _ (event_row s e.sequence text now row)
                (record r {
                  state = or_same r.state s;
                  event_sequence = e.sequence;
                  pending_event = some e;
                })
                (ground (
                  arith,
                  rows_affected-some e.job_id t row at,
                  find-update_own (event_row s e.sequence text now)
                      (event_row-job_id s e.sequence text now) t e.job_id row at,
                ))
                (event_row-Represents codec s e text now row r h read small),
          )
        ])
      ]

  -- The refinement for one request and its own job.
  pub request_refines :
      (q : Request J) (o : Option (JobRecord J))
      → Storable codec q
      → Agree codec (find (target q) t) o
      → Own q o
  unfolding handle job_step
  request_refines (upsert d) none s a = upsert-new d s (Agree-none codec _ a)
  request_refines (upsert d) (some r) s a =
      let (row, e, h) = Agree-some codec _ r a in upsert-known d r row s e h
  request_refines (set_state k n) none s a =
      let e = Agree-none codec (find k t) a in
      (ground arith, subst (λ x. Agree codec x none) (ground arith) a)
  request_refines (set_state k n) (some r) s a =
      let (row, e, h) = Agree-some codec _ r a in set_state-known k n r row e h
  request_refines (set_prompt k p) none s a = set_prompt-missing k p (Agree-none codec _ a)
  request_refines (set_prompt k p) (some r) s a =
      let (row, e, h) = Agree-some codec _ r a in set_prompt-known k p r row e h
  request_refines (set_pending ev n) none s a =
      let e = Agree-none codec (find ev.job_id t) a in
      (ground arith, subst (λ x. Agree codec x none) (ground arith) a)
  request_refines (set_pending ev n) (some r) s a =
      let (row, e, h) = Agree-some codec _ r a in set_pending-known ev n r row s.0 s.1 e h
  request_refines (clear_pending k n) none s a = clear_pending-missing k n (Agree-none codec _ a)
  request_refines (clear_pending k n) (some r) s a =
      let (row, e, h) = Agree-some codec _ r a in clear_pending-known k n r row s e h
