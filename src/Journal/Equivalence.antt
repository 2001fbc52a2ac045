-- ===== src/Journal/Equivalence.antt =====
-- crates/nagisalake-journal: the in-memory journal and the SQLite journal keep one contract.
use nagisa_lake.Prelude.{
  ◌≡◌, refl, sym, ap, ◌∙◌, subst, String, Option, none, some, List, [], ◌∷◌, get, eq_iff,
  Bool-cases, inl, inr, ok, ◌=ˢ◌, ◌>>=◌, All, if◌then◌else◌,
}
use nagisa_lake.Protocol.Json.{JsonOps}
use nagisa_lake.Protocol.Messages.{I64}
use nagisa_lake.Core.{JobRecord}
use nagisa_lake.Journal.State.{JournalError}
use nagisa_lake.Journal.Spec.{Request, target, job_step}
use nagisa_lake.Journal.Memory.{Records}
use nagisa_lake.Journal.Memory
use nagisa_lake.Journal.Memory.Refinement.{handle-refines-job_step}
use nagisa_lake.Journal.Sqlite.WorkerJobs.{Row, Table, find}
use nagisa_lake.Journal.Sqlite.Represents.{Agree, Storable, decode_job-Represents}
use nagisa_lake.Journal.Sqlite.Refinement.{request_refines}
use nagisa_lake.Journal.Sqlite.Frame.{handle-find}
use nagisa_lake.Journal.Sqlite.Decode.{Codec, decode_job}
use nagisa_lake.Journal.Sqlite

module _ {J : Type 0} (codec : Codec J) where
  -- Under each id, the table has a row exactly if the map has a record, and that row stands for it.
  abbrev pub Simulates : Table → Records J → Type 0
  Simulates t m = (k : String) → Agree codec (find k t) (get k m)

  pub get_job-Simulates :
      (t : Table) (m : Records J) (k : String)
      → Simulates t m
      → Sqlite.get_job codec t k ≡ ok (Memory.get_job m k)
  unfolding Sqlite.get_job Memory.get_job
  get_job-Simulates t m k sim = read (find k t) (get k m) (sim k)
    where
      read :
          (x : Option Row) (o : Option (JobRecord J))
          → Agree codec x o
          → elim x [ none ↦ ok none | some row ↦ decode_job codec row >>= λ r. ok (some r) ] ≡ ok o
      read none none a = refl
      read none (some r) a = absurd a
      read (some row) none a = absurd a
      read (some row) (some r) a = rw (decode_job-Represents codec row r a)

module _ {J : Type 0} (ops : JsonOps J) (codec : Codec J) where
  handle-error :
      (t : Table) (m : Records J) (now : I64) (q : Request J)
      → Storable codec q
      → Simulates codec t m
      → (Sqlite.handle codec ops t now q).1 ≡ (Memory.handle ops m q).1
  handle-error t m now q s sim =
      (request_refines ops codec t now q (get (target q) m) s (sim (target q))).0
      ∙ sym (handle-refines-job_step ops m q).0

  handle-keeps :
      (t : Table) (m : Records J) (now : I64) (q : Request J)
      → Storable codec q
      → Simulates codec t m
      → Simulates codec (Sqlite.handle codec ops t now q).0 (Memory.handle ops m q).0
  handle-keeps t m now q s sim k = elim (Bool-cases (target q =ˢ k)) [
    | inl own ↦
        subst
          (λ j.
            Agree codec (find j (Sqlite.handle codec ops t now q).0)
              (get k (Memory.handle ops m q).0))
          ((eq_iff (target q) k).0 own)
          (subst (Agree codec _)
            (sym (
              (handle-refines-job_step ops m q).1 k
              ∙ ap (λ b. if b then (job_step ops q (get (target q) m)).0 else get k m) own))
            (request_refines ops codec t now q (get (target q) m) s (sim (target q))).1)
    | inr other ↦
        subst (λ x. Agree codec x (get k (Memory.handle ops m q).0))
          (sym (handle-find ops codec t now q k other))
          (subst (Agree codec (find k t))
            (sym (
              (handle-refines-job_step ops m q).1 k
              ∙ ap (λ b. if b then (job_step ops q (get (target q) m)).0 else get k m) other))
            (sim k))
  ]

  -- The errors of a history, in order.
  unfoldable pub sqlite_run : Table → List (I64 × Request J) → Table × List (Option JournalError)
  sqlite_run t [] = (t, [])
  sqlite_run t ((now, q) ∷ qs) =
      let (t', e) = Sqlite.handle codec ops t now q in
      let (t'', es) = sqlite_run t' qs in (t'', e ∷ es)

  unfoldable pub memory_run :
      Records J → List (I64 × Request J) → Records J × List (Option JournalError)
  memory_run m [] = (m, [])
  memory_run m ((now, q) ∷ qs) =
      let (m', e) = Memory.handle ops m q in let (m'', es) = memory_run m' qs in (m'', e ∷ es)

  run-agree :
      (t : Table) (m : Records J) (qs : List (I64 × Request J))
      → All (λ q. Storable codec q.1) qs
      → Simulates codec t m
      → ((sqlite_run t qs).1 ≡ (memory_run m qs).1)
        × Simulates codec (sqlite_run t qs).0 (memory_run m qs).0
  unfolding sqlite_run memory_run
  run-agree t m [] s sim = (refl, sim)
  run-agree t m ((now, q) ∷ qs) (s, ss) sim =
      let (same, sim') =
        run-agree (Sqlite.handle codec ops t now q).0 (Memory.handle ops m q).0 qs ss
          (handle-keeps t m now q s sim) in
      (cc (handle-error t m now q s sim, same), sim')

  -- After one history of storable requests, both journals started empty have answered alike, and
  -- answer alike for every job.
  pub journals_agree :
      (qs : List (I64 × Request J)) (k : String)
      → All (λ q. Storable codec q.1) qs
      → ((sqlite_run [] qs).1 ≡ (memory_run [] qs).1)
        × (Sqlite.get_job codec (sqlite_run [] qs).0 k ≡ ok (Memory.get_job (memory_run [] qs).0 k))
  unfolding find get
  journals_agree qs k s =
      let (same, sim) = run-agree [] [] qs s (λ _. tt) in (same, get_job-Simulates codec _ _ k sim)
