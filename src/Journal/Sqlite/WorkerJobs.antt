-- ===== src/Journal/Sqlite/WorkerJobs.antt =====
-- The table `worker_jobs` of crates/nagisalake-journal/src/sqlite.rs, and the SQL statements on it.
use nagisa_lake.Prelude.{
  ℕ, suc, ◌≡◌, refl, String, Bool, Option, none, some, List, [], ◌∷◌, ◌++◌, if◌then◌else◌, ◌=ˢ◌,
  arith, eq_iff, false, ◌==◌, ◌&&◌, Option-cases, inl, inr, ◌∙◌, sym,
}
use nagisa_lake.Protocol.Messages.{I64}

pub record Row : Type 0 where
  pub job_id : String
  pub dispatch_json : String
  pub state : String
  pub prompt_id : Option String
  pub event_sequence : I64
  pub pending_event_json : Option String
  pub updated_at : I64

abbrev pub Table : Type 0
Table = List Row

-- `SELECT … WHERE job_id = ?` on the primary key.
unfoldable pub find : String → Table → Option Row
find k [] = none
find k (row ∷ t) = if row.job_id =ˢ k then some row else find k t

unfoldable pub insert_row : Row → Table → Table
insert_row row t = t ++ row ∷ []

-- `UPDATE … SET … WHERE …`.
unfoldable pub update_where : (Row → Bool) → (Row → Row) → Table → Table
update_where here set [] = []
update_where here set (row ∷ t) = (if here row then set row else row) ∷ update_where here set t

unfoldable pub rows_affected : (Row → Bool) → Table → ℕ
rows_affected here [] = 0
rows_affected here (row ∷ t) =
    let rest = rows_affected here t in if here row then suc rest else rest

abbrev pub option_map {ℓ κ} : {A : Type ℓ} {B : Type κ} → (A → B) → Option A → Option B
option_map f none = none
option_map f (some a) = some (f a)

abbrev pub or_else {ℓ} : {A : Type ℓ} → Option A → Option A → Option A
or_else none o = o
or_else (some a) o = some a

pub find-job_id : (k : String) (t : Table) (row : Row) → find k t ≡ some row → row.job_id ≡ k
unfolding find
find-job_id k [] row e = cc
find-job_id k (r ∷ t) row e = ground (arith, eq_iff r.job_id k, find-job_id k t row)

pub find-insert_row :
    (k : String) (row : Row) (t : Table)
    → find k (insert_row row t) ≡ or_else (find k t) (if row.job_id =ˢ k then some row else none)
unfolding find insert_row
find-insert_row k row [] = refl
find-insert_row k row (r ∷ t) = ground (arith, find-insert_row k row t)

module _ (here : Row → Bool) (set : Row → Row) (keeps : (r : Row) → (set r).job_id ≡ r.job_id) where
  pub find-update_where :
      (k : String) (t : Table)
      → find k (update_where here set t)
        ≡ option_map (λ row. if here row then set row else row) (find k t)
  unfolding find update_where
  find-update_where k [] = refl
  find-update_where k (r ∷ t) = ground (arith, keeps r, find-update_where k t)

pub rows_affected-none :
    (k : String) (t : Table) → find k t ≡ none → rows_affected (λ row. row.job_id =ˢ k) t ≡ 0
unfolding find rows_affected
rows_affected-none k [] e = refl
rows_affected-none k (r ∷ t) e = ground (arith, rows_affected-none k t)

pub rows_affected-some :
    (k : String) (t : Table) (row : Row)
    → find k t ≡ some row
    → (rows_affected (λ row. row.job_id =ˢ k) t == 0) ≡ false
unfolding find rows_affected
rows_affected-some k [] row e = cc
rows_affected-some k (r ∷ t) row e = ground (arith, rows_affected-some k t row)

module _ (set : Row → Row) (keeps : (r : Row) → (set r).job_id ≡ r.job_id) (t : Table) where
  pub find-update_own :
      (k : String) (row : Row)
      → find k t ≡ some row
      → find k (update_where (λ r. r.job_id =ˢ k) set t) ≡ some (set row)
  find-update_own k row e = ground (
    arith,
    find-update_where (λ r. r.job_id =ˢ k) set keeps k t,
    find-job_id k t row e,
    eq_iff row.job_id k,
  )

  pub find-update_missing :
      (here : Row → Bool) (k : String) → find k t ≡ none → find k (update_where here set t) ≡ none
  find-update_missing here k e = ground (arith, find-update_where here set keeps k t)

  -- An update of one job leaves the rows of every other.
  pub find-update_other :
      (also : Row → Bool) (k j : String)
      → (k =ˢ j) ≡ false
      → find j (update_where (λ r. r.job_id =ˢ k && also r) set t) ≡ find j t
  find-update_other also k j h = elim (Option-cases (find j t)) [
    | inl e ↦ find-update_missing (λ r. r.job_id =ˢ k && also r) j e ∙ sym e
    | inr (row, e) ↦ ground (
      arith,
      find-update_where (λ r. r.job_id =ˢ k && also r) set keeps j t,
      find-job_id j t row e,
      eq_iff row.job_id k,
      eq_iff k j,
    )
  ]

  pub find-update_also :
      (also : Row → Bool) (k : String) (row : Row)
      → find k t ≡ some row
      → find k (update_where (λ r. r.job_id =ˢ k && also r) set t)
        ≡ some (if also row then set row else row)
  find-update_also also k row e = ground (
    arith,
    find-update_where (λ r. r.job_id =ˢ k && also r) set keeps k t,
    find-job_id k t row e,
    eq_iff row.job_id k,
  )

  pub find-update_else :
      (k j : String)
      → (k =ˢ j) ≡ false
      → find j (update_where (λ r. r.job_id =ˢ k) set t) ≡ find j t
  find-update_else k j h = elim (Option-cases (find j t)) [
    | inl e ↦ find-update_missing (λ r. r.job_id =ˢ k) j e ∙ sym e
    | inr (row, e) ↦ ground (
      arith,
      find-update_where (λ r. r.job_id =ˢ k) set keeps j t,
      find-job_id j t row e,
      eq_iff row.job_id k,
      eq_iff k j,
    )
  ]
