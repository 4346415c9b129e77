-- ===== src/Backups/Created.antt =====
-- A request of deploy/cloudflare/src/backups.ts that has created a job, looked up and sent again.
use dsx_control_plane.Base.{
  ℕ, ◌≡◌, ◌≢◌, refl, sym, inl, inr, Bool, true, false, none, some, List, [], ◌∷◌, ◌++◌, arith, ok,
  err, Option-cases, Result-cases,
}
use dsx_control_plane.Base.Lists.{find}
use dsx_control_plane.Text.{Text, ==_refl}
use dsx_control_plane.Json.{Fields}
use dsx_control_plane.Table.{row, row-append, key-row}
use dsx_control_plane.Db.{Db, backup_of, tenant_of}
use dsx_control_plane.Db.Rows.{BackupJob}
use dsx_control_plane.Http.{Env, Request, is_admin, read_json}
use dsx_control_plane.Http.Response.{Response, backup_job}
use dsx_control_plane.Backups.Jobs.{
  BackupJobInput, parse_backup_job_input, BackupPlan, is_backup_for, backup_by_key, new_backup,
  insert_backup, add_backup, check_backup_input, check_backup, create_backup_job,
}

module _ {ℓ} {A : Type ℓ} (p : A → Bool) where
  find-append :
      (xs : List A) (x : A) → find p xs ≡ none → p x ≡ true → find p (xs ++ x ∷ []) ≡ some x
  unfolding find
  find-append [] x h t = rw t refl
  find-append (y ∷ xs) x h t = ground (arith, find-append xs x)

module _ (p : BackupPlan) (id : Text) (now : ℕ) (db db' : Db)
    (h : add_backup p id now db ≡ some db') where
  backup-added : backup_of db' id ≡ some (new_backup p id now)
  unfolding add_backup insert_backup
  backup-added =
      ground (arith, h, row-append (λ x. x.id) id db.backup_jobs (new_backup p id now), ==_refl id)

  backup-added_by_key :
      backup_by_key db' p.tenant.id p.input.idempotency_key ≡ some (new_backup p id now)
  unfolding add_backup insert_backup
  backup-added_by_key =
      let own = is_backup_for p.tenant.id p.input.idempotency_key in
      ground (
        arith,
        h,
        find-append own db.backup_jobs (new_backup p id now),
        ==_refl p.tenant.id,
        ==_refl p.input.idempotency_key,
      )

check_backup_input-parts :
    (input : BackupJobInput) (db : Db) (p : BackupPlan)
    → check_backup_input input db ≡ ok p
    → (p.input ≡ input) × (p.tenant.id ≡ input.tenant_id)
unfolding check_backup_input
check_backup_input-parts input db p h = elim (Option-cases (tenant_of db input.tenant_id)) [
  | inl e ↦ absurd (ground arith)
  | inr (t, e) ↦
      let own : t.id ≡ input.tenant_id = key-row (λ x. x.id) input.tenant_id db.tenants {r = t} e in
      (ground arith, ground (arith, own))
]

check_backup-parts :
    (env : Env) (r : Request) (db : Db) (p : BackupPlan)
    → check_backup env r db ≡ ok p
    → (is_admin env r ≡ true)
      × (body : Fields) × (read_json r ≡ some body)
      × (parse_backup_job_input body ≡ ok p.input)
      × (p.tenant.id ≡ p.input.tenant_id)
unfolding check_backup
check_backup-parts env r db p h = elim (Option-cases (read_json r)) [
  | inl e ↦ absurd (ground arith)
  | inr (body, e) ↦ elim (Result-cases (parse_backup_job_input body)) [
    | inl (f, k) ↦ absurd (ground arith)
    | inr (input, k) ↦
        let checked : check_backup_input input db ≡ ok p = ground arith in
        let (same, own) = check_backup_input-parts input db p checked in
        (ground arith, body, e, rw same k, rw same own)
  ]
]

check_backup_input-refused :
    (input : BackupJobInput) (db : Db) (e : Response)
    → check_backup_input input db ≡ err e
    → e.status ≢ 201
unfolding check_backup_input
check_backup_input-refused input db e h = ground arith

check_backup-refused :
    (env : Env) (r : Request) (db : Db) (e : Response)
    → check_backup env r db ≡ err e
    → e.status ≢ 201
unfolding check_backup
check_backup-refused env r db e h = elim (Option-cases (read_json r)) [
  | inl n ↦ ground arith
  | inr (body, n) ↦ elim (Result-cases (parse_backup_job_input body)) [
    | inl (f, k) ↦ ground arith
    | inr (input, k) ↦ ground (arith, check_backup_input-refused input db e)
  ]
]

check_backup_input-again :
    (input : BackupJobInput) (db : Db) (j : BackupJob)
    → backup_by_key db input.tenant_id input.idempotency_key ≡ some j
    → check_backup_input input db ≡ err (record { status = 200; body = backup_job (some j) true })
unfolding check_backup_input
check_backup_input-again input db j h = rw (check_backup_input, h) refl

check_backup-again :
    (env : Env) (r : Request) (id : Text) (now : ℕ) (db db' : Db) (p : BackupPlan)
    → check_backup env r db ≡ ok p
    → add_backup p id now db ≡ some db'
    → check_backup env r db'
      ≡ err (record { status = 200; body = backup_job (some (new_backup p id now)) true })
unfolding check_backup
check_backup-again env r id now db db' p h k =
    let (admin, body, read, parsed, own) = check_backup-parts env r db p h in
    let found : backup_by_key db' p.input.tenant_id p.input.idempotency_key
        ≡ some (new_backup p id now) =
      rw (sym own) (backup-added_by_key p id now db db' k) in
    rw
      (
        check_backup,
        admin,
        read,
        parsed,
        check_backup_input-again p.input db' (new_backup p id now) found,
      )
      refl

-- A request that created a backup job: the job is what its id finds, as it was answered, and the
-- request, sent again with any other drawn id at any later time, is answered with that job and
-- `idempotent_replay: true`, and changes nothing.
pub create_backup_job-found :
    (env : Env) (r : Request) (id id' : Text) (now now' : ℕ) (db : Db)
    → (create_backup_job env r id now db).0.status ≡ 201
    → (j : BackupJob) × (backup_of (create_backup_job env r id now db).1 id ≡ some j)
      × ((create_backup_job env r id now db).0.body ≡ backup_job (some j) false)
      × (create_backup_job env r id' now' (create_backup_job env r id now db).1 ≡ (
        record { status = 200; body = backup_job (some j) true },
        (create_backup_job env r id now db).1,
      ))
unfolding create_backup_job row
create_backup_job-found env r id id' now now' db h = elim (Result-cases (check_backup env r db)) [
  | inl (e, f) ↦ absurd (check_backup-refused env r db e f (ground arith))
  | inr (p, f) ↦ elim (Option-cases (add_backup p id now db)) [
    | inl n ↦ absurd (ground arith)
    | inr (db', n) ↦
        let j = new_backup p id now in
        let found = backup-added p id now db db' n in
        (
          j,
          rw (create_backup_job, f, n) found,
          rw (create_backup_job, f, n, found) refl,
          rw (create_backup_job, f, n, check_backup-again env r id now db db' p f n) refl,
        )
  ]
]
