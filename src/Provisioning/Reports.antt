-- ===== src/Provisioning/Reports.antt =====
-- Which reports the route accepts. Reports/Ready has what a finished job leaves.
pub mod Ready
use mathlib.Core.Path.{subst}
use dsx_control_plane.Base.{
  ℕ, ◌+◌, ◌≡◌, ◌≢◌, ◌<◌, ◌≤◌, sym, Option-cases, ap, Bool, String, Result, ensure, or_else, ◌>>◌,
  ◌>>=◌, leb, leb→le, inl, inr, refl, true, Option, none, some, arith, ok, err, Result-cases,
}
use dsx_control_plane.Text.Patterns.{safe_code}
use dsx_control_plane.Text.{Text, text, ==_iff, ==_refl}
use dsx_control_plane.Time.{lease_end, trial_expiry_from}
use dsx_control_plane.Table.{always, row-update}
use dsx_control_plane.Db.{Db, tenant_of, job_of, lease_of}
use dsx_control_plane.Db.States.{
  ProvisioningState, TenantStatus, EnvironmentKind, TrialState, same_kind,
}
use dsx_control_plane.Db.Rows.{Tenant, ProvisioningJob, Lease}
use dsx_control_plane.Http.{Env, Request, authenticate_node, read_json}
use dsx_control_plane.Json.{Fields, get, string_value}
use dsx_control_plane.Base.Lists.{length}
use dsx_control_plane.Http.Response.{Response, settle}
use dsx_control_plane.Provisioning.Results.{
  parse_operation_result, parse_reported, state_field, lowered, is_null_or, database_ok,
  reported_error, reported_name, Reported, OperationResultInput, running, ready, failed, state_of,
}
use dsx_control_plane.Provisioning.DatabaseName.{expected_database_name}
use dsx_control_plane.Provisioning.Operations.Claim.{Source}
use dsx_control_plane.Provisioning.Machine.{can_transition}
use dsx_control_plane.Provisioning.Operations.{fail_tenant}
use dsx_control_plane.Provisioning.Effects.{lease-finish_job, job-finish_job}
use dsx_control_plane.Provisioning.Protocol.Moves.{holds_lease-eq-some}
use dsx_control_plane.Provisioning.Operations.Report.{
  holds_lease, check_report, apply_report, report_operation_result, write_result, set_tenant,
  agrees, ready_tenant, finish_job, finished_job,
}

-- The request holds the token of an active node, and the lease of the job on that node, unexpired.
pub record IsAuthorized (env : Env) (r : Request) (node k lease_token : Text) (now : ℕ) (db : Db)
    : Type 0 where
  pub agent : authenticate_node env r node db ≡ true
  pub lease : Lease
  pub held : lease_of db k ≡ some lease
  pub on_node : lease.node_id ≡ node
  pub secret : lease.lease_token_hash ≡ env.sha256 lease_token
  pub unexpired : now < lease.lease_expires_at

holds_lease-parts :
    (db : Db) (k node hash : Text) (now : ℕ) (l : Lease)
    → holds_lease db k node hash now ≡ true
    → lease_of db k ≡ some l
    → (l.node_id ≡ node) × (l.lease_token_hash ≡ hash) × (now < l.lease_expires_at)
unfolding holds_lease
holds_lease-parts db k node hash now l h held =
    ground (arith, ==_iff l.node_id node, ==_iff l.lease_token_hash hash)

check_report-holds :
    (env : Env) (r : Request) (node k : Text) (now : ℕ) (db : Db) (input : OperationResultInput)
    (c : Source)
    → check_report env r node k now db ≡ ok (input, c)
    → (authenticate_node env r node db ≡ true)
      × (holds_lease db k node (env.sha256 input.lease_token) now ≡ true)
unfolding check_report
check_report-holds env r node k now db input c h = (ground arith, ground arith)

check_report-refused :
    (env : Env) (r : Request) (node k : Text) (now : ℕ) (db : Db) (e : Response)
    → check_report env r node k now db ≡ err e
    → e.status ≢ 200
unfolding check_report
check_report-refused env r node k now db e h = ground arith

-- What a parser of this form lets through.
parsed_token :
    (token : Text) (long : Bool) (word : Option Reported) (codes : Bool) (names : Reported → Bool)
    (error name : Reported → Option Text) (a b c d : String) (input : OperationResultInput)
    → (ensure long a
        >> (or_else word b >>= λ state.
            ensure codes c
            >> (ensure (names state) d
                >> ok (record {
                  lease_token = token;
                  state = state;
                  error_code = error state;
                  database_name = name state;
                }))))
      ≡ ok input
    → (input.lease_token ≡ token) × (long ≡ true)
parsed_token token long word codes names error name a b c d input h = (ground arith, ground arith)

parse_operation_result-token :
    (body : Fields) (input : OperationResultInput)
    → parse_operation_result body ≡ ok input
    → (input.lease_token ≡ string_value (get body (text "lease_token")) 256)
      × (16 ≤ length input.lease_token)
unfolding parse_operation_result
parse_operation_result-token body input h =
    let token = string_value (get body (text "lease_token")) 256 in
    let code = lowered (get body (text "error_code")) 120 in
    let database = lowered (get body (text "database_name")) 63 in
    let (same, long) =
      parsed_token token (leb 16 (length token))
        (parse_reported (state_field (get body (text "state")))) (is_null_or safe_code code)
        (λ s. database_ok s database) (λ s. reported_error s code) (λ s. reported_name s database)
        "invalid_lease_token" "invalid_operation_state" "invalid_error_code" "invalid_database_name"
        input h in
    (same, rw same (leb→le 16 _ long))

check_report-token :
    (env : Env) (r : Request) (node k : Text) (now : ℕ) (db : Db) (input : OperationResultInput)
    (c : Source)
    → check_report env r node k now db ≡ ok (input, c)
    → (body : Fields) × (read_json r ≡ some body)
      × (input.lease_token ≡ string_value (get body (text "lease_token")) 256)
      × (16 ≤ length input.lease_token)
unfolding check_report
check_report-token env r node k now db input c h = elim (Option-cases (read_json r)) [
  | inl e ↦ absurd (ground arith)
  | inr (body, e) ↦
      let parsed : parse_operation_result body ≡ ok input =
        elim (Result-cases (parse_operation_result body)) [
          | inl (f, p) ↦ absurd (ground arith)
          | inr (i, p) ↦ ground arith
        ] in
      let (same, long) = parse_operation_result-token body input parsed in (body, e, same, long)
]

-- A report is accepted only from the agent of an active node, with a JSON object as its body. The
-- `lease_token` of that object, trimmed and cut at 256 units, has at least 16 units, and its digest
-- is that of the lease of the job, which is on the node and has not expired.
pub report_operation_result-IsAuthorized :
    (env : Env) (r : Request) (node k : Text) (now : ℕ) (db : Db)
    → (report_operation_result env r node k now db).0.status ≡ 200
    → (body : Fields) × (read_json r ≡ some body)
      × (16 ≤ length (string_value (get body (text "lease_token")) 256))
      × IsAuthorized env r node k (string_value (get body (text "lease_token")) 256) now db
unfolding report_operation_result
report_operation_result-IsAuthorized env r node k now db accepts =
    elim (Result-cases (check_report env r node k now db)) [
      | inl (e, h) ↦ absurd (check_report-refused env r node k now db e h (ground arith))
      | inr ((input, c), h) ↦
          let (agent, holds) = check_report-holds env r node k now db input c h in
          let (l, held) = holds_lease-eq-some db k node (env.sha256 input.lease_token) now holds in
          let (on, secret, later) =
            holds_lease-parts db k node (env.sha256 input.lease_token) now l holds held in
          let (body, read, same, long) = check_report-token env r node k now db input c h in
          (
            body,
            read,
            rw (sym same) long,
            record {
              agent = agent;
              lease = l;
              held = held;
              on_node = on;
              secret = rw (sym same) secret;
              unexpired = later;
            },
          )
    ]

apply_report-unchanged :
    (env : Env) (input : OperationResultInput) (c : Source) (node k : Text) (now : ℕ) (db : Db)
    → (settle db (apply_report env input c node k now db)).0.status ≢ 200
    → (settle db (apply_report env input c node k now db)).1 ≡ db
unfolding apply_report
apply_report-unchanged env input c node k now db h = ground arith

-- A report that is not accepted, for whatever reason, leaves the database as it was.
pub report_operation_result-unchanged :
    (env : Env) (r : Request) (node k : Text) (now : ℕ) (db : Db)
    → (report_operation_result env r node k now db).0.status ≢ 200
    → (report_operation_result env r node k now db).1 ≡ db
unfolding report_operation_result
report_operation_result-unchanged env r node k now db h =
    elim (Result-cases (check_report env r node k now db)) [
      | inl (e, f) ↦ rw f refl
      | inr ((input, c), f) ↦ rw f (apply_report-unchanged env input c node k now db (rw f at h))
    ]

no_lease_no_report :
    (env : Env) (r : Request) (node k : Text) (now : ℕ) (db : Db)
    → lease_of db k ≡ none
    → (report_operation_result env r node k now db).0.status ≢ 200
no_lease_no_report env r node k now db gone accepts =
    let (body, read, long, a) = report_operation_result-IsAuthorized env r node k now db accepts in
    cc (gone, a.held)

pub write_result-releases :
    (s : Reported) (input : OperationResultInput) (j : ProvisioningJob) (node k : Text)
    (until now : ℕ) (db db' : Db)
    → s ≢ running
    → write_result s input j node k until now db ≡ some db'
    → lease_of db' k ≡ none
unfolding write_result
write_result-releases running input j node k until now db db' ends h = absurd (ends refl)
write_result-releases ready input j node k until now db db' ends h = ground (
  arith,
  lease-finish_job k input j node k now
      (set_tenant j.tenant_id (ready_tenant input.database_name now) db) db,
  ==_refl k,
)
write_result-releases failed input j node k until now db db' ends h = ground (
  arith,
  lease-finish_job k input j node k now (set_tenant j.tenant_id (fail_tenant now) db) db,
  ==_refl k,
)

-- What an accepted report of `ready` or `failed` has done is the batch of its last part.
pub apply_report-written :
    (env : Env) (input : OperationResultInput) (c : Source) (node k : Text) (now : ℕ) (db : Db)
    → input.state ≢ running
    → (settle db (apply_report env input c node k now db)).0.status ≡ 200
    → (can_transition c.job.state (state_of input.state) ≡ true)
      × (agrees input.state input.database_name
            (expected_database_name c.template.database_prefix c.tenant.slug c.tenant.id)
          ≡ true)
      × (write_result input.state input c.job node k
            (lease_end env.node_operation_lease_seconds now)
            now
            db
          ≡ some (settle db (apply_report env input c node k now db)).1)
unfolding apply_report
apply_report-written env input c node k now db ends accepts =
    (ground arith, ground arith, ground arith)

-- An accepted report of `ready` or `failed` is the last: with no new lease, every later report on
-- the job is refused, whoever sends it.
pub report_operation_result-once :
    (env : Env) (r : Request) (node k : Text) (now : ℕ) (db : Db) (input : OperationResultInput)
    (c : Source)
    → check_report env r node k now db ≡ ok (input, c)
    → input.state ≢ running
    → (report_operation_result env r node k now db).0.status ≡ 200
    → (r' : Request) (node' : Text) (now' : ℕ)
    → (report_operation_result env r' node' k now'
        (report_operation_result env r node k now db).1).0.status
      ≢ 200
report_operation_result-once env r node k now db input c checked ends accepts r' node' now' =
    no_lease_no_report env r' node' k now' _ (released accepts)
  where
    released :
        (report_operation_result env r node k now db).0.status ≡ 200
        → lease_of (report_operation_result env r node k now db).1 k ≡ none
    released a =
        unfold report_operation_result in
        rw checked (
          write_result-releases input.state input c.job node k
            (lease_end env.node_operation_lease_seconds now) now db _ ends
            (apply_report-written env input c node k now db ends
              (rw (report_operation_result, checked) at a)).2)
