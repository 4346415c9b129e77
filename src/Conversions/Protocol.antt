-- ===== src/Conversions/Protocol.antt =====
-- The protocol of conversions, over the routes of deploy/cloudflare/src/trialConversion.ts,
-- productionPlacement.ts, trialConversionReconcile.ts and the protocol of provisioning jobs.
pub mod Rows
pub mod Moves
use dsx_control_plane.Base.{
  ℕ, ◌≤◌, ◌≡◌, ◌⊎◌, Bool, true, false, ◌||◌, Option, none, some, List, [], ◌∷◌,
}
use dsx_control_plane.Base.Lists.{count_where, some_of}
use dsx_control_plane.Text.{Text}
use dsx_control_plane.Db.{Db, conversion_of}
use dsx_control_plane.Db.States.{
  ConversionState, requested, approved, provisioning, ready, failed, cancelled, same_conversion,
}
use dsx_control_plane.Db.Rows.{Conversion}
use dsx_control_plane.Http.{Env, Request}
use dsx_control_plane.Provisioning.Protocol
use dsx_control_plane.Conversions.Requests.{create_conversion, blocks}
use dsx_control_plane.Conversions.Reconcile.{reconcile_trial_conversion}

-- One request or one round of the scheduled run, whatever comes of it.
pub data Step (env : Env) (db : Db) : Db → Type 0 where
  creates :
      (r : Request) (trial id : Text) (now : ℕ)
      → Step env db (create_conversion env r trial id now db).1
  provisions : {db' : Db} → Protocol.Step env db db' → Step env db db'
  reconciles : (job : Text) (now : ℕ) → Step env db (reconcile_trial_conversion job now db).1

pub data Reach (env : Env) (start : Db) : Db → Type 0 where
  here : Reach env start start
  next : {db db' : Db} → Reach env start db → Step env db db' → Reach env start db'

-- Where a conversion may go from each state.
unfoldable pub successors : ConversionState → List ConversionState
successors requested = approved ∷ []
successors approved = provisioning ∷ ready ∷ failed ∷ []
successors provisioning = ready ∷ failed ∷ []
successors ready = []
successors failed = []
successors cancelled = []

unfoldable pub may_become : ConversionState → ConversionState → Bool
unfolding successors some_of same_conversion
may_become a b = same_conversion a b || some_of (same_conversion b) (successors a)

-- What a step does to one request: a new one is requested, none goes away, and one that is there
-- advances, keeps its trial, key and mode, and keeps its target once it has left `requested`.
abbrev pub Advances : Option Conversion → Option Conversion → Type 0
Advances none none = Unit
Advances none (some c) = c.state ≡ requested
Advances (some c) none = ⊥
Advances (some c) (some c') =
    (may_become c.state c'.state ≡ true)
    × (c'.trial_tenant_id ≡ c.trial_tenant_id)
    × (c'.request_key ≡ c.request_key)
    × (c'.mode ≡ c.mode)
    × ((c.state ≡ requested) ⊎ (c'.target_tenant_id ≡ c.target_tenant_id))

-- At most one request of each trial is in use.
abbrev pub IsSingle : Db → Type 0
IsSingle db = (trial : Text) → count_where (blocks trial) db.trial_conversion_requests ≤ 1
