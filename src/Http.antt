-- ===== src/Http.antt =====
-- Requests, responses and authentication: `readJson`, `bearerToken` and `isAdmin` as every route
-- file declares them (deploy/cloudflare/src/provisioning.ts), and `authenticateNode` of
-- deploy/cloudflare/src/nodeOperations.ts. SHA-256 and `JSON.parse` are fields of `Env`;
-- the ids and secrets that the platform draws, and the time, are arguments of the handlers.
pub mod Response
use dsx_control_plane.Base.{
  ℕ, zero, suc, Bool, true, false, ◌&&◌, not, Option, none, some, List, [], ◌∷◌, if◌then◌else◌,
}
use dsx_control_plane.Text.{Text, ◌==◌, text, is_empty, is_space, trim, to_lower_case, slice}
use dsx_control_plane.Json.{Json, object, Fields}
use dsx_control_plane.Time.{EnvNumber}
use dsx_control_plane.Db.States.{is_active}
use dsx_control_plane.Db.Rows.{Node}
use dsx_control_plane.Db.{Db, node_of}

pub record Env : Type 0 where
  pub sha256 : Text → Text
  pub json_parse : Text → Option Json
  pub admin_api_token : Text
  pub trial_base_domain : Option Text
  pub production_provisioning_enabled : Option Text
  pub node_offline_seconds : EnvNumber
  pub node_operation_lease_seconds : EnvNumber

-- The `authorization` header, and the body by what `request.json()` makes of it.
pub record Request : Type 0 where
  pub authorization : Option Text
  pub body : Option Json

unfoldable pub read_json : Request → Option Fields
read_json request = elim request.body [ some (object fs) ↦ some fs | _ ↦ none ]

abbrev pub drop : ℕ → Text → Text
drop zero s = s
drop (suc n) [] = []
drop (suc n) (c ∷ s) = drop n s

unfoldable pub after_scheme : Text → Text
unfolding is_space trim
after_scheme [] = []
after_scheme (c ∷ s) = if is_space c then trim s else []

-- /^Bearer\s+(.+)$/i, trimmed; a header value holds no line terminator.
unfoldable pub bearer_token : Request → Text
unfolding after_scheme to_lower_case ◌==◌
bearer_token request = elim request.authorization [
  | none ↦ []
  | some header ↦
      if to_lower_case (slice 6 header) == text "bearer" then after_scheme (drop 6 header) else []
]

unfoldable pub is_admin : Env → Request → Bool
unfolding ◌==◌ is_empty
is_admin env request =
    let supplied = bearer_token request in
    not (is_empty supplied)
    && not (is_empty env.admin_api_token)
    && env.sha256 supplied == env.sha256 env.admin_api_token

unfoldable pub is_live : Option Node → Bool
unfolding is_active
is_live none = false
is_live (some n) =
    is_active n.lifecycle_state && (elim n.revoked_at [ none ↦ true | some _ ↦ false ])

abbrev pub has_token : Text → Option Node → Bool
has_token hash none = false
has_token hash (some n) = n.agent_token_hash == hash

unfoldable pub authenticate_node : Env → Request → Text → Db → Bool
unfolding is_live ◌==◌ is_empty
authenticate_node env request node_id db =
    let token = bearer_token request in
    not (is_empty token)
    && is_live (node_of db node_id)
    && has_token (env.sha256 token) (node_of db node_id)
