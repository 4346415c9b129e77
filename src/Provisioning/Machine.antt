-- ===== src/Provisioning/Machine.antt =====
-- The states of a provisioning job: `TRANSITIONS` and `canTransitionProvisioningState` of
-- deploy/cloudflare/src/provisioning.ts, `retryMode` of provisioningRetry.ts, and the words of the
-- states.
use dsx_control_plane.Base.{String, Bool, List, [], ◌∷◌}
use dsx_control_plane.Base.Lists.{some_of}
use dsx_control_plane.Db.States.{
  ProvisioningState, queued, placed, dispatched, running, ready, failed, retrying, same_state,
}

unfoldable pub transitions : ProvisioningState → List ProvisioningState
transitions queued = placed ∷ failed ∷ []
transitions placed = dispatched ∷ failed ∷ []
transitions dispatched = running ∷ failed ∷ []
transitions running = ready ∷ failed ∷ []
transitions ready = []
transitions failed = retrying ∷ []
transitions retrying = dispatched ∷ failed ∷ []

unfoldable pub can_transition : ProvisioningState → ProvisioningState → Bool
unfolding transitions some_of same_state
can_transition from to = some_of (λ s. same_state s to) (transitions from)

pub data RetryMode : Type 0 where
  transition replay reject : RetryMode

unfoldable pub retry_mode : ProvisioningState → RetryMode
retry_mode failed = transition
retry_mode retrying = replay
retry_mode _ = reject

abbrev pub state_word : ProvisioningState → String
state_word queued = "queued"
state_word placed = "placed"
state_word dispatched = "dispatched"
state_word running = "running"
state_word ready = "ready"
state_word failed = "failed"
state_word retrying = "retrying"
