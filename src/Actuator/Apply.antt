-- ===== src/Actuator/Apply.antt =====
-- internal/actuator/actuator.go: the registry of the actuators, and `Apply`.
use go_tron.Prelude.{ℕ, Option, none, some, List, [], ◌∷◌}
use go_tron.Prelude.Bytes.{Bytes}
use go_tron.Prelude.Result.{Result, ok, ◌>>=◌, ◌>>◌}
use go_tron.Resource.Stake.{Float64}
use go_tron.State.{State}
use go_tron.Actuator.{
  Checked, Error, Contract, transfer, freeze_balance_v2, unfreeze_balance_v2,
  withdraw_expire_unfreeze, delegate_resource, undelegate_resource, vote_witness, withdraw_balance,
  elsewhere, validate_transfer, execute_transfer,
}
use go_tron.Actuator.Reward.{validate_withdraw_balance, execute_withdraw_balance}
use go_tron.Actuator.Stake2.{
  validate_freeze_v2, execute_freeze_v2, validate_unfreeze_v2, execute_unfreeze_v2,
  validate_withdraw_expire, execute_withdraw_expire,
}
use go_tron.Actuator.Delegate.{
  validate_delegate, execute_delegate, validate_undelegate, execute_undelegate,
}
use go_tron.Actuator.Voting.{validate_vote, execute_vote}

-- The actuators that are not modelled here: those of the virtual machine and of Stake 1.0. `none`
-- is a type without an actuator.
pub record Others : Type 0 where
  pub actuator : ℕ → Option ((Bytes → State → Checked) × (Bytes → State → Result Error State))

module _ (f : Float64) (o : Others) where
  unfoldable pub validate : Contract → State → Checked
  unfolding validate_transfer validate_freeze_v2 validate_unfreeze_v2 validate_withdraw_expire
      validate_delegate validate_undelegate validate_vote validate_withdraw_balance
  validate (transfer owner to amount) st = validate_transfer owner to amount st
  validate (freeze_balance_v2 owner balance code) st = validate_freeze_v2 owner balance code st
  validate (unfreeze_balance_v2 owner balance code) st = validate_unfreeze_v2 owner balance code st
  validate (withdraw_expire_unfreeze owner) st = validate_withdraw_expire owner st
  validate (delegate_resource owner receiver balance code lock) st =
      validate_delegate owner receiver balance code lock st
  validate (undelegate_resource owner receiver balance code) st =
      validate_undelegate owner receiver balance code st
  validate (vote_witness owner votes) st = validate_vote owner votes st
  validate (withdraw_balance owner) st = validate_withdraw_balance f owner st
  validate (elsewhere type parameter) st = elim (o.actuator type) [
    | none ↦ ok tt
    | some (check, _) ↦ check parameter st
  ]

  unfoldable pub execute : Contract → State → Result Error State
  unfolding execute_transfer execute_freeze_v2 execute_unfreeze_v2 execute_withdraw_expire
      execute_delegate execute_undelegate execute_vote execute_withdraw_balance
  execute (transfer owner to amount) st = execute_transfer owner to amount st
  execute (freeze_balance_v2 owner balance code) st = execute_freeze_v2 owner balance code st
  execute (unfreeze_balance_v2 owner balance code) st = execute_unfreeze_v2 f owner balance code st
  execute (withdraw_expire_unfreeze owner) st = execute_withdraw_expire owner st
  execute (delegate_resource owner receiver balance code lock) st =
      execute_delegate owner receiver balance code st
  execute (undelegate_resource owner receiver balance code) st =
      execute_undelegate owner receiver balance code st
  execute (vote_witness owner votes) st = execute_vote f owner votes st
  execute (withdraw_balance owner) st = execute_withdraw_balance f owner st
  execute (elsewhere type parameter) st = elim (o.actuator type) [
    | none ↦ ok st
    | some (_, run) ↦ run parameter st
  ]

  -- Every contract of a transaction, in order: the first error ends it.
  unfoldable pub apply : List Contract → State → Result Error State
  unfolding validate execute
  apply [] st = ok st
  apply (c ∷ cs) st = do validate c st; next ← execute c st; apply cs next
