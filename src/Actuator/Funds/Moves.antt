-- ===== src/Actuator/Funds/Moves.antt =====
-- internal/actuator/stake2.go and stake2_delegate.go: each change of one account keeps its funds,
-- up to what moves between accounts.
use go_tron.Prelude.{ℕ, ◌+◌, ◌%◌, ◌^◌, ◌≡◌, refl, List, [], ◌∷◌, ◌++◌, arith}
use go_tron.Prelude.Int.{ℤ, pos}
use go_tron.Prelude.Int64.{to_word, add64, sub64, mul64}
use go_tron.Prelude.Word64.{to_word-lt, to_word-add64, to_word-sub64, to_word-zero}
use go_tron.State.{Account, FreezeV2, UnfreezeV2, Vote}
use go_tron.Actuator.{frozen_period_ms}
use go_tron.Actuator.Funds.{funds, frozen_funds, unfrozen_funds}
use go_tron.Actuator.Stake2.{
  add_entry, add_frozen_v2, matured, pending, sweep_matured_unfrozen_v2, unfrozen_account,
}
use go_tron.Actuator.Delegate.{
  add_delegated_v2, lend, reclaim, give_back, add_acquired_delegated_v2,
}

frozen_funds-add_entry :
    (code : ℕ) (d : ℤ) (fs : List FreezeV2)
    → frozen_funds (add_entry code d fs) % 2 ^ 64 ≡ (frozen_funds fs + to_word d) % 2 ^ 64
unfolding add_entry
frozen_funds-add_entry code d [] = omega arith
frozen_funds-add_entry code d (f ∷ fs) =
    ground (arith, to_word-add64 f.amount d, frozen_funds-add_entry code d fs)

matured-pending :
    (now : ℤ) (us : List UnfreezeV2) (acc : ℤ)
    → (to_word (matured now us acc) + unfrozen_funds (pending now us)) % 2 ^ 64
      ≡ (to_word acc + unfrozen_funds us) % 2 ^ 64
unfolding matured pending
matured-pending now [] acc = refl
matured-pending now (u ∷ us) acc = ground (
  arith,
  to_word-add64 acc u.unfreeze_amount,
  matured-pending now us acc,
  matured-pending now us (add64 acc u.unfreeze_amount),
)

unfrozen_funds-append :
    (us vs : List UnfreezeV2) → unfrozen_funds (us ++ vs) ≡ unfrozen_funds us + unfrozen_funds vs
unfrozen_funds-append [] vs = omega arith
unfrozen_funds-append (u ∷ us) vs = omega (arith, unfrozen_funds-append us vs)

pub funds-sweep :
    (now : ℤ) (a : Account) → funds (sweep_matured_unfrozen_v2 now a) % 2 ^ 64 ≡ funds a % 2 ^ 64
unfolding funds sweep_matured_unfrozen_v2
funds-sweep now a = omega (
  arith,
  to_word-zero,
  to_word-add64 a.balance (matured now a.unfrozen_v2 (pos 0)),
  matured-pending now a.unfrozen_v2 (pos 0),
)

-- What is frozen leaves the balance.
pub funds-freeze :
    (code : ℕ) (d : ℤ) (a : Account)
    → funds (record (add_frozen_v2 code d a) { balance = sub64 a.balance d }) % 2 ^ 64
      ≡ funds a % 2 ^ 64
unfolding funds add_frozen_v2
funds-freeze code d a =
    omega
      (arith, to_word-lt d, to_word-sub64 a.balance d, frozen_funds-add_entry code d a.frozen_v2)

pub funds-unfrozen_account :
    (now delay d : ℤ) (code : ℕ) (a : Account)
    → funds (unfrozen_account now delay d code a) % 2 ^ 64 ≡ funds a % 2 ^ 64
unfolding funds unfrozen_account add_frozen_v2 sweep_matured_unfrozen_v2
funds-unfrozen_account now delay d code a =
    let entry : UnfreezeV2 = record {
      code = code;
      unfreeze_amount = d;
      unfreeze_expire_time = add64 now (mul64 delay frozen_period_ms);
    } in
    omega (
      arith,
      to_word-lt d,
      to_word-zero,
      to_word-sub64 (pos 0) d,
      to_word-add64 a.balance (matured now a.unfrozen_v2 (pos 0)),
      matured-pending now a.unfrozen_v2 (pos 0),
      unfrozen_funds-append (pending now a.unfrozen_v2) (entry ∷ []),
      frozen_funds-add_entry code (sub64 (pos 0) d) a.frozen_v2,
    )

pub funds-lend :
    (code : ℕ) (d : ℤ) (a : Account) → funds (lend code d a) % 2 ^ 64 ≡ funds a % 2 ^ 64
unfolding funds lend add_delegated_v2 add_frozen_v2
funds-lend code d a = ground (
  arith,
  to_word-lt d,
  to_word-zero,
  to_word-sub64 (pos 0) d,
  to_word-add64 a.delegated_frozen_v2_balance_for_bandwidth d,
  to_word-add64 a.account_resource.delegated_frozen_v2_balance_for_energy d,
  frozen_funds-add_entry code (sub64 (pos 0) d) a.frozen_v2,
)

pub funds-reclaim :
    (code : ℕ) (d : ℤ) (a : Account) → funds (reclaim code d a) % 2 ^ 64 ≡ funds a % 2 ^ 64
unfolding funds reclaim add_delegated_v2 add_frozen_v2
funds-reclaim code d a = ground (
  arith,
  to_word-lt d,
  to_word-zero,
  to_word-sub64 (pos 0) d,
  to_word-add64 a.delegated_frozen_v2_balance_for_bandwidth (sub64 (pos 0) d),
  to_word-add64 a.account_resource.delegated_frozen_v2_balance_for_energy (sub64 (pos 0) d),
  frozen_funds-add_entry code d a.frozen_v2,
)

pub funds-add_acquired_delegated_v2 :
    (code : ℕ) (d : ℤ) (a : Account) → funds (add_acquired_delegated_v2 code d a) ≡ funds a
unfolding funds add_acquired_delegated_v2
funds-add_acquired_delegated_v2 code d a = ground arith

pub funds-give_back : (code : ℕ) (d : ℤ) (a : Account) → funds (give_back code d a) ≡ funds a
unfolding funds give_back
funds-give_back code d a = ground arith

pub funds-withdraw_balance :
    (now : ℤ) (a : Account)
    → funds (record a {
      balance = add64 a.balance a.allowance;
      allowance = pos 0;
      latest_withdraw_time = now;
    })
        % 2 ^ 64
      ≡ funds a % 2 ^ 64
unfolding funds
funds-withdraw_balance now a = omega (arith, to_word-zero, to_word-add64 a.balance a.allowance)

pub funds-votes :
    (votes : List Vote) (a : Account)
    → funds (record a { votes = votes }) % 2 ^ 64 ≡ funds a % 2 ^ 64
unfolding funds
funds-votes votes a = refl
