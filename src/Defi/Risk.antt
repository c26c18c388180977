-- ===== src/Defi/Risk.antt =====
-- ace-defi/src/risk.rs: the limits on deposits and withdrawals of an external asset. The counters of a
-- day are a function of the flow, the asset and the day, which the code hashes into a storage slot.
pub mod Limits
use ace_chain.Common.{
  ℕ, ◌+◌, ◌/◌, Bool, true, false, not, ◌&&◌, ◌==◌, ltb, leb, if◌then◌else◌, max, u64_max,
}
use ace_chain.Common.Results.{Result, ok, err, ◌>>=◌, ◌>>◌, guard, checked_add}
use ace_chain.Consensus.SlotClock.{slot_duration_ms}
use ace_chain.Defi.Types.{
  BridgeError, deposit_paused, withdraw_paused, limit_exceeded, arithmetic_overflow,
}

-- `required_relayer_quorum` and the limits; the blocks of finality are read by nothing here.
pub record RiskConfig : Type 0 where
  pub deposits_paused : Bool
  pub withdrawals_paused : Bool
  pub max_single_deposit : ℕ
  pub max_single_withdrawal : ℕ
  pub daily_deposit_limit : ℕ
  pub daily_withdrawal_limit : ℕ
  pub finality_blocks : ℕ
  pub required_relayer_quorum : ℕ

abbrev pub tier1_stablecoin : RiskConfig
tier1_stablecoin = record {
  deposits_paused = false;
  withdrawals_paused = false;
  max_single_deposit = 1000000000000000000;
  max_single_withdrawal = 1000000000000000000;
  daily_deposit_limit = u64_max;
  daily_withdrawal_limit = u64_max;
  finality_blocks = 96;
  required_relayer_quorum = 1;
}

-- The two domains of the counters.
pub data Flow : Type 0 where
  deposits withdrawals : Flow

abbrev pub same_flow : Flow → Flow → Bool
same_flow deposits deposits = true
same_flow withdrawals withdrawals = true
same_flow _ _ = false

abbrev pub Counters : Type 0
Counters = Flow → ℕ → ℕ → ℕ

abbrev pub check_supported_quorum : RiskConfig → Result BridgeError (Unit {0})
check_supported_quorum c = guard (c.required_relayer_quorum == 1) limit_exceeded

unfoldable pub check_deposit : RiskConfig → ℕ → Result BridgeError (Unit {0})
check_deposit c amount = do
  check_supported_quorum c
  guard (not c.deposits_paused) deposit_paused
  guard (leb amount c.max_single_deposit) limit_exceeded

unfoldable pub check_withdrawal : RiskConfig → ℕ → Result BridgeError (Unit {0})
check_withdrawal c amount = do
  check_supported_quorum c
  guard (not c.withdrawals_paused) withdraw_paused
  guard (leb amount c.max_single_withdrawal) limit_exceeded

-- The slots of a day, for a devnet build or not.
abbrev pub slots_per_day : Bool → ℕ
slots_per_day devnet = max (86400000 / slot_duration_ms devnet) 1

abbrev pub set_counter : Counters → Flow → ℕ → ℕ → ℕ → Counters
set_counter daily flow asset day amount =
    λ f a d. if same_flow flow f && (asset == a && day == d) then amount else daily f a d

unfoldable pub record_daily_limit :
    Bool → Counters → Flow → ℕ → ℕ → ℕ → ℕ → Result BridgeError Counters
record_daily_limit devnet daily flow asset amount slot limit =
    let day = slot / slots_per_day devnet in
    let counted = do
      next ← checked_add arithmetic_overflow (daily flow asset day) amount
      guard (leb next limit) limit_exceeded
      ok (set_counter daily flow asset day next)
    in if limit == u64_max then ok daily else counted

unfoldable pub check_and_record_deposit :
    Bool → RiskConfig → Counters → ℕ → ℕ → ℕ → Result BridgeError Counters
unfolding check_deposit record_daily_limit
check_and_record_deposit devnet c daily asset amount slot = do
  check_deposit c amount
  record_daily_limit devnet daily deposits asset amount slot c.daily_deposit_limit

unfoldable pub check_and_record_withdrawal :
    Bool → RiskConfig → Counters → ℕ → ℕ → ℕ → Result BridgeError Counters
unfolding check_withdrawal record_daily_limit
check_and_record_withdrawal devnet c daily asset amount slot = do
  check_withdrawal c amount
  record_daily_limit devnet daily withdrawals asset amount slot c.daily_withdrawal_limit
