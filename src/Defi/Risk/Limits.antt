-- ===== src/Defi/Risk/Limits.antt =====
-- ace-defi/src/risk.rs: what a day's counter bounds.
use ace_chain.Common.{
  ℕ, ◌+◌, ◌/◌, ◌≤◌, ◌≡◌, ◌≢◌, Bool, ◌==◌, if◌then◌else◌, u64_max, List, [], ◌∷◌, arith,
}
use ace_chain.Common.Results.{Result, ok, err, >>=-eq-ok}
use ace_chain.Defi.Types.{BridgeError}
use ace_chain.Defi.Risk.{
  RiskConfig, Counters, Flow, deposits, slots_per_day, set_counter, check_deposit,
  record_daily_limit, check_and_record_deposit,
}

pub record_daily_limit-counts :
    (devnet : Bool) (daily later : Counters) (flow : Flow) (asset amount slot limit : ℕ)
    → limit ≢ u64_max
    → record_daily_limit devnet daily flow asset amount slot limit ≡ ok later
    → (daily flow asset (slot / slots_per_day devnet) + amount ≤ limit)
      × (later
          ≡ set_counter daily flow asset
              (slot / slots_per_day devnet)
              (daily flow asset (slot / slots_per_day devnet) + amount))
unfolding record_daily_limit
record_daily_limit-counts devnet daily later flow asset amount slot limit n e = ground (arith, n, e)

pub check_and_record_deposit-counts :
    (devnet : Bool) (c : RiskConfig) (daily later : Counters) (asset amount slot : ℕ)
    → c.daily_deposit_limit ≢ u64_max
    → check_and_record_deposit devnet c daily asset amount slot ≡ ok later
    → record_daily_limit devnet daily deposits asset amount slot c.daily_deposit_limit ≡ ok later
unfolding check_and_record_deposit
check_and_record_deposit-counts devnet c daily later asset amount slot n e =
    let (_, _, rest) = >>=-eq-ok (check_deposit c amount) _ e in rest

-- The counters after a request, and the amount of one that is accepted.
abbrev pub counters_after : Counters → Result BridgeError Counters → Counters
counters_after daily (ok later) = later
counters_after daily (err _) = daily

abbrev pub amount_taken : ℕ → Result BridgeError Counters → ℕ
amount_taken amount (ok _) = amount
amount_taken amount (err _) = 0

-- What is accepted on a day of the requests that are tried one after the other.
unfoldable pub accepted : Bool → RiskConfig → ℕ → ℕ → Counters → List (ℕ × ℕ) → ℕ
unfolding check_and_record_deposit
accepted devnet c asset day daily [] = 0
accepted devnet c asset day daily ((amount, slot) ∷ requests) =
    let tried = check_and_record_deposit devnet c daily asset amount slot in
    amount_taken (if slot / slots_per_day devnet == day then amount else 0) tried
    + accepted devnet c asset day (counters_after daily tried) requests
