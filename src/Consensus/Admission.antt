-- ===== src/Consensus/Admission.antt =====
-- ace-consensus/src/admission.rs: the load of the network and the quota of active nodes.
pub mod Bounds
mod Tests
use ace_chain.Common.{
  ℕ, ◌+◌, ◌-◌, ◌*◌, ◌/◌, ◌%◌, Bool, true, false, ◌&&◌, ◌==◌, ltb, if◌then◌else◌, min, max,
  saturating_add, saturating_mul, u32_mod,
}

abbrev pub target_avg_txs_per_node : ℕ
target_avg_txs_per_node = 2000000

abbrev pub expansion_threshold_bps : ℕ
expansion_threshold_bps = 12000

abbrev pub max_expansion_rate_bps : ℕ
max_expansion_rate_bps = 2000

abbrev pub min_expansion_slots : ℕ
min_expansion_slots = 1

abbrev pub max_expansion_slots : ℕ
max_expansion_slots = 100

abbrev pub load_ema_prev_bps : ℕ
load_ema_prev_bps = 7000

abbrev pub load_ema_cur_bps : ℕ
load_ema_cur_bps = 3000

abbrev pub bps_denom : ℕ
bps_denom = 10000

abbrev pub hard_cap_active_nodes : ℕ
hard_cap_active_nodes = 10000

pub record AdmissionDecision : Type 0 where
  pub new_active_target : ℕ
  pub slots_to_release : ℕ
  pub load_factor_bps : ℕ
  pub expanding : Bool

pub record AdmissionController : Type 0 where
  pub load_ema_bps : ℕ
  pub active_target : ℕ
  pub total_slots_released : ℕ
  pub last_adjustment_epoch : ℕ

unfoldable pub new : ℕ → AdmissionController
new initial_active_target = record {
  load_ema_bps = bps_denom;
  active_target = min initial_active_target hard_cap_active_nodes;
  total_slots_released = 0;
  last_adjustment_epoch = 0;
}

unfoldable pub set_active_target : AdmissionController → ℕ → AdmissionController
set_active_target a target = record a { active_target = min target hard_cap_active_nodes }

-- `saturating_add` of words of 32 bits.
abbrev pub saturating_add32 : ℕ → ℕ → ℕ
saturating_add32 a b = min (a + b) (u32_mod - 1)

abbrev pub current_load_bps : ℕ → ℕ → ℕ
current_load_bps epoch_total_txs active_node_count =
    saturating_mul (epoch_total_txs / active_node_count) bps_denom / target_avg_txs_per_node

abbrev pub next_ema : ℕ → ℕ → ℕ
next_ema load_ema_bps current =
    saturating_add (saturating_mul load_ema_bps load_ema_prev_bps)
      (saturating_mul current load_ema_cur_bps)
    / bps_denom

-- The slots that a load above the threshold asks for, of the active nodes.
unfoldable pub expansion : ℕ → ℕ → ℕ
expansion load_ema_bps active_node_count =
    let excess_bps = load_ema_bps - bps_denom in
    let raw = saturating_mul active_node_count excess_bps / bps_denom in
    let max_rate = saturating_mul active_node_count max_expansion_rate_bps / bps_denom in
    min (max (min raw max_rate) min_expansion_slots) max_expansion_slots % u32_mod

abbrev pub held_decision : AdmissionController → AdmissionDecision
held_decision a = record {
  new_active_target = a.active_target;
  slots_to_release = 0;
  load_factor_bps = a.load_ema_bps;
  expanding = false;
}

-- The controller after the average is updated, and its decision.
unfoldable pub decide : AdmissionController → ℕ → AdmissionController × AdmissionDecision
unfolding expansion
decide a active_node_count =
    let new_target =
      min (saturating_add32 a.active_target (expansion a.load_ema_bps active_node_count))
        hard_cap_active_nodes in
    let released = new_target - a.active_target in
    if ltb expansion_threshold_bps a.load_ema_bps && ltb a.active_target hard_cap_active_nodes
    then (
      record a {
        active_target = new_target;
        total_slots_released = saturating_add32 a.total_slots_released released;
      },
      record {
        new_active_target = new_target;
        slots_to_release = released;
        load_factor_bps = a.load_ema_bps;
        expanding = true;
      },
    )
    else (a, held_decision a)

unfoldable pub on_epoch_boundary :
    AdmissionController → ℕ → ℕ → ℕ → AdmissionController × AdmissionDecision
unfolding decide
on_epoch_boundary a epoch epoch_total_txs active_node_count =
    let updated = record a {
      load_ema_bps = next_ema a.load_ema_bps (current_load_bps epoch_total_txs active_node_count);
      last_adjustment_epoch = epoch;
    } in
    if active_node_count == 0
    then (a, record (held_decision a) { load_factor_bps = 0 })
    else decide updated active_node_count
