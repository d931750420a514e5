-- ===== src/Fee/Breakdown.antt =====
-- src/report/fee_calc.rs, `FeeRates`, `FeeBreakdown` and `compute_fee_breakdown`. The percentages
-- are kept in tenths of a percent; their print through f64 (`{:.1}%`) is not modelled. `BTreeMap`
-- iterates in the order of the keys, in which they are listed here.
pub mod Accounts
use Prim.Native.Char.{Char}
use Prim.Native.String.{String}
use soroban_cost_estimator.Prelude.{ℕ, Bool, List, [], ◌∷◌, if◌then◌else◌, Option, none, some}
use soroban_cost_estimator.Prelude.Int.{ℤ, pos, ltb_ℤ}
use soroban_cost_estimator.Prelude.Machine.{sat_add, sat_sub, max_ℤ}
use soroban_cost_estimator.Fee.Scaled.{scaled_fee}
use soroban_cost_estimator.Fee.Percent.{balanced_permilles}
use soroban_cost_estimator.Fee.Xlm.{stroops_to_xlm}

pub record FeeRates : Type 0 where
  pub fee_per_10k_insns : ℤ
  pub fee_per_read_entry : ℤ
  pub fee_per_write_entry : ℤ
  pub fee_per_read_1kb : ℤ
  pub fee_per_1kb : ℤ

pub record FeeBreakdown : Type 0 where
  pub non_refundable_stroops : ℤ
  pub refundable_stroops : ℤ
  pub cpu_fee_stroops : ℤ
  pub storage_fee_stroops : ℤ
  pub bandwidth_fee_stroops : ℤ
  pub base_fee_stroops : ℤ
  pub total_stroops : ℤ
  pub total_xlm : List Char
  pub fee_percentages : List (String × ℤ)

-- The resources that a simulation used: the arguments between the total and the rates.
pub record Usage : Type 0 where
  pub cpu_insns : ℕ
  pub read_entries : ℕ
  pub write_entries : ℕ
  pub read_bytes : ℕ
  pub tx_size : ℕ

-- The keys of `permilles[0]` to `permilles[4]`, in the order of the map.
unfoldable pub percentage_map : List ℤ → List (String × ℤ)
percentage_map (cpu ∷ storage ∷ size ∷ base ∷ rent ∷ []) =
    ("base_fee", base)
    ∷ ("cpu_instructions", cpu)
    ∷ ("rent", rent)
    ∷ ("storage_read_write", storage)
    ∷ ("transaction_size", size)
    ∷ []
percentage_map _ = []

unfoldable pub base_fee : ℤ → ℤ
base_fee total_resource_fee = if ltb_ℤ (pos 0) total_resource_fee then pos 100 else pos 0

unfoldable pub compute_fee_breakdown : ℤ → Usage → FeeRates → ℕ → FeeBreakdown
compute_fee_breakdown total_resource_fee usage rates precision =
    let cpu_fee = scaled_fee usage.cpu_insns rates.fee_per_10k_insns 10000 in
    let read_entry_fee = scaled_fee usage.read_entries rates.fee_per_read_entry 1 in
    let write_entry_fee = scaled_fee usage.write_entries rates.fee_per_write_entry 1 in
    let read_bytes_fee = scaled_fee usage.read_bytes rates.fee_per_read_1kb 1024 in
    let bandwidth_fee = scaled_fee usage.tx_size rates.fee_per_1kb 1024 in
    let non_refundable =
      sat_add (sat_add (sat_add (sat_add cpu_fee read_entry_fee) write_entry_fee) read_bytes_fee)
        bandwidth_fee in
    let refundable = max_ℤ (sat_sub total_resource_fee non_refundable) (pos 0) in
    let base_fee_stroops = base_fee total_resource_fee in
    let total_stroops = sat_add total_resource_fee base_fee_stroops in
    let storage_fee = sat_add (sat_add read_entry_fee write_entry_fee) read_bytes_fee in
    let parts = cpu_fee ∷ storage_fee ∷ bandwidth_fee ∷ base_fee_stroops ∷ refundable ∷ [] in
    record {
      non_refundable_stroops = non_refundable;
      refundable_stroops = refundable;
      cpu_fee_stroops = cpu_fee;
      storage_fee_stroops = storage_fee;
      bandwidth_fee_stroops = bandwidth_fee;
      base_fee_stroops = base_fee_stroops;
      total_stroops = total_stroops;
      total_xlm = stroops_to_xlm total_stroops precision;
      fee_percentages = percentage_map (balanced_permilles total_stroops parts);
    }
