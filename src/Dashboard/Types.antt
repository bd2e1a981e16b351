-- ===== src/Dashboard/Types.antt =====
-- The records of the dashboard. A time is a number of nanoseconds, 0 for the zero time. A transaction
-- stands for the addresses and the hash that go-ethereum prints of it.
use hyper_l.Base.{
  ℕ, zero, ◌-◌, Bool, true, false, if◌then◌else◌, ltb, Option, List, [], String, length, drop,
}
use hyper_l.Base.Int.{ℤ, pos}

-- `dashboardProofState`
pub record ProofState : Type 0 where
  pub batch_size : ℤ
  pub total : ℤ
  pub generated : ℤ
  pub replay_loaded : ℤ
  pub current_lane_id : ℤ
  pub current_batch_id : ℕ
  pub setup_done : Bool
  pub setup_elapsed_ms : ℤ
  pub last_proof_elapsed_ms : ℤ
  pub generation_elapsed_ms : ℤ
  pub verified_tx_total : ℕ

-- `dashboardTxSummary`
pub record TxSummary : Type 0 where
  pub sender_address : String
  pub contract_address : String
  pub transaction_hash : String
  pub block_number : String
  pub block_timestamp : String
  pub gas_used : ℕ
  pub gas_limit : ℕ
  pub block_inclusion_latency_ms : ℤ
  pub receipt_latency_ms : ℤ
  pub receipt_visibility_delay_ms : ℤ
  pub end_to_end_latency_ms : ℤ
  pub status : String
  pub error : String

-- `dashboardL1State`
pub record L1State : Type 0 where
  pub enabled : Bool
  pub mode : String
  pub total_calls : ℤ
  pub sent_calls : ℕ
  pub confirmed_calls : ℕ
  pub failed_calls : ℕ
  pub verified_tx_per_call : ℕ
  pub verified_tx_confirmed : ℕ
  pub aggregate_receipt_tps : String
  pub aggregate_block_tps : String
  pub aggregate_end_to_end_tps : String
  pub first_send_at : String
  pub first_inclusion_at : String
  pub last_inclusion_at : String
  pub last_receipt_at : String
  pub transactions : List TxSummary

-- `dashboardLog`
pub record Log : Type 0 where
  pub at : String
  pub level : String
  pub message : String

-- `dashboardSnapshot`
pub record Snapshot : Type 0 where
  pub title : String
  pub phase : String
  pub done : Bool
  pub error : String
  pub started_at : String
  pub updated_at : String
  pub bundle_path : String
  pub proof : ProofState
  pub l1 : L1State
  pub logs : List Log

-- `dashboardState`
pub record State : Type 0 where
  pub started_at : ℤ
  pub updated_at : ℤ
  pub snapshot : Snapshot

-- `exporterProgressEvent`, its fields that the dashboard reads
pub record Event : Type 0 where
  pub event : String
  pub batch_size : ℤ
  pub current : ℤ
  pub total : ℤ
  pub lane_id : ℤ
  pub batch_id : ℕ
  pub elapsed_ms : ℤ
  pub generated_tx_total : ℕ
  pub verified_tx_total : ℕ

-- `dashboardSubmitJob`, as text
pub record SubmitJob : Type 0 where
  pub sender : String
  pub to : String
  pub hash : String
  pub gas_limit : ℕ
  pub sent_at : ℤ

-- `dashboardReceiptResult`; a receipt is its block number, in text, and its gas.
pub record ReceiptResult : Type 0 where
  pub job : SubmitJob
  pub receipt : String × ℕ
  pub failure : Option String
  pub included_at : ℤ
  pub receipt_seen_at : ℤ

abbrev pub is_zero : ℤ → Bool
is_zero (pos zero) = true
is_zero z = false

-- The last `n` of a list.
abbrev pub last_of {ℓ} : {A : Type ℓ} → ℕ → List A → List A
last_of n xs = if ltb n (length xs) then drop (length xs - n) xs else xs

abbrev pub no_proof_state : ProofState
no_proof_state = record {
  batch_size = pos 0;
  total = pos 0;
  generated = pos 0;
  replay_loaded = pos 0;
  current_lane_id = pos 0;
  current_batch_id = 0;
  setup_done = false;
  setup_elapsed_ms = pos 0;
  last_proof_elapsed_ms = pos 0;
  generation_elapsed_ms = pos 0;
  verified_tx_total = 0;
}

abbrev pub no_l1_state : L1State
no_l1_state = record {
  enabled = false;
  mode = "";
  total_calls = pos 0;
  sent_calls = 0;
  confirmed_calls = 0;
  failed_calls = 0;
  verified_tx_per_call = 0;
  verified_tx_confirmed = 0;
  aggregate_receipt_tps = "";
  aggregate_block_tps = "";
  aggregate_end_to_end_tps = "";
  first_send_at = "";
  first_inclusion_at = "";
  last_inclusion_at = "";
  last_receipt_at = "";
  transactions = [];
}

-- Setting a field of a snapshot's parts
abbrev pub with_proof : ProofState → Snapshot → Snapshot
with_proof p s = record s { proof = p }

abbrev pub with_l1 : L1State → Snapshot → Snapshot
with_l1 l s = record s { l1 = l }
