-- ===== src/Pipeline/Types.antt =====
-- The messages of the pipeline (internal/pipeline/types.go) and its two commitments. A time is a
-- number of nanoseconds; SHA-256 is a parameter.
use hyper_l.Base.{ℕ, if◌then◌else◌, leb, Bool, Option, none, some, List, [], ◌∷◌, ◌++◌, String}
use hyper_l.Base.Int.{ℤ}
use hyper_l.Base.GoMap.{GoMap}
use hyper_l.Base.Bytes.{Bytes, le_bytes}
use hyper_l.Frame.{Tx12, BatchFrameV1, ProofRecordV1, encode_tx_slice}

pub record BlockJob : Type 0 where
  pub phase : String
  pub block_index : ℕ
  pub txs : List Tx12
  pub created_at : ℤ

pub record LaneBatch : Type 0 where
  pub phase : String
  pub block_index : ℕ
  pub lane_id : ℕ
  pub payload : List Tx12
  pub created_at : ℤ

pub record BlockCommit : Type 0 where
  pub phase : String
  pub block_index : ℕ
  pub commitment_hash : Bytes
  pub tx_count : ℕ
  pub txs : List Tx12
  pub created_at : ℤ

pub record SubmitRequest : Type 0 where
  pub phase : String
  pub block_index : ℕ
  pub commitment_hash : Bytes
  pub proof : ProofRecordV1
  pub tx_count : ℕ
  pub txs : List Tx12
  pub created_at : ℤ

pub record SubmitResponse : Type 0 where
  pub accepted : Bool
  pub duplicate : Bool
  pub proof_ok : Bool
  pub finalized : Bool
  pub reason : String
  pub latency_ms : ℕ
  pub block_index : ℕ

-- `FinalizeMs` is the integer that the code converts to a float64, and `CommitmentHash` hex text.
pub record BlockLog : Type 0 where
  pub phase : String
  pub block_index : ℕ
  pub tx_count : ℕ
  pub proof_verified : Bool
  pub finalized : Bool
  pub duplicate : Bool
  pub state_applied : Bool
  pub state_version : ℕ
  pub delta_count : ℕ
  pub error : String
  pub finalize_ms : ℕ  -- float64 in the source, of this number
  pub commitment_hash : Bytes

-- `sort.Ints` on the keys of the map; an insertion sort, each key with its hash.
abbrev pub insert_lane : ℕ × Bytes → GoMap Bytes → GoMap Bytes
insert_lane e [] = e ∷ []
insert_lane e (f ∷ d) = if leb e.0 f.0 then e ∷ f ∷ d else f ∷ insert_lane e d

abbrev pub sort_lanes : GoMap Bytes → GoMap Bytes
sort_lanes [] = []
sort_lanes (e ∷ d) = insert_lane e (sort_lanes d)

-- The loop that fills `payload`: two bytes of lane number, then the hash.
abbrev pub lane_payload : GoMap Bytes → Bytes
lane_payload [] = []
lane_payload ((lane, h) ∷ d) = le_bytes 2 lane ++ (h ++ lane_payload d)

-- `BuildLaneBatchFrame`
unfoldable pub build_lane_batch_frame : ℕ → ℕ → List Tx12 → BatchFrameV1
build_lane_batch_frame block_index lane_id payload = record {
  flags = 0;
  block_index = block_index;
  lane_id = lane_id;
  payload = payload;
}

module _ (sha256 : Bytes → Bytes) where
  -- `AggregateCommitment`; `none` is the error for an empty map.
  pub aggregate_commitment : GoMap Bytes → Option Bytes
  aggregate_commitment [] = none
  aggregate_commitment (e ∷ d) = some (sha256 (lane_payload (sort_lanes (e ∷ d))))

  -- `CommitmentFromTxs`
  unfoldable pub commitment_from_txs : ℕ → List Tx12 → Bytes
  commitment_from_txs block_index txs = sha256 (le_bytes 4 block_index ++ encode_tx_slice txs)
