-- ===== src/Pipeline/Ingress.antt =====
-- The ingress: `GenerateSyntheticTxs` and one phase of `runIngressPhase` (internal/pipeline/runner.go)
-- without its clock, and the manifest of `GenerateDatasets` (internal/pipeline/datasets.go).
pub mod Synthetic
pub mod Manifest
use hyper_l.Base.{
  ℕ, zero, suc, ◌+◌, ◌*◌, ◌%◌, ◌^◌, bit_xor, if◌then◌else◌, List, [], ◌∷◌, ◌++◌, String, length,
}
use hyper_l.Base.Int.{ℤ, pos, pos_part, leb_ℤ, plus64, minus64, times64}
use hyper_l.Base.Bytes.{Bytes}
use hyper_l.Frame.{Tx12, marshal_tx12}
use hyper_l.Pipeline.Types.{BlockJob}

-- The transfer at position `i`.
unfoldable pub synthetic_tx : ℕ → ℕ → Tx12
synthetic_tx block_index i =
    let sender = (block_index * 1000000 + i) % 2 ^ 32 in
    record {
      sender_index = sender;
      receiver_index = bit_xor sender 2654435769;
      amount = i % 4096 + 1;
    }

-- The loop of `GenerateSyntheticTxs`, with `n` transfers to go from position `i` on. `blockIndex` is
-- a uint32, so that its product stays below 2^64.
unfoldable pub synthetic_from : ℕ → ℕ → ℕ → List Tx12
unfolding synthetic_tx
synthetic_from block_index i zero = []
synthetic_from block_index i (suc n) =
    synthetic_tx block_index i ∷ synthetic_from block_index (i + 1) n

-- `GenerateSyntheticTxs`
unfoldable pub generate_synthetic_txs : ℕ → ℤ → List Tx12
unfolding synthetic_from
generate_synthetic_txs block_index tx_count =
    if leb_ℤ tx_count (pos 0) then [] else synthetic_from block_index 0 (pos_part tx_count)

-- The jobs of `n` blocks from `block` on, the clock read for each of them.
unfoldable pub jobs_of_phase : String → ℤ → (ℕ → ℤ) → ℕ → ℕ → List BlockJob
unfolding generate_synthetic_txs
jobs_of_phase phase tx_count clock block zero = []
jobs_of_phase phase tx_count clock block (suc n) =
    record {
      phase = phase;
      block_index = block % 2 ^ 32;
      txs = generate_synthetic_txs (block % 2 ^ 32) tx_count;
      created_at = clock block;
    }
    ∷ jobs_of_phase phase tx_count clock (block + 1) n

pub record TxBlockIndex : Type 0 where
  pub block_index : ℕ
  pub offset_bytes : ℤ
  pub tx_count : ℤ
  pub phase : String

-- The bytes that the inner loop writes for one block.
unfoldable pub blob_of : List Tx12 → Bytes
blob_of [] = []
blob_of (tx ∷ txs) = marshal_tx12 tx ++ blob_of txs

-- The loop over the blocks of one phase: the bytes that it appends to the blob, and the manifest's
-- entries, with `offset` bytes written before. An int and an int64 wrap around.
unfoldable pub dataset_phase : String → ℤ → ℕ → ℤ → ℕ → Bytes × List TxBlockIndex
unfolding generate_synthetic_txs blob_of
dataset_phase phase tx_per_block block offset zero = ([], [])
dataset_phase phase tx_per_block block offset (suc n) =
    let blob = blob_of (generate_synthetic_txs (block % 2 ^ 32) tx_per_block) in
    let end = plus64 offset (pos (length blob)) in
    let (blobs, entries) = dataset_phase phase tx_per_block (block + 1) end n in
    (
      blob ++ blobs,
      record {
        block_index = block % 2 ^ 32;
        offset_bytes = minus64 end (times64 tx_per_block (pos 12));
        tx_count = tx_per_block;
        phase = phase;
      }
          ∷ entries,
    )
