-- ===== src/Pipeline/Sequencer.antt =====
-- The sequencer: one round of the loop of `runSequencer` (internal/pipeline/runner.go), which deals
-- the transfers of a block out to the lanes in turn. Pipeline/Runner has the loop that sends them.
pub mod Lanes
use hyper_l.Base.{
  ℕ, zero, suc, ◌+◌, ◌-◌, ◌%◌, ◌^◌, List, [], ◌∷◌, ◌++◌, length, get_or, set, replicate,
}
use hyper_l.Frame.{Tx12}
use hyper_l.Pipeline.Types.{BlockJob, LaneBatch}

-- `lanes[lane] = append(lanes[lane], tx)` for the transfers from position `i` on.
unfoldable pub deal : ℕ → ℕ → List Tx12 → List (List Tx12) → List (List Tx12)
deal n i [] lanes = lanes
deal n i (tx ∷ txs) lanes =
    deal n (i + 1) txs (set lanes (i % n) (get_or lanes (i % n) [] ++ tx ∷ []))

-- `lanes := make([][]frame.Tx12, r.cfg.Lanes)` and the loop that fills it.
unfoldable pub lanes_of : ℕ → List Tx12 → List (List Tx12)
unfolding deal
lanes_of n txs = deal n 0 txs (replicate n [])

-- The batches of the lanes from `lane` on; a lane number is cut to 16 bits.
unfoldable pub batches_from : BlockJob → ℕ → List (List Tx12) → List LaneBatch
batches_from job lane [] = []
batches_from job lane (payload ∷ lanes) =
    record {
      phase = job.phase;
      block_index = job.block_index;
      lane_id = lane % 2 ^ 16;
      payload = payload;
      created_at = job.created_at;
    }
    ∷ batches_from job (lane + 1) lanes

-- What one job sends to the lane queue, in order.
unfoldable pub batches_of : ℕ → BlockJob → List LaneBatch
unfolding lanes_of batches_from
batches_of n job = batches_from job 0 (lanes_of n job.txs)
