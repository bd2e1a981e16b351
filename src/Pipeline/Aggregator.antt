-- ===== src/Pipeline/Aggregator.antt =====
-- The aggregator: one round of the loop of `runAggregator` (internal/pipeline/runner.go), which
-- gathers the lane batches of each block and commits to a block once every lane has reported. A round
-- ends with the commit that it hands to the next queue; Pipeline/Runner has the loop that sends it.
pub mod Gather
use hyper_l.Base.{
  ℕ, zero, suc, ◌+◌, ◌%◌, ◌^◌, Bool, true, false, if◌then◌else◌, ltb, ◌==◌, Option, none, some,
  List, [], ◌∷◌, ◌++◌, String, length,
}
use hyper_l.Base.Int.{ℤ}
use hyper_l.Base.GoMap.{GoMap, lookup, insert, erase}
use hyper_l.Base.Bytes.{Bytes}
use hyper_l.Frame.{Tx12, commitment_hash}
use hyper_l.Metrics.{Registry, inc_drop}
use hyper_l.Pipeline.Types.{LaneBatch, BlockCommit, build_lane_batch_frame, commitment_from_txs}

-- `aggregateState`
pub record AggregateState : Type 0 where
  pub phase : String
  pub created_at : ℤ
  pub lane_hashes : GoMap Bytes
  pub tx_count : ℕ
  pub txs : List Tx12

-- `isPayloadValid`
abbrev pub is_payload_valid : Tx12 → Bool
is_payload_valid tx = ltb 0 tx.amount

-- The state that a block's first batch starts.
abbrev pub first_state : LaneBatch → AggregateState
first_state batch = record {
  phase = batch.phase;
  created_at = batch.created_at;
  lane_hashes = [];
  tx_count = 0;
  txs = [];
}

-- `states[batch.BlockIndex]`, made if it is not there
abbrev pub state_for : LaneBatch → GoMap AggregateState → AggregateState
state_for batch states = elim (lookup batch.block_index states) [
  | some st ↦ st
  | none ↦ first_state batch
]

-- The loop over `batch.Payload`: a transfer that moves nothing counts as dropped.
unfoldable pub collect : List Tx12 → AggregateState × Registry → AggregateState × Registry
collect [] s = s
collect (tx ∷ txs) (st, m) = collect txs (
    if is_payload_valid tx
    then (record st { tx_count = (st.tx_count + 1) % 2 ^ 32; txs = st.txs ++ tx ∷ [] }, m)
    else (st, inc_drop 1 m))

abbrev pub with_commit : Option BlockCommit → List BlockCommit → List BlockCommit
with_commit none commits = commits
with_commit (some c) commits = c ∷ commits

abbrev pub as_list : Option BlockCommit → List BlockCommit
as_list none = []
as_list (some c) = c ∷ []

module _ (sha256 : Bytes → Bytes) (lanes : ℕ) where
  -- `st.laneHashes[batch.LaneID] = bf.CommitmentHash()`
  abbrev pub note_lane : LaneBatch → AggregateState → AggregateState
  note_lane batch st =
      let frame = build_lane_batch_frame batch.block_index batch.lane_id batch.payload in
      record st { lane_hashes = insert batch.lane_id (commitment_hash sha256 frame) st.lane_hashes }

  abbrev pub commit_of : LaneBatch → AggregateState → BlockCommit
  commit_of batch st = record {
    phase = st.phase;
    block_index = batch.block_index;
    commitment_hash = commitment_from_txs sha256 batch.block_index st.txs;
    tx_count = st.tx_count;
    txs = st.txs;
    created_at = st.created_at;
  }

  -- The end of a round, with the state that the batch's payload led to: a block all of whose lanes
  -- are there is committed and forgotten. The map holds pointers, so a state that is changed in place
  -- is the new entry of its key.
  abbrev pub settle :
      LaneBatch
      → GoMap AggregateState
      → AggregateState × Registry
      → GoMap AggregateState × Option BlockCommit × Registry
  settle batch states (st, m) =
      if length st.lane_hashes == lanes
      then (erase batch.block_index states, some (commit_of batch st), m)
      else (insert batch.block_index st states, none, m)

  -- One batch: the states after it, the commit that it completes, and the registry.
  unfoldable pub receive :
      LaneBatch
      → GoMap AggregateState × Registry
      → GoMap AggregateState × Option BlockCommit × Registry
  receive batch (states, m) =
      settle batch states (collect batch.payload (note_lane batch (state_for batch states), m))

  -- A run of batches, with the commits that they complete.
  unfoldable pub receive_all :
      List LaneBatch
      → GoMap AggregateState × Registry
      → GoMap AggregateState × List BlockCommit × Registry
  receive_all [] (states, m) = (states, [], m)
  receive_all (batch ∷ batches) (states, m) =
      let (states', commit, m') = receive batch (states, m) in
      let (states'', commits, m'') = receive_all batches (states', m') in
      (states'', with_commit commit commits, m'')
