-- ===== src/Pipeline/L1.antt =====
-- The certification node of internal/pipeline/l1.go. Its mutex makes each method one step, so a method
-- is a function on the node. The registry that the node points to is shared with others, and is
-- passed in and out. A balance is an int64, kept as its 64-bit pattern, so that it wraps as in Go.
pub mod Apply
pub mod Submit
pub mod Decide
use hyper_l.Base.{
  ℕ, zero, suc, ◌+◌, ◌-◌, ◌%◌, ◌^◌, Bool, true, false, not, ◌&&◌, if◌then◌else◌, ◌==◌, Option, none,
  some, List, [], ◌∷◌, ◌++◌, String, length,
}
use hyper_l.Base.Int.{ℤ, ◌-ℤ◌, quot_ℤ, uint64_of, signed64}
use hyper_l.Base.GoMap.{GoMap, lookup, insert}
use hyper_l.Base.Bytes.{Bytes, bytes_eq, hex_encode}
use hyper_l.Frame.{Tx12}
use hyper_l.Metrics.{Registry, add64, add_verified_tx, observe_finalize_latency_ms}
use hyper_l.Pipeline.Types.{SubmitRequest, SubmitResponse, BlockLog, commitment_from_txs}
use hyper_l.Pipeline.Proof.{generate_proof_bytes}

pub record AcceptedBlock : Type 0 where
  pub commitment : Bytes
  pub tx_count : ℕ
  pub state_ver : ℕ
  pub delta_count : ℕ

pub record L1CertNode : Type 0 where
  pub proof_seed : Bytes
  pub blocks : GoMap AcceptedBlock
  pub block_log : List BlockLog
  pub state : GoMap ℕ
  pub state_version : ℕ

-- `NewL1CertNode`
abbrev pub new_node : Bytes → L1CertNode
new_node seed = record {
  proof_seed = seed;
  blocks = [];
  block_log = [];
  state = [];
  state_version = 0;
}

-- `n.state[index]`, which is 0 for a missing key
abbrev pub balance_word : ℕ → GoMap ℕ → ℕ
balance_word index d = elim (lookup index d) [ none ↦ 0 | some w ↦ w ]

-- One round of the loop of `applyTxs`: debit, credit, and note both keys.
unfoldable pub apply_tx : Tx12 → GoMap ℕ × GoMap Bool → GoMap ℕ × GoMap Bool
apply_tx tx (state, changed) =
    let debited =
      insert tx.sender_index ((balance_word tx.sender_index state + (2 ^ 64 - tx.amount)) % 2 ^ 64)
        state in
    let credited =
      insert tx.receiver_index ((balance_word tx.receiver_index debited + tx.amount) % 2 ^ 64)
        debited in
    (credited, insert tx.receiver_index true (insert tx.sender_index true changed))

unfoldable pub apply_loop : List Tx12 → GoMap ℕ × GoMap Bool → GoMap ℕ × GoMap Bool
unfolding apply_tx
apply_loop [] s = s
apply_loop (tx ∷ txs) s = apply_loop txs (apply_tx tx s)

-- `applyTxs`: the new balances, and how many distinct keys were touched. An amount is a uint32, so
-- its conversion to int64 keeps it.
unfoldable pub apply_txs : List Tx12 → GoMap ℕ → GoMap ℕ × ℕ
unfolding apply_loop
apply_txs [] state = (state, 0)
apply_txs (tx ∷ txs) state =
    let (state', changed) = apply_loop (tx ∷ txs) (state, []) in (state', length changed)

-- The loop over `req.Txs` that looks for an amount of zero.
unfoldable pub amounts_ok : List Tx12 → Bool
amounts_ok [] = true
amounts_ok (tx ∷ txs) = let rest = amounts_ok txs in if tx.amount == 0 then false else rest

-- `time.Since(t).Milliseconds()` as a uint64
abbrev pub since_ms : ℤ → ℤ → ℕ
since_ms now t = uint64_of (quot_ℤ (now -ℤ t) 1000000)

-- The fields that every log entry takes from its request, with all else off.
abbrev pub entry_for : SubmitRequest → ℕ → BlockLog
entry_for req latency_ms = record {
  phase = req.phase;
  block_index = req.block_index;
  tx_count = req.tx_count;
  proof_verified = false;
  finalized = false;
  duplicate = false;
  state_applied = false;
  state_version = 0;
  delta_count = length req.txs;
  error = "";
  finalize_ms = latency_ms;
  commitment_hash = hex_encode req.commitment_hash;
}

abbrev pub response_for : SubmitRequest → ℕ → SubmitResponse
response_for req latency_ms = record {
  accepted = false;
  duplicate = false;
  proof_ok = false;
  finalized = false;
  reason = "";
  latency_ms = latency_ms;
  block_index = req.block_index;
}

-- What the handler changes and returns.
abbrev pub Outcome : Type 0
Outcome = Registry × L1CertNode × SubmitResponse

abbrev pub append_log : BlockLog → L1CertNode → L1CertNode
append_log entry n = record n { block_log = n.block_log ++ entry ∷ [] }

-- The branches of `SubmitCertifiedBlock`, in its order.
module _ (req : SubmitRequest) (latency_ms : ℕ) (m : Registry) (n : L1CertNode) where
  unfoldable pub answer_duplicate : AcceptedBlock → Bool → Bool → Outcome
  answer_duplicate existing proof_ok payload_ok = (
    m,
    append_log
        (record (entry_for req latency_ms) {
          proof_verified = proof_ok;
          finalized = proof_ok;
          duplicate = true;
          state_version = existing.state_ver;
          delta_count = existing.delta_count;
        })
        n,
    record (response_for req latency_ms) {
      accepted = proof_ok && payload_ok;
      duplicate = true;
      proof_ok = proof_ok;
      finalized = proof_ok && payload_ok;
      reason = "duplicate submission";
    },
  )

  unfoldable pub answer_conflict : Outcome
  answer_conflict = (
    m,
    append_log
        (record (entry_for req latency_ms) {
          state_version = n.state_version;
          error = "duplicate block index with different commitment";
        })
        n,
    record (response_for req latency_ms) {
      duplicate = true;
      reason = "duplicate block index with different commitment";
    },
  )

  unfoldable pub reject_payload : Bool → Outcome
  reject_payload proof_ok = (
    m,
    append_log
        (record (entry_for req latency_ms) {
          proof_verified = proof_ok;
          state_version = n.state_version;
          error = "payload validation failed or commitment mismatch";
        })
        n,
    record (response_for req latency_ms) {
      proof_ok = proof_ok;
      reason = "payload validation failed";
    },
  )

  unfoldable pub reject_proof : Outcome
  reject_proof = (
    m,
    append_log
        (record (entry_for req latency_ms) {
          state_version = n.state_version;
          error = "proof verification failed";
        })
        n,
    record (response_for req latency_ms) { reason = "proof verification failed" },
  )

  unfoldable pub accept_block : Outcome
  unfolding apply_txs add_verified_tx observe_finalize_latency_ms
  accept_block =
      let (state, delta_count) = apply_txs req.txs n.state in
      let version = add64 n.state_version 1 in
      let block : AcceptedBlock = record {
        commitment = req.commitment_hash;
        tx_count = req.tx_count;
        state_ver = version;
        delta_count = delta_count;
      } in
      let entry : BlockLog = record (entry_for req latency_ms) {
        proof_verified = true;
        finalized = true;
        state_applied = true;
        state_version = version;
        delta_count = delta_count;
      } in
      (
        observe_finalize_latency_ms latency_ms (add_verified_tx req.tx_count m),
        record n {
          blocks = insert req.block_index block n.blocks;
          block_log = n.block_log ++ entry ∷ [];
          state = state;
          state_version = version;
        },
        record (response_for req latency_ms) {
          accepted = true;
          proof_ok = true;
          finalized = true;
          reason = "ok";
        },
      )

module _ (sha256 : Bytes → Bytes) where
  -- `proofOK` after its three tests
  unfoldable pub proof_ok_of : Bytes → SubmitRequest → Bool
  unfolding generate_proof_bytes
  proof_ok_of seed req =
      bytes_eq req.proof.proof_bytes (generate_proof_bytes sha256 seed req.block_index)
      && (req.proof.block_index == req.block_index
          && bytes_eq req.proof.commitment_hash req.commitment_hash)

  -- `payloadOK` after its three tests
  unfoldable pub payload_ok_of : SubmitRequest → Bool
  unfolding amounts_ok
  payload_ok_of req =
      req.tx_count == length req.txs % 2 ^ 32
      && (amounts_ok req.txs
          && bytes_eq (commitment_from_txs sha256 req.block_index req.txs) req.commitment_hash)

  -- `SubmitCertifiedBlock`, called at the time `now`.
  unfoldable pub submit_certified_block : ℤ → SubmitRequest → Registry → L1CertNode → Outcome
  submit_certified_block now req m n =
      let latency_ms = since_ms now req.created_at in
      let proof_ok = proof_ok_of n.proof_seed req in
      let payload_ok = payload_ok_of req in
      elim (lookup req.block_index n.blocks) [
        | some existing ↦
            if bytes_eq existing.commitment req.commitment_hash && existing.tx_count == req.tx_count
            then answer_duplicate req latency_ms m n existing proof_ok payload_ok
            else answer_conflict req latency_ms m n
        | none ↦
            if not payload_ok
            then reject_payload req latency_ms m n proof_ok
            else if not proof_ok
            then reject_proof req latency_ms m n
            else accept_block req latency_ms m n
      ]

-- `MustBlock`; `none` is the error for a block that is not there.
unfoldable pub must_block : ℕ → L1CertNode → Option AcceptedBlock
must_block index n = lookup index n.blocks

-- `VerifiedBlocks`
unfoldable pub verified_blocks : L1CertNode → ℕ
verified_blocks n = length n.blocks

-- `Balance`
unfoldable pub balance : ℕ → L1CertNode → ℤ
balance index n = signed64 (balance_word index n.state)
