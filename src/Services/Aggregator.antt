-- ===== src/Services/Aggregator.antt =====
-- The handler of `/lane-batch` in cmd/l2-aggregator/main.go. Its mutex makes the change of the states
-- one step; forwarding comes after it, and its failure does not undo the step.
pub mod Repeat
use hyper_l.Base.{
  ℕ, zero, ◌+◌, ◌%◌, ◌^◌, ◌⊎◌, inl, inr, Bool, true, false, not, ◌||◌, if◌then◌else◌, ◌==◌, Option,
  none, some, List, [], ◌∷◌, ◌++◌, String, length,
}
use text.Mathlib.Text.{◌==◌ as str_eq}
use hyper_l.Base.Int.{ℤ, pos}
use hyper_l.Base.GoMap.{GoMap, lookup, insert, erase}
use hyper_l.Base.Bytes.{Bytes, hex_encode, hex_decode}
use hyper_l.Frame.{Tx12, BatchFrameV1, unmarshal_binary, commitment_hash, encode_tx_slice}
use hyper_l.Pipeline.Types.{commitment_from_txs}
use hyper_l.Services.Api.{
  LaneBatchEnvelope, BlockCommitEnvelope, HttpError, method_not_allowed, invalid_json,
  invalid_batch_hex, invalid_batch_payload, envelope_mismatch, forward_failed, Request,
}

-- `state`
pub record LaneState : Type 0 where
  pub phase : String
  pub created_at : ℤ
  pub tx_count : ℕ
  pub lanes : GoMap Bytes
  pub txs : List Tx12

-- The time of a state; 0 is the value that was never set.
abbrev pub is_zero : ℤ → Bool
is_zero (pos zero) = true
is_zero z = false

-- The new state of a block, and the two fields that a later envelope fills in.
unfoldable pub begin_state : LaneBatchEnvelope → Option LaneState → LaneState
begin_state env found =
    let st : LaneState = elim found [
      | some st ↦ st
      | none ↦ record {
        phase = env.phase;
        created_at = env.created_at_unix_ms;
        tx_count = 0;
        lanes = [];
        txs = [];
      }
    ] in
    record st {
      phase = if str_eq st.phase "" then env.phase else st.phase;
      created_at = if is_zero st.created_at then env.created_at_unix_ms else st.created_at;
    }

-- The loop over `bf.Payload`.
unfoldable pub gather : List Tx12 → LaneState → LaneState
gather [] st = st
gather (tx ∷ txs) st = gather txs (
    if tx.amount == 0
    then st
    else record st { tx_count = (st.tx_count + 1) % 2 ^ 32; txs = st.txs ++ tx ∷ [] })

-- `var bf frame.BatchFrameV1`
abbrev pub zero_frame : BatchFrameV1
zero_frame = record { flags = 0; block_index = 0; lane_id = 0; payload = [] }

-- The tests before the mutex: the frame of an envelope.
unfoldable pub parse_batch : LaneBatchEnvelope → HttpError ⊎ BatchFrameV1
parse_batch env = elim (hex_decode env.batch_hex) [
  | none ↦ inl invalid_batch_hex
  | some bytes ↦
      let (failed, bf) = unmarshal_binary zero_frame bytes in
      elim failed [
        | some e ↦ inl invalid_batch_payload
        | none ↦
            if not (bf.block_index == env.block_index) || not (bf.lane_id == env.lane_id)
            then inl envelope_mismatch
            else inr bf
      ]
]

module _ (sha256 : Bytes → Bytes) (lanes : ℕ) (now : ℤ) where
  unfoldable pub commit_envelope : ℕ → LaneState → BlockCommitEnvelope
  commit_envelope block_index st = record {
    phase = st.phase;
    block_index = block_index;
    commitment_hash_hex = hex_encode (commitment_from_txs sha256 block_index st.txs);
    tx_count = st.tx_count;
    tx_payload_hex = hex_encode (encode_tx_slice st.txs);
    created_at_unix_ms = if is_zero st.created_at then now else st.created_at;
  }

  -- What is done under the mutex: the states after it, and the commit that it completes.
  unfoldable pub update :
      LaneBatchEnvelope
      → BatchFrameV1
      → GoMap LaneState
      → GoMap LaneState × Option BlockCommitEnvelope
  unfolding begin_state gather commit_envelope
  update env bf states =
      let st = begin_state env (lookup env.block_index states) in
      let noted = record st { lanes = insert env.lane_id (commitment_hash sha256 bf) st.lanes } in
      let st' = gather bf.payload noted in
      if length st'.lanes == lanes
      then (erase env.block_index states, some (commit_envelope env.block_index st'))
      else (insert env.block_index st' states, none)

  -- The handler. `forward` is `postJSON` to the proof replayer, `none` when there is no endpoint; its
  -- result says whether it succeeded. An error leaves the states alone, but for a failed forward.
  unfoldable pub lane_batch :
      Option (BlockCommitEnvelope → Bool)
      → Request LaneBatchEnvelope
      → GoMap LaneState
      → GoMap LaneState × Option HttpError
  unfolding parse_batch update
  lane_batch forward req states =
      if not req.is_post then (states, some method_not_allowed) else elim req.body [
        | none ↦ (states, some invalid_json)
        | some env ↦ elim (parse_batch env) [
          | inl e ↦ (states, some e)
          | inr bf ↦
              let (states', commit) = update env bf states in
              (
                states',
                elim commit [
                  | none ↦ none
                  | some c ↦ elim forward [
                    | none ↦ none
                    | some post ↦ if post c then none else some forward_failed
                  ]
                ],
              )
        ]
      ]
