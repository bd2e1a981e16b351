-- ===== src/Frame.antt =====
-- The wire formats of internal/frame/frame.go: the 12-byte transfer, a slice of transfers, and the
-- batch frame of one lane. A fixed-width integer is a number below its bound.
pub mod Tx
pub mod Batch
use hyper_l.Base.{
  ℕ, zero, suc, ◌+◌, ◌*◌, ◌/◌, ◌%◌, ◌^◌, ◌<◌, Bool, if◌then◌else◌, ltb, ◌==◌, not, Option, none,
  some, List, [], ◌∷◌, ◌++◌, length, take, drop, replicate,
}
use hyper_l.Base.Bytes.{Bytes, slice, le_bytes, le_value, hex_encode}

abbrev pub batch_magic : ℕ
batch_magic = 0x42463131

abbrev pub version_v1 : ℕ
version_v1 = 1

-- `tx_count_mismatch expected got`
pub data Error : Type 0 where
  tx12_size bad_batch_magic bad_batch_ver short_batch tx_slice_size : Error
  tx_count_mismatch : ℕ → ℕ → Error

pub data Result {ℓ} (A : Type ℓ) : Type ℓ where
  ok : A → Result A
  err : Error → Result A

pub record Tx12 : Type 0 where
  pub sender_index : ℕ
  pub receiver_index : ℕ
  pub amount : ℕ

abbrev pub zero_tx : Tx12
zero_tx = record { sender_index = 0; receiver_index = 0; amount = 0 }

-- `Tx12.MarshalBinary`
unfoldable pub marshal_tx12 : Tx12 → Bytes
marshal_tx12 t = le_bytes 4 t.sender_index ++ (le_bytes 4 t.receiver_index ++ le_bytes 4 t.amount)

-- `UnmarshalTx12`
unfoldable pub unmarshal_tx12 : Bytes → Result Tx12
unmarshal_tx12 payload =
    if not (length payload == 12)
    then err tx12_size
    else ok record {
      sender_index = le_value (slice 0 4 payload);
      receiver_index = le_value (slice 4 8 payload);
      amount = le_value (slice 8 12 payload);
    }

-- `EncodeTxSlice`. A nil slice and an empty one are the same list.
unfoldable pub encode_tx_slice : List Tx12 → Bytes
encode_tx_slice [] = []
encode_tx_slice (tx ∷ txs) = marshal_tx12 tx ++ encode_tx_slice txs

-- The loop that `DecodeTxSlice` and `UnmarshalBinary` share: `n` transfers from the start of the
-- bytes that are left. It returns the filled slice, and the error that ended it early.
unfoldable pub read_txs : ℕ → Bytes → List Tx12 × Option Error
read_txs zero payload = ([], none)
read_txs (suc n) payload =
    let (txs, e) = read_txs n (drop 12 payload) in
    elim (unmarshal_tx12 (take 12 payload)) [
      | ok tx ↦ (tx ∷ txs, e)
      | err e' ↦ (replicate (suc n) zero_tx, some e')
    ]

abbrev pub returned : List Tx12 × Option Error → Result (List Tx12)
returned (txs, none) = ok txs
returned (txs, some e) = err e

-- `DecodeTxSlice`
unfoldable pub decode_tx_slice : Bytes → Result (List Tx12)
unfolding read_txs
decode_tx_slice payload =
    if not (length payload % 12 == 0)
    then err tx_slice_size
    else if length payload == 0
    then ok []
    else returned (read_txs (length payload / 12) payload)

pub record BatchFrameV1 : Type 0 where
  pub flags : ℕ
  pub block_index : ℕ
  pub lane_id : ℕ
  pub payload : List Tx12

-- `BatchFrameV1.TxCount`
unfoldable pub tx_count : BatchFrameV1 → ℕ
tx_count b = length b.payload % 2 ^ 32

-- `BatchFrameV1.MarshalBinary`, of a payload of fewer than 2 ^ 32 transfers: at more the Go slice is
-- too short for its loop, which panics.
unfoldable pub marshal_binary : BatchFrameV1 → Bytes
unfolding tx_count
marshal_binary b =
    le_bytes 4 batch_magic
    ++ (le_bytes 2 version_v1
        ++ (le_bytes 2 b.flags
            ++ (le_bytes 4 b.block_index
                ++ (le_bytes 2 b.lane_id
                    ++ (le_bytes 2 0 ++ (le_bytes 4 (tx_count b) ++ encode_tx_slice b.payload))))))

-- `BatchFrameV1.UnmarshalBinary` writes to its receiver as it goes: the fields of the header are set
-- before the length is compared, and stay set when that fails.
unfoldable pub unmarshal_binary : BatchFrameV1 → Bytes → Option Error × BatchFrameV1
unmarshal_binary b payload =
    let header : BatchFrameV1 = record b {
      flags = le_value (slice 6 8 payload);
      block_index = le_value (slice 8 12 payload);
      lane_id = le_value (slice 12 14 payload);
    } in
    let count = le_value (slice 16 20 payload) in
    let expected = 20 + count * 12 in
    let (txs, e) = read_txs count (drop 20 payload) in
    if ltb (length payload) 20
    then (some short_batch, b)
    else if not (le_value (slice 0 4 payload) == batch_magic)
    then (some bad_batch_magic, b)
    else if not (le_value (slice 4 6 payload) == version_v1)
    then (some bad_batch_ver, b)
    else if not (length payload == expected)
    then (some (tx_count_mismatch expected (length payload)), header)
    else (e, record header { payload = txs })

pub record ProofRecordV1 : Type 0 where
  pub block_index : ℕ
  pub commitment_hash : Bytes
  pub proof_bytes : Bytes

-- `ProofRecordV1.CommitmentHex`
pub commitment_hex : ProofRecordV1 → Bytes
commitment_hex p = hex_encode p.commitment_hash

module _ (sha256 : Bytes → Bytes) where
  -- `BatchFrameV1.CommitmentHash`
  unfoldable pub commitment_hash : BatchFrameV1 → Bytes
  unfolding marshal_binary
  commitment_hash b = sha256 (marshal_binary b)
