-- ===== src/Frame/Batch.antt =====
-- The batch frame of internal/frame/frame.go: the round trip, and exactly which byte strings are
-- accepted.
use hyper_l.Base.{
  ℕ, ◌+◌, ◌*◌, ◌%◌, ◌^◌, ◌<◌, ◌≤◌, ◌≡◌, ◌≢◌, ◌↔◌, arith, none, length, drop, All, All-drop,
  length-drop,
}
use hyper_l.Base.Bytes.{Bytes, IsByte, le_value, le_bytes, slice}
use hyper_l.Frame.{
  BatchFrameV1, batch_magic, version_v1, tx_count, marshal_binary, unmarshal_binary, read_txs,
  encode_tx_slice,
}
use hyper_l.Frame.Tx.{
  IsTx, encode_tx_slice-IsByte, read_txs-encode, length-encode_tx_slice, encode-read_txs,
}

-- The fields fit their machine types, and the payload fits its 32-bit count.
pub record IsFrame (b : BatchFrameV1) : Type 0 where
  pub flags_fit : b.flags < 2 ^ 16
  pub block_fits : b.block_index < 2 ^ 32
  pub lane_fits : b.lane_id < 2 ^ 16
  pub count_fits : length b.payload < 2 ^ 32
  pub payload_fits : All IsTx b.payload

pub length-marshal_binary :
    (b : BatchFrameV1) → length (marshal_binary b) ≡ 20 + 12 * length b.payload
unfolding marshal_binary
length-marshal_binary b = omega (arith, length-encode_tx_slice b.payload)

read_count :
    (b : BatchFrameV1) (n : ℕ)
    → All IsTx b.payload
    → n ≡ length b.payload
    → read_txs n (encode_tx_slice b.payload) ≡ (b.payload, none)
read_count b n h e = rw e (read_txs-encode b.payload h)

-- Unmarshalling a marshalled frame whose fields fit their machine words succeeds and gives every
-- field back, whatever the receiver held.
pub unmarshal-marshal_binary :
    (old b : BatchFrameV1) → IsFrame b → unmarshal_binary old (marshal_binary b) ≡ (none, b)
unfolding unmarshal_binary marshal_binary tx_count
unmarshal-marshal_binary old b h = ground (
  arith,
  read_count b (le_value (le_bytes 4 (length b.payload % 2 ^ 32))) h.payload_fits (omega arith),
  length-encode_tx_slice b.payload,
)

-- What `UnmarshalBinary` asks of its input.
pub record IsWellFormed (p : Bytes) : Type 0 where
  pub long : 20 ≤ length p
  pub magic : le_value (slice 0 4 p) ≡ batch_magic
  pub version : le_value (slice 4 6 p) ≡ version_v1
  pub counted : length p ≡ 20 + le_value (slice 16 20 p) * 12

read_txs_total :
    (n : ℕ) (p : Bytes)
    → All IsByte p
    → length p ≡ 20 + n * 12
    → ((read_txs n (drop 20 p)).1 ≡ none)
      × (encode_tx_slice (read_txs n (drop 20 p)).0 ≡ drop 20 p)
      × (length (read_txs n (drop 20 p)).0 ≡ n)
read_txs_total n p h e =
    encode-read_txs n (drop 20 p) (All-drop IsByte 20 p h) (omega (arith, length-drop 20 p))

-- `UnmarshalBinary` returns no error exactly on the well-formed byte strings: 20 bytes at least,
-- the magic number, version 1, and the length that the count announces.
pub unmarshal_binary-accepts_iff :
    (old : BatchFrameV1) (p : Bytes)
    → All IsByte p
    → ((unmarshal_binary old p).0 ≡ none) ↔ IsWellFormed p
unfolding unmarshal_binary
unmarshal_binary-accepts_iff old p h = (
  (λ e. ground arith),
  λ w. ground (arith, read_txs_total (le_value (slice 16 20 p)) p h w.counted),
)

-- An accepted frame holds the header fields of the bytes, and its payload encodes to all the bytes
-- behind the header.
pub unmarshal_binary_payload :
    (old : BatchFrameV1) (p : Bytes)
    → All IsByte p
    → IsWellFormed p
    → let b = (unmarshal_binary old p).1 in
      (encode_tx_slice b.payload ≡ drop 20 p)
      × (length b.payload ≡ le_value (slice 16 20 p))
      × (b.flags ≡ le_value (slice 6 8 p))
      × (b.block_index ≡ le_value (slice 8 12 p))
      × (b.lane_id ≡ le_value (slice 12 14 p))
unfolding unmarshal_binary
unmarshal_binary_payload old p h w =
    ground (arith, read_txs_total (le_value (slice 16 20 p)) p h w.counted)

-- A frame that is refused leaves the receiver's payload alone; only the length check leaves the new
-- header fields behind.
pub unmarshal_binary_refused :
    (old : BatchFrameV1) (p : Bytes)
    → All IsByte p
    → (unmarshal_binary old p).0 ≢ none
    → let b = (unmarshal_binary old p).1 in
      (b.payload ≡ old.payload)
      × ((20 ≤ length p)
          → le_value (slice 0 4 p) ≡ batch_magic
          → le_value (slice 4 6 p) ≡ version_v1
          → b.lane_id ≡ le_value (slice 12 14 p))
unfolding unmarshal_binary
unmarshal_binary_refused old p h r = ground (arith, read_txs_total (le_value (slice 16 20 p)) p h)

pub marshal_binary-IsByte : (b : BatchFrameV1) → All IsByte (marshal_binary b)
unfolding marshal_binary
marshal_binary-IsByte b = ground (arith, encode_tx_slice-IsByte b.payload)
