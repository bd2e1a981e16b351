-- ===== src/Services/Ingress.antt =====
-- The ingress process, cmd/l2-ingress/main.go: its flags and its loop over the blocks, without its clock.
-- A write may fail after some bytes; `broken` says at which write, and after how many bytes.
pub mod Stream
use hyper_l.Base.{
  ℕ, zero, suc, ◌+◌, ◌%◌, ◌^◌, Bool, ◌||◌, if◌then◌else◌, Option, none, some, List, [], ◌∷◌, ◌++◌,
  String, take,
}
use hyper_l.Base.Int.{ℤ, pos, leb_ℤ}
use hyper_l.Base.Bytes.{Bytes}
use hyper_l.Frame.{Tx12, marshal_tx12}
use hyper_l.Pipeline.Ingress.{generate_synthetic_txs}

-- The flags that are looked at before the dial.
pub record Flags : Type 0 where
  pub has_endpoint : Bool
  pub blocks : ℤ
  pub tps : ℤ
  pub block_time_ms : ℤ

pub data FlagError : Type 0 where
  no_endpoint not_positive : FlagError

unfoldable pub check_flags : Flags → Option FlagError
check_flags f =
    if f.has_endpoint
    then if leb_ℤ f.blocks (pos 0) || (leb_ℤ f.tps (pos 0) || leb_ℤ f.block_time_ms (pos 0))
      then some not_positive
      else none
    else some no_endpoint

-- What has gone over the connection: its bytes, the number of writes that were whole, and the block at
-- which a write failed.
pub record Streamed : Type 0 where
  pub bytes : Bytes
  pub whole : ℕ
  pub failed_block : Option ℕ

module _ (broken : ℕ → Option ℕ) where
  -- The loop over the transfers of a block, after `w` whole writes.
  unfoldable pub stream_txs : ℕ → ℕ → List Tx12 → Streamed
  stream_txs block w [] = record { bytes = []; whole = w; failed_block = none }
  stream_txs block w (tx ∷ txs) =
      let rest = stream_txs block (w + 1) txs in
      elim (broken w) as (λ o. Streamed) [
        | none ↦ record rest { bytes = marshal_tx12 tx ++ rest.bytes }
        | some k ↦ record { bytes = take k (marshal_tx12 tx); whole = w; failed_block = some block }
      ]

  -- The loop over `n` blocks from `block` on.
  unfoldable pub stream_blocks : ℤ → ℕ → ℕ → ℕ → Streamed
  unfolding stream_txs generate_synthetic_txs
  stream_blocks tx_per_block w block zero = record { bytes = []; whole = w; failed_block = none }
  stream_blocks tx_per_block w block (suc n) =
      let sent =
        stream_txs (block % 2 ^ 32) w (generate_synthetic_txs (block % 2 ^ 32) tx_per_block) in
      let rest = stream_blocks tx_per_block sent.whole (block + 1) n in
      elim sent.failed_block as (λ o. Streamed) [
        | none ↦ record rest { bytes = sent.bytes ++ rest.bytes }
        | some b ↦ sent
      ]

-- All transfers of `n` blocks from `block` on.
unfoldable pub txs_of_blocks : ℤ → ℕ → ℕ → List Tx12
unfolding generate_synthetic_txs
txs_of_blocks tx_per_block block zero = []
txs_of_blocks tx_per_block block (suc n) =
    generate_synthetic_txs (block % 2 ^ 32) tx_per_block ++ txs_of_blocks tx_per_block (block + 1) n
