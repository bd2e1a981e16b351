-- ===== src/Services/Sequencer.antt =====
-- The tick and the stream reader of cmd/l2-sequencer/main.go.
pub mod Intake
use hyper_l.Base.{
  ℕ, zero, suc, ◌+◌, ◌*◌, ◌/◌, ◌%◌, ◌^◌, Bool, true, false, if◌then◌else◌, ltb, leb, ◌==◌, Option,
  none, some, List, [], ◌∷◌, ◌++◌, String, length, get_or, set, replicate, take, drop,
}
use hyper_l.Base.Int.{ℤ}
use hyper_l.Base.Bytes.{Bytes, hex_encode}
use hyper_l.Frame.{Tx12, Result, ok, err, unmarshal_tx12, marshal_binary}
use hyper_l.Pipeline.Types.{build_lane_batch_frame}
use hyper_l.Services.Api.{LaneBatchEnvelope}

-- The channel of the transfers, which holds 131072 of them, and the counter of those that found it
-- full.
pub record Channel : Type 0 where
  pub queued : List Tx12
  pub dropped : ℕ

-- The `select` with a default: a transfer is queued if there is room, and counted if not.
unfoldable pub offer : Tx12 → Channel → Channel
offer tx ch =
    if ltb (length ch.queued) 131072
    then record ch { queued = ch.queued ++ tx ∷ [] }
    else record ch { dropped = (ch.dropped + 1) % 2 ^ 64 }

-- `readTxStream` on the bytes of a connection that then ends: `n` is at least the number of whole
-- groups of twelve bytes, and a shorter rest ends the loop.
unfoldable pub read_stream : ℕ → Bytes → Channel → Channel
unfolding offer
read_stream zero bytes ch = ch
read_stream (suc n) bytes ch =
    let next : Channel = elim (unmarshal_tx12 (take 12 bytes)) [
      | ok tx ↦ offer tx ch
      | err e ↦ record ch { dropped = (ch.dropped + 1) % 2 ^ 64 }
    ] in
    let rest = read_stream n (drop 12 bytes) next in if ltb (length bytes) 12 then ch else rest

unfoldable pub read_tx_stream : Bytes → Channel → Channel
unfolding read_stream
read_tx_stream bytes ch = read_stream (length bytes / 12 + 1) bytes ch

-- The loop over the buffer: `rr` goes on from block to block.
unfoldable pub deal_on : ℕ → ℕ → List Tx12 → List (List Tx12) → List (List Tx12) × ℕ
deal_on lanes rr [] laned = (laned, rr)
deal_on lanes rr (tx ∷ txs) laned =
    deal_on lanes ((rr + 1) % 2 ^ 64) txs
      (set laned (rr % lanes) (get_or laned (rr % lanes) [] ++ tx ∷ []))

-- The envelopes of the lanes from `lane` on.
unfoldable pub envelopes_from : String → ℤ → ℕ → ℕ → List (List Tx12) → List LaneBatchEnvelope
envelopes_from phase created_at block lane [] = []
envelopes_from phase created_at block lane (txs ∷ laned) =
    record {
      phase = phase;
      block_index = block;
      lane_id = lane % 2 ^ 16;
      batch_hex = hex_encode (marshal_binary (build_lane_batch_frame block (lane % 2 ^ 16) txs));
      created_at_unix_ms = created_at;
    }
    ∷ envelopes_from phase created_at block (lane + 1) laned

-- What the loop of `main` keeps between its ticks.
pub record Sealer : Type 0 where
  pub current_block : ℕ
  pub buffer : List Tx12
  pub rr : ℕ

-- `case tx := <-txCh`
unfoldable pub take_in : Tx12 → Sealer → Sealer
take_in tx s = record s { buffer = s.buffer ++ tx ∷ [] }

-- `case <-ticker.C`: the envelopes that are posted, in order, and the state after the block.
unfoldable pub seal : ℕ → String → ℤ → Sealer → List LaneBatchEnvelope × Sealer
unfolding deal_on envelopes_from
seal lanes phase created_at s =
    let (laned, rr) = deal_on lanes s.rr s.buffer (replicate lanes []) in
    (
      envelopes_from phase created_at s.current_block 0 laned,
      record { current_block = (s.current_block + 1) % 2 ^ 32; buffer = []; rr = rr },
    )
