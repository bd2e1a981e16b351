-- ===== src/Tests/Wire.antt =====
-- The processes of cmd at concrete inputs.
use hyper_l.Base.{
  ℕ, ◌+◌, ◌<◌, ◌≤◌, ◌==◌, ◌≡◌, ◌≢◌, ◌⊎◌, if◌then◌else◌, Option, take, inl, refl, arith, false, none,
  some, [], ◌∷◌, ◌++◌, length,
}
use hyper_l.Base.Int.{pos}
use hyper_l.Base.Bytes.{hex_encode}
use hyper_l.Frame.{marshal_binary}
use hyper_l.Metrics.{new_registry}
use hyper_l.Pipeline.Proof.{ProofBook, new_proof_book}
use hyper_l.Pipeline.L1.{new_node}
use hyper_l.Services.Api.{LaneBatchEnvelope, method_not_allowed, Request}
use hyper_l.Services.Aggregator.{LaneState, update, lane_batch}
use hyper_l.Services.Aggregator.Repeat.{kept, update-twice}
use hyper_l.Base.GoMap.{GoMap, lookup}
use hyper_l.Services.Node.{submit}
use hyper_l.Services.Sequencer.{Channel, read_tx_stream}
use hyper_l.Services.Ingress.{stream_blocks, txs_of_blocks}
use hyper_l.Services.Ingress.Stream.{stream_blocks-read}
use hyper_l.Tests.Node.{digest, seed, two_txs}
use hyper_l.Tests.Codec.{frame}

abbrev envelope : LaneBatchEnvelope
envelope = record {
  phase = "certification";
  block_index = 7;
  lane_id = 3;
  batch_hex = hex_encode (marshal_binary frame);
  created_at_unix_ms = pos 5;
}

abbrev got : Request LaneBatchEnvelope
got = record { is_post = false; body = some envelope }

refused_got : (lane_batch digest 2 (pos 0) none got []).1 ≡ some method_not_allowed
unfolding lane_batch
refused_got = refl

refused_submit :
    (submit digest (pos 0) (record { is_post = false; body = none }) new_registry (new_node seed)).2
    ≡ inl method_not_allowed
unfolding submit
refused_submit = refl

abbrev gathered : LaneState
gathered = record {
  phase = "certification";
  created_at = pos 5;
  tx_count = 2;
  lanes = [];
  txs = two_txs;
}

abbrev book : ProofBook
book = new_proof_book seed

abbrev channel : Channel
channel = record { queued = two_txs; dropped = 1 }

-- The fourth write of two blocks of three transfers fails after five bytes.
abbrev fourth : ℕ → Option ℕ
fourth w = if w == 3 then some 5 else none

fourth_short : (w k : ℕ) → fourth w ≡ some k → k < 12
fourth_short w k h = ground arith

three_whole : (stream_blocks fourth (pos 3) 0 4294967295 2).whole ≡ 3
unfolding stream_blocks
three_whole = refl

room : length channel.queued + length (txs_of_blocks (pos 3) 4294967295 2) ≤ 131072
unfolding txs_of_blocks
room = omega arith

stream_blocks-read_example :
    let s = stream_blocks fourth (pos 3) 0 4294967295 2 in
    let all = txs_of_blocks (pos 3) 4294967295 2 in
    (read_tx_stream s.bytes channel ≡ record channel { queued = two_txs ++ take s.whole all })
    × ((s.failed_block ≢ none) ⊎ (s.whole ≡ length all))
stream_blocks-read_example =
    stream_blocks-read fourth (pos 3) 4294967295 2 channel fourth_short room

abbrev waiting : GoMap LaneState
waiting = (7, gathered) ∷ []

update-twice_example :
    let once = (update digest 2 (pos 0) envelope frame waiting).0 in
    let twice = (update digest 2 (pos 0) envelope frame once).0 in
    (st' : LaneState) × (lookup 7 twice ≡ some st')
    × (st'.txs ≡ two_txs ++ (kept two_txs ++ kept two_txs))
    × (length st'.lanes ≡ 1)
update-twice_example =
    update-twice digest 2 (pos 0) envelope frame gathered waiting refl (λ e. ground arith)
