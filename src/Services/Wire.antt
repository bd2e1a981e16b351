-- ===== src/Services/Wire.antt =====
-- What the processes hand to each other, encoded on one side and decoded on the other, and the errors
-- of the handlers (cmd/l2-aggregator, cmd/proof-replayer, cmd/l1-cert-node).
use hyper_l.Base.{ℕ, ◌≡◌, ◌≢◌, ap, ◌∙◌, arith, inl, inr, Bool, Option, some}
use hyper_l.Base.Int.{ℤ}
use hyper_l.Base.GoMap.{GoMap}
use hyper_l.Base.Bytes.{Bytes, hex_encode, hex_decode, hex_decode-hex_encode}
use hyper_l.Frame.{BatchFrameV1, marshal_binary}
use hyper_l.Frame.Batch.{IsFrame, marshal_binary-IsByte, unmarshal-marshal_binary}
use hyper_l.Metrics.{Registry}
use hyper_l.Pipeline.L1.{L1CertNode}
use hyper_l.Services.Api.{
  LaneBatchEnvelope, BlockCommitEnvelope, L1SubmitEnvelope, HttpError, forward_failed, Request,
}
use hyper_l.Services.Aggregator.{LaneState, parse_batch, zero_frame, lane_batch}
use hyper_l.Services.Node.{submit}

-- The aggregator reads from an envelope the frame that was marshalled into it, where the frame's
-- fields fit their machine words and the envelope names its block and lane.
pub parse_batch-marshal_binary :
    (bf : BatchFrameV1) (env : LaneBatchEnvelope)
    → IsFrame bf
    → env.batch_hex ≡ hex_encode (marshal_binary bf)
    → env.block_index ≡ bf.block_index
    → env.lane_id ≡ bf.lane_id
    → parse_batch env ≡ inr bf
unfolding parse_batch
parse_batch-marshal_binary bf env h e b l = ground (
  arith,
  ap hex_decode e ∙ hex_decode-hex_encode (marshal_binary bf) (marshal_binary-IsByte bf),
  unmarshal-marshal_binary zero_frame bf h,
)

-- An error of the aggregator's handler leaves its states alone, but for the failure to forward a
-- commit, which comes after them.
pub lane_batch_error :
    (sha256 : Bytes → Bytes) (lanes : ℕ) (now : ℤ) (forward : Option (BlockCommitEnvelope → Bool))
    (req : Request LaneBatchEnvelope) (states : GoMap LaneState) (e : HttpError)
    → (lane_batch sha256 lanes now forward req states).1 ≡ some e
    → e ≢ forward_failed
    → (lane_batch sha256 lanes now forward req states).0 ≡ states
unfolding lane_batch
lane_batch_error sha256 lanes now forward req states e failed other = ground arith

-- A call of the node's handler that is answered with an error has changed neither the node nor
-- the registry.
pub submit_error :
    (sha256 : Bytes → Bytes) (now : ℤ) (req : Request L1SubmitEnvelope) (m : Registry)
    (n : L1CertNode) (e : HttpError)
    → (submit sha256 now req m n).2 ≡ inl e
    → ((submit sha256 now req m n).0 ≡ m) × ((submit sha256 now req m n).1 ≡ n)
unfolding submit
submit_error sha256 now req m n e failed = ground arith
