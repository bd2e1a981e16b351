-- ===== src/Tests/Codec.antt =====
-- The codec of internal/frame/frame.go at concrete inputs.
use hyper_l.Base.{◌≡◌, ◌↔◌, arith, none, []}
use hyper_l.Frame.{
  ok, BatchFrameV1, encode_tx_slice, decode_tx_slice, marshal_binary, unmarshal_binary,
}
use hyper_l.Frame.Tx.{decode-encode_tx_slice}
use hyper_l.Frame.Batch.{
  IsFrame, IsWellFormed, unmarshal-marshal_binary, unmarshal_binary-accepts_iff,
  marshal_binary-IsByte,
}
use hyper_l.Tests.Node.{two_txs, two_txs_fit}

abbrev pub frame : BatchFrameV1
frame = record { flags = 0; block_index = 7; lane_id = 3; payload = two_txs }

abbrev pub frame_fits : IsFrame frame
frame_fits = record {
  flags_fit = omega arith;
  block_fits = omega arith;
  lane_fits = omega arith;
  count_fits = omega arith;
  payload_fits = two_txs_fit;
}

abbrev empty : BatchFrameV1
empty = record { flags = 1; block_index = 2; lane_id = 3; payload = [] }

unmarshal-marshal_binary_example : unmarshal_binary empty (marshal_binary frame) ≡ (none, frame)
unmarshal-marshal_binary_example = unmarshal-marshal_binary empty frame frame_fits

unmarshal_binary-accepts_iff_example :
    ((unmarshal_binary empty (marshal_binary frame)).0 ≡ none) ↔ IsWellFormed (marshal_binary frame)
unmarshal_binary-accepts_iff_example =
    unmarshal_binary-accepts_iff empty (marshal_binary frame) (marshal_binary-IsByte frame)

decode-encode_tx_slice_example : decode_tx_slice (encode_tx_slice two_txs) ≡ ok two_txs
decode-encode_tx_slice_example = decode-encode_tx_slice two_txs two_txs_fit
