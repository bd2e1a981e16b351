-- ===== src/Services/Node.antt =====
-- The handler of `/submit-certified-block` in cmd/l1-cert-node/main.go.
use hyper_l.Base.{zero, suc, ◌+◌, ◌*◌, not, if◌then◌else◌, ◌==◌, ◌⊎◌, inl, inr, none, some, length}
use hyper_l.Base.Int.{ℤ, pos, negsuc}
use hyper_l.Base.Bytes.{Bytes, hex_decode}
use hyper_l.Frame.{ok, err, decode_tx_slice}
use hyper_l.Metrics.{Registry}
use hyper_l.Pipeline.Types.{SubmitRequest, SubmitResponse}
use hyper_l.Pipeline.Proof.{build_proof_record}
use hyper_l.Pipeline.L1.{L1CertNode, submit_certified_block}
use hyper_l.Services.Api.{
  L1SubmitEnvelope, HttpError, method_not_allowed, invalid_json, invalid_commitment_hash,
  invalid_proof_hex, invalid_tx_payload_hex, invalid_tx_payload, Request,
}

-- `time.UnixMilli`, in nanoseconds; 0 stands for no time, and takes the present one.
abbrev pub created_at_of : ℤ → ℤ → ℤ
created_at_of now (pos zero) = now
created_at_of now (pos (suc k)) = pos (suc k * 1000000)
created_at_of now (negsuc k) = negsuc (k * 1000000 + 999999)

-- The decoding of an envelope, test by test: the request that it stands for, or the error.
unfoldable pub decode_envelope : ℤ → L1SubmitEnvelope → HttpError ⊎ SubmitRequest
unfolding build_proof_record
decode_envelope now env = elim (hex_decode env.commitment_hash_hex) [
  | none ↦ inl invalid_commitment_hash
  | some commitment ↦
      if not (length commitment == 32)
      then inl invalid_commitment_hash
      else elim (hex_decode env.proof_hex) [
        | none ↦ inl invalid_proof_hex
        | some proof ↦ elim (hex_decode env.tx_payload_hex) [
          | none ↦ inl invalid_tx_payload_hex
          | some payload ↦ elim (decode_tx_slice payload) [
            | err e ↦ inl invalid_tx_payload
            | ok txs ↦ inr (record {
              phase = env.phase;
              block_index = env.block_index;
              commitment_hash = commitment;
              proof = build_proof_record env.block_index commitment proof;
              tx_count = env.tx_count;
              txs = txs;
              created_at = created_at_of now env.created_at_unix_ms;
            })
          ]
        ]
      ]
]

-- The handler: an error leaves the node and the registry alone.
unfoldable pub submit :
    (Bytes → Bytes)
    → ℤ
    → Request L1SubmitEnvelope
    → Registry
    → L1CertNode
    → Registry × L1CertNode × (HttpError ⊎ SubmitResponse)
unfolding decode_envelope
submit sha256 now req m n =
    if not req.is_post then (m, n, inl method_not_allowed) else elim req.body [
      | none ↦ (m, n, inl invalid_json)
      | some env ↦ elim (decode_envelope now env) [
        | inl e ↦ (m, n, inl e)
        | inr r ↦ let (m', n', resp) = submit_certified_block sha256 now r m n in (m', n', inr resp)
      ]
    ]
