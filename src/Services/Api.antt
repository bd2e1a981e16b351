-- ===== src/Services/Api.antt =====
-- The envelopes of internal/pipeline/api.go, and the answers of a handler. A hex text is its
-- characters; the JSON codec and HTTP are not modelled: a handler takes the method test's result and
-- the decoded body, `none` where the decoder fails.
use hyper_l.Base.{ℕ, Bool, Option, String}
use hyper_l.Base.Int.{ℤ}
use hyper_l.Base.Bytes.{Bytes}

pub record LaneBatchEnvelope : Type 0 where
  pub phase : String
  pub block_index : ℕ
  pub lane_id : ℕ
  pub batch_hex : Bytes
  pub created_at_unix_ms : ℤ

pub record BlockCommitEnvelope : Type 0 where
  pub phase : String
  pub block_index : ℕ
  pub commitment_hash_hex : Bytes
  pub tx_count : ℕ
  pub tx_payload_hex : Bytes
  pub created_at_unix_ms : ℤ

pub record L1SubmitEnvelope : Type 0 where
  pub phase : String
  pub block_index : ℕ
  pub commitment_hash_hex : Bytes
  pub proof_hex : Bytes
  pub tx_count : ℕ
  pub tx_payload_hex : Bytes
  pub created_at_unix_ms : ℤ

-- What is wrong with a request, by the text that `http.Error` gets.
pub data HttpError : Type 0 where
  method_not_allowed invalid_json : HttpError
  invalid_batch_hex invalid_batch_payload envelope_mismatch forward_failed : HttpError
  invalid_commitment_hash invalid_proof_hex invalid_tx_payload_hex invalid_tx_payload : HttpError

-- A request as a handler meets it: whether it is a POST, and its decoded body.
pub record Request (A : Type 0) : Type 0 where
  pub is_post : Bool
  pub body : Option A
