-- ===== src/Services/Replayer.antt =====
-- The handler of `/block-commit` in cmd/proof-replayer/main.go.
use hyper_l.Base.{ℕ, Bool, not, ◌&&◌, ◌==◌, if◌then◌else◌, Option, none, some}
use hyper_l.Base.Bytes.{Bytes, hex_encode}
use hyper_l.Pipeline.Proof.{ProofBook, proof_for_block}
use hyper_l.Pipeline.Replayer.{flip_first}
use hyper_l.Services.Api.{
  BlockCommitEnvelope, L1SubmitEnvelope, HttpError, method_not_allowed, invalid_json,
  forward_failed, Request,
}

module _ (sha256 : Bytes → Bytes) (bad_proof_at : ℕ) where
  -- What is submitted for a commit, and the book that may have got a new proof.
  unfoldable pub submission : BlockCommitEnvelope → ProofBook → L1SubmitEnvelope × ProofBook
  unfolding proof_for_block
  submission commit book =
      let (proof, book') = proof_for_block sha256 commit.block_index book in
      let sent =
        if not (bad_proof_at == 0) && bad_proof_at == commit.block_index
        then flip_first proof
        else proof in
      (
        record {
          phase = commit.phase;
          block_index = commit.block_index;
          commitment_hash_hex = commit.commitment_hash_hex;
          proof_hex = hex_encode sent;
          tx_count = commit.tx_count;
          tx_payload_hex = commit.tx_payload_hex;
          created_at_unix_ms = commit.created_at_unix_ms;
        },
        book',
      )

  -- The handler; `post` is `postJSON` to the node, which says whether it succeeded.
  unfoldable pub block_commit :
      (L1SubmitEnvelope → Bool)
      → Request BlockCommitEnvelope
      → ProofBook
      → ProofBook × Option HttpError
  unfolding submission
  block_commit post req book =
      if not req.is_post then (book, some method_not_allowed) else elim req.body [
        | none ↦ (book, some invalid_json)
        | some commit ↦
            let (submit, book') = submission commit book in
            (book', if post submit then none else some forward_failed)
      ]
