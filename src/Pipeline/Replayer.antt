-- ===== src/Pipeline/Replayer.antt =====
-- The proof replayer: one round of the loop of `runProofReplayer` (internal/pipeline/runner.go), which
-- gives each commit its proof and submits it.
use hyper_l.Base.{ℕ, bit_xor, ◌&&◌, not, if◌then◌else◌, ◌==◌, [], ◌∷◌}
use hyper_l.Base.Int.{ℤ}
use hyper_l.Base.Bytes.{Bytes}
use hyper_l.Frame.{ProofRecordV1}
use hyper_l.Metrics.{Registry}
use hyper_l.Pipeline.Types.{BlockCommit, SubmitRequest}
use hyper_l.Pipeline.Proof.{ProofBook, proof_for_block, build_proof_record}
use hyper_l.Pipeline.L1.{L1CertNode, Outcome, submit_certified_block}

-- `proof.ProofBytes[0] ^= 0xff`, when there is a first byte
abbrev pub flip_first : Bytes → Bytes
flip_first [] = []
flip_first (b ∷ bs) = bit_xor b 255 ∷ bs

-- The test of the fault injection, and the change that it makes.
unfoldable pub inject_fault : ℕ → ℕ → ProofRecordV1 → ProofRecordV1
inject_fault bad_proof_at block_index proof =
    if not (bad_proof_at == 0) && bad_proof_at == block_index
    then record proof { proof_bytes = flip_first proof.proof_bytes }
    else proof

module _ (sha256 : Bytes → Bytes) (bad_proof_at : ℕ) where
  -- The request that a commit becomes, and the book that may have got a new proof.
  unfoldable pub request_for : BlockCommit → ProofBook → SubmitRequest × ProofBook
  unfolding proof_for_block build_proof_record inject_fault
  request_for commit book =
      let (proof_bytes, book') = proof_for_block sha256 commit.block_index book in
      let proof = build_proof_record commit.block_index commit.commitment_hash proof_bytes in
      (
        record {
          phase = commit.phase;
          block_index = commit.block_index;
          commitment_hash = commit.commitment_hash;
          proof = inject_fault bad_proof_at commit.block_index proof;
          tx_count = commit.tx_count;
          txs = commit.txs;
          created_at = commit.created_at;
        },
        book',
      )

  -- One commit: the book after it, and what the node does with the request.
  unfoldable pub replay : ℤ → BlockCommit → ProofBook → Registry → L1CertNode → ProofBook × Outcome
  replay now commit book m n =
      let (req, book') = request_for commit book in
      (book', submit_certified_block sha256 now req m n)
