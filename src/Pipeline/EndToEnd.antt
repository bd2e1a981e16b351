-- ===== src/Pipeline/EndToEnd.antt =====
-- From a block of the ingress to the node: the sequencer, the aggregator, the replayer and the node
-- (internal/pipeline/runner.go, l1.go) put one after the other, as their queues connect them.
use Prim.Native.Nat.{differ, bit_xor, bit_xor-bitwise}
use hyper_l.Base.{
  ℕ, zero, suc, ◌+◌, ◌-◌, ◌%◌, ◌^◌, ◌<◌, ◌≤◌, ◌≡◌, ◌≢◌, ◌⊎◌, refl, sym, ap, subst, ◌∙◌, arith, true,
  false, ◌&&◌, none, some, List, [], ◌∷◌, ◌++◌, length,
}
use mathlib.Core.List.{flatten}
use hyper_l.Base.Int.{ℤ}
use hyper_l.Base.GoMap.{GoMap, lookup, insert, erase, lookup-insert}
use hyper_l.Base.Bytes.{Bytes, bytes_eq, bytes_eq_refl}
use hyper_l.Frame.{Tx12}
use hyper_l.Metrics.{Registry}
use hyper_l.Pipeline.Types.{BlockJob, LaneBatch, BlockCommit, commitment_from_txs}
use hyper_l.Pipeline.Proof.{ProofBook, generate_proof_bytes, proof_for_block, build_proof_record}
use hyper_l.Pipeline.L1.{L1CertNode, amounts_ok, proof_ok_of, payload_ok_of, apply_txs}
use hyper_l.Pipeline.L1.Decide.{decides_new_block}
use hyper_l.Pipeline.Sequencer.{lanes_of, batches_from, batches_of}
use hyper_l.Pipeline.Sequencer.Lanes.{length-lanes_of}
use hyper_l.Pipeline.Aggregator.{AggregateState, first_state, state_for, receive_all}
use hyper_l.Pipeline.Aggregator.Gather.{
  valid_txs, payloads, FromNewLanes, AreOfBlock, IsCounted, commit_with, receive_all-completes,
}
use hyper_l.Pipeline.Replayer.{flip_first, inject_fault, request_for, replay}

-- The batches of a job as the aggregator sees them.
batches_from-payloads :
    (job : BlockJob) (lane : ℕ) (lanes : List (List Tx12))
    → payloads (batches_from job lane lanes) ≡ flatten lanes
unfolding batches_from flatten
batches_from-payloads job lane [] = refl
batches_from-payloads job lane (p ∷ lanes) =
    ap (λ l. p ++ l) (batches_from-payloads job (lane + 1) lanes)

batches_from-AreOfBlock :
    (job : BlockJob) (lane : ℕ) (lanes : List (List Tx12))
    → AreOfBlock job.block_index (batches_from job lane lanes)
unfolding batches_from
batches_from-AreOfBlock job lane [] = tt
batches_from-AreOfBlock job lane (p ∷ lanes) = (refl, batches_from-AreOfBlock job (lane + 1) lanes)

batches_from-FromNewLanes :
    (job : BlockJob) (lane : ℕ) (lanes : List (List Tx12)) (d : GoMap Bytes)
    → lane + length lanes ≤ 2 ^ 16
    → ((k : ℕ) → lane ≤ k → lookup k d ≡ none)
    → FromNewLanes (batches_from job lane lanes) d
unfolding batches_from
batches_from-FromNewLanes job lane [] d fits new = tt
batches_from-FromNewLanes job lane (p ∷ lanes) d fits new = (
  new (lane % 2 ^ 16) (omega arith),
  λ h.
      batches_from-FromNewLanes job (lane + 1) lanes (insert (lane % 2 ^ 16) h d) (omega arith)
        (λ k later. ground (arith, lookup-insert k (lane % 2 ^ 16) h d, new k)),
)

length-batches_from :
    (job : BlockJob) (lane : ℕ) (lanes : List (List Tx12))
    → length (batches_from job lane lanes) ≡ length lanes
unfolding batches_from
length-batches_from job lane [] = refl
length-batches_from job lane (p ∷ lanes) = omega (arith, length-batches_from job (lane + 1) lanes)

-- What the aggregator commits of a job whose lanes are `lanes`.
abbrev pub job_commit : (Bytes → Bytes) → BlockJob → List (List Tx12) → BlockCommit
job_commit sha256 job lanes =
    let txs = valid_txs (flatten lanes) in
    record {
      phase = job.phase;
      block_index = job.block_index;
      commitment_hash = commitment_from_txs sha256 job.block_index txs;
      tx_count = length txs % 2 ^ 32;
      txs = txs;
      created_at = job.created_at;
    }

lanes_complete :
    (sha256 : Bytes → Bytes) (n : ℕ) (job : BlockJob) (lanes : List (List Tx12))
    (states : GoMap AggregateState) (m : Registry)
    → 0 < n
    → n ≤ 2 ^ 16
    → length lanes ≡ n
    → lookup job.block_index states ≡ none
    → let (states', commits, m') = receive_all sha256 n (batches_from job 0 lanes) (states, m) in
      (commits ≡ job_commit sha256 job lanes ∷ []) × (states' ≡ erase job.block_index states)
unfolding batches_from flatten
lanes_complete sha256 n job [] states m p fits e new = absurd (omega arith)
lanes_complete sha256 n job (l ∷ lanes) states m p fits e new =
    let b : LaneBatch = record {
      phase = job.phase;
      block_index = job.block_index;
      lane_id = 0;
      payload = l;
      created_at = job.created_at;
    } in
    let bs = batches_from job 1 lanes in
    let begun : state_for b states ≡ first_state b =
      ap (λ found. elim found [ some st ↦ st | none ↦ first_state b ]) new in
    let done =
      subst
        (λ st.
          IsCounted st
          → FromNewLanes (b ∷ bs) st.lane_hashes
          → length st.lane_hashes + length (b ∷ bs) ≡ n
          → ((receive_all sha256 n (b ∷ bs) (states, m)).1
              ≡ commit_with sha256 n job.block_index st (st.txs ++ valid_txs (payloads (b ∷ bs)))
                ∷ [])
            × ((receive_all sha256 n (b ∷ bs) (states, m)).0 ≡ erase job.block_index states))
        begun
        (receive_all-completes sha256 n job.block_index b bs states m
          (batches_from-AreOfBlock job 0 (l ∷ lanes)))
        refl (batches_from-FromNewLanes job 0 (l ∷ lanes) [] (omega arith) (λ k later. refl))
        (omega (arith, length-batches_from job 1 lanes)) in
    let txs : payloads (b ∷ bs) ≡ flatten (l ∷ lanes) = batches_from-payloads job 0 (l ∷ lanes) in
    rw (sym txs) done

-- The block of a job is completed by its own batches: with 1 to 65536 lanes and a block that is not
-- being gathered, the aggregator makes exactly one commit, of those transfers of the lanes, lane after
-- lane, that move something, and forgets the block.
pub job_completes :
    (sha256 : Bytes → Bytes) (n : ℕ) (job : BlockJob) (states : GoMap AggregateState) (m : Registry)
    → 0 < n
    → n ≤ 2 ^ 16
    → lookup job.block_index states ≡ none
    → let (states', commits, m') = receive_all sha256 n (batches_of n job) (states, m) in
      (commits ≡ job_commit sha256 job (lanes_of n job.txs) ∷ [])
      × (states' ≡ erase job.block_index states)
unfolding batches_of
job_completes sha256 n job states m p fits new =
    lanes_complete sha256 n job (lanes_of n job.txs) states m p fits (length-lanes_of n job.txs) new

valid_txs-amounts_ok : (txs : List Tx12) → amounts_ok (valid_txs txs) ≡ true
unfolding amounts_ok
valid_txs-amounts_ok [] = refl
valid_txs-amounts_ok (tx ∷ txs) = ground (arith, valid_txs-amounts_ok txs)

-- The proof of a request, apart from its bytes, is bound to the block and its commitment.
proof_ok_of-bytes :
    (sha256 : Bytes → Bytes) (bad : ℕ) (commit : BlockCommit) (book : ProofBook) (seed : Bytes)
    → let req = (request_for sha256 bad commit book).0 in
      proof_ok_of sha256 seed req
      ≡ bytes_eq req.proof.proof_bytes (generate_proof_bytes sha256 seed commit.block_index)
unfolding request_for proof_ok_of build_proof_record inject_fault
proof_ok_of-bytes sha256 bad commit book seed = ground (arith, bytes_eq_refl commit.commitment_hash)

fault_off :
    (sha256 : Bytes → Bytes) (bad : ℕ) (commit : BlockCommit) (book : ProofBook)
    → (bad ≡ 0) ⊎ (bad ≢ commit.block_index)
    → (request_for sha256 bad commit book).0.proof.proof_bytes
      ≡ (proof_for_block sha256 commit.block_index book).0
unfolding request_for build_proof_record inject_fault
fault_off sha256 bad commit book off = ground arith

fault_on :
    (sha256 : Bytes → Bytes) (commit : BlockCommit) (book : ProofBook)
    → commit.block_index ≢ 0
    → (request_for sha256 commit.block_index commit book).0.proof.proof_bytes
      ≡ flip_first (proof_for_block sha256 commit.block_index book).0
unfolding request_for build_proof_record inject_fault
fault_on sha256 commit book on = ground arith

-- The commit of a job's lanes, replayed to a node that does not know the block, is accepted and
-- finalized, and exactly the valid transfers of the lanes are applied to the balances. The book
-- holds the proof that the node's seed gives, and the fault injection is off or at another block.
pub job_accepted :
    (sha256 : Bytes → Bytes) (n bad_proof_at : ℕ) (job : BlockJob) (now : ℤ) (book : ProofBook)
    (m : Registry) (node : L1CertNode)
    → (proof_for_block sha256 job.block_index book).0
      ≡ generate_proof_bytes sha256 node.proof_seed job.block_index
    → (bad_proof_at ≡ 0) ⊎ (bad_proof_at ≢ job.block_index)
    → lookup job.block_index node.blocks ≡ none
    → let commit = job_commit sha256 job (lanes_of n job.txs) in
      let (book', (m', node', resp)) = replay sha256 bad_proof_at now commit book m node in
      (resp.accepted ≡ true)
      × (resp.finalized ≡ true)
      × (node'.state ≡ (apply_txs (valid_txs (flatten (lanes_of n job.txs))) node.state).0)
unfolding replay request_for payload_ok_of
job_accepted sha256 n bad job now book m node right off new =
    let commit = job_commit sha256 job (lanes_of n job.txs) in
    let req = (request_for sha256 bad commit book).0 in
    let proof : proof_ok_of sha256 node.proof_seed req ≡ true =
      proof_ok_of-bytes sha256 bad commit book node.proof_seed
      ∙ ap (λ p. bytes_eq p (generate_proof_bytes sha256 node.proof_seed job.block_index))
          (fault_off sha256 bad commit book off ∙ right)
      ∙ bytes_eq_refl (generate_proof_bytes sha256 node.proof_seed job.block_index) in
    let payload : payload_ok_of sha256 req ≡ true = ground (
      arith,
      valid_txs-amounts_ok (flatten (lanes_of n job.txs)),
      bytes_eq_refl commit.commitment_hash,
    ) in
    let d = rw (payload, proof) at (decides_new_block sha256 now req m node new) in (d.0, d.1, d.3)

differ_one : (x : ℕ) → x < 2 → differ x 1 ≡ 1 - x
differ_one zero h = refl
differ_one (suc zero) h = refl
differ_one (suc (suc x)) h = absurd (omega arith)

xor_flips : (b : ℕ) → bit_xor b 255 ≢ b
xor_flips zero e = ground arith
xor_flips (suc b) e =
    omega (arith, bit_xor-bitwise (suc b) 255, differ_one (suc b % 2) (omega arith))

flipped : (p : Bytes) → length p ≢ 0 → bytes_eq (flip_first p) p ≡ false
flipped [] e = absurd (e refl)
flipped (b ∷ bs) e = ground (arith, xor_flips b)

-- With the fault injected at the block of a commit, which is not block 0, the node takes nothing
-- of it: the request is not accepted, the balances and the version stay, and the block is not
-- stored. The node does not know the block, the book holds the proof that the node's seed gives,
-- and this proof has a byte.
pub bad_proof_rejected :
    (sha256 : Bytes → Bytes) (commit : BlockCommit) (now : ℤ) (book : ProofBook) (m : Registry)
    (node : L1CertNode)
    → (proof_for_block sha256 commit.block_index book).0
      ≡ generate_proof_bytes sha256 node.proof_seed commit.block_index
    → length (generate_proof_bytes sha256 node.proof_seed commit.block_index) ≢ 0
    → commit.block_index ≢ 0
    → lookup commit.block_index node.blocks ≡ none
    → let (book', (m', node', resp)) = replay sha256 commit.block_index now commit book m node in
      (resp.accepted ≡ false)
      × (node'.state ≡ node.state)
      × (lookup commit.block_index node'.blocks ≡ none)
      × (node'.state_version ≡ node.state_version)
unfolding replay request_for
bad_proof_rejected sha256 commit now book m node right long on new =
    let req = (request_for sha256 commit.block_index commit book).0 in
    let spoilt : proof_ok_of sha256 node.proof_seed req ≡ false =
      proof_ok_of-bytes sha256 commit.block_index commit book node.proof_seed
      ∙ ap (λ p. bytes_eq p (generate_proof_bytes sha256 node.proof_seed commit.block_index))
          (fault_on sha256 commit book on ∙ ap flip_first right)
      ∙ flipped (generate_proof_bytes sha256 node.proof_seed commit.block_index) long in
    let bad : payload_ok_of sha256 req && proof_ok_of sha256 node.proof_seed req ≡ false =
      ground arith in
    let d = rw bad at (decides_new_block sha256 now req m node new) in (d.0, d.3, d.4, d.5)
