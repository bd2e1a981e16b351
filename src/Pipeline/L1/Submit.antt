-- ===== src/Pipeline/L1/Submit.antt =====
-- `SubmitCertifiedBlock`: what it accepts, what it changes, and what it never changes.
use hyper_l.Base.{
  ℕ, ◌+◌, ◌%◌, ◌^◌, ◌≡◌, ◌⊎◌, inl, inr, refl, ◌∙◌, arith, Bool, true, false, ◌&&◌, if◌then◌else◌,
  ◌==◌, Bool-cases, Option-cases, none, some, List, [], ◌∷◌, ◌++◌, length, All,
}
use hyper_l.Base.Int.{ℤ}
use hyper_l.Base.GoMap.{
  GoMap, lookup, insert, lookup-insert, HasUniqueKeys, insert-HasUniqueKeys, length-insert_new,
}
use hyper_l.Base.Bytes.{Bytes, bytes_eq}
use hyper_l.Frame.Tx.{IsTx}
use hyper_l.Metrics.{Registry, add_verified_tx, observe_finalize_latency_ms, new_registry}
use hyper_l.Pipeline.Types.{SubmitRequest, SubmitResponse, BlockLog}
use hyper_l.Pipeline.L1.{
  AcceptedBlock, L1CertNode, Outcome, append_log, since_ms, proof_ok_of, payload_ok_of,
  answer_duplicate, answer_conflict, reject_payload, reject_proof, accept_block, apply_txs,
  submit_certified_block, new_node,
}
use hyper_l.Pipeline.L1.Apply.{total, total-apply_txs}

-- The entry that an accepted request leaves in the block map.
abbrev pub accepted_entry : SubmitRequest → L1CertNode → AcceptedBlock
accepted_entry req n = record {
  commitment = req.commitment_hash;
  tx_count = req.tx_count;
  state_ver = (n.state_version + 1) % 2 ^ 64;
  delta_count = (apply_txs req.txs n.state).1;
}

-- An outcome that only appends to the log, an entry that marks no state change.
abbrev pub LogsOnly : Registry → L1CertNode → Outcome → Type 0
LogsOnly m n out =
    (entry : BlockLog) × (resp : SubmitResponse) × (entry.state_applied ≡ false)
    × (out ≡ (m, append_log entry n, resp))

module _ (req : SubmitRequest) (ms : ℕ) (m : Registry) (n : L1CertNode) where
  answer_duplicate-LogsOnly :
      (b : AcceptedBlock) (p q : Bool) → LogsOnly m n (answer_duplicate req ms m n b p q)
  unfolding answer_duplicate
  answer_duplicate-LogsOnly b p q = (_, _, refl, refl)

  answer_conflict-LogsOnly : LogsOnly m n (answer_conflict req ms m n)
  unfolding answer_conflict
  answer_conflict-LogsOnly = (_, _, refl, refl)

  reject_payload-LogsOnly : (p : Bool) → LogsOnly m n (reject_payload req ms m n p)
  unfolding reject_payload
  reject_payload-LogsOnly p = (_, _, refl, refl)

  reject_proof-LogsOnly : LogsOnly m n (reject_proof req ms m n)
  unfolding reject_proof
  reject_proof-LogsOnly = (_, _, refl, refl)

module _ (sha256 : Bytes → Bytes) (now : ℤ) (req : SubmitRequest) (m : Registry)
    (n : L1CertNode) where
  abbrev outcome : Outcome
  outcome = submit_certified_block sha256 now req m n

  abbrev accepting : Outcome
  accepting = accept_block req (since_ms now req.created_at) m n

  -- Every call either appends one log entry that marks no state change and changes nothing else, or
  -- accepts a new block whose payload and proof are both right.
  pub submit_cases :
      LogsOnly m n outcome
      ⊎ ((lookup req.block_index n.blocks ≡ none)
          × (payload_ok_of sha256 req ≡ true)
          × (proof_ok_of sha256 n.proof_seed req ≡ true)
          × (outcome ≡ accepting))
  unfolding submit_certified_block
  submit_cases = elim (Option-cases (lookup req.block_index n.blocks)) [
    | inr (b, known) ↦
        elim (Bool-cases
          (bytes_eq b.commitment req.commitment_hash && b.tx_count == req.tx_count)) [
            | inl same ↦ inl (
                rw (known, submit_certified_block, same)
                  (answer_duplicate-LogsOnly req ms m n b proof payload))
            | inr other ↦
                inl
                  (rw (known, submit_certified_block, other) (answer_conflict-LogsOnly req ms m n))
          ]
    | inl new ↦ elim (Bool-cases payload) [
      | inr bad ↦
          inl (rw (new, submit_certified_block, bad) (reject_payload-LogsOnly req ms m n proof))
      | inl good ↦ elim (Bool-cases proof) [
        | inr bad ↦
            inl (rw (new, submit_certified_block, good, bad) (reject_proof-LogsOnly req ms m n))
        | inl ok ↦ inr (new, good, ok, ground arith)
      ]
    ]
  ]
    where
      ms : ℕ
      ms = since_ms now req.created_at

      proof : Bool
      proof = proof_ok_of sha256 n.proof_seed req

      payload : Bool
      payload = payload_ok_of sha256 req

  -- A block that the node has stored is never altered: any later call leaves its entry as it is.
  pub blocks_immutable :
      (i : ℕ) {b : AcceptedBlock} → lookup i n.blocks ≡ some b → lookup i outcome.1.blocks ≡ some b
  unfolding accept_block
  blocks_immutable i h = elim submit_cases [
    | inl (entry, resp, off, e) ↦ rw e h
    | inr (new, good, ok, e) ↦
        rw e (ground (arith, lookup-insert i req.block_index (accepted_entry req n) n.blocks))
  ]

-- The transaction counts of the accepted blocks, added up.
abbrev pub tx_sum : GoMap AcceptedBlock → ℕ
tx_sum [] = 0
tx_sum ((i, b) ∷ d) = b.tx_count + tx_sum d

tx_sum-insert_new :
    (i : ℕ) (b : AcceptedBlock) (d : GoMap AcceptedBlock)
    → lookup i d ≡ none
    → tx_sum (insert i b d) ≡ tx_sum d + b.tx_count
tx_sum-insert_new i b [] h = omega arith
tx_sum-insert_new i b (e ∷ d) h = ground (arith, tx_sum-insert_new i b d)

-- The log entries that record a change of the balances.
abbrev pub applied : List BlockLog → ℕ
applied [] = 0
applied (e ∷ log) = (if e.state_applied then 1 else 0) + applied log

applied-append :
    (log : List BlockLog) (e : BlockLog) → applied (log ++ e ∷ []) ≡ applied log + applied (e ∷ [])
applied-append [] e = omega arith
applied-append (d ∷ log) e = omega (arith, applied-append log e)

-- The books of the node agree: blocks are listed once; their number is the state version, the number
-- of latency samples and the number of log entries that changed the balances; the counter of verified
-- transactions is the sum of their counts; and the balances add up to zero. Counters are uint64.
pub record IsConsistent (m : Registry) (n : L1CertNode) : Type 0 where
  pub unique : HasUniqueKeys n.blocks
  pub versioned : n.state_version ≡ length n.blocks % 2 ^ 64
  pub sampled : m.finalize_samples ≡ length n.blocks % 2 ^ 64
  pub logged : applied n.block_log ≡ length n.blocks
  pub verified : m.verified_tx ≡ tx_sum n.blocks % 2 ^ 64
  pub balanced : total n.state % 2 ^ 64 ≡ 0

pub new_node-IsConsistent : (seed : Bytes) → IsConsistent new_registry (new_node seed)
new_node-IsConsistent seed = record {
  unique = tt;
  versioned = refl;
  sampled = refl;
  logged = refl;
  verified = refl;
  balanced = refl;
}

accept_block-IsConsistent :
    (req : SubmitRequest) (ms : ℕ) (m : Registry) (n : L1CertNode)
    → All IsTx req.txs
    → lookup req.block_index n.blocks ≡ none
    → IsConsistent m n
    → let (m', n', resp) = accept_block req ms m n in IsConsistent m' n'
unfolding accept_block add_verified_tx observe_finalize_latency_ms
accept_block-IsConsistent req ms m n txs new c = record {
  unique = insert-HasUniqueKeys req.block_index _ n.blocks c.unique;
  versioned = omega (arith, c.versioned, length-insert_new req.block_index _ n.blocks new);
  sampled = omega (arith, c.sampled, length-insert_new req.block_index _ n.blocks new);
  logged = omega (
    arith,
    c.logged,
    applied-append n.block_log _,
    length-insert_new req.block_index _ n.blocks new,
  );
  verified = omega (arith, c.verified, tx_sum-insert_new req.block_index _ n.blocks new);
  balanced = total-apply_txs req.txs n.state txs ∙ c.balanced;
}

-- Every call keeps the books in agreement, for a request whose transfers fit their machine words.
pub submit-IsConsistent :
    (sha256 : Bytes → Bytes) (now : ℤ) (req : SubmitRequest) (m : Registry) (n : L1CertNode)
    → All IsTx req.txs
    → IsConsistent m n
    → let (m', n', resp) = submit_certified_block sha256 now req m n in IsConsistent m' n'
submit-IsConsistent sha256 now req m n txs c = elim (submit_cases sha256 now req m n) [
  | inl (entry, resp, off, e) ↦ rw e (record {
    unique = c.unique;
    versioned = c.versioned;
    sampled = c.sampled;
    logged = ground (arith, applied-append n.block_log entry, c.logged);
    verified = c.verified;
    balanced = c.balanced;
  })
  | inr (new, good, ok, e) ↦
      rw e (accept_block-IsConsistent req (since_ms now req.created_at) m n txs new c)
]
