-- ===== src/Pipeline/L1/Decide.antt =====
-- `SubmitCertifiedBlock`: when it accepts, and how it answers a block that it knows.
use mathlib.Core.Option.{some-injective}
use mathlib.Core.Bool.{false≢true}
use hyper_l.Base.{
  ◌+◌, ◌%◌, ◌^◌, ◌==◌, Bool-cases, Option-cases, inl, inr, ◌↔◌, sym, ◌∙◌, ◌≡◌, refl, ap, arith,
  true, false, ◌&&◌, if◌then◌else◌, none, some, [], ◌∷◌, ◌++◌, length, length-append,
}
use hyper_l.Base.Int.{ℤ}
use hyper_l.Base.GoMap.{lookup, lookup-insert}
use hyper_l.Base.Bytes.{Bytes, bytes_eq, bytes_eq→eq, bytes_eq_refl}
use hyper_l.Metrics.{Registry}
use hyper_l.Pipeline.Types.{SubmitRequest, SubmitResponse, BlockLog, commitment_from_txs}
use hyper_l.Pipeline.Proof.{generate_proof_bytes}
use hyper_l.Pipeline.L1.{
  AcceptedBlock, L1CertNode, since_ms, amounts_ok, proof_ok_of, payload_ok_of, answer_duplicate,
  answer_conflict, reject_payload, reject_proof, accept_block, apply_txs, submit_certified_block,
}
use hyper_l.Pipeline.L1.Submit.{accepted_entry}

-- The block of the request is stored, with the request's commitment and count.
abbrev pub IsKnown : SubmitRequest → L1CertNode → Type 0
IsKnown req n =
    (b : AcceptedBlock) × (lookup req.block_index n.blocks ≡ some b)
    × (b.commitment ≡ req.commitment_hash)
    × (b.tx_count ≡ req.tx_count)

-- A log entry that says finalized where the response does not.
abbrev pub SaysMore : BlockLog → SubmitResponse → Type 0
SaysMore entry resp = (entry.finalized ≡ true) × (resp.finalized ≡ false)

module _ (sha256 : Bytes → Bytes) (now : ℤ) (req : SubmitRequest) (m : Registry)
    (n : L1CertNode) where
  -- A request for a block that the node does not know is accepted, and finalized, exactly when
  -- its payload and its proof are both right, and is no duplicate. Then its transfers are
  -- applied, its entry is stored and the version grows by one; otherwise all three stay.
  pub decides_new_block :
      lookup req.block_index n.blocks ≡ none
      → let (m', n', resp) = submit_certified_block sha256 now req m n in
        let good = payload_ok_of sha256 req && proof_ok_of sha256 n.proof_seed req in
        (resp.accepted ≡ good)
        × (resp.finalized ≡ good)
        × (resp.duplicate ≡ false)
        × (n'.state ≡ (if good then (apply_txs req.txs n.state).0 else n.state))
        × (lookup req.block_index n'.blocks ≡ (if good then some (accepted_entry req n) else none))
        × (n'.state_version ≡ (if good then (n.state_version + 1) % 2 ^ 64 else n.state_version))
  unfolding submit_certified_block reject_payload reject_proof accept_block
  decides_new_block new =
      ground (arith, lookup-insert req.block_index req.block_index (accepted_entry req n) n.blocks)

  accepted_checks :
      (submit_certified_block sha256 now req m n).2.accepted ≡ true
      → (payload_ok_of sha256 req ≡ true) × (proof_ok_of sha256 n.proof_seed req ≡ true)
  unfolding submit_certified_block answer_duplicate answer_conflict reject_payload reject_proof
  accepted_checks e = ground arith

  -- Every request that is accepted, as a new block or as a duplicate, is right: its proof is the one
  -- that the seed gives for this block and is bound to the request's commitment, the commitment is
  -- that of the transfers, their number is the one announced, and no amount is zero.
  pub accepted_sound :
      (submit_certified_block sha256 now req m n).2.accepted ≡ true
      → (req.proof.proof_bytes ≡ generate_proof_bytes sha256 n.proof_seed req.block_index)
        × (req.proof.block_index ≡ req.block_index)
        × (req.proof.commitment_hash ≡ req.commitment_hash)
        × (commitment_from_txs sha256 req.block_index req.txs ≡ req.commitment_hash)
        × (req.tx_count ≡ length req.txs % 2 ^ 32)
        × (amounts_ok req.txs ≡ true)
  unfolding proof_ok_of payload_ok_of
  accepted_sound e = ground (
    arith,
    accepted_checks e,
    bytes_eq→eq req.proof.proof_bytes (generate_proof_bytes sha256 n.proof_seed req.block_index),
    bytes_eq→eq req.proof.commitment_hash req.commitment_hash,
    bytes_eq→eq (commitment_from_txs sha256 req.block_index req.txs) req.commitment_hash,
  )

  accepted_new :
      lookup req.block_index n.blocks ≡ none
      → (submit_certified_block sha256 now req m n).2.accepted ≡ true
      → submit_certified_block sha256 now req m n
        ≡ accept_block req (since_ms now req.created_at) m n
  unfolding submit_certified_block reject_payload reject_proof
  accepted_new new e = ground arith

  same_test :
      (b : AcceptedBlock)
      → b.commitment ≡ req.commitment_hash
      → b.tx_count ≡ req.tx_count
      → (bytes_eq b.commitment req.commitment_hash && b.tx_count == req.tx_count) ≡ true
  same_test b c t =
      ground (arith, bytes_eq_refl req.commitment_hash, ap (λ h. bytes_eq h req.commitment_hash) c)

  -- A request whose block is stored with the same commitment and count is answered as a duplicate.
  known_same :
      {b : AcceptedBlock}
      → lookup req.block_index n.blocks ≡ some b
      → b.commitment ≡ req.commitment_hash
      → b.tx_count ≡ req.tx_count
      → submit_certified_block sha256 now req m n
        ≡ answer_duplicate req
            (since_ms now req.created_at)
            m
            n
            b
            (proof_ok_of sha256 n.proof_seed req)
            (payload_ok_of sha256 req)
  unfolding submit_certified_block
  known_same {b} known c t = ground (arith, same_test b c t)

  -- Every call appends one entry to the log, for its block. The response says finalized exactly if the
  -- entry does and the payload is right. So the entry says finalized where the response does not exactly
  -- when the request is one for a stored block, with its commitment and count, and has a right proof and
  -- a wrong payload.
  pub log_differs_iff :
      let (m', n', resp) = submit_certified_block sha256 now req m n in
      (entry : BlockLog) × (n'.block_log ≡ n.block_log ++ entry ∷ [])
      × (entry.block_index ≡ req.block_index)
      × (resp.finalized ≡ entry.finalized && payload_ok_of sha256 req)
      × (SaysMore entry resp ↔ (
          IsKnown req n
          × (proof_ok_of sha256 n.proof_seed req ≡ true)
          × (payload_ok_of sha256 req ≡ false)))
  unfolding answer_duplicate answer_conflict reject_payload reject_proof accept_block
      submit_certified_block
  log_differs_iff = elim (Option-cases (lookup req.block_index n.blocks)) [
    | inr (b, known) ↦
        elim (Bool-cases
          (bytes_eq b.commitment req.commitment_hash && b.tx_count == req.tx_count)) [
            | inl same ↦
                rw (known, submit_certified_block, same)
                  (
                    _,
                    refl,
                    refl,
                    refl,
                    (
                      λ h. (
                        (
                          b,
                          refl,
                          ground (arith, same, bytes_eq→eq b.commitment req.commitment_hash),
                          ground (arith, same),
                        ),
                        h.0,
                        ground (arith, h),
                      ),
                      λ h. ground (arith, h),
                    ),
                  )
            | inr other ↦
                rw (known, submit_certified_block, other)
                  (
                    _,
                    refl,
                    refl,
                    refl,
                    (
                      λ h. ground (arith, h),
                      λ h.
                          let (b', found, c, t) = h.0 in
                          let is : b ≡ b' = some-injective _ _ found in
                          absurd (
                            false≢true (
                              sym other
                              ∙ same_test b (ap (λ x. x.commitment) is ∙ c)
                                  (ap (λ x. x.tx_count) is ∙ t))),
                    ),
                  )
          ]
    | inl new ↦ elim (Bool-cases (payload_ok_of sha256 req)) [
      | inr bad ↦
          rw (new, submit_certified_block, bad)
            (_, refl, refl, ground arith, (λ h. ground (arith, h), λ h. ground (arith, h)))
      | inl good ↦ elim (Bool-cases (proof_ok_of sha256 n.proof_seed req)) [
        | inr bad ↦
            rw (new, submit_certified_block, good, bad)
              (_, refl, refl, refl, (λ h. ground (arith, h), λ h. ground (arith, h)))
        | inl ok ↦
            rw (new, submit_certified_block, good, ok)
              (_, refl, refl, refl, (λ h. ground (arith, h), λ h. ground (arith, h)))
      ]
    ]
  ]

module _ (sha256 : Bytes → Bytes) (now later : ℤ) (req : SubmitRequest) (m : Registry)
    (n : L1CertNode) where
  second_call :
      let (m', n', resp) = accept_block req (since_ms now req.created_at) m n in
      submit_certified_block sha256 later req m' n'
      ≡ answer_duplicate req
          (since_ms later req.created_at)
          m'
          n'
          (accepted_entry req n)
          (proof_ok_of sha256 n.proof_seed req)
          (payload_ok_of sha256 req)
  unfolding accept_block
  second_call =
      let (m', n', resp) = accept_block req (since_ms now req.created_at) m n in
      known_same sha256 later req m' n' {b = accepted_entry req n}
        (ground
          (arith, lookup-insert req.block_index req.block_index (accepted_entry req n) n.blocks))
        refl refl

  -- A request for an unknown block that was accepted, sent once more at any time, is accepted as
  -- a duplicate and changes nothing but the log, which grows by one entry.
  pub resubmission_idempotent :
      lookup req.block_index n.blocks ≡ none
      → (submit_certified_block sha256 now req m n).2.accepted ≡ true
      → let (m', n', resp) = submit_certified_block sha256 now req m n in
        let (m'', n'', again) = submit_certified_block sha256 later req m' n' in
        (again.accepted ≡ true)
        × (again.duplicate ≡ true)
        × (m'' ≡ m')
        × (n''.state ≡ n'.state)
        × (n''.blocks ≡ n'.blocks)
        × (n''.state_version ≡ n'.state_version)
        × (length n''.block_log ≡ length n'.block_log + 1)
  unfolding answer_duplicate
  resubmission_idempotent new e =
      let (payload, proof) = accepted_checks sha256 now req m n e in
      rw (accepted_new sha256 now req m n new e, second_call)
        (ground (arith, payload, proof), refl, refl, refl, refl, refl, length-append _ _)
