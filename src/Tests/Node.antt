-- ===== src/Tests/Node.antt =====
-- The node of internal/pipeline/l1.go at concrete requests, with a stand-in for the digest.
use hyper_l.Base.{
  ℕ, ◌+◌, ◌%◌, ◌^◌, ◌≡◌, ◌↔◌, refl, arith, true, false, ◌&&◌, if◌then◌else◌, none, some, List, [],
  ◌∷◌, ◌++◌, length, take, replicate, All,
}
use hyper_l.Base.Int.{ℤ, pos}
use hyper_l.Base.GoMap.{lookup}
use hyper_l.Base.Bytes.{Bytes}
use hyper_l.Frame.{Tx12, marshal_tx12, encode_tx_slice}
use hyper_l.Frame.Tx.{IsTx}
use hyper_l.Metrics.{new_registry}
use hyper_l.Pipeline.Types.{SubmitRequest, BlockLog, commitment_from_txs}
use hyper_l.Pipeline.Proof.{generate_proof_bytes, build_proof_record}
use hyper_l.Pipeline.L1.{
  L1CertNode, Outcome, new_node, balance_word, apply_txs, amounts_ok, accept_block, proof_ok_of,
  payload_ok_of, submit_certified_block,
}
use hyper_l.Pipeline.L1.Apply.{total, total-apply_txs, sent, received, balance-apply_txs}
use hyper_l.Pipeline.L1.Submit.{
  IsConsistent, new_node-IsConsistent, accepted_entry, submit-IsConsistent, blocks_immutable,
}
use hyper_l.Pipeline.L1.Decide.{
  decides_new_block, accepted_sound, resubmission_idempotent, IsKnown, SaysMore, log_differs_iff,
}
use hyper_l.Pipeline.Report.Sound.{tells, submit_all, log_tells_balances}

abbrev pub digest : Bytes → Bytes
digest xs = take 32 (xs ++ replicate 32 7)

abbrev pub seed : Bytes
seed = 65 ∷ 66 ∷ []

abbrev pub pay : ℕ → ℕ → ℕ → Tx12
pay a b n = record { sender_index = a; receiver_index = b; amount = n }

abbrev pub two_txs : List Tx12
two_txs = pay 1 2 5 ∷ pay 2 3 4 ∷ []

abbrev pub two_txs_fit : All IsTx two_txs
two_txs_fit = (
  record { sender_fits = omega arith; receiver_fits = omega arith; amount_fits = omega arith },
  (
    record { sender_fits = omega arith; receiver_fits = omega arith; amount_fits = omega arith },
    tt,
  ),
)

abbrev good_with : List Tx12 → SubmitRequest
good_with txs = record {
  phase = "certification";
  block_index = 1;
  commitment_hash = commitment_from_txs digest 1 two_txs;
  proof =
      build_proof_record 1 (commitment_from_txs digest 1 two_txs)
        (generate_proof_bytes digest seed 1);
  tx_count = 2;
  txs = txs;
  created_at = pos 0;
}

abbrev good : SubmitRequest
good = good_with two_txs

abbrev node : L1CertNode
node = new_node seed

abbrev now : ℤ
now = pos 5000000

abbrev call : Outcome
call = submit_certified_block digest now good new_registry node

good_accepted : call.2.accepted ≡ true
unfolding submit_certified_block proof_ok_of payload_ok_of amounts_ok commitment_from_txs
    encode_tx_slice marshal_tx12 generate_proof_bytes build_proof_record accept_block
good_accepted = refl

accepted_sound_example :
    (good.proof.proof_bytes ≡ generate_proof_bytes digest seed 1)
    × (good.proof.block_index ≡ 1)
    × (good.proof.commitment_hash ≡ good.commitment_hash)
    × (commitment_from_txs digest 1 two_txs ≡ good.commitment_hash)
    × (2 ≡ length two_txs % 2 ^ 32)
    × (amounts_ok two_txs ≡ true)
unfolding build_proof_record
accepted_sound_example = accepted_sound digest now good new_registry node good_accepted

submit-IsConsistent_example : IsConsistent call.0 call.1
submit-IsConsistent_example =
    submit-IsConsistent digest now good new_registry node two_txs_fit (new_node-IsConsistent seed)

decides_new_block_example :
    let fine = payload_ok_of digest good && proof_ok_of digest seed good in
    (call.2.accepted ≡ fine)
    × (call.2.finalized ≡ fine)
    × (call.2.duplicate ≡ false)
    × (call.1.state ≡ (if fine then (apply_txs two_txs []).0 else []))
    × (lookup 1 call.1.blocks ≡ (if fine then some (accepted_entry good node) else none))
    × (call.1.state_version ≡ (if fine then 1 else 0))
decides_new_block_example = decides_new_block digest now good new_registry node refl

stored : lookup 1 call.1.blocks ≡ some (accepted_entry good node)
unfolding submit_certified_block proof_ok_of payload_ok_of amounts_ok commitment_from_txs
    encode_tx_slice marshal_tx12 generate_proof_bytes build_proof_record accept_block
stored = refl

blocks_immutable_example :
    lookup 1 (submit_certified_block digest now (good_with []) call.0 call.1).1.blocks
    ≡ some (accepted_entry good node)
blocks_immutable_example = blocks_immutable digest now (good_with []) call.0 call.1 1 stored

abbrev again : Outcome
again = submit_certified_block digest (pos 9000000) good call.0 call.1

resubmission_idempotent_example :
    (again.2.accepted ≡ true)
    × (again.2.duplicate ≡ true)
    × (again.0 ≡ call.0)
    × (again.1.state ≡ call.1.state)
    × (again.1.blocks ≡ call.1.blocks)
    × (again.1.state_version ≡ call.1.state_version)
    × (length again.1.block_log ≡ length call.1.block_log + 1)
resubmission_idempotent_example =
    resubmission_idempotent digest now (pos 9000000) good new_registry node refl good_accepted

-- The commitment of the accepted block, with a transfer that moves nothing in its payload.
abbrev forged : SubmitRequest
forged = good_with (pay 1 2 0 ∷ pay 2 3 4 ∷ [])

forged_proof : proof_ok_of digest call.1.proof_seed forged ≡ true
unfolding submit_certified_block proof_ok_of payload_ok_of amounts_ok commitment_from_txs
    encode_tx_slice marshal_tx12 generate_proof_bytes build_proof_record accept_block
forged_proof = refl

forged_payload : payload_ok_of digest forged ≡ false
unfolding payload_ok_of amounts_ok
forged_payload = refl

log_differs_iff_example :
    let out = submit_certified_block digest now forged call.0 call.1 in
    (entry : BlockLog) × (out.1.block_log ≡ call.1.block_log ++ entry ∷ [])
    × (entry.block_index ≡ 1)
    × (out.2.finalized ≡ entry.finalized && payload_ok_of digest forged)
    × (SaysMore entry out.2 ↔ (
        IsKnown forged call.1
        × (proof_ok_of digest call.1.proof_seed forged ≡ true)
        × (payload_ok_of digest forged ≡ false)))
log_differs_iff_example = log_differs_iff digest now forged call.0 call.1

-- The forged request is one whose entry says finalized where the response does not.
forged_says_more :
    let out = log_differs_iff digest now forged call.0 call.1 in
    SaysMore out.0 (submit_certified_block digest now forged call.0 call.1).2
forged_says_more =
    let out = log_differs_iff digest now forged call.0 call.1 in
    out.4.1 ((accepted_entry good node, stored, refl, refl), forged_proof, forged_payload)

balance-apply_txs_example :
    (balance_word 2 (apply_txs two_txs []).0 + sent 2 two_txs) % 2 ^ 64
    ≡ (balance_word 2 [] + received 2 two_txs) % 2 ^ 64
balance-apply_txs_example = balance-apply_txs 2 two_txs [] two_txs_fit

total-apply_txs_example : total (apply_txs two_txs []).0 % 2 ^ 64 ≡ total [] % 2 ^ 64
total-apply_txs_example = total-apply_txs two_txs [] two_txs_fit

-- A block, once more at a later time, and with a forged payload.
abbrev three_calls : List (ℤ × SubmitRequest)
three_calls = (now, good) ∷ (pos 9000000, good) ∷ (now, forged) ∷ []

log_tells_balances_example :
    let (m', n') = submit_all digest three_calls new_registry node in
    (entries : List BlockLog) × (n'.block_log ≡ [] ++ entries)
    × (length entries ≡ 3)
    × (n'.state ≡ tells three_calls entries [])
log_tells_balances_example = log_tells_balances digest three_calls new_registry node
