-- ===== src/Tests/Flow.antt =====
-- The pipeline of internal/pipeline from a job to the node and the report, at concrete inputs.
use hyper_l.Base.{ℕ, ◌≤◌, ◌≡◌, ◌≢◌, inl, refl, arith, true, false, none, some, [], ◌∷◌, length, All}
use mathlib.Core.List.{Perm, flatten}
use hyper_l.Base.Int.{ℤ, pos}
use hyper_l.Base.GoMap.{lookup, erase}
use hyper_l.Metrics.{new_registry}
use hyper_l.Config.{Floats, blocks_for_phase, tx_per_block}
use hyper_l.Pipeline.Types.{BlockJob, BlockCommit, BlockLog}
use hyper_l.Pipeline.Ingress.{dataset_phase}
use hyper_l.Pipeline.Ingress.Manifest.{Finds, dataset_phase-Finds}
use hyper_l.Pipeline.Proof.{ProofBook, new_proof_book, proof_for_block, generate_proof_bytes}
use hyper_l.Pipeline.L1.{new_node, apply_txs}
use hyper_l.Pipeline.Sequencer.{lanes_of, batches_of}
use hyper_l.Pipeline.Sequencer.Lanes.{lanes_of-perm}
use hyper_l.Pipeline.Aggregator.{receive_all}
use hyper_l.Pipeline.Aggregator.Gather.{valid_txs}
use hyper_l.Pipeline.Replayer.{replay}
use hyper_l.Pipeline.EndToEnd.{job_commit, job_completes, job_accepted, bad_proof_rejected}
use hyper_l.Pipeline.Report.{Machine, Report, tally_from, build_report, report_of}
use hyper_l.Pipeline.Report.Sound.{is_failure, pass_sound}
use hyper_l.Tests.Node.{digest, seed, two_txs, pay}
use hyper_l.Tests.Queue.{config}

abbrev pub job : BlockJob
job = record {
  phase = "certification";
  block_index = 3;
  txs = pay 9 9 0 ∷ pay 4 5 6 ∷ two_txs;
  created_at = pos 0;
}

abbrev commit : BlockCommit
commit = job_commit digest job (lanes_of 2 job.txs)

lanes_of-perm_example : Perm (flatten (lanes_of 2 job.txs)) job.txs
lanes_of-perm_example = lanes_of-perm 2 job.txs (omega arith)

job_completes_example :
    let (states', commits, m') = receive_all digest 2 (batches_of 2 job) ([], new_registry) in
    (commits ≡ commit ∷ []) × (states' ≡ erase 3 [])
job_completes_example = job_completes digest 2 job [] new_registry (omega arith) (omega arith) refl

abbrev book : ProofBook
book = new_proof_book seed

book_right : (i : ℕ) → (proof_for_block digest i book).0 ≡ generate_proof_bytes digest seed i
unfolding proof_for_block
book_right i = refl

job_accepted_example :
    let (book', (m', node', resp)) =
      replay digest 0 (pos 7000000) commit book new_registry (new_node seed) in
    (resp.accepted ≡ true)
    × (resp.finalized ≡ true)
    × (node'.state ≡ (apply_txs (valid_txs (flatten (lanes_of 2 job.txs))) []).0)
job_accepted_example =
    job_accepted digest 2 0 job (pos 7000000) book new_registry (new_node seed) (book_right 3)
      (inl refl) refl

proof_long : length (generate_proof_bytes digest seed 3) ≢ 0
unfolding generate_proof_bytes
proof_long e = ground arith

bad_proof_rejected_example :
    let (book', (m', node', resp)) =
      replay digest 3 (pos 7000000) commit book new_registry (new_node seed) in
    (resp.accepted ≡ false)
    × (node'.state ≡ [])
    × (lookup 3 node'.blocks ≡ none)
    × (node'.state_version ≡ 0)
bad_proof_rejected_example =
    bad_proof_rejected digest commit (pos 7000000) book new_registry (new_node seed) (book_right 3)
      proof_long (λ e. ground arith) refl

-- float64 by its whole part, which is enough here.
abbrev whole : Floats
whole = record {
  Float = ℤ;
  of_int = λ x. x;
  times = λ x y. pos 0;
  over = λ x y. x;
  at_least = λ x y. true;
  truncate = λ x. x;
  seconds = λ x. x;
}

abbrev machine : Machine
machine = record {
  started_at = "";
  finished_at = "";
  host = "";
  go_version = "";
  config_sha256 = "";
  binary_sha256 = "";
}

abbrev entry : BlockLog
entry = record {
  phase = "certification";
  block_index = 0;
  tx_count = 2;
  proof_verified = true;
  finalized = true;
  duplicate = false;
  state_applied = true;
  state_version = 1;
  delta_count = 3;
  error = "";
  finalize_ms = 5;
  commitment_hash = [];
}

abbrev report : Report whole
report = report_of whole config (pos 120) new_registry (entry ∷ []) machine []

report_made : build_report whole config new_registry (entry ∷ []) machine [] ≡ some report
unfolding build_report blocks_for_phase
report_made = refl

report_passes : report.pass ≡ true
unfolding report_of tx_per_block tally_from
report_passes = refl

pass_sound_example :
    All (λ e. is_failure e ≡ false) (entry ∷ [])
    × (new_registry.drop_count ≡ 0)
    × (report.expected_certification_tx ≤ report.certification_verified_tx)
pass_sound_example =
    pass_sound whole config new_registry (entry ∷ []) machine [] report_made report_passes

-- Two blocks of two transfers each, behind 48 bytes.
dataset_phase-Finds_example :
    let (blob, entries) = dataset_phase "warmup" (pos 2) 5 (pos 48) 2 in
    (length entries ≡ 2) × All (Finds 48 blob 2) entries
dataset_phase-Finds_example = dataset_phase-Finds "warmup" 2 5 48 2 (omega arith)
