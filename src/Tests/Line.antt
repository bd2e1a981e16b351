-- ===== src/Tests/Line.antt =====
-- The goroutines of `Run` (internal/pipeline/runner.go) at concrete schedules.
use hyper_l.Base.{Bool, ◌≡◌, refl, arith, true, false, List, [], ◌∷◌, ◌++◌}
use hyper_l.Base.Int.{pos}
use hyper_l.Metrics.{new_registry}
use hyper_l.Pipeline.Types.{BlockCommit}
use hyper_l.Pipeline.Proof.{new_proof_book}
use hyper_l.Pipeline.L1.{new_node}
use hyper_l.Pipeline.Sequencer.{batches_of}
use hyper_l.Pipeline.Aggregator.{receive, collect}
use hyper_l.Pipeline.Runner.{
  Line, ended, Who, ingress_acts, sequencer_acts, aggregator_acts, replayer_acts, run_line,
  new_line,
}
use hyper_l.Pipeline.Runner.Outputs.{commits_of}
use hyper_l.Pipeline.Runner.Order.{submitted_in_order, drained_complete}
use hyper_l.Tests.Node.{digest, seed}
use hyper_l.Tests.Flow.{job}

abbrev replays : Who
replays = replayer_acts (pos 7000000)

-- One job goes through two lanes; the second `Enqueue` of the sequencer is refused once.
abbrev calm : List (Who × Bool)
calm =
    (ingress_acts, false)
    ∷ (ingress_acts, false)
    ∷ (sequencer_acts, false)
    ∷ (sequencer_acts, false)
    ∷ (sequencer_acts, false)
    ∷ (sequencer_acts, true)
    ∷ (ingress_acts, false)
    ∷ (sequencer_acts, false)
    ∷ (sequencer_acts, false)
    ∷ (aggregator_acts, false)
    ∷ (aggregator_acts, false)
    ∷ (aggregator_acts, false)
    ∷ (aggregator_acts, false)
    ∷ (aggregator_acts, false)
    ∷ (aggregator_acts, false)
    ∷ (replays, false)
    ∷ (replays, false)
    ∷ []

abbrev run : List (Who × Bool) → Line
run acts =
    run_line 2 2 digest 0 (new_line (job ∷ []) new_registry (new_proof_book seed) (new_node seed))
      acts

submitted_in_order_example :
    (rest : List BlockCommit) × ((run calm).submitted ++ rest ≡ commits_of digest 2 (job ∷ []))
submitted_in_order_example =
    submitted_in_order digest 2 2 0 (job ∷ []) new_registry (new_proof_book seed) (new_node seed)
      calm (omega arith) (omega arith)

drained_complete_example :
    ((run calm).submitted ≡ commits_of digest 2 (job ∷ [])) × ((run calm).states ≡ [])
unfolding run_line batches_of receive collect
drained_complete_example =
    drained_complete digest 2 2 0 (job ∷ []) new_registry (new_proof_book seed) (new_node seed) calm
      (omega arith) (omega arith) (refl, refl, refl, refl, refl, refl)

-- The sequencer finds the queue empty; the ingress sends its last job and ends; then the sequencer
-- looks at the flag. All four return, and the job is still in the queue.
abbrev late : List (Who × Bool)
late =
    (sequencer_acts, false)
    ∷ (sequencer_acts, false)
    ∷ (ingress_acts, false)
    ∷ (ingress_acts, false)
    ∷ (ingress_acts, false)
    ∷ (sequencer_acts, false)
    ∷ (aggregator_acts, false)
    ∷ (aggregator_acts, false)
    ∷ (aggregator_acts, false)
    ∷ (replays, false)
    ∷ (replays, false)
    ∷ (replays, false)
    ∷ []

late_all_ended :
    ((run late).ingress ≡ ended)
    × ((run late).sequencer ≡ ended)
    × ((run late).aggregator ≡ ended)
    × ((run late).replayer ≡ ended)
unfolding run_line
late_all_ended = (refl, refl, refl, refl)

late_job_left : ((run late).ingress_q ≡ job ∷ []) × ((run late).submitted ≡ [])
unfolding run_line
late_job_left = (refl, refl)
