-- ===== src/Pipeline/Runner/Order.antt =====
-- What reaches the node of the goroutines of `Run` (internal/pipeline/runner.go), in any interleaving.
use mathlib.Core.List.{append_assoc, append-nil}
use hyper_l.Base.{ℕ, ◌^◌, ◌<◌, ◌≤◌, ◌≡◌, refl, sym, ap, ◌∙◌, Bool, List, [], ◌++◌}
use hyper_l.Base.GoMap.{GoMap}
use hyper_l.Base.Bytes.{Bytes}
use hyper_l.Metrics.{Registry}
use hyper_l.Pipeline.Types.{BlockJob, LaneBatch, BlockCommit}
use hyper_l.Pipeline.Proof.{ProofBook}
use hyper_l.Pipeline.L1.{L1CertNode}
use hyper_l.Pipeline.Aggregator.{AggregateState}
use hyper_l.Pipeline.Runner.{Line, Who, run_line, new_line}
use hyper_l.Pipeline.Runner.Outputs.{
  all_batches, all_batches-append, outputs, outputs-append, commits_of, outputs-all_batches,
}
use hyper_l.Pipeline.Runner.Kept.{IsKept}
use hyper_l.Pipeline.Runner.Sends.{IsKept-run_line}

module _ (sha256 : Bytes → Bytes) (n cap bad_proof_at : ℕ) (jobs : List BlockJob) where
  -- What the batches that are still under way lead to.
  abbrev left_of : Line → List LaneBatch
  left_of l = l.lane_q ++ l.lane_hand ++ all_batches n (l.ingress_q ++ l.to_send)

  abbrev all_done : Line → GoMap AggregateState × List BlockCommit
  all_done l =
      let (states, more) = outputs sha256 n (left_of l) l.states in
      (states, l.submitted ++ l.commit_q ++ l.commit_hand ++ more)

  all_outputs :
      (l : Line)
      → IsKept sha256 n cap bad_proof_at jobs l
      → outputs sha256 n (all_batches n jobs) [] ≡ all_done l
  all_outputs l h =
      ap (λ js. outputs sha256 n (all_batches n js) [])
        (h.jobs_kept ∙ append_assoc l.taken l.ingress_q l.to_send)
      ∙ ap (λ bs. outputs sha256 n bs [])
          (all_batches-append n l.taken (l.ingress_q ++ l.to_send)
            ∙ ap (λ bs. bs ++ all_batches n (l.ingress_q ++ l.to_send))
                (h.batches_kept ∙ append_assoc l.got l.lane_q l.lane_hand)
            ∙ append_assoc l.got (l.lane_q ++ l.lane_hand)
                (all_batches n (l.ingress_q ++ l.to_send)))
      ∙ outputs-append sha256 n l.got (left_of l) []
      ∙ ap (λ r. (let (s, ds) = outputs sha256 n (left_of l) r.0 in (s, r.1 ++ ds))) h.commits_kept

  -- Nothing is left in a queue or in hand.
  abbrev pub IsDrained : Line → Type 0
  IsDrained l =
      (l.to_send ≡ [])
      × (l.ingress_q ≡ [])
      × (l.lane_q ≡ [])
      × (l.lane_hand ≡ [])
      × (l.commit_q ≡ [])
      × (l.commit_hand ≡ [])

  drained_outputs : (l : Line) → IsDrained l → all_done l ≡ (l.states, l.submitted)
  unfolding outputs
  drained_outputs l (a, b, c, d, e, f) =
      rw (a, b, c, d, e, f) (ap (λ xs. (l.states, xs)) (nils l.submitted))
    where
      nils : (xs : List BlockCommit) → xs ++ [] ++ [] ++ [] ≡ xs
      nils xs =
          ap (λ ys. ys ++ [] ++ []) (append-nil xs)
          ∙ ap (λ ys. ys ++ []) (append-nil xs)
          ∙ append-nil xs

  module _ (m : Registry) (book : ProofBook) (node : L1CertNode) (acts : List (Who × Bool)) where
    abbrev pub line_after : Line
    line_after = run_line cap n sha256 bad_proof_at (new_line jobs m book node) acts

    line_kept : IsKept sha256 n cap bad_proof_at jobs line_after
    unfolding outputs
    line_kept =
        IsKept-run_line sha256 n cap bad_proof_at jobs acts (new_line jobs m book node) (record {
          jobs_kept = refl;
          batches_kept = refl;
          commits_kept = refl;
          lane_carried = refl;
          commit_carried = refl;
        })

    -- Whatever the interleaving, however often a queue refuses, and wherever the run is cancelled: the
    -- blocks reach the node in the order of the jobs, none twice, and each with the transfers of its
    -- job that move something. There are 1 to 65536 lanes.
    pub submitted_in_order :
        0 < n
        → n ≤ 2 ^ 16
        → (rest : List BlockCommit) × (line_after.submitted ++ rest ≡ commits_of sha256 n jobs)
    submitted_in_order p fits =
        let l = line_after in
        let more = (outputs sha256 n (left_of l) l.states).1 in
        (
          l.commit_q ++ l.commit_hand ++ more,
          regroup l.submitted l.commit_q l.commit_hand more
              ∙ sym (ap (λ r. r.1) (all_outputs l line_kept))
              ∙ ap (λ r. r.1) (outputs-all_batches sha256 n jobs p fits),
        )
      where
        regroup : (a b c d : List BlockCommit) → a ++ (b ++ c ++ d) ≡ a ++ b ++ c ++ d
        regroup a b c d =
            sym (append_assoc a (b ++ c) d) ∙ ap (λ xs. xs ++ d) (sym (append_assoc a b c))

    -- When nothing is left in a queue or in hand, every job has reached the node, in order and once,
    -- and the aggregator gathers nothing any more. There are 1 to 65536 lanes.
    pub drained_complete :
        0 < n
        → n ≤ 2 ^ 16
        → IsDrained line_after
        → (line_after.submitted ≡ commits_of sha256 n jobs) × (line_after.states ≡ [])
    drained_complete p fits d =
        let l = line_after in
        let e : (l.states, l.submitted) ≡ ([], commits_of sha256 n jobs) =
          sym (drained_outputs l d)
          ∙ sym (all_outputs l line_kept)
          ∙ outputs-all_batches sha256 n jobs p fits in
        (ap (λ r. r.1) e, ap (λ r. r.0) e)
