-- ===== src/Pipeline/Runner/Sends.antt =====
-- Where the commits are, between the acts of the goroutines of `Run` (internal/pipeline/runner.go): the
-- aggregator, the replayer, and all of them.
use mathlib.Core.List.{append-nil}
use hyper_l.Base.{
  ℕ, ◌≡◌, refl, sym, ap, ◌∙◌, Bool, true, false, if◌then◌else◌, ◌==◌, ◌&&◌, List, [], ◌∷◌, ◌++◌,
  length, subst,
}
use hyper_l.Base.Int.{ℤ}
use hyper_l.Base.Bytes.{Bytes}
use hyper_l.Pipeline.Types.{BlockJob, LaneBatch, BlockCommit}
use hyper_l.Pipeline.Runner.{
  Line, Place, top, polling, missed, sending, ended, Who, ingress_acts, sequencer_acts,
  aggregator_acts, replayer_acts, cancel, offer, retry, count_retry, is_done, take_batch,
  send_commit, aggregator_at, take_commit, replayer_at, line_step, run_line,
}
use hyper_l.Pipeline.Runner.Outputs.{outputs, outputs-one, outputs-append}
use hyper_l.Pipeline.Runner.Kept.{
  pass_on, take_out, Carries, Carries-nil, Carries-retry, IsKept, IsKept-aggregator,
  IsKept-ingress_at, IsKept-sequencer_at,
}

module _ (sha256 : Bytes → Bytes) (n cap bad_proof_at : ℕ) (jobs : List BlockJob) where
  IsKept-take_batch :
      (bs : List LaneBatch) (l : Line)
      → l.lane_q ≡ bs
      → l.commit_hand ≡ []
      → IsKept sha256 n cap bad_proof_at jobs l
      → IsKept sha256 n cap bad_proof_at jobs (take_batch cap n sha256 bs l)
  IsKept-take_batch [] l e none_left h =
      IsKept-aggregator sha256 n cap bad_proof_at jobs missed l none_left h
  IsKept-take_batch (b ∷ bs) l e none_left h = record {
    jobs_kept = h.jobs_kept;
    batches_kept =
        h.batches_kept ∙ ap (λ xs. l.got ++ xs ++ l.lane_hand) e ∙ take_out l.got bs l.lane_hand b;
    commits_kept =
        outputs-append sha256 n l.got (b ∷ []) []
        ∙ ap (λ r. (let (s', ds) = outputs sha256 n (b ∷ []) r.0 in (s', r.1 ++ ds)))
            (h.commits_kept
              ∙ ap (λ xs. (l.states, l.submitted ++ l.commit_q ++ xs)) none_left
              ∙ ap (λ xs. (l.states, xs)) (append-nil (l.submitted ++ l.commit_q)))
        ∙ ap (λ r. (r.0, l.submitted ++ l.commit_q ++ r.1))
            (outputs-one sha256 n b l.states l.registry);
    lane_carried = h.lane_carried;
    commit_carried = tt;
  }

  IsKept-send_commit :
      (refuses : Bool) (cs : List BlockCommit) (l : Line)
      → l.aggregator ≡ sending
      → l.commit_hand ≡ cs
      → IsKept sha256 n cap bad_proof_at jobs l
      → IsKept sha256 n cap bad_proof_at jobs (send_commit cap n sha256 refuses cs l)
  IsKept-send_commit refuses [] l at e h =
      IsKept-aggregator sha256 n cap bad_proof_at jobs top l e h
  IsKept-send_commit refuses (c ∷ cs) l at e h =
      elim (offer cap refuses l.commit_q)
        as (λ b. IsKept sha256 n cap bad_proof_at jobs (
          if b
          then record l { commit_q = l.commit_q ++ c ∷ []; commit_hand = cs }
          else record l { aggregator = retry l; registry = count_retry l })) [
            | true ↦ record {
              jobs_kept = h.jobs_kept;
              batches_kept = h.batches_kept;
              commits_kept =
                  h.commits_kept
                  ∙ ap (λ xs. (l.states, xs))
                      (ap (λ xs. l.submitted ++ l.commit_q ++ xs) e
                        ∙ pass_on l.submitted l.commit_q cs c);
              lane_carried = h.lane_carried;
              commit_carried = subst (λ p. Carries p cs) (sym at) tt;
            }
            | false ↦
                IsKept-aggregator sha256 n cap bad_proof_at jobs (retry l) l
                  (Carries-retry l l.commit_hand) h
          ]

  IsKept-aggregator_at :
      (p : Place) (refuses : Bool) (l : Line)
      → l.aggregator ≡ p
      → IsKept sha256 n cap bad_proof_at jobs l
      → IsKept sha256 n cap bad_proof_at jobs (aggregator_at cap n sha256 p refuses l)
  IsKept-aggregator_at top refuses l e h =
      let none_left : l.commit_hand ≡ [] =
        subst (λ p. Carries p l.commit_hand) e h.commit_carried in
      IsKept-aggregator sha256 n cap bad_proof_at jobs (if l.cancelled then ended else polling) l
        (Carries-nil (if l.cancelled then ended else polling) l.commit_hand none_left) h
  IsKept-aggregator_at polling refuses l e h =
      let none_left : l.commit_hand ≡ [] =
        subst (λ p. Carries p l.commit_hand) e h.commit_carried in
      elim refuses
        as (λ b.
          IsKept sha256 n cap bad_proof_at jobs
            (if b then record l { aggregator = missed } else take_batch cap n sha256 l.lane_q l)) [
              | true ↦ IsKept-aggregator sha256 n cap bad_proof_at jobs missed l none_left h
              | false ↦ IsKept-take_batch l.lane_q l refl none_left h
            ]
  IsKept-aggregator_at missed refuses l e h =
      let none_left : l.commit_hand ≡ [] =
        subst (λ p. Carries p l.commit_hand) e h.commit_carried in
      let next = if is_done l.sequencer && length l.states == 0 then ended else top in
      IsKept-aggregator sha256 n cap bad_proof_at jobs next l
        (Carries-nil next l.commit_hand none_left) h
  IsKept-aggregator_at sending refuses l e h = IsKept-send_commit refuses l.commit_hand l e refl h
  IsKept-aggregator_at ended refuses l e h = h

  IsKept-take_commit :
      (now : ℤ) (cs : List BlockCommit) (l : Line)
      → l.commit_q ≡ cs
      → IsKept sha256 n cap bad_proof_at jobs l
      → IsKept sha256 n cap bad_proof_at jobs (take_commit cap n sha256 bad_proof_at now cs l)
  IsKept-take_commit now [] l e h = h
  IsKept-take_commit now (c ∷ cs) l e h = record {
    jobs_kept = h.jobs_kept;
    batches_kept = h.batches_kept;
    commits_kept =
        h.commits_kept
        ∙ ap (λ xs. (l.states, xs))
            (ap (λ xs. l.submitted ++ xs ++ l.commit_hand) e
              ∙ take_out l.submitted cs l.commit_hand c);
    lane_carried = h.lane_carried;
    commit_carried = h.commit_carried;
  }

  IsKept-replayer_at :
      (now : ℤ) (p : Place) (refuses : Bool) (l : Line)
      → IsKept sha256 n cap bad_proof_at jobs l
      → IsKept sha256 n cap bad_proof_at jobs
          (replayer_at cap n sha256 bad_proof_at now p refuses l)
  IsKept-replayer_at now top refuses l h = h
  IsKept-replayer_at now polling refuses l h =
      elim refuses
        as (λ b. IsKept sha256 n cap bad_proof_at jobs (
          if b
          then record l { replayer = missed }
          else take_commit cap n sha256 bad_proof_at now l.commit_q l)) [
            | true ↦ h
            | false ↦ IsKept-take_commit now l.commit_q l refl h
          ]
  IsKept-replayer_at now missed refuses l h = h
  IsKept-replayer_at now sending refuses l h = h
  IsKept-replayer_at now ended refuses l h = h

  IsKept-line_step :
      (who : Who) (refuses : Bool) (l : Line)
      → IsKept sha256 n cap bad_proof_at jobs l
      → IsKept sha256 n cap bad_proof_at jobs (line_step cap n sha256 bad_proof_at who refuses l)
  IsKept-line_step ingress_acts refuses l h =
      IsKept-ingress_at sha256 n cap bad_proof_at jobs l.ingress refuses l h
  IsKept-line_step sequencer_acts refuses l h =
      IsKept-sequencer_at sha256 n cap bad_proof_at jobs l.sequencer refuses l refl h
  IsKept-line_step aggregator_acts refuses l h = IsKept-aggregator_at l.aggregator refuses l refl h
  IsKept-line_step (replayer_acts now) refuses l h = IsKept-replayer_at now l.replayer refuses l h
  IsKept-line_step cancel refuses l h = h

  pub IsKept-run_line :
      (acts : List (Who × Bool)) (l : Line)
      → IsKept sha256 n cap bad_proof_at jobs l
      → IsKept sha256 n cap bad_proof_at jobs (run_line cap n sha256 bad_proof_at l acts)
  unfolding run_line
  IsKept-run_line [] l h = h
  IsKept-run_line ((who, refuses) ∷ acts) l h =
      IsKept-run_line acts (line_step cap n sha256 bad_proof_at who refuses l)
        (IsKept-line_step who refuses l h)
