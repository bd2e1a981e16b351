-- ===== src/Pipeline/Runner/Kept.antt =====
-- Where the jobs and batches are, between the acts of the goroutines of `Run`
-- (internal/pipeline/runner.go): the ingress and the sequencer.
use mathlib.Core.List.{append_assoc, append-nil}
use hyper_l.Base.{
  ℕ, ◌≡◌, refl, sym, ap, ap₂, ◌∙◌, Bool, true, false, if◌then◌else◌, List, [], ◌∷◌, ◌++◌, length,
  subst,
}
use hyper_l.Base.GoMap.{GoMap}
use hyper_l.Base.Bytes.{Bytes}
use hyper_l.Metrics.{add_ingress_tx}
use hyper_l.Pipeline.Types.{BlockJob, LaneBatch, BlockCommit}
use hyper_l.Pipeline.Sequencer.{batches_of}
use hyper_l.Pipeline.Aggregator.{AggregateState}
use hyper_l.Pipeline.Runner.{
  Line, Place, top, polling, missed, sending, ended, offer, retry, count_retry, is_done,
  update_queue_depth, ingress_top, send_job, ingress_at, take_job, send_batch, sequencer_at,
}
use hyper_l.Pipeline.Runner.Outputs.{all_batches, all_batches-append, outputs}

-- A value goes into a queue, and a value comes out.
pub pass_on : {A : Type 0} (a b c : List A) (x : A) → a ++ b ++ x ∷ c ≡ a ++ (b ++ x ∷ []) ++ c
pass_on a b c x =
    sym (append_assoc (a ++ b) (x ∷ []) c) ∙ ap (λ xs. xs ++ c) (append_assoc a b (x ∷ []))

pub take_out : {A : Type 0} (a b c : List A) (x : A) → a ++ x ∷ b ++ c ≡ a ++ x ∷ [] ++ b ++ c
take_out a b c x = ap (λ xs. xs ++ c) (sym (append_assoc a (x ∷ []) b))

-- A goroutine has something in hand only while it is sending, or when it gave up.
abbrev pub Carries : {A : Type 0} → Place → List A → Type 0
Carries sending xs = Unit
Carries ended xs = Unit
Carries p xs = xs ≡ []

pub Carries-nil : {A : Type 0} (p : Place) (xs : List A) → xs ≡ [] → Carries p xs
Carries-nil top xs e = e
Carries-nil polling xs e = e
Carries-nil missed xs e = e
Carries-nil sending xs e = tt
Carries-nil ended xs e = tt

pub Carries-retry : {A : Type 0} (l : Line) (xs : List A) → Carries (retry l) xs
Carries-retry l xs = elim l.cancelled as (λ b. Carries (if b then ended else sending) xs) [
  | true ↦ tt
  | false ↦ tt
]

module _ (sha256 : Bytes → Bytes) (n cap bad_proof_at : ℕ) (jobs : List BlockJob) where
  -- Every job, every batch and every commit is in one place.
  pub record IsKeptIn (taken ingress_q to_send : List BlockJob)
      (got lane_q lane_hand : List LaneBatch) (states : GoMap AggregateState)
      (submitted commit_q commit_hand : List BlockCommit) (sequencer aggregator : Place)
      : Type 0 where
    pub jobs_kept : jobs ≡ taken ++ ingress_q ++ to_send
    pub batches_kept : all_batches n taken ≡ got ++ lane_q ++ lane_hand
    pub commits_kept : outputs sha256 n got [] ≡ (states, submitted ++ commit_q ++ commit_hand)
    pub lane_carried : Carries sequencer lane_hand
    pub commit_carried : Carries aggregator commit_hand

  abbrev pub IsKept : Line → Type 0
  IsKept l =
      IsKeptIn l.taken l.ingress_q l.to_send l.got l.lane_q l.lane_hand l.states l.submitted
        l.commit_q l.commit_hand l.sequencer l.aggregator

  IsKept-ingress_top : (js : List BlockJob) (l : Line) → IsKept l → IsKept (ingress_top cap js l)
  IsKept-ingress_top [] l h = h
  IsKept-ingress_top (j ∷ js) l h = h

  IsKept-send_job :
      (refuses : Bool) (js : List BlockJob) (l : Line)
      → l.to_send ≡ js
      → IsKept l
      → IsKept (send_job cap refuses js l)
  IsKept-send_job refuses [] l e h = h
  IsKept-send_job refuses (j ∷ js) l e h =
      elim (offer cap refuses l.ingress_q)
        as (λ b. IsKept (
          if b
          then update_queue_depth (record l {
            ingress = top;
            to_send = js;
            ingress_q = l.ingress_q ++ j ∷ [];
            registry = add_ingress_tx (length j.txs) l.registry;
          })
          else record l { ingress = retry l; registry = count_retry l })) [
            | true ↦ record {
              jobs_kept =
                  h.jobs_kept
                  ∙ ap (λ xs. l.taken ++ l.ingress_q ++ xs) e
                  ∙ pass_on l.taken l.ingress_q js j;
              batches_kept = h.batches_kept;
              commits_kept = h.commits_kept;
              lane_carried = h.lane_carried;
              commit_carried = h.commit_carried;
            }
            | false ↦ h
          ]

  pub IsKept-ingress_at :
      (p : Place) (refuses : Bool) (l : Line) → IsKept l → IsKept (ingress_at cap p refuses l)
  IsKept-ingress_at top refuses l h = IsKept-ingress_top l.to_send l h
  IsKept-ingress_at polling refuses l h = h
  IsKept-ingress_at missed refuses l h = h
  IsKept-ingress_at sending refuses l h = IsKept-send_job refuses l.to_send l refl h
  IsKept-ingress_at ended refuses l h = h

  IsKept-take_job :
      (js : List BlockJob) (l : Line)
      → l.ingress_q ≡ js
      → l.lane_hand ≡ []
      → IsKept l
      → IsKept (take_job cap n js l)
  IsKept-take_job [] l e none_left h = record {
    jobs_kept = h.jobs_kept;
    batches_kept = h.batches_kept;
    commits_kept = h.commits_kept;
    lane_carried = none_left;
    commit_carried = h.commit_carried;
  }
  IsKept-take_job (j ∷ js) l e none_left h = record {
    jobs_kept =
        h.jobs_kept ∙ ap (λ xs. l.taken ++ xs ++ l.to_send) e ∙ take_out l.taken js l.to_send j;
    batches_kept =
        all_batches-append n l.taken (j ∷ [])
        ∙ ap₂ (λ xs ys. xs ++ ys)
            (h.batches_kept
              ∙ ap (λ xs. l.got ++ l.lane_q ++ xs) none_left
              ∙ append-nil (l.got ++ l.lane_q))
            (append-nil (batches_of n j));
    commits_kept = h.commits_kept;
    lane_carried = tt;
    commit_carried = h.commit_carried;
  }

  -- What the sequencer carries, and what the aggregator carries, changes with its place alone.
  IsKept-sequencer :
      (p : Place) (l : Line)
      → Carries p l.lane_hand
      → IsKept l
      → IsKept (record l { sequencer = p })
  IsKept-sequencer p l c h = record {
    jobs_kept = h.jobs_kept;
    batches_kept = h.batches_kept;
    commits_kept = h.commits_kept;
    lane_carried = c;
    commit_carried = h.commit_carried;
  }

  pub IsKept-aggregator :
      (p : Place) (l : Line)
      → Carries p l.commit_hand
      → IsKept l
      → IsKept (record l { aggregator = p })
  IsKept-aggregator p l c h = record {
    jobs_kept = h.jobs_kept;
    batches_kept = h.batches_kept;
    commits_kept = h.commits_kept;
    lane_carried = h.lane_carried;
    commit_carried = c;
  }

  IsKept-send_batch :
      (refuses : Bool) (bs : List LaneBatch) (l : Line)
      → l.sequencer ≡ sending
      → l.lane_hand ≡ bs
      → IsKept l
      → IsKept (send_batch cap n refuses bs l)
  IsKept-send_batch refuses [] l at e h = IsKept-sequencer top l e h
  IsKept-send_batch refuses (b ∷ bs) l at e h =
      elim (offer cap refuses l.lane_q)
        as (λ c. IsKept (
          if c
          then record l { lane_q = l.lane_q ++ b ∷ []; lane_hand = bs }
          else record l { sequencer = retry l; registry = count_retry l })) [
            | true ↦ record {
              jobs_kept = h.jobs_kept;
              batches_kept =
                  h.batches_kept
                  ∙ ap (λ xs. l.got ++ l.lane_q ++ xs) e
                  ∙ pass_on l.got l.lane_q bs b;
              commits_kept = h.commits_kept;
              lane_carried = subst (λ p. Carries p bs) (sym at) tt;
              commit_carried = h.commit_carried;
            }
            | false ↦ IsKept-sequencer (retry l) l (Carries-retry l l.lane_hand) h
          ]

  pub IsKept-sequencer_at :
      (p : Place) (refuses : Bool) (l : Line)
      → l.sequencer ≡ p
      → IsKept l
      → IsKept (sequencer_at cap n p refuses l)
  IsKept-sequencer_at top refuses l e h =
      let none_left : l.lane_hand ≡ [] = subst (λ p. Carries p l.lane_hand) e h.lane_carried in
      IsKept-sequencer (if l.cancelled then ended else polling) l
        (Carries-nil (if l.cancelled then ended else polling) l.lane_hand none_left) h
  IsKept-sequencer_at polling refuses l e h =
      let none_left : l.lane_hand ≡ [] = subst (λ p. Carries p l.lane_hand) e h.lane_carried in
      elim refuses
        as (λ b.
          IsKept (if b then record l { sequencer = missed } else take_job cap n l.ingress_q l)) [
            | true ↦ IsKept-sequencer missed l none_left h
            | false ↦ IsKept-take_job l.ingress_q l refl none_left h
          ]
  IsKept-sequencer_at missed refuses l e h =
      let none_left : l.lane_hand ≡ [] = subst (λ p. Carries p l.lane_hand) e h.lane_carried in
      IsKept-sequencer (if is_done l.ingress then ended else top) l
        (Carries-nil (if is_done l.ingress then ended else top) l.lane_hand none_left) h
  IsKept-sequencer_at sending refuses l e h = IsKept-send_batch refuses l.lane_hand l e refl h
  IsKept-sequencer_at ended refuses l e h = h
