-- ===== src/Pipeline/Runner/Outputs.antt =====
-- What the aggregator makes of a run of batches, apart from the registry (internal/pipeline/runner.go).
use mathlib.Core.List.{append_assoc, append-nil}
use hyper_l.Base.{
  ℕ, ◌+◌, ◌%◌, ◌^◌, ◌<◌, ◌≤◌, ◌≡◌, refl, sym, ap, ap₂, ◌∙◌, true, false, if◌then◌else◌, ◌==◌,
  Option, none, some, List, [], ◌∷◌, ◌++◌, length,
}
use hyper_l.Base.GoMap.{GoMap, insert, erase}
use hyper_l.Base.Bytes.{Bytes}
use hyper_l.Frame.{Tx12}
use hyper_l.Metrics.{Registry, inc_drop, new_registry}
use hyper_l.Pipeline.Types.{BlockJob, LaneBatch, BlockCommit}
use hyper_l.Pipeline.Sequencer.{lanes_of, batches_of}
use hyper_l.Pipeline.Aggregator.{
  AggregateState, collect, receive, receive_all, with_commit, as_list, is_payload_valid, note_lane,
  state_for, settle, commit_of,
}
use hyper_l.Pipeline.EndToEnd.{job_commit, job_completes}

-- The batches of a run of jobs.
abbrev pub all_batches : ℕ → List BlockJob → List LaneBatch
all_batches n [] = []
all_batches n (job ∷ jobs) = batches_of n job ++ all_batches n jobs

pub all_batches-append :
    (n : ℕ) (xs ys : List BlockJob)
    → all_batches n (xs ++ ys) ≡ all_batches n xs ++ all_batches n ys
all_batches-append n [] ys = refl
all_batches-append n (x ∷ xs) ys =
    ap (λ bs. batches_of n x ++ bs) (all_batches-append n xs ys)
    ∙ sym (append_assoc (batches_of n x) (all_batches n xs) (all_batches n ys))

with_commit-append :
    (o : Option BlockCommit) (cs ds : List BlockCommit)
    → with_commit o (cs ++ ds) ≡ with_commit o cs ++ ds
with_commit-append none cs ds = refl
with_commit-append (some c) cs ds = refl

pub with_commit-as_list :
    (o : Option BlockCommit) (cs : List BlockCommit) → with_commit o cs ≡ as_list o ++ cs
with_commit-as_list none cs = refl
with_commit-as_list (some c) cs = refl

collect-registry :
    (txs : List Tx12) (st : AggregateState) (m m' : Registry)
    → (collect txs (st, m)).0 ≡ (collect txs (st, m')).0
unfolding collect
collect-registry [] st m m' = refl
collect-registry (tx ∷ txs) st m m' =
    let kept : AggregateState = record st {
      tx_count = (st.tx_count + 1) % 2 ^ 32;
      txs = st.txs ++ tx ∷ [];
    } in
    elim (is_payload_valid tx)
      as (λ b.
        (collect txs (if b then (kept, m) else (st, inc_drop 1 m))).0
        ≡ (collect txs (if b then (kept, m') else (st, inc_drop 1 m'))).0) [
          | true ↦ collect-registry txs kept m m'
          | false ↦ collect-registry txs st (inc_drop 1 m) (inc_drop 1 m')
        ]

-- A round's results but for the registry.
abbrev pub results :
    GoMap AggregateState × Option BlockCommit × Registry → GoMap AggregateState × Option BlockCommit
results r = (r.0, r.1)

module _ (sha256 : Bytes → Bytes) (n : ℕ) where
  settle-registry :
      (b : LaneBatch) (states : GoMap AggregateState) (st : AggregateState) (m m' : Registry)
      → results (settle sha256 n b states (st, m)) ≡ results (settle sha256 n b states (st, m'))
  settle-registry b states st m m' =
      let made = some (commit_of sha256 n b st) in
      let gone = erase b.block_index states in
      let kept = insert b.block_index st states in
      elim (length st.lane_hashes == n)
        as (λ c.
          results (if c then (gone, made, m) else (kept, none, m))
          ≡ results (if c then (gone, made, m') else (kept, none, m'))) [
            | true ↦ refl
            | false ↦ refl
          ]

  pub receive-registry :
      (b : LaneBatch) (states : GoMap AggregateState) (m m' : Registry)
      → results (receive sha256 n b (states, m)) ≡ results (receive sha256 n b (states, m'))
  unfolding receive
  receive-registry b states m m' =
      let st = note_lane sha256 n b (state_for b states) in
      let s = collect b.payload (st, m) in
      let s' = collect b.payload (st, m') in
      settle-registry b states s.0 s.1 s'.1
      ∙ ap (λ x. results (settle sha256 n b states (x, s'.1))) (collect-registry b.payload st m m')

  -- The states and the commits after a run of batches.
  unfoldable pub outputs :
      List LaneBatch → GoMap AggregateState → GoMap AggregateState × List BlockCommit
  outputs [] states = (states, [])
  outputs (b ∷ bs) states =
      let (states', commit, m) = receive sha256 n b (states, new_registry) in
      let (states'', commits) = outputs bs states' in (states'', with_commit commit commits)

  pub outputs-one :
      (b : LaneBatch) (states : GoMap AggregateState) (m : Registry)
      → outputs (b ∷ []) states ≡ (let r = receive sha256 n b (states, m) in (r.0, as_list r.1))
  unfolding outputs
  outputs-one b states m =
      let r = receive sha256 n b (states, new_registry) in
      ap (λ cs. (r.0, cs)) (with_commit-as_list r.1 [] ∙ append-nil (as_list r.1))
      ∙ ap (λ q. (q.0, as_list q.1)) (receive-registry b states new_registry m)

  pub outputs-append :
      (xs ys : List LaneBatch) (states : GoMap AggregateState)
      → outputs (xs ++ ys) states
        ≡ (let (s, cs) = outputs xs states in let (s', ds) = outputs ys s in (s', cs ++ ds))
  unfolding outputs
  outputs-append [] ys states = refl
  outputs-append (x ∷ xs) ys states =
      let (states', commit, m) = receive sha256 n x (states, new_registry) in
      ap (λ p. (p.0, with_commit commit p.1)) (outputs-append xs ys states')
      ∙ ap (λ cs. ((outputs ys (outputs xs states').0).0, cs))
          (with_commit-append commit (outputs xs states').1 (outputs ys (outputs xs states').0).1)

  outputs-receive_all :
      (bs : List LaneBatch) (states : GoMap AggregateState) (m : Registry)
      → ((receive_all sha256 n bs (states, m)).0 ≡ (outputs bs states).0)
        × ((receive_all sha256 n bs (states, m)).1 ≡ (outputs bs states).1)
  unfolding outputs receive_all
  outputs-receive_all [] states m = (refl, refl)
  outputs-receive_all (b ∷ bs) states m =
      let (states', commit, m') = receive sha256 n b (states, m) in
      let e = receive-registry b states m new_registry in
      let (f, d) = outputs-receive_all bs states' m' in
      (
        f ∙ ap (λ r. (outputs bs r.0).0) e,
        ap₂ with_commit (ap (λ r. r.1) e) (d ∙ ap (λ r. (outputs bs r.0).1) e),
      )

  -- The commit of each job, in order.
  abbrev pub commits_of : List BlockJob → List BlockCommit
  commits_of [] = []
  commits_of (job ∷ jobs) = job_commit sha256 job (lanes_of n job.txs) ∷ commits_of jobs

  -- The jobs of a run that gathers nothing yet give one commit each, in their order.
  pub outputs-all_batches :
      (jobs : List BlockJob)
      → 0 < n
      → n ≤ 2 ^ 16
      → outputs (all_batches n jobs) [] ≡ ([], commits_of jobs)
  unfolding outputs
  outputs-all_batches [] p fits = refl
  outputs-all_batches (job ∷ jobs) p fits =
      let (c, s) = job_completes sha256 n job [] new_registry p fits refl in
      let (s', c') = outputs-receive_all (batches_of n job) [] new_registry in
      let one : outputs (batches_of n job) []
          ≡ ([], job_commit sha256 job (lanes_of n job.txs) ∷ []) =
        λ i. ((sym s' ∙ s) i, (sym c' ∙ c) i) in
      outputs-append (batches_of n job) (all_batches n jobs) []
      ∙ ap (λ r. (let (t, ds) = outputs (all_batches n jobs) r.0 in (t, r.1 ++ ds))) one
      ∙ ap (λ r. (r.0, job_commit sha256 job (lanes_of n job.txs) ∷ r.1))
          (outputs-all_batches jobs p fits)
