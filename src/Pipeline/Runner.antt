-- ===== src/Pipeline/Runner.antt =====
-- The goroutines of `Run` (internal/pipeline/runner.go): the ingress, the sequencer, the aggregator and
-- the proof replayer, each at a point of its loop, with the queues between them. A schedule says who
-- acts next. A call on a queue is one act on the queue of its contents; since a ring may also refuse
-- while another call is under way, each act says whether it does. Sleeping is left out.
pub mod Outputs
pub mod Kept
pub mod Sends
pub mod Order
use hyper_l.Base.{
  ℕ, zero, suc, ◌+◌, Bool, true, false, if◌then◌else◌, ltb, ◌==◌, ◌&&◌, ◌||◌, not, Option, none,
  some, List, [], ◌∷◌, ◌++◌, length,
}
use hyper_l.Base.Int.{ℤ, pos}
use hyper_l.Base.GoMap.{GoMap}
use hyper_l.Base.Bytes.{Bytes}
use hyper_l.Metrics.{Registry, inc_drop, add_ingress_tx, set_queue_depth}
use hyper_l.Pipeline.Types.{BlockJob, LaneBatch, BlockCommit}
use hyper_l.Pipeline.Proof.{ProofBook}
use hyper_l.Pipeline.L1.{L1CertNode}
use hyper_l.Pipeline.Sequencer.{batches_of}
use hyper_l.Pipeline.Aggregator.{AggregateState, receive, as_list}
use hyper_l.Pipeline.Replayer.{replay}

-- Where a goroutine is in its loop.
pub data Place : Type 0 where
  top : Place  -- before the look at `ctx.Done()`
  polling : Place  -- before `Dequeue`
  missed : Place  -- `Dequeue` found nothing: before the look at the flag
  sending : Place  -- before `Enqueue`, with what is in hand
  ended : Place

pub record Line : Type 0 where
  pub to_send : List BlockJob
  pub ingress : Place
  pub sequencer : Place
  pub aggregator : Place
  pub replayer : Place
  pub cancelled : Bool
  pub ingress_q : List BlockJob
  pub lane_q : List LaneBatch
  pub commit_q : List BlockCommit
  pub lane_hand : List LaneBatch  -- the batches of the job that the sequencer has still to send
  pub commit_hand : List BlockCommit  -- the commit that the aggregator has still to send
  pub states : GoMap AggregateState
  pub registry : Registry
  pub book : ProofBook
  pub node : L1CertNode
  pub taken : List BlockJob  -- what left the queues so far
  pub got : List LaneBatch
  pub submitted : List BlockCommit

pub data Who : Type 0 where
  ingress_acts sequencer_acts aggregator_acts : Who
  replayer_acts : ℤ → Who  -- with the time of the submission
  cancel : Who

-- `ingressDone`, and the other flags that a goroutine sets when it returns
abbrev pub is_done : Place → Bool
is_done ended = true
is_done p = false

-- `Enqueue` on a queue of `cap` places, unless it refuses anyway.
abbrev pub offer : {A : Type 0} → ℕ → Bool → List A → Bool
offer cap refuses xs = ltb (length xs) cap && not refuses

-- `updateQueueDepth`
abbrev pub update_queue_depth : Line → Line
update_queue_depth l = record l {
  registry =
      set_queue_depth (pos (length l.ingress_q + length l.lane_q + length l.commit_q)) l.registry;
}

-- A refused `Enqueue`: out if the run is cancelled, else counted and tried again.
abbrev pub retry : Line → Place
retry l = if l.cancelled then ended else sending

abbrev pub count_retry : Line → Registry
count_retry l = if l.cancelled then l.registry else inc_drop 1 l.registry

module _ (cap : ℕ) where
  -- `runIngressPhase`, of both phases one after the other, and `ingressDone.Store(true)`
  abbrev pub ingress_top : List BlockJob → Line → Line
  ingress_top [] l = record l { ingress = ended }
  ingress_top (job ∷ jobs) l = record l { ingress = if l.cancelled then ended else sending }

  -- `AddIngressTx` is given the number of transfers, which is `txCount` where that is not negative.
  abbrev pub send_job : Bool → List BlockJob → Line → Line
  send_job refuses [] l = l
  send_job refuses (job ∷ jobs) l =
      if offer cap refuses l.ingress_q
      then update_queue_depth (record l {
        ingress = top;
        to_send = jobs;
        ingress_q = l.ingress_q ++ job ∷ [];
        registry = add_ingress_tx (length job.txs) l.registry;
      })
      else record l { ingress = retry l; registry = count_retry l }

  abbrev pub ingress_at : Place → Bool → Line → Line
  ingress_at top refuses l = ingress_top l.to_send l
  ingress_at polling refuses l = l
  ingress_at missed refuses l = l
  ingress_at sending refuses l = send_job refuses l.to_send l
  ingress_at ended refuses l = l

  module _ (lanes : ℕ) where
    -- `runSequencer`
    abbrev pub take_job : List BlockJob → Line → Line
    take_job [] l = record l { sequencer = missed }
    take_job (job ∷ jobs) l = record l {
      sequencer = sending;
      ingress_q = jobs;
      lane_hand = batches_of lanes job;
      taken = l.taken ++ job ∷ [];
    }

    abbrev pub send_batch : Bool → List LaneBatch → Line → Line
    send_batch refuses [] l = update_queue_depth (record l { sequencer = top })
    send_batch refuses (batch ∷ batches) l =
        if offer cap refuses l.lane_q
        then record l { lane_q = l.lane_q ++ batch ∷ []; lane_hand = batches }
        else record l { sequencer = retry l; registry = count_retry l }

    abbrev pub sequencer_at : Place → Bool → Line → Line
    sequencer_at top refuses l = record l { sequencer = if l.cancelled then ended else polling }
    sequencer_at polling refuses l =
        if refuses then record l { sequencer = missed } else take_job l.ingress_q l
    sequencer_at missed refuses l = record l {
      sequencer = if is_done l.ingress then ended else top;
    }
    sequencer_at sending refuses l = send_batch refuses l.lane_hand l
    sequencer_at ended refuses l = l

    module _ (sha256 : Bytes → Bytes) where
      -- `runAggregator`; the state of a block is forgotten as soon as it is complete, and nothing
      -- else looks at it before its commit is sent.
      abbrev pub take_batch : List LaneBatch → Line → Line
      take_batch [] l = record l { aggregator = missed }
      take_batch (batch ∷ batches) l =
          let (states, commit, m) = receive sha256 lanes batch (l.states, l.registry) in
          record l {
            aggregator = sending;
            lane_q = batches;
            states = states;
            registry = m;
            commit_hand = as_list commit;
            got = l.got ++ batch ∷ [];
          }

      abbrev pub send_commit : Bool → List BlockCommit → Line → Line
      send_commit refuses [] l = update_queue_depth (record l { aggregator = top })
      send_commit refuses (commit ∷ commits) l =
          if offer cap refuses l.commit_q
          then record l { commit_q = l.commit_q ++ commit ∷ []; commit_hand = commits }
          else record l { aggregator = retry l; registry = count_retry l }

      abbrev pub aggregator_at : Place → Bool → Line → Line
      aggregator_at top refuses l = record l { aggregator = if l.cancelled then ended else polling }
      aggregator_at polling refuses l =
          if refuses then record l { aggregator = missed } else take_batch l.lane_q l
      aggregator_at missed refuses l = record l {
        aggregator = if is_done l.sequencer && length l.states == 0 then ended else top;
      }
      aggregator_at sending refuses l = send_commit refuses l.commit_hand l
      aggregator_at ended refuses l = l

      module _ (bad_proof_at : ℕ) where
        -- `runProofReplayer`
        abbrev pub take_commit : ℤ → List BlockCommit → Line → Line
        take_commit now [] l = record l { replayer = missed }
        take_commit now (commit ∷ commits) l =
            let (book, out) = replay sha256 bad_proof_at now commit l.book l.registry l.node in
            update_queue_depth (record l {
              replayer = top;
              commit_q = commits;
              book = book;
              registry = out.0;
              node = out.1;
              submitted = l.submitted ++ commit ∷ [];
            })

        abbrev pub replayer_at : ℤ → Place → Bool → Line → Line
        replayer_at now top refuses l = record l {
          replayer = if l.cancelled then ended else polling;
        }
        replayer_at now polling refuses l =
            if refuses then record l { replayer = missed } else take_commit now l.commit_q l
        replayer_at now missed refuses l = record l {
          replayer = if is_done l.aggregator then ended else top;
        }
        replayer_at now sending refuses l = l
        replayer_at now ended refuses l = l

        abbrev pub line_step : Who → Bool → Line → Line
        line_step ingress_acts refuses l = ingress_at l.ingress refuses l
        line_step sequencer_acts refuses l = sequencer_at l.sequencer refuses l
        line_step aggregator_acts refuses l = aggregator_at l.aggregator refuses l
        line_step (replayer_acts now) refuses l = replayer_at now l.replayer refuses l
        line_step cancel refuses l = record l { cancelled = true }

        -- A schedule, from its first act on.
        unfoldable pub run_line : Line → List (Who × Bool) → Line
        run_line l [] = l
        run_line l ((who, refuses) ∷ acts) = run_line (line_step who refuses l) acts

-- What `Run` starts with.
abbrev pub new_line : List BlockJob → Registry → ProofBook → L1CertNode → Line
new_line jobs m book node = record {
  to_send = jobs;
  ingress = top;
  sequencer = top;
  aggregator = top;
  replayer = top;
  cancelled = false;
  ingress_q = [];
  lane_q = [];
  commit_q = [];
  lane_hand = [];
  commit_hand = [];
  states = [];
  registry = m;
  book = book;
  node = node;
  taken = [];
  got = [];
  submitted = [];
}
