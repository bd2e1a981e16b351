-- ===== src/Tests/Board.antt =====
-- The dashboard and the bundle of cmd/kaia-proofctl at concrete inputs.
use hyper_l.Base.{ℕ, Bool, true, ◌*◌, ◌+◌, ◌≡◌, refl, arith, none, [], ◌∷◌, String}
use hyper_l.Base.Int.{ℤ, pos}
use hyper_l.Dashboard.Types.{Event, State, SubmitJob, ReceiptResult}
use hyper_l.Dashboard.State.{new_state, log, mark_failed, show_loaded, note_tx_sent}
use hyper_l.Dashboard.Receipts.{note_receipt}
use hyper_l.Dashboard.Laws.{
  logged, loaded, failed, received, sent, sent_in, received_in, Reach, start, next, IsSound,
  reach-IsSound,
}
use hyper_l.Bundle.{G1Point, G2Point, VerifyingKey, Artifact, LaneHead, Bundle}
use hyper_l.Chain.{done}
use hyper_l.Dashboard.Workflow.{Outside, EventTexts, Line, generate_bundle}
use hyper_l.Dashboard.Workflow.Mixed.{IsMixed, generate_bundle-IsMixed}

abbrev text : ℤ → String
text t = "time"

abbrev rate : ℕ → ℕ → String
rate n d = "rate"

abbrev begun : State
begun = new_state text "board" (pos 1)

abbrev job : SubmitJob
job = record { sender = "a"; to = "b"; hash = "c"; gas_limit = 9; sent_at = pos 3 }

abbrev paid : ReceiptResult
paid = record {
  job = job;
  receipt = ("9", 20000);
  failure = none;
  included_at = pos 4;
  receipt_seen_at = pos 5;
}

-- A call is sent and answered, a log comes between the two halves of an error.
abbrev last : State
last = log text "error" "lost" (pos 8) (
    mark_failed text "lost" (pos 7) (
      note_receipt text rate 20 (pos 3) (pos 1) (pos 6) paid
        (note_tx_sent text job (pos 3) (show_loaded text "bundle" (pos 2) 40 (pos 2) begun))))

abbrev run : Reach text rate begun last
run =
    next
      (next
        (next (next (next start (loaded "bundle" (pos 2) 40 (pos 2))) (sent job (pos 3)))
          (received 20 (pos 3) (pos 1) (pos 6) paid))
        (failed "lost" (pos 7)))
      (logged "error" "lost" (pos 8))

reach-IsSound_example :
    IsSound text rate last
    × (last.snapshot.l1.sent_calls ≡ sent_in text rate run)
    × (last.snapshot.l1.confirmed_calls + last.snapshot.l1.failed_calls ≡ received_in text rate run)
reach-IsSound_example = reach-IsSound text rate "board" (pos 1) run

abbrev point : G1Point String
point = record { x = "1"; y = "2" }

abbrev point2 : G2Point String
point2 = record { x = ("1", "2"); y = ("3", "4") }

abbrev artifact : ℕ → Artifact String
artifact lane = record {
  lane_id = lane;
  batch_id = 1;
  tx_count = 20 + lane;
  prev_state_commitment = point;
  next_state_commitment = point;
  proof = record { a = point; b = point2; c = point; d = point };
}

abbrev head : ℕ → LaneHead
head lane = record { lane_id = lane; initial_head = point }

abbrev key : VerifyingKey String
key = record {
  alpha = point;
  beta = point2;
  gamma = point2;
  delta = point2;
  gamma_abc = (point, point);
}

abbrev live : Bundle
live = record {
  verifying_key = key;
  lane_heads = head 0 ∷ [];
  verified_tx_total = 20;
  batches = artifact 0 ∷ [];
  ten_batches = [];
}

abbrev replayed : Bundle
replayed = record {
  verifying_key = key;
  lane_heads = head 5 ∷ head 6 ∷ head 7 ∷ [];
  verified_tx_total = 78;
  batches = [];
  ten_batches = artifact 5 ∷ artifact 6 ∷ artifact 7 ∷ [];
}

abbrev seconds : ℕ → ℤ
seconds i = pos (1000000000 * i)

abbrev ready : Event
ready = record {
  event = "bundle_completed";
  batch_size = pos 26;
  current = pos 1;
  total = pos 1;
  lane_id = pos 1;
  batch_id = 1;
  elapsed_ms = pos 5;
  generated_tx_total = 26;
  verified_tx_total = 26;
}

-- The exporter gives the live bundle as it is, and every file is a bundle.
abbrev files : Outside ℕ Bundle
files = record {
  export = λ lanes. (Line.progress ready ∷ Line.other "Compiling" ∷ [], done live);
  decode = λ b. done b;
  replay_bundle = done replayed;
  encode = λ b. done b;
  write = λ b. none;
}

abbrev words : EventTexts
words = record {
  setup_completed = λ ms. "setup";
  proof_started = λ current total lane. "started";
  proof_completed = λ current total ms. "completed";
  bundle_completed = λ ms. "bundle";
  bundle_written = "written";
  starting = "starting";
  loading = "loading";
  skipped = "skipped";
  mixed_mode = λ live replayed. "mixed";
  replay_loaded = λ n. "loaded";
}

abbrev prefixed : String → String → Bool
prefixed s p = true

generate_bundle-IsMixed_example :
    IsMixed text words prefixed seconds files "bundle.json" (pos 26) 1 3 (
      generate_bundle text words prefixed seconds files
        (record {
          bundle_path = "bundle.json";
          batch_size = pos 26;
          lane_count = pos 3;
          live_lane_count = pos 1;
        })
        begun)
unfolding generate_bundle
generate_bundle-IsMixed_example =
    generate_bundle-IsMixed text words prefixed seconds files "bundle.json" (pos 26) 1 3 begun
      (omega arith) (omega arith) refl
