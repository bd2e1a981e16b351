-- ===== src/Tests/Queue.antt =====
-- The ring of internal/queue/ring.go and the configuration at concrete inputs.
use hyper_l.Base.{
  ℕ, ◌*◌, ◌/◌, ◌^◌, ◌≤◌, ◌≡◌, ◌↔◌, ◌⊎◌, refl, arith, true, false, none, some, List, [], ◌∷◌,
}
use hyper_l.Base.Int.{pos}
use hyper_l.Ring.{new_ring}
use hyper_l.Ring.Queue
use hyper_l.Ring.Queue.{Op, put, get, Reply}
use hyper_l.Ring.Alone.{contents}
use hyper_l.Ring.Refine.{run, run_refines}
use hyper_l.Ring.New.{fresh, fresh-IsQuiet, new_ring_exact}
use hyper_l.Config.{Config, validate, blocks_for_phase}
use hyper_l.Config.Laws.{IsRunnable, validate_iff, blocks_for_phase_exact}

-- Two values fit, a third does not, and one of the two leaves.
abbrev calls : List (Op ℕ)
calls = get ∷ put 5 ∷ put 6 ∷ put 7 ∷ get ∷ put 8 ∷ []

run_refines_example : run 0 (fresh 0 1) calls ≡ Queue.run 2 (contents 0 (fresh 0 1)) calls
run_refines_example =
    run_refines 0 1 calls (fresh 0 1) (fresh-IsQuiet 0 1 (omega arith)) (omega arith)

new_ring_exact_example :
    ((k : ℕ) × (1 ≤ k) × (8 ≡ 2 ^ k) × (new_ring {A = ℕ} 0 8 ≡ some (fresh 0 k)))
    ⊎ (¬ ((k : ℕ) × (1 ≤ k) × (8 ≡ 2 ^ k)) × (new_ring {A = ℕ} 0 8 ≡ none))
new_ring_exact_example = new_ring_exact 0 8

abbrev pub config : Config
config = record {
  name = "local";
  block_time_millis = pos 500;
  gas_limit = 30000000;
  lanes = pos 4;
  max_lanes = pos 16;
  queue_capacity = 1024;
  cert_mode = true;
  skip_state = false;
  skip_signature = true;
  proof_seed = "seed";
  warmup = record { tps = pos 100; duration_seconds = pos 0 };
  certification = record { tps = pos 20000; duration_seconds = pos 60 };
  metrics_listen_addr = ":9100";
  report_dir = "reports";
  tx_dataset_path = "";
  proof_dataset_path = "";
  fault = record { pause_at_block = 0; pause_millis = pos 0; bad_proof_at = 0 };
}

validate_iff_example : (validate config ≡ none) ↔ IsRunnable config
validate_iff_example = validate_iff config

config_valid : validate config ≡ none
unfolding validate
config_valid = refl

blocks_for_phase_exact_example :
    blocks_for_phase config config.certification ≡ some (pos (60 * 1000 / 500))
blocks_for_phase_exact_example =
    blocks_for_phase_exact config config.certification 500 60 refl refl (omega arith) (omega arith)
      (omega arith)
