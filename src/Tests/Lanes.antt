-- ===== src/Tests/Lanes.antt =====
-- `runInitializeLaneHeads` of cmd/kaia-proofctl/main.go at concrete inputs.
use hyper_l.Base.{
  ℕ, ◌+◌, ◌==◌, ◌≡◌, refl, if◌then◌else◌, Bool, true, false, [], ◌∷◌, ◌++◌, none, some, replicate,
}
use hyper_l.Base.Int.{ℤ, pos}
use hyper_l.Base.Bytes.{Bytes}
use hyper_l.Chain.{Result, done, failed, got, Unsigned, call, creation}
use hyper_l.Commands.{World, Run, dialed, closed, sent, CommandError}
use hyper_l.Commands.Sends.{sends}
use hyper_l.Commands.Lanes.{Certifier, LaneReport, run_initialize_lane_heads}
use hyper_l.Commands.Lanes.Outcome.{AreInitialized, init_lane_heads_sound}

abbrev sign_call : Unsigned ℕ ℤ → Result ℕ (ℕ × Bytes)
sign_call (creation nonce value gas data_bytes) = failed 1
sign_call (call nonce to value gas data_bytes) = done (nonce, data_bytes)

-- A transaction is its nonce and its data; the pending nonce grows by one with each transaction.
abbrev world : World ℕ Bytes ℕ ℕ (ℕ × Bytes)
world = record {
  read_key = λ text. done text;
  address_of = λ key. some 5;
  dial = λ i. done i;
  chain_id_of = λ node. done (pos 1001);
  suggest_gas_price = λ node. done (pos 25);
  pending_nonce = λ i node address. done (3 + i);
  estimate_gas = λ i node address to value data_bytes. done 21000;
  sign = λ key chain price unsigned. sign_call unsigned;
  send = λ node tx. none;
  wait =
      λ node tx confirmations. got record { block_number = 9; successful = true; gas_used = 20000 };
  header_time = λ i node number. done 1000;
  env_gas_limit = pos 0;
}

-- A contract whose lane 2 is set, and no other.
abbrev certifier : Certifier ℕ ℕ ℕ ℕ
certifier = record {
  address = 8;
  ask_lane_head = λ i node lane. done (replicate 63 0 ++ (if lane == 2 then 7 else 0) ∷ []);
  pack_lane_heads = λ lanes heads. done lanes;
  pack_lane_head = λ lane head. done (lane ∷ []);
}

abbrev lane_run : Bool → Run (ℕ × Bytes) (CommandError ℕ) (LaneReport (ℕ × Bytes))
unfolding run_initialize_lane_heads
lane_run bulk =
    run_initialize_lane_heads world certifier (λ i. pos 40) 1 (done (some (pos 25))) (49 ∷ []) true
      true bulk (done ((1, 11) ∷ (2, 12) ∷ (3, 13) ∷ []))

abbrev report_of : {F : Type 0} → Result F (LaneReport (ℕ × Bytes)) → LaneReport (ℕ × Bytes)
report_of (done r) = r
report_of (failed e) = record { count = 0; skipped_lanes = []; transactions = [] }

bulk_calls : (lane_run true).0 ≡ dialed 0 ∷ sent 0 (3, 1 ∷ 3 ∷ []) ∷ closed 0 ∷ []
unfolding lane_run run_initialize_lane_heads
bulk_calls = refl

single_calls :
    (lane_run false).0 ≡ dialed 0 ∷ sent 0 (3, 1 ∷ []) ∷ sent 0 (4, 3 ∷ []) ∷ closed 0 ∷ []
unfolding lane_run run_initialize_lane_heads
single_calls = refl

init_lane_heads_sound_example :
    (true ≡ true)
    × AreInitialized world certifier
        (λ i. pos 40)
        1
        (done (some (pos 25)))
        (49 ∷ [])
        true
        false
        (done ((1, 11) ∷ (2, 12) ∷ (3, 13) ∷ []))
        (report_of (lane_run false).1)
        (sends (lane_run false).0)
unfolding lane_run run_initialize_lane_heads
init_lane_heads_sound_example =
    init_lane_heads_sound world certifier (λ i. pos 40) 1 (done (some (pos 25))) (49 ∷ []) true true
      false (done ((1, 11) ∷ (2, 12) ∷ (3, 13) ∷ [])) refl
