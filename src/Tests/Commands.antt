-- ===== src/Tests/Commands.antt =====
-- The commands of cmd/kaia-proofctl at concrete inputs.
use hyper_l.Base.{ℕ, ◌+◌, ◌*◌, ◌==◌, ◌≡◌, ◌⊎◌, refl, not, List, [], ◌∷◌, Option, none, some, String}
use hyper_l.Base.Int.{ℤ, pos}
use hyper_l.Base.Bytes.{Bytes}
use hyper_l.Chain.{Result, done, failed, got, Unsigned, call, creation}
use hyper_l.Chain.Account.{AccountError}
use hyper_l.Commands.{World, Call, dialed, closed, sent, CommandError, reverted}
use hyper_l.Commands.Sends.{sends}
use hyper_l.Commands.Jobs.{BurstReport}
use hyper_l.Commands.Multi.{run_submit_multisender_burst}
use hyper_l.Commands.Burst.{run_submit_burst}
use hyper_l.Commands.Success.{IsSuccess, multisender_burst_sound}
use hyper_l.Commands.Consecutive.{SendsFrom}
use hyper_l.Commands.Nonces.{submit_burst_nonces}

-- A transaction is its nonce and its address.
abbrev sign_call : Unsigned ℕ ℤ → Result ℕ (ℕ × ℕ)
sign_call (creation nonce value gas data_bytes) = failed 1
sign_call (call nonce to value gas data_bytes) = done (nonce, to)

-- A node that takes everything, and reverts what is sent to address 7.
abbrev world : World ℕ Bytes ℕ ℕ (ℕ × ℕ)
world = record {
  read_key = λ text. done text;
  address_of = λ key. some 5;
  dial = λ i. done i;
  chain_id_of = λ node. done (pos 1001);
  suggest_gas_price = λ node. done (pos 25);
  pending_nonce = λ i node address. done (node + 3);
  estimate_gas = λ i node address to value data_bytes. done 21000;
  sign = λ key chain price unsigned. sign_call unsigned;
  send = λ node tx. none;
  wait = λ node tx confirmations.
      got record { block_number = 9; successful = not (tx.1 == 7); gas_used = 20000 };
  header_time = λ i node number. done 1000;
  env_gas_limit = pos 0;
}

abbrev show : ℕ → ℕ → String
show a b = "tps"

abbrev one_price : Result (AccountError ℕ) (Option ℤ)
one_price = done (some (pos 25))

abbrev times : ℕ → ℤ
times i = pos (1001000000000 + i * 1000000000)

abbrev two_keys : List Bytes
two_keys = (49 ∷ []) ∷ (50 ∷ []) ∷ []

abbrev packed_data : Result (CommandError ℕ) (Bytes × ℕ)
packed_data = done (1 ∷ 2 ∷ [], 20000)

abbrev calls_of : List ℕ → List (Call (ℕ × ℕ))
unfolding run_submit_multisender_burst
calls_of tos =
    (run_submit_multisender_burst world 1 one_price show (pos 0) (pos 0) times times two_keys
      (some tos) packed_data).0

two_calls :
    calls_of (6 ∷ 8 ∷ [])
    ≡ dialed 0 ∷ dialed 1 ∷ sent 0 (3, 6) ∷ sent 1 (4, 8) ∷ closed 0 ∷ closed 1 ∷ []
unfolding calls_of run_submit_multisender_burst
two_calls = refl

-- A transaction that is reverted ends the command with an error.
second_reverted :
    (run_submit_multisender_burst world 1 one_price show
      (pos 0)
      (pos 0)
      times
      times
      two_keys
      (some (6 ∷ 7 ∷ []))
      packed_data).1
    ≡ failed (reverted 9 20000)
unfolding run_submit_multisender_burst
second_reverted = refl

abbrev burst_of : List ℕ → Result (CommandError ℕ) (BurstReport ℕ (ℕ × ℕ))
unfolding run_submit_multisender_burst
burst_of tos =
    (run_submit_multisender_burst world 1 one_price show (pos 0) (pos 0) times times two_keys
      (some tos) packed_data).1

-- What the command prints when both are confirmed.
abbrev report_or : {F A : Type 0} → A → Result F A → A
report_or d (done a) = a
report_or d (failed e) = d

abbrev empty_report : BurstReport ℕ (ℕ × ℕ)
empty_report = record {
  count = 0;
  verified_tx_total = 0;
  window_ms = pos 0;
  tps = "0";
  receipt_window_ms = pos 0;
  receipt_visible_tps = "0";
  transactions = [];
}

multisender_burst_sound_example :
    (tos : List ℕ) × (d : Bytes × ℕ) × (some (6 ∷ 8 ∷ []) ≡ some tos)
    × (packed_data ≡ done d)
    × IsSuccess world 1 one_price show
        (pos 0)
        (pos 0)
        times
        times
        two_keys
        tos
        d
        (calls_of (6 ∷ 8 ∷ []))
        (report_or empty_report (burst_of (6 ∷ 8 ∷ [])))
unfolding calls_of burst_of run_submit_multisender_burst
multisender_burst_sound_example =
    multisender_burst_sound world 1 one_price show (pos 0) (pos 0) times times two_keys
      (some (6 ∷ 8 ∷ [])) packed_data refl

submit_burst_nonces_example :
    let run =
      run_submit_burst world 1 one_price show
        (pos 0)
        (pos 0)
        times
        times
        (49 ∷ [])
        (some (6 ∷ 7 ∷ []))
        packed_data in
    (sends run.0 ≡ [])
    ⊎ ((tos : List ℕ) × (d : Bytes × ℕ) × (some (6 ∷ 7 ∷ []) ≡ some tos)
        × (packed_data ≡ done d)
        × SendsFrom world 1 one_price (49 ∷ []) d.0 (pos 0) tos run.0)
submit_burst_nonces_example =
    submit_burst_nonces world 1 one_price (49 ∷ []) show (pos 0) (pos 0) times times
      (some (6 ∷ 7 ∷ [])) packed_data

-- The transaction to address 7 is reverted, and its transfers are counted as verified all the same.
reverted_counted :
    (report_or empty_report
      (run_submit_burst world 1 one_price show
        (pos 0)
        (pos 0)
        times
        times
        (49 ∷ [])
        (some (6 ∷ 7 ∷ []))
        packed_data).1).verified_tx_total
    ≡ 40000
unfolding run_submit_burst
reverted_counted = refl
