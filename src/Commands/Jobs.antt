-- ===== src/Commands/Jobs.antt =====
-- `runSubmitMultisenderBurst` and `runSubmitBurst` of cmd/kaia-proofctl/main.go, and `buildDashboardJobs`
-- of cmd/kaia-proofctl/dashboard.go. Clocks are functions of the position of the job; a time is its
-- nanoseconds, and the zero time is none. Header times are below 2^63.
use hyper_l.Base.{
  ℕ, ◌+◌, ◌*◌, if◌then◌else◌, Option, none, some, List, [], ◌∷◌, ◌++◌, String, length,
}
use hyper_l.Base.Int.{ℤ, pos, ltb_ℤ, quot_ℤ, ◌-ℤ◌}
use hyper_l.Base.Bytes.{Bytes}
use hyper_l.Chain.{Result, Receipt, clamp_latency_ms, calculate_tps}
use hyper_l.Chain.Account.{AccountError}
use hyper_l.Chain.NewSender.{Sender}
use hyper_l.Commands.{
  closed, CommandError, Run, pure, ◌>>=◌, ◌>>◌, on_failure, asked, close_all, World,
}
use hyper_l.Commands.Senders.{open_sender, build, send_one, waited}

-- `senderJob`, `pendingTx` and the jobs of the dashboard, with the number of the client.
pub record Job (Key Address Node Signed : Type 0) : Type 0 where
  pub client : ℕ
  pub sender : Sender Key Address Node
  pub to : Address
  pub tx : Signed
  pub gas_limit : ℕ

-- `txSummary`, of the fields that the bursts fill.
pub record Summary (Address Signed : Type 0) : Type 0 where
  pub action : String
  pub sender_address : Option Address
  pub transaction : Signed
  pub contract_address : Address
  pub block_number : ℕ
  pub block_timestamp : ℤ
  pub gas_limit : ℕ
  pub gas_used : ℕ
  pub block_inclusion_latency_ms : ℤ
  pub receipt_latency_ms : ℤ
  pub receipt_visibility_delay_ms : ℤ
  pub confirmations : ℕ
  pub verified_tx_total : ℕ

-- What the loop over the receipts keeps: `end`, `receiptEnd` and `results`.
pub record Collected (Address Signed : Type 0) : Type 0 where
  pub end_time : Option ℤ
  pub receipt_end : Option ℤ
  pub results : List (Summary Address Signed)

-- What the commands print.
pub record BurstReport (Address Signed : Type 0) : Type 0 where
  pub count : ℕ
  pub verified_tx_total : ℕ
  pub window_ms : ℤ
  pub tps : String
  pub receipt_window_ms : ℤ
  pub receipt_visible_tps : String
  pub transactions : List (Summary Address Signed)

-- The later of two times.
abbrev pub latest : Option ℤ → ℤ → Option ℤ
latest none t = some t
latest (some e) t = if ltb_ℤ e t then some t else some e

abbrev pub time_or : Option ℤ → ℤ → ℤ
time_or none now = now
time_or (some t) now = t

-- `a.Sub(b).Milliseconds()`
abbrev pub ms_between : ℤ → ℤ → ℤ
ms_between a b = quot_ℤ (a -ℤ b) 1000000

abbrev pub pairs : {A B : Type 0} → List A → List B → List (A × B)
pairs [] ys = []
pairs (x ∷ xs) [] = []
pairs (x ∷ xs) (y ∷ ys) = (x, y) ∷ pairs xs ys

abbrev pub clients :
    {Key Address Node Signed : Type 0} → List (Job Key Address Node Signed) → List ℕ
clients [] = []
clients (job ∷ jobs) = job.client ∷ clients jobs

module _ {E Key Address Node Signed : Type 0} where
  module _ (w : World E Key Address Node Signed) (confirmations : ℕ)
      (price : Result (AccountError E) (Option ℤ)) (data_bytes : Bytes) where
    -- The loop over the private keys: a sender, its nonce and its transaction for each of them. An error
    -- closes the client at hand and those of the jobs made so far.
    unfoldable pub multi_jobs :
        ℕ
        → List (Bytes × Address)
        → List (Job Key Address Node Signed)
        → Run Signed (CommandError E) (List (Job Key Address Node Signed))
    unfolding open_sender build
    multi_jobs i [] jobs = pure jobs
    multi_jobs i ((key, to) ∷ rest) jobs = do
      s ← on_failure (close_all (clients jobs)) (open_sender w confirmations price i key)
      nonce ←
          on_failure (closed i ∷ close_all (clients jobs))
            (asked CommandError.refused (w.pending_nonce i s.client s.from_address))
      built ←
          on_failure (closed i ∷ close_all (clients jobs))
            (asked CommandError.refused (build w i s to data_bytes (pos 0) nonce))
      multi_jobs (i + 1) rest (
          jobs
          ++ record { client = i; sender = s; to = to; tx = built.0; gas_limit = built.1 } ∷ [])

  module _ (w : World E Key Address Node Signed) where
    -- The loop that sends what was built.
    unfoldable pub send_jobs :
        List (Job Key Address Node Signed) → Run Signed (CommandError E) (Unit {0})
    send_jobs [] = pure tt
    send_jobs (job ∷ jobs) = send_one w job.client job.sender job.tx >> send_jobs jobs

    module _ (action : String) (named : Address → Option Address)
        (check : Receipt → Run Signed (CommandError E) (Unit {0})) (confirmations verified : ℕ)
        (sent_at seen_at : ℕ → ℤ) where
      abbrev pub summary_of : ℕ → Job Key Address Node Signed → Receipt → ℤ → Summary Address Signed
      summary_of i job receipt included_at = record {
        action = action;
        sender_address = named job.sender.from_address;
        transaction = job.tx;
        contract_address = job.to;
        block_number = receipt.block_number;
        block_timestamp = included_at;
        gas_limit = job.gas_limit;
        gas_used = receipt.gas_used;
        block_inclusion_latency_ms = clamp_latency_ms (ms_between included_at (sent_at i));
        receipt_latency_ms = ms_between (seen_at i) (sent_at i);
        receipt_visibility_delay_ms = clamp_latency_ms (ms_between (seen_at i) included_at);
        confirmations = confirmations;
        verified_tx_total = verified;
      }

      -- The loop over the receipts, from the job at position `i` on.
      unfoldable pub collect :
          ℕ
          → List (Job Key Address Node Signed)
          → Collected Address Signed
          → Run Signed (CommandError E) (Collected Address Signed)
      collect i [] c = pure c
      collect i (job ∷ jobs) c = do
        receipt ← waited (w.wait job.sender.client job.tx job.sender.confirmations)
        check receipt
        seconds ←
            asked CommandError.refused (w.header_time i job.sender.client receipt.block_number)
        collect (i + 1) jobs record {
          end_time = latest c.end_time (pos (seconds * 1000000000));
          receipt_end = latest c.receipt_end (seen_at i);
          results = c.results ++ summary_of i job receipt (pos (seconds * 1000000000)) ∷ [];
        }

-- The report at the end of a burst; `start` and `now` are read from the clock.
abbrev pub report_of :
    {Address Signed : Type 0}
    → (ℕ → ℕ → String)
    → ℤ
    → ℤ
    → ℕ
    → Collected Address Signed
    → BurstReport Address Signed
report_of format start now total c =
    let window_ms = ms_between (time_or c.end_time now) start in
    let receipt_window_ms = ms_between (time_or c.receipt_end now) start in
    record {
      count = length c.results;
      verified_tx_total = total;
      window_ms = window_ms;
      tps = calculate_tps format "0" total window_ms;
      receipt_window_ms = receipt_window_ms;
      receipt_visible_tps = calculate_tps format "0" total receipt_window_ms;
      transactions = c.results;
    }

abbrev pub nothing_collected : {Address Signed : Type 0} → Collected Address Signed
nothing_collected = record { end_time = none; receipt_end = none; results = [] }
