-- ===== src/Dashboard/Receipts.antt =====
-- What a receipt changes on the dashboard, `noteReceipt`. The formats of times and the decimal text of
-- a quotient (`big.Rat.FloatString`) are parameters.
use hyper_l.Base.{ℕ, ◌+◌, ◌*◌, if◌then◌else◌, ◌==◌, none, some, [], ◌∷◌, ◌++◌, String}
use text.Mathlib.Text.{◌==◌ as str_eq}
use hyper_l.Base.Int.{ℤ, pos, negsuc, ◌-ℤ◌, ltb_ℤ, quot_ℤ}
use hyper_l.Dashboard.Types.{TxSummary, L1State, State, ReceiptResult, is_zero, last_of, with_l1}
use hyper_l.Dashboard.State.{summary_of, mutate}

-- `clampNonNegativeMS`
unfoldable pub clamp_non_negative_ms : ℤ → ℤ
clamp_non_negative_ms d = let ms = quot_ℤ d 1000000 in if ltb_ℤ ms (pos 0) then pos 0 else ms

-- A failed call: `result.err` is set.
unfoldable pub note_failed : String → TxSummary → L1State → L1State × TxSummary
note_failed error entry l = (
  record l { failed_calls = l.failed_calls + 1 },
  record entry { status = "failed"; error = error },
)

module _ (format : ℤ → String) (rate : ℕ → ℕ → String) (confirmed : ℕ)
    (first_send_at started_at now : ℤ) where
  -- A throughput is written only after a positive number of milliseconds.
  abbrev pub rate_after : ℤ → String → String
  rate_after elapsed old = elim (quot_ℤ elapsed 1000000) [
    | pos ms ↦ if ms == 0 then old else rate (confirmed * 1000) ms
    | negsuc k ↦ old
  ]

  -- The time of the receipt, `time.Now()` if it is not set.
  abbrev pub seen_at : ReceiptResult → ℤ
  seen_at r = if is_zero r.receipt_seen_at then now else r.receipt_seen_at

  -- What a confirmed call changes when the time of its block is known.
  unfoldable pub note_inclusion : ReceiptResult → TxSummary → L1State → L1State × TxSummary
  unfolding clamp_non_negative_ms
  note_inclusion r entry l = (
    record l {
      first_inclusion_at =
          if str_eq l.first_inclusion_at "" then format r.included_at else l.first_inclusion_at;
      last_inclusion_at = format r.included_at;
      aggregate_block_tps = rate_after (r.included_at -ℤ first_send_at) l.aggregate_block_tps;
    },
    record entry {
      block_timestamp = format r.included_at;
      block_inclusion_latency_ms = clamp_non_negative_ms (r.included_at -ℤ r.job.sent_at);
      receipt_visibility_delay_ms = clamp_non_negative_ms (seen_at r -ℤ r.included_at);
    },
  )

  unfoldable pub note_confirmed : ReceiptResult → TxSummary → L1State → L1State × TxSummary
  unfolding note_inclusion
  note_confirmed r entry l =
      let seen = seen_at r in
      let l' = record l {
        confirmed_calls = l.confirmed_calls + 1;
        verified_tx_confirmed = confirmed;
        last_receipt_at = format seen;
        aggregate_receipt_tps = rate_after (seen -ℤ first_send_at) l.aggregate_receipt_tps;
        aggregate_end_to_end_tps = rate_after (seen -ℤ started_at) l.aggregate_end_to_end_tps;
      } in
      let entry' = record entry {
        status = "confirmed";
        block_number = r.receipt.0;
        gas_used = r.receipt.1;
        receipt_latency_ms = quot_ℤ (seen -ℤ r.job.sent_at) 1000000;
        end_to_end_latency_ms = quot_ℤ (seen -ℤ started_at) 1000000;
      } in
      if is_zero r.included_at then (l', entry') else note_inclusion r entry' l'

  -- The two branches on `result.err`.
  unfoldable pub note_result : ReceiptResult → L1State → L1State × TxSummary
  unfolding note_failed note_confirmed
  note_result r l = elim r.failure [
    | some e ↦ note_failed e (summary_of format r.job) l
    | none ↦ note_confirmed r (summary_of format r.job) l
  ]

  -- `noteReceipt`: the last 100 summaries are kept.
  unfoldable pub note_receipt : ReceiptResult → State → State
  unfolding mutate note_result
  note_receipt r =
      mutate format
        (λ s.
          let (l, entry) = note_result r s.l1 in
          with_l1 (record l { transactions = last_of 100 (l.transactions ++ entry ∷ []) }) s)
        now
