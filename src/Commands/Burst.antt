-- ===== src/Commands/Burst.antt =====
-- `runSubmitBurst` and `runFundAccounts` of cmd/kaia-proofctl/main.go, after the flags are read: one
-- sender signs and sends a transaction to each address, before any receipt is waited for.
use hyper_l.Base.{
  ℕ, ◌+◌, ◌*◌, ◌%◌, ◌^◌, if◌then◌else◌, Option, none, some, List, [], ◌∷◌, ◌++◌, String, length,
}
use hyper_l.Base.Int.{ℤ, pos, leb_ℤ}
use hyper_l.Base.Bytes.{Bytes}
use hyper_l.Chain.{Result}
use hyper_l.Chain.Account.{AccountError}
use hyper_l.Chain.NewSender.{Sender}
use hyper_l.Commands.{
  closed, CommandError, missing_addresses, bad_address, no_sender, invalid_amount, Run, pure, raise,
  ◌>>=◌, ◌>>◌, deferred, asked, World,
}
use hyper_l.Commands.Senders.{open_sender, build, send_one, waited, check_status}
use hyper_l.Commands.Jobs.{
  Job, collect, nothing_collected, report_of, BurstReport, ms_between, time_or,
}

-- `txSummary`, of the fields that `runFundAccounts` fills.
pub record FundSummary (Address Signed : Type 0) : Type 0 where
  pub sender_address : Address
  pub transaction : Signed
  pub contract_address : Address
  pub block_number : ℕ
  pub gas_limit : ℕ
  pub gas_used : ℕ
  pub receipt_latency_ms : ℤ
  pub confirmations : ℕ
  pub value_wei : ℤ

pub record FundReport (Address Signed : Type 0) : Type 0 where
  pub count : ℕ
  pub window_ms : ℤ
  pub transactions : List (FundSummary Address Signed)

module _ {E Key Address Node Signed : Type 0} (w : World E Key Address Node Signed) where
  -- The loop over the addresses, from position `i` on; client 0 is the sender's.
  unfoldable pub send_each :
      Sender Key Address Node
      → Bytes
      → ℤ
      → ℕ
      → ℕ
      → List Address
      → Run Signed (CommandError E) (List (Job Key Address Node Signed))
  unfolding build
  send_each s data_bytes value nonce i [] = pure []
  send_each s data_bytes value nonce i (to ∷ tos) = do
    built ← asked CommandError.refused (build w i s to data_bytes value ((nonce + i) % 2 ^ 64))
    send_one w 0 s built.0
    jobs ← send_each s data_bytes value nonce (i + 1) tos
    pure (record { client = 0; sender = s; to = to; tx = built.0; gas_limit = built.1 } ∷ jobs)

  module _ (sent_at seen_at : ℕ → ℤ) where
    -- The loop of `runFundAccounts` over the receipts, with `end` and the results. The clock is read
    -- once for a receipt, where the source reads it twice in a row.
    unfoldable pub collect_funds :
        ℕ
        → ℤ
        → ℕ
        → List (Job Key Address Node Signed)
        → Option ℤ × List (FundSummary Address Signed)
        → Run Signed (CommandError E) (Option ℤ × List (FundSummary Address Signed))
    collect_funds confirmations amount i [] acc = pure acc
    collect_funds confirmations amount i (job ∷ jobs) acc = do
      receipt ← waited (w.wait job.sender.client job.tx job.sender.confirmations)
      check_status receipt
      collect_funds confirmations amount (i + 1) jobs (
        some (seen_at i),
        acc.1
            ++ record {
              sender_address = job.sender.from_address;
              transaction = job.tx;
              contract_address = job.to;
              block_number = receipt.block_number;
              gas_limit = job.gas_limit;
              gas_used = receipt.gas_used;
              receipt_latency_ms = ms_between (seen_at i) (sent_at i);
              confirmations = confirmations;
              value_wei = amount;
            }
              ∷ [],
      )

  module _ (confirmations : ℕ) (price : Result (AccountError E) (Option ℤ))
      (format : ℕ → ℕ → String) (start now : ℤ) (sent_at seen_at : ℕ → ℤ) (key : Bytes) where
    -- What both commands do with a sender: its nonce is asked for once, and everything is sent. The
    -- sender's client is closed in the end.
    abbrev pub with_sender :
        {A : Type 0}
        → Bytes
        → ℤ
        → List Address
        → (List (Job Key Address Node Signed) → Run Signed (CommandError E) A)
        → Run Signed (CommandError E) A
    with_sender data_bytes value tos rest = do
      s ← open_sender w confirmations price 0 key
      deferred (closed 0 ∷ []) (do
        nonce ← asked CommandError.refused (w.pending_nonce 0 s.client s.from_address)
        jobs ← send_each s data_bytes value nonce 0 tos
        rest jobs)

    -- The receipts of `runSubmitBurst`: their status is not looked at.
    unfoldable pub burst_report :
        ℕ
        → List (Job Key Address Node Signed)
        → Run Signed (CommandError E) (BurstReport Address Signed)
    unfolding collect
    burst_report verified jobs = do
      c ←
          collect w "submit-burst-item" (λ a. none) (λ r. pure tt) confirmations verified sent_at
            seen_at 0 jobs nothing_collected
      pure (report_of format start now (verified * length jobs % 2 ^ 64) c)

    -- `runSubmitBurst`
    unfoldable pub run_submit_burst :
        Option (List Address)
        → Result (CommandError E) (Bytes × ℕ)
        → Run Signed (CommandError E) (BurstReport Address Signed)
    unfolding open_sender send_each burst_report
    run_submit_burst none packed = raise bad_address
    run_submit_burst (some []) packed = raise missing_addresses
    run_submit_burst (some (to ∷ tos)) packed = do
      d ← ([], packed)
      with_sender d.0 (pos 0) (to ∷ tos) (λ jobs. burst_report d.1 jobs)

    abbrev pub fund_report :
        ℤ
        → List (Job Key Address Node Signed)
        → Run Signed (CommandError E) (FundReport Address Signed)
    fund_report amount jobs = do
      r ← collect_funds sent_at seen_at confirmations amount 0 jobs (none, [])
      pure record {
        count = length r.1;
        window_ms = ms_between (time_or r.0 now) start;
        transactions = r.1;
      }

    abbrev pub with_amount :
        List Address → Option ℤ → Run Signed (CommandError E) (FundReport Address Signed)
    with_amount tos none = raise invalid_amount
    with_amount tos (some amount) =
        if leb_ℤ amount (pos 0)
        then raise invalid_amount
        else with_sender [] amount tos (λ jobs. fund_report amount jobs)

    -- `runFundAccounts`; `amount` is what `parseBigInt` gives.
    unfoldable pub run_fund_accounts :
        Option (List Address)
        → Result (AccountError E) (Option ℤ)
        → Run Signed (CommandError E) (FundReport Address Signed)
    run_fund_accounts none amount = raise bad_address
    run_fund_accounts (some []) amount = raise missing_addresses
    run_fund_accounts (some (to ∷ tos)) amount = do
      value ← asked no_sender amount
      with_amount (to ∷ tos) value
