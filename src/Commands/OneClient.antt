-- ===== src/Commands/OneClient.antt =====
-- The client of `runSubmitBurst` and of `runFundAccounts` of cmd/kaia-proofctl/main.go is closed on every
-- path.
use hyper_l.Base.{
  ℕ, ◌+◌, ◌%◌, ◌^◌, ◌≡◌, refl, Bool-cases, inl, inr, List, [], ◌∷◌, Option, none, some, String,
}
use hyper_l.Base.Int.{ℤ, pos, leb_ℤ}
use hyper_l.Base.Bytes.{Bytes}
use hyper_l.Chain.{Result, done, failed}
use hyper_l.Chain.Account.{AccountError}
use hyper_l.Chain.NewSender.{Sender}
use hyper_l.Commands.{CommandError, Run, pure, ◌>>=◌, closed, asked, World}
use hyper_l.Commands.Monitor.{monitor, monitor-sent, Leads, Leads-bind, Leads-deferred}
use hyper_l.Commands.Senders.{open_sender, build, send_one, waited, check_status}
use hyper_l.Commands.Jobs.{Job, collect, nothing_collected}
use hyper_l.Commands.Clients.{either, open_sender-Leads}
use hyper_l.Commands.Release.{
  Keeps, Keeps-bind, asked-Keeps, waited-Keeps, check_status-Keeps, collect-Keeps,
}
use hyper_l.Commands.Burst.{
  send_each, with_sender, run_submit_burst, burst_report, run_fund_accounts, fund_report,
  collect_funds, FundSummary,
}

module _ {E Key Address Node Signed : Type 0} (w : World E Key Address Node Signed) where
  send_each-Keeps :
      (s : Sender Key Address Node) (data_bytes : Bytes) (value : ℤ) (nonce i : ℕ)
      (tos : List Address)
      → Keeps (0 ∷ []) (send_each w s data_bytes value nonce i tos)
  unfolding send_each
  send_each-Keeps s data_bytes value nonce i [] = refl
  send_each-Keeps s data_bytes value nonce i (to ∷ tos) =
      let js : List ℕ = 0 ∷ [] in
      Keeps-bind js
        (asked CommandError.refused (build w i s to data_bytes value ((nonce + i) % 2 ^ 64))) _
        (asked-Keeps Signed js CommandError.refused _)
        (λ built.
          Keeps-bind js (send_one w 0 s built.0) _ (monitor-sent Signed 0 built.0 js refl) (λ u.
            Keeps-bind js (send_each w s data_bytes value nonce (i + 1) tos) _
              (send_each-Keeps s data_bytes value nonce (i + 1) tos) (λ jobs. refl)))

  module _ (confirmations : ℕ) (price : Result (AccountError E) (Option ℤ))
      (format : ℕ → ℕ → String) (start now : ℤ) (sent_at seen_at : ℕ → ℤ) (key : Bytes) where
    with_sender-closes :
        {A : Type 0} (data_bytes : Bytes) (value : ℤ) (tos : List Address)
        (rest : List (Job Key Address Node Signed) → Run Signed (CommandError E) A)
        → ((jobs : List (Job Key Address Node Signed)) → Keeps (0 ∷ []) (rest jobs))
        → Leads []
            (with_sender w confirmations price format start now sent_at seen_at key data_bytes value
              tos rest)
            (λ r. [])
    with_sender-closes data_bytes value tos rest keeps =
        let js : List ℕ = 0 ∷ [] in
        Leads-bind (open_sender w confirmations price 0 key) _ [] (either js []) (λ r. [])
          (open_sender-Leads w confirmations price 0 [] tt key)
          (λ s.
            Leads-deferred (closed 0 ∷ [])
              (asked CommandError.refused (w.pending_nonce 0 s.client s.from_address) >>= λ nonce.
                send_each w s data_bytes value nonce 0 tos >>= rest)
              js js []
              (Keeps-bind js
                (asked CommandError.refused (w.pending_nonce 0 s.client s.from_address)) _
                (asked-Keeps Signed js CommandError.refused _)
                (λ nonce.
                  Keeps-bind js (send_each w s data_bytes value nonce 0 tos) rest
                    (send_each-Keeps s data_bytes value nonce 0 tos) keeps))
              refl)
          (λ e. refl)

    burst_report-Keeps :
        (verified : ℕ) (jobs : List (Job Key Address Node Signed))
        → Keeps
            (0 ∷ [])
            (burst_report w confirmations price format start now sent_at seen_at key verified jobs)
    unfolding burst_report
    burst_report-Keeps verified jobs =
        Keeps-bind (0 ∷ [])
          (collect w "submit-burst-item" (λ a. none) (λ r. pure tt) confirmations verified sent_at
            seen_at 0 jobs nothing_collected)
          _
          (collect-Keeps w (0 ∷ []) "submit-burst-item" (λ a. none) (λ r. pure tt) confirmations
            verified sent_at seen_at (λ r. refl) 0 jobs nothing_collected)
          (λ c. refl)

    -- On every path of `submit-burst`, the client is used and closed only while it is open, and is not open
    -- in the end.
    pub submit_burst_closes :
        (addresses : Option (List Address)) (packed : Result (CommandError E) (Bytes × ℕ))
        → monitor
            (run_submit_burst w confirmations price format start now sent_at seen_at key addresses
              packed).0
            []
          ≡ some []
    unfolding run_submit_burst
    submit_burst_closes none packed = refl
    submit_burst_closes (some []) packed = refl
    submit_burst_closes (some (to ∷ tos)) (failed e) = refl
    submit_burst_closes (some (to ∷ tos)) (done d) =
        with_sender-closes d.0 (pos 0) (to ∷ tos) _ (burst_report-Keeps d.1)

    collect_funds-Keeps :
        (amount : ℤ) (i : ℕ) (jobs : List (Job Key Address Node Signed))
        (acc : Option ℤ × List (FundSummary Address Signed))
        → Keeps (0 ∷ []) (collect_funds w sent_at seen_at confirmations amount i jobs acc)
    unfolding collect_funds
    collect_funds-Keeps amount i [] acc = refl
    collect_funds-Keeps amount i (job ∷ jobs) acc =
        let js : List ℕ = 0 ∷ [] in
        Keeps-bind js (waited (w.wait job.sender.client job.tx job.sender.confirmations)) _
          (waited-Keeps Signed js (w.wait job.sender.client job.tx job.sender.confirmations))
          (λ receipt.
            Keeps-bind js (check_status receipt) _ (check_status-Keeps Signed js E receipt)
              (λ u. collect_funds-Keeps amount (i + 1) jobs _))

    -- On every path of `fund-accounts`, the client is used and closed only while it is open, and is not open
    -- in the end.
    pub fund_accounts_closes :
        (recipients : Option (List Address)) (amount : Result (AccountError E) (Option ℤ))
        → monitor
            (run_fund_accounts w confirmations price format start now sent_at seen_at key recipients
              amount).0
            []
          ≡ some []
    unfolding run_fund_accounts
    fund_accounts_closes none amount = refl
    fund_accounts_closes (some []) amount = refl
    fund_accounts_closes (some (to ∷ tos)) (failed e) = refl
    fund_accounts_closes (some (to ∷ tos)) (done none) = refl
    fund_accounts_closes (some (to ∷ tos)) (done (some value)) =
        elim (Bool-cases (leb_ℤ value (pos 0))) [
          | inl e ↦ rw e refl
          | inr e ↦ rw e (
              with_sender-closes [] value (to ∷ tos)
                (λ jobs.
                  fund_report w confirmations price format start now sent_at seen_at key value jobs)
                (λ jobs.
                  Keeps-bind (0 ∷ [])
                    (collect_funds w sent_at seen_at confirmations value 0 jobs (none, [])) _
                    (collect_funds-Keeps value 0 jobs (none, [])) (λ r. refl)))
        ]
