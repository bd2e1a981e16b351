-- ===== src/Commands/Nonces.antt =====
-- `runSubmitBurst` and `runFundAccounts` of cmd/kaia-proofctl/main.go: the nonces of what they send.
use hyper_l.Base.{
  ℕ, ◌+◌, ◌≡◌, refl, false, Bool-cases, inl, inr, ◌⊎◌, List, [], ◌∷◌, Option, none, some, String,
}
use hyper_l.Base.Int.{ℤ, pos, leb_ℤ}
use hyper_l.Base.Bytes.{Bytes}
use hyper_l.Chain.{Result, done, failed}
use hyper_l.Chain.Account.{AccountError}
use hyper_l.Commands.{CommandError, pure, World}
use hyper_l.Commands.Senders.{waited, check_status}
use hyper_l.Commands.Jobs.{Job, collect, nothing_collected}
use hyper_l.Commands.Sends.{sends, IsQuiet, IsQuiet-bind}
use hyper_l.Commands.Collecting.{waited-IsQuiet, check_status-IsQuiet, collect-IsQuiet}
use hyper_l.Commands.Consecutive.{SendsFrom, with_sender-SendsFrom}
use hyper_l.Commands.Burst.{
  run_submit_burst, burst_report, run_fund_accounts, fund_report, collect_funds, FundSummary,
}

module _ {E Key Address Node Signed : Type 0} (w : World E Key Address Node Signed)
    (confirmations : ℕ) (price : Result (AccountError E) (Option ℤ)) (key : Bytes) where
  module _ (format : ℕ → ℕ → String) (start now : ℤ) (sent_at seen_at : ℕ → ℤ) where
    burst_report-IsQuiet :
        (verified : ℕ) (jobs : List (Job Key Address Node Signed))
        → IsQuiet
            (burst_report w confirmations price format start now sent_at seen_at key verified jobs)
    unfolding burst_report
    burst_report-IsQuiet verified jobs =
        IsQuiet-bind
          (collect w "submit-burst-item" (λ a. none) (λ r. pure tt) confirmations verified sent_at
            seen_at 0 jobs nothing_collected)
          _
          (collect-IsQuiet w "submit-burst-item" (λ a. none) (λ r. pure tt) confirmations verified
            sent_at seen_at (λ r. refl) 0 jobs nothing_collected)
          (λ c. refl)

    -- Whatever the node answers, and on every path, `submit-burst` has sent nothing, or the packed
    -- data to the first of the addresses, each once and in their order, from the sender of the key,
    -- with nonces that go up by one from its pending nonce, modulo 2 ^ 64.
    pub submit_burst_nonces :
        (addresses : Option (List Address)) (packed : Result (CommandError E) (Bytes × ℕ))
        → let run =
            run_submit_burst w confirmations price format start now sent_at seen_at key addresses
              packed in
          (sends run.0 ≡ [])
          ⊎ ((tos : List Address) × (d : Bytes × ℕ) × (addresses ≡ some tos)
              × (packed ≡ done d)
              × SendsFrom w confirmations price key d.0 (pos 0) tos run.0)
    unfolding run_submit_burst
    submit_burst_nonces none packed = inl refl
    submit_burst_nonces (some []) packed = inl refl
    submit_burst_nonces (some (to ∷ tos)) (failed e) = inl refl
    submit_burst_nonces (some (to ∷ tos)) (done d) = inr (
      to ∷ tos,
      d,
      refl,
      refl,
      with_sender-SendsFrom w confirmations price key d.0 (pos 0) (to ∷ tos)
          (λ jobs. burst_report w confirmations price format start now sent_at seen_at key d.1 jobs)
          (burst_report-IsQuiet d.1) format start now sent_at seen_at,
    )

    collect_funds-IsQuiet :
        (amount : ℤ) (i : ℕ) (jobs : List (Job Key Address Node Signed))
        (acc : Option ℤ × List (FundSummary Address Signed))
        → IsQuiet (collect_funds w sent_at seen_at confirmations amount i jobs acc)
    unfolding collect_funds
    collect_funds-IsQuiet amount i [] acc = refl
    collect_funds-IsQuiet amount i (job ∷ jobs) acc =
        IsQuiet-bind (waited (w.wait job.sender.client job.tx job.sender.confirmations)) _
          (waited-IsQuiet Signed E (w.wait job.sender.client job.tx job.sender.confirmations))
          (λ receipt.
            IsQuiet-bind (check_status receipt) _ (check_status-IsQuiet Signed E receipt)
              (λ u. collect_funds-IsQuiet amount (i + 1) jobs _))

    -- Whatever the node answers, and on every path, `fund-accounts` has sent nothing, or the amount,
    -- which is positive, to the first of the recipients, each once and in their order, from the
    -- sender of the key, with nonces that go up by one from its pending nonce, modulo 2 ^ 64.
    pub fund_accounts_nonces :
        (recipients : Option (List Address)) (amount : Result (AccountError E) (Option ℤ))
        → let run =
            run_fund_accounts w confirmations price format start now sent_at seen_at key recipients
              amount in
          (sends run.0 ≡ [])
          ⊎ ((tos : List Address) × (value : ℤ) × (recipients ≡ some tos)
              × (amount ≡ done (some value))
              × (leb_ℤ value (pos 0) ≡ false)
              × SendsFrom w confirmations price key [] value tos run.0)
    unfolding run_fund_accounts
    fund_accounts_nonces none amount = inl refl
    fund_accounts_nonces (some []) amount = inl refl
    fund_accounts_nonces (some (to ∷ tos)) (failed e) = inl refl
    fund_accounts_nonces (some (to ∷ tos)) (done none) = inl refl
    fund_accounts_nonces (some (to ∷ tos)) (done (some value)) =
        elim (Bool-cases (leb_ℤ value (pos 0))) [
          | inl e ↦ inl (rw e refl)
          | inr e ↦ inr (
            to ∷ tos,
            value,
            refl,
            refl,
            e,
            rw e (
                with_sender-SendsFrom w confirmations price key [] value (to ∷ tos)
                  (λ jobs.
                    fund_report w confirmations price format start now sent_at seen_at key value
                      jobs)
                  (λ jobs.
                    IsQuiet-bind
                      (collect_funds w sent_at seen_at confirmations value 0 jobs (none, [])) _
                      (collect_funds-IsQuiet value 0 jobs (none, [])) (λ r. refl))
                  format start now sent_at seen_at),
          )
        ]
