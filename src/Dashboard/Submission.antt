-- ===== src/Dashboard/Submission.antt =====
-- The submission of a bundle, `submitBundleWithProgress` of cmd/kaia-proofctl/dashboard.go, after the
-- contract and the jobs are made: the choice of the mode, the loop that sends, and the loop that takes
-- the results in the order in which they come. The client is not modelled: a job comes with the error
-- of its `SendTransaction`, and a result is what its goroutine puts in the channel.
pub mod Results
use hyper_l.Base.{
  ℕ, zero, suc, ◌+◌, ◌-◌, ◌%◌, ◌^◌, Bool, ◌&&◌, if◌then◌else◌, ltb, ◌==◌, Option, none, some, List,
  [], ◌∷◌, ◌++◌, String, length,
}
use hyper_l.Base.Int.{ℤ}
use hyper_l.Metrics.{add64}
use hyper_l.Dashboard.Types.{State, SubmitJob, ReceiptResult}
use hyper_l.Dashboard.State.{configure_submission, log, note_tx_sent}
use hyper_l.Dashboard.Receipts.{note_receipt}

-- `mode`; `none` is the error for numbers of keys and addresses that do not fit.
unfoldable pub mode_of : ℕ → ℕ → Option String
mode_of keys addresses =
    if keys == 1 && ltb 1 addresses
    then some "same_sender_burst"
    else if keys == addresses && ltb 1 keys
    then some "multisender_burst"
    else if keys == 1 && addresses == 1
    then some "single"
    else none

-- The texts of the log lines.
pub record Texts : Type 1 where
  pub submitted : SubmitJob → String
  pub confirmed : ReceiptResult → String

module _ (format : ℤ → String) (rate : ℕ → ℕ → String) (texts : Texts) (clock : ℕ → ℤ) where
  open texts use {submitted, confirmed}

  -- The sending loop: a job with its error, `none` for a success; the first error ends the loop. The
  -- clock is read for the job at position `i`.
  unfoldable pub send_all : ℕ → List (SubmitJob × Option String) → State → Option String × State
  unfolding note_tx_sent log
  send_all i [] s = (none, s)
  send_all i ((job, some e) ∷ jobs) s = (some e, s)
  send_all i ((job, none) ∷ jobs) s =
      let sent = record job { sent_at = clock i } in
      send_all (i + 1) jobs
        (log format "info" (submitted sent) (clock i) (note_tx_sent format sent (clock i) s))

  -- The log lines of one result; a confirmed one may come with a warning.
  unfoldable pub log_result : ℤ → ReceiptResult → Option String → State → State
  unfolding log
  log_result now r warning s = elim r.failure [
    | some e ↦ log format "error" e now s
    | none ↦
        let s' = log format "info" (confirmed r) now s in
        elim warning [ none ↦ s' | some w ↦ log format "warn" w now s' ]
  ]

  -- What the results loop keeps: `confirmedVerified` and `firstErr`.
  pub record Progress : Type 0 where
    pub confirmed_verified : ℕ
    pub first_error : Option String
    pub state : State

  -- One round of the results loop.
  unfoldable pub take_result : ℕ → ℤ → ℕ → ReceiptResult × Option String → Progress → Progress
  unfolding log_result note_receipt
  take_result per_call first_send_at i (r, warning) p =
      let confirmed_verified = elim r.failure as (λ x. ℕ) [
        | none ↦ add64 p.confirmed_verified per_call
        | some e ↦ p.confirmed_verified
      ] in
      let first_error = elim p.first_error as (λ x. Option String) [
        | some e ↦ some e
        | none ↦ r.failure
      ] in
      record {
        confirmed_verified = confirmed_verified;
        first_error = first_error;
        state =
            note_receipt format rate confirmed_verified first_send_at p.state.started_at (clock i) r
              (log_result (clock i) r warning p.state);
      }

  -- The results loop, over the results in the order of the channel.
  unfoldable pub take_results :
      ℕ → ℤ → ℕ → List (ReceiptResult × Option String) → Progress → Progress
  unfolding take_result
  take_results per_call first_send_at i [] p = p
  take_results per_call first_send_at i (r ∷ results) p =
      take_results per_call first_send_at (i + 1) results (take_result per_call first_send_at i r p)
