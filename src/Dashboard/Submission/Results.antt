-- ===== src/Dashboard/Submission/Results.antt =====
-- What the two loops of the submission leave on the dashboard.
use mathlib.Core.Option.{none-ne-some}
use hyper_l.Base.{
  ℕ, ◌+◌, ◌%◌, ◌^◌, ◌≡◌, refl, sym, ap, ◌∙◌, arith, Option, none, some, List, [], ◌∷◌, String,
  length, length-append, All,
}
use hyper_l.Base.Int.{ℤ}
use hyper_l.Dashboard.Types.{State, SubmitJob, ReceiptResult}
use hyper_l.Dashboard.State.{log, mutate, note_tx_sent}
use hyper_l.Dashboard.Laws.{note_receipt_lem}
use hyper_l.Dashboard.Submission.{Texts, send_all, log_result, Progress, take_result, take_results}

-- The transfers of the results without an error, `per_call` for each.
abbrev pub confirmed_total : ℕ → List (ReceiptResult × Option String) → ℕ
confirmed_total per_call [] = 0
confirmed_total per_call (x ∷ results) =
    elim x.0.failure as (λ x. ℕ) [ none ↦ per_call | some e ↦ 0 ] + confirmed_total per_call results

module _ (format : ℤ → String) (rate : ℕ → ℕ → String) (texts : Texts) (clock : ℕ → ℤ) where
  log-l1 :
      (level message : String) (now : ℤ) (s : State)
      → (log format level message now s).snapshot.l1 ≡ s.snapshot.l1
  unfolding log mutate
  log-l1 level message now s = refl

  log_result-l1 :
      (now : ℤ) (r : ReceiptResult) (w : Option String) (s : State)
      → (log_result format rate texts clock now r w s).snapshot.l1 ≡ s.snapshot.l1
  unfolding log_result log mutate
  log_result-l1 now r w s = ground arith

  note_tx_sent_lem :
      (job : SubmitJob) (now : ℤ) (s : State)
      → let l = s.snapshot.l1 in
        let l' = (note_tx_sent format job now s).snapshot.l1 in
        (l'.sent_calls ≡ l.sent_calls + 1)
        × (length l'.transactions ≡ length l.transactions + 1)
        × (l'.confirmed_calls ≡ l.confirmed_calls)
  unfolding note_tx_sent mutate
  note_tx_sent_lem job now s = (refl, length-append s.snapshot.l1.transactions _, refl)

  -- When every job is sent without an error, the loop ends without one, each job is counted as
  -- sent and listed, and the count of confirmed calls stays.
  pub send_all_lem :
      (i : ℕ) (jobs : List (SubmitJob × Option String)) (s : State)
      → All (λ j. j.1 ≡ none) jobs
      → let (e, s') = send_all format rate texts clock i jobs s in
        (e ≡ none)
        × (s'.snapshot.l1.sent_calls ≡ s.snapshot.l1.sent_calls + length jobs)
        × (length s'.snapshot.l1.transactions ≡ length s.snapshot.l1.transactions + length jobs)
        × (s'.snapshot.l1.confirmed_calls ≡ s.snapshot.l1.confirmed_calls)
  unfolding send_all note_tx_sent log mutate
  send_all_lem i [] s h = (refl, omega arith, omega arith, refl)
  send_all_lem i ((job, some e) ∷ jobs) s (h, hs) = absurd (none-ne-some e (sym h))
  send_all_lem i ((job, none) ∷ jobs) s (h, hs) =
      let sent : SubmitJob = record job { sent_at = clock i } in
      let s' =
        log format "info" (texts.submitted sent) (clock i) (note_tx_sent format sent (clock i) s) in
      let (e, calls, listed, confirmed) = send_all_lem (i + 1) jobs s' hs in
      let (call, entry, _) = note_tx_sent_lem sent (clock i) s in
      (e, omega (arith, calls, call), omega (arith, listed, entry), confirmed)

  take_result_lem :
      (per_call : ℕ) (first_send_at : ℤ) (i : ℕ) (x : ReceiptResult × Option String)
      (p : Progress format rate texts clock)
      → let p' = take_result format rate texts clock per_call first_send_at i x p in
        let l = p.state.snapshot.l1 in
        let l' = p'.state.snapshot.l1 in
        (l'.confirmed_calls + l'.failed_calls ≡ l.confirmed_calls + l.failed_calls + 1)
        × (l'.sent_calls ≡ l.sent_calls)
        × (p'.confirmed_verified % 2 ^ 64
            ≡ (p.confirmed_verified + confirmed_total per_call (x ∷ [])) % 2 ^ 64)
  unfolding take_result
  take_result_lem per_call first i (r, w) p =
      let s = log_result format rate texts clock (clock i) r w p.state in
      let same = log_result-l1 (clock i) r w p.state in
      let total =
        (take_result format rate texts clock per_call first i (r, w) p).confirmed_verified in
      let (_, sent, calls) =
        note_receipt_lem format rate total first p.state.started_at (clock i) r s in
      (
        calls ∙ ap (λ l. l.confirmed_calls + l.failed_calls + 1) same,
        sent ∙ ap (λ l. l.sent_calls) same,
        ground arith,
      )

  -- After a run of results, each is counted as confirmed or failed, the count of sent calls
  -- stays, and the total of confirmed transfers has grown by those of each confirmed call, as a
  -- uint64.
  pub take_results_lem :
      (per_call : ℕ) (first_send_at : ℤ) (i : ℕ) (results : List (ReceiptResult × Option String))
      (p : Progress format rate texts clock)
      → let p' = take_results format rate texts clock per_call first_send_at i results p in
        let l = p.state.snapshot.l1 in
        let l' = p'.state.snapshot.l1 in
        (l'.confirmed_calls + l'.failed_calls ≡ l.confirmed_calls + l.failed_calls + length results)
        × (l'.sent_calls ≡ l.sent_calls)
        × (p'.confirmed_verified % 2 ^ 64
            ≡ (p.confirmed_verified + confirmed_total per_call results) % 2 ^ 64)
  unfolding take_results take_result
  take_results_lem per_call first i [] p = (omega arith, refl, omega arith)
  take_results_lem per_call first i ((r, w) ∷ results) p =
      let p' = take_result format rate texts clock per_call first i (r, w) p in
      let ih = take_results_lem per_call first (i + 1) results p' in
      let one = take_result_lem per_call first i (r, w) p in
      (omega (arith, ih, one), ih.1 ∙ one.1, omega (arith, ih, one))
