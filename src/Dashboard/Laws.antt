-- ===== src/Dashboard/Laws.antt =====
-- The dashboard's state along any run of its operations (cmd/kaia-proofctl/dashboard.go).
use hyper_l.Base.{
  ℕ, ◌+◌, ◌-◌, ◌≤◌, ◌≡◌, refl, ap, ◌∙◌, arith, ◌&&◌, List, [], ◌∷◌, ◌++◌, String, length,
  length-drop,
}
use hyper_l.Base.Int.{ℤ}
use hyper_l.Dashboard.Types.{
  State, Snapshot, Log, L1State, Event, SubmitJob, ReceiptResult, last_of,
}
use hyper_l.Dashboard.State.{
  note_event, switch_event, new_state, mutate, log, set_phase, mark_failed, show_loaded,
  show_merged, set_done, apply_exporter_event, set_bundle_path, configure_submission, note_tx_sent,
}
use hyper_l.Dashboard.Receipts.{
  note_failed, note_inclusion, note_confirmed, note_result, note_receipt,
}

length-last_of : {A : Type 0} (n : ℕ) (xs : List A) → length (last_of n xs) ≤ n
length-last_of n xs = ground (arith, length-drop (length xs - n) xs)

module _ (format : ℤ → String) (rate : ℕ → ℕ → String) where
  -- One critical section of the mutex, at any time and with any arguments: the calls of `mutate` by the
  -- methods of the state and by the workflow. `setError` is `failed` and then `logged`, with the steps of
  -- other goroutines between them.
  pub data Step : State → State → Type 0 where
    logged :
        {s : State} (level message : String) (now : ℤ) → Step s (log format level message now s)
    phased : {s : State} (phase : String) (now : ℤ) → Step s (set_phase format phase now s)
    failed : {s : State} (e : String) (now : ℤ) → Step s (mark_failed format e now s)
    loaded :
        {s : State} (path : String) (count : ℤ) (verified : ℕ) (now : ℤ)
        → Step s (show_loaded format path count verified now s)
    merged :
        {s : State} (lane_count replay_count : ℤ) (verified : ℕ) (now : ℤ)
        → Step s (show_merged format lane_count replay_count verified now s)
    finished : {s : State} (now : ℤ) → Step s (set_done format now s)
    exported : {s : State} (e : Event) (now : ℤ) → Step s (apply_exporter_event format e now s)
    bundled : {s : State} (path : String) (now : ℤ) → Step s (set_bundle_path format path now s)
    configured :
        {s : State} (mode : String) (total_calls : ℤ) (per_call : ℕ) (now : ℤ)
        → Step s (configure_submission format mode total_calls per_call now s)
    sent : {s : State} (job : SubmitJob) (now : ℤ) → Step s (note_tx_sent format job now s)
    received :
        {s : State} (confirmed : ℕ) (first_send_at started_at now : ℤ) (r : ReceiptResult)
        → Step s (note_receipt format rate confirmed first_send_at started_at now r s)

  -- The states that a run of calls leads to.
  pub data Reach (s : State) : State → Type 0 where
    start : Reach s s
    next : {t u : State} → Reach s t → Step t u → Reach s u

  -- The texts of the two times are those of the times, and at most 200 logs are kept.
  abbrev pub IsSound : State → Type 0
  IsSound s =
      (s.snapshot.started_at ≡ format s.started_at)
      × (s.snapshot.updated_at ≡ format s.updated_at)
      × (length s.snapshot.logs ≤ 200)

  log-IsSound :
      (level message : String) (now : ℤ) (s : State)
      → IsSound s
      → IsSound (log format level message now s)
  unfolding log mutate
  log-IsSound level message now s (a, b, c) =
      (a, refl, length-last_of 200 (s.snapshot.logs ++ entry ∷ []))
    where
      entry : Log
      entry = record { at = format now; level = level; message = message }

  switch_keeps :
      (e : Event) (s : Snapshot)
      → ((switch_event e s).started_at ≡ s.started_at)
        × ((switch_event e s).logs ≡ s.logs)
        × ((switch_event e s).done ≡ s.done)
        × ((switch_event e s).l1 ≡ s.l1)
  unfolding switch_event
  switch_keeps e s = ground arith

  step-IsSound : {s t : State} → Step s t → IsSound s → IsSound t
  unfolding set_phase mark_failed show_loaded show_merged set_done apply_exporter_event
      set_bundle_path configure_submission note_tx_sent note_receipt mutate
  step-IsSound (logged {s} level message now) h = log-IsSound level message now s h
  step-IsSound (phased phase now) (a, b, c) = (a, refl, c)
  step-IsSound (failed e now) (a, b, c) = (a, refl, c)
  step-IsSound (loaded path count verified now) (a, b, c) = (a, refl, c)
  step-IsSound (merged lane_count replay_count verified now) (a, b, c) = (a, refl, c)
  step-IsSound (finished now) (a, b, c) = (a, refl, c)
  step-IsSound (exported {s} e now) (a, b, c) =
      let (k, l, _, _) =
        switch_keeps e (record s.snapshot { proof = note_event e s.snapshot.proof }) in
      (k ∙ a, refl, omega (arith, ap length l))
  step-IsSound (bundled path now) (a, b, c) = (a, refl, c)
  step-IsSound (configured mode total_calls per_call now) (a, b, c) = (a, refl, c)
  step-IsSound (sent job now) (a, b, c) = (a, refl, c)
  step-IsSound (received confirmed first_send_at started_at now r) (a, b, c) = (a, refl, c)

  -- What never goes back: the dashboard stays done, and the three counts of calls do not fall.
  abbrev pub IsLater : State → State → Type 0
  IsLater s t =
      ((s.snapshot.done && t.snapshot.done) ≡ s.snapshot.done)
      × (s.snapshot.l1.sent_calls ≤ t.snapshot.l1.sent_calls)
      × (s.snapshot.l1.confirmed_calls + s.snapshot.l1.failed_calls
          ≤ t.snapshot.l1.confirmed_calls + t.snapshot.l1.failed_calls)

  counts-note_result :
      (confirmed : ℕ) (first started now : ℤ) (r : ReceiptResult) (l : L1State)
      → let l' = (note_result format rate confirmed first started now r l).0 in
        (l'.sent_calls ≡ l.sent_calls)
        × (l'.confirmed_calls + l'.failed_calls ≡ l.confirmed_calls + l.failed_calls + 1)
  unfolding note_result note_failed note_confirmed note_inclusion
  counts-note_result confirmed first started now r l = ground arith

  -- The calls of `noteTxSent` and of `noteReceipt` in a run.
  abbrev pub sent_by : {s t : State} → Step s t → ℕ
  sent_by (sent job now) = 1
  sent_by other = 0

  abbrev pub received_by : {s t : State} → Step s t → ℕ
  received_by (received confirmed first_send_at started_at now r) = 1
  received_by other = 0

  abbrev pub sent_in : {s t : State} → Reach s t → ℕ
  sent_in start = 0
  sent_in (next r e) = sent_in r + sent_by e

  abbrev pub received_in : {s t : State} → Reach s t → ℕ
  received_in start = 0
  received_in (next r e) = received_in r + received_by e

  step-counts :
      {s t : State} (e : Step s t)
      → (t.snapshot.l1.sent_calls ≡ s.snapshot.l1.sent_calls + sent_by e)
        × (t.snapshot.l1.confirmed_calls + t.snapshot.l1.failed_calls
            ≡ s.snapshot.l1.confirmed_calls + s.snapshot.l1.failed_calls + received_by e)
  unfolding log set_phase mark_failed show_loaded show_merged set_done apply_exporter_event
      set_bundle_path configure_submission note_tx_sent note_receipt mutate
  step-counts (logged level message now) = (omega arith, omega arith)
  step-counts (phased phase now) = (omega arith, omega arith)
  step-counts (failed e now) = (omega arith, omega arith)
  step-counts (loaded path count verified now) = (omega arith, omega arith)
  step-counts (merged lane_count replay_count verified now) = (omega arith, omega arith)
  step-counts (finished now) = (omega arith, omega arith)
  step-counts (exported {s} e now) =
      let (_, _, _, l) =
        switch_keeps e (record s.snapshot { proof = note_event e s.snapshot.proof }) in
      (
        omega (arith, ap (λ x. x.sent_calls) l),
        omega (arith, ap (λ x. x.confirmed_calls) l, ap (λ x. x.failed_calls) l),
      )
  step-counts (bundled path now) = (omega arith, omega arith)
  step-counts (configured mode total_calls per_call now) = (omega arith, omega arith)
  step-counts (sent job now) = (omega arith, omega arith)
  step-counts (received {s} confirmed first started now r) =
      let c = counts-note_result confirmed first started now r s.snapshot.l1 in
      (omega (arith, c), omega (arith, c))

  -- After any sequence of calls since the dashboard started, by its methods, by the workflow and by both
  -- halves of `setError`: the texts of its times are right, its log has at most 200 entries, it counts as
  -- sent exactly the calls of `noteTxSent`, and as confirmed or failed together exactly those of
  -- `noteReceipt`.
  pub reach-IsSound :
      (title : String) (now : ℤ) {s : State} (r : Reach (new_state format title now) s)
      → IsSound s
        × (s.snapshot.l1.sent_calls ≡ sent_in r)
        × (s.snapshot.l1.confirmed_calls + s.snapshot.l1.failed_calls ≡ received_in r)
  reach-IsSound title now start = ((refl, refl, omega arith), refl, refl)
  reach-IsSound title now (next r e) =
      let (h, a, b) = reach-IsSound title now r in
      let (c, d) = step-counts e in (step-IsSound e h, omega (arith, a, c), omega (arith, b, d))

  step-IsLater : {s t : State} → Step s t → IsLater s t
  unfolding log set_phase mark_failed show_loaded show_merged set_done apply_exporter_event
      set_bundle_path configure_submission note_tx_sent note_receipt note_failed mutate
  step-IsLater (logged level message now) = (ground arith, omega arith, omega arith)
  step-IsLater (phased phase now) = (ground arith, omega arith, omega arith)
  step-IsLater (failed e now) = (ground arith, omega arith, omega arith)
  step-IsLater (loaded path count verified now) = (ground arith, omega arith, omega arith)
  step-IsLater (merged lane_count replay_count verified now) =
      (ground arith, omega arith, omega arith)
  step-IsLater (finished now) = (ground arith, omega arith, omega arith)
  step-IsLater (exported {s} e now) =
      let (_, _, d, l) =
        switch_keeps e (record s.snapshot { proof = note_event e s.snapshot.proof }) in
      (
        ground (arith, d),
        omega (arith, ap (λ x. x.sent_calls) l),
        omega (arith, ap (λ x. x.confirmed_calls) l, ap (λ x. x.failed_calls) l),
      )
  step-IsLater (bundled path now) = (ground arith, omega arith, omega arith)
  step-IsLater (configured mode total_calls per_call now) = (ground arith, omega arith, omega arith)
  step-IsLater (sent job now) = (ground arith, omega arith, omega arith)
  step-IsLater (received {s} confirmed first started now r) =
      let c = counts-note_result confirmed first started now r s.snapshot.l1 in
      (ground arith, omega (arith, c), omega (arith, c))

  -- Along any run, a dashboard that is done stays done, and neither the count of the calls that were
  -- sent nor that of the calls that were answered falls.
  pub reach-IsLater : {s t : State} → Reach s t → IsLater s t
  reach-IsLater start = (ground arith, omega arith, omega arith)
  reach-IsLater (next r e) =
      let a = reach-IsLater r in
      let b = step-IsLater e in (ground (arith, a.0, b.0), omega (arith, a, b), omega (arith, a, b))

  -- A receipt leaves at most 100 summaries, keeps the count of sent calls and adds one to the
  -- calls that are answered, whether it confirms its call or fails.
  pub note_receipt_lem :
      (confirmed : ℕ) (first started now : ℤ) (r : ReceiptResult) (s : State)
      → let l = s.snapshot.l1 in
        let l' = (note_receipt format rate confirmed first started now r s).snapshot.l1 in
        (length l'.transactions ≤ 100)
        × (l'.sent_calls ≡ l.sent_calls)
        × (l'.confirmed_calls + l'.failed_calls ≡ l.confirmed_calls + l.failed_calls + 1)
  unfolding note_receipt mutate
  note_receipt_lem confirmed first started now r s =
      let made = note_result format rate confirmed first started now r s.snapshot.l1 in
      (
        length-last_of 100 (made.0.transactions ++ made.1 ∷ []),
        (counts-note_result confirmed first started now r s.snapshot.l1).0,
        (counts-note_result confirmed first started now r s.snapshot.l1).1,
      )
