-- ===== src/Commands/Collecting.antt =====
-- The loops of `runSubmitMultisenderBurst` of cmd/kaia-proofctl/main.go that send and that collect the
-- receipts.
use hyper_l.Base.{
  String, Option, ℕ, ◌+◌, ◌*◌, ◌≡◌, refl, ap, ◌∙◌, arith, true, Bool-cases, inl, inr, List, [], ◌∷◌,
  some, All, length, length-append,
}
use hyper_l.Base.Int.{ℤ, pos}
use hyper_l.Chain.{done, Receipt, Waited, got, broken, stopped, unfinished}
use hyper_l.Commands.{CommandError, Run, after, asked, World}
use hyper_l.Commands.Senders.{waited, check_status, send_one}
use hyper_l.Commands.Jobs.{Job, send_jobs, collect, Collected, summary_of}
use hyper_l.Commands.Sends.{
  sends, IsQuiet, IsQuiet-bind, IsQuiet-asked, bind_done, not_done, done_injective,
}
use hyper_l.Commands.Order.{transactions}

module _ (Signed E : Type 0) where
  pub waited_done :
      (r : Waited E) {receipt : Receipt}
      → (waited {Signed = Signed} r).1 ≡ done receipt
      → r ≡ got receipt
  waited_done (got receipt) h = ap got (done_injective h)
  waited_done (broken e) h = absurd (not_done h)
  waited_done stopped h = absurd (not_done h)
  waited_done unfinished h = absurd (not_done h)

  pub waited-IsQuiet : (r : Waited E) → IsQuiet (waited {Signed = Signed} r)
  waited-IsQuiet (got receipt) = refl
  waited-IsQuiet (broken e) = refl
  waited-IsQuiet stopped = refl
  waited-IsQuiet unfinished = refl

  pub check_status_done :
      (r : Receipt) {u : Unit {0}}
      → (check_status {E = E} {Signed = Signed} r).1 ≡ done u
      → r.successful ≡ true
  check_status_done r h = elim (Bool-cases r.successful) [
    | inl e ↦ e
    | inr e ↦ absurd (not_done (rw e at h))
  ]

  pub check_status-IsQuiet : (r : Receipt) → IsQuiet (check_status {E = E} {Signed = Signed} r)
  check_status-IsQuiet r = elim (Bool-cases r.successful) [ inl e ↦ rw e refl | inr e ↦ rw e refl ]

module _ {E Key Address Node Signed : Type 0} (w : World E Key Address Node Signed)
    (action : String) (named : Address → Option Address)
    (check : Receipt → Run Signed (CommandError E) (Unit {0})) (confirmations verified : ℕ)
    (sent_at seen_at : ℕ → ℤ) (check_quiet : (r : Receipt) → IsQuiet (check r)) where
  pub collect-IsQuiet :
      (i : ℕ) (jobs : List (Job Key Address Node Signed)) (c : Collected Address Signed)
      → IsQuiet (collect w action named check confirmations verified sent_at seen_at i jobs c)
  unfolding collect
  collect-IsQuiet i [] c = refl
  collect-IsQuiet i (job ∷ jobs) c =
      IsQuiet-bind (waited (w.wait job.sender.client job.tx job.sender.confirmations)) _
        (waited-IsQuiet Signed E (w.wait job.sender.client job.tx job.sender.confirmations))
        (λ receipt. IsQuiet-bind (check receipt) _ (check_quiet receipt) (λ u.
          IsQuiet-bind
            (asked CommandError.refused (w.header_time i job.sender.client receipt.block_number)) _
            (IsQuiet-asked Signed CommandError.refused _)
            (λ seconds. collect-IsQuiet (i + 1) jobs _)))

module _ {E Key Address Node Signed : Type 0} (w : World E Key Address Node Signed) where
  pub send_jobs_done :
      (jobs : List (Job Key Address Node Signed)) {u : Unit {0}}
      → (send_jobs w jobs).1 ≡ done u
      → sends (send_jobs w jobs).0 ≡ transactions jobs
  unfolding send_jobs
  send_jobs_done [] h = refl
  send_jobs_done (job ∷ jobs) h =
      let (u, sent_ok, h1) =
        bind_done (send_one w job.client job.sender job.tx) (λ u. send_jobs w jobs) h in
      ap (λ r. (job.client, job.tx) ∷ sends (after r (λ x. send_jobs w jobs)).0) sent_ok
      ∙ ap (λ xs. (job.client, job.tx) ∷ xs) (send_jobs_done jobs h1)

  -- The transaction of a job is confirmed, and its receipt tells of a success.
  abbrev pub IsConfirmedJob : Job Key Address Node Signed → Type 0
  IsConfirmedJob job =
      (receipt : Receipt) × (w.wait job.sender.client job.tx job.sender.confirmations ≡ got receipt)
      × (receipt.successful ≡ true)

  module _ (confirmations verified : ℕ) (sent_at seen_at : ℕ → ℤ) where
    abbrev pub collect_all :
        ℕ
        → List (Job Key Address Node Signed)
        → Collected Address Signed
        → Run Signed (CommandError E) (Collected Address Signed)
    collect_all i jobs c =
        collect w "submit-multisender-burst-item" (λ a. some a) check_status confirmations verified
          sent_at seen_at i jobs c

    pub collect_done :
        (i : ℕ) (jobs : List (Job Key Address Node Signed)) (c : Collected Address Signed)
        {c' : Collected Address Signed}
        → (collect_all i jobs c).1 ≡ done c'
        → All IsConfirmedJob jobs × (length c'.results ≡ length c.results + length jobs)
    unfolding collect
    collect_done i [] c h = (
      tt,
      omega (arith, ap (λ (x : Collected Address Signed). length x.results) (done_injective h)),
    )
    collect_done i (job ∷ jobs) c h =
        let (receipt, g, h1) =
          bind_done (waited (w.wait job.sender.client job.tx job.sender.confirmations)) _ h in
        let (u, ok, h2) = bind_done (check_status receipt) _ h1 in
        let (seconds, at, h3) =
          bind_done
            (asked CommandError.refused (w.header_time i job.sender.client receipt.block_number)) _
            h2 in
        let made =
          summary_of w "submit-multisender-burst-item" (λ a. some a) check_status confirmations
            verified sent_at seen_at i job receipt (pos (seconds * 1000000000)) in
        let ih = collect_done (i + 1) jobs _ h3 in
        (
          ((receipt, waited_done Signed E _ g, check_status_done Signed E receipt ok), ih.0),
          omega (arith, ih.1, length-append c.results (made ∷ [])),
        )

    pub collect_all-IsQuiet :
        (i : ℕ) (jobs : List (Job Key Address Node Signed)) (c : Collected Address Signed)
        → IsQuiet (collect_all i jobs c)
    collect_all-IsQuiet =
        collect-IsQuiet w "submit-multisender-burst-item" (λ a. some a) check_status confirmations
          verified sent_at seen_at (check_status-IsQuiet Signed E)
