-- ===== src/Commands/Lanes/Outcome.antt =====
-- What a success of `runInitializeLaneHeads` of cmd/kaia-proofctl/main.go rests on.
use hyper_l.Base.{
  ℕ, ◌≡◌, refl, sym, ap, subst, ◌∙◌, Bool, true, false, if◌then◌else◌, Option, List, [], ◌∷◌,
  length,
}
use hyper_l.Base.Int.{ℤ}
use hyper_l.Base.Bytes.{Bytes}
use hyper_l.Chain.{Result, done, failed}
use hyper_l.Chain.Account.{AccountError}
use hyper_l.Chain.NewSender.{Sender}
use hyper_l.Commands.{closed, CommandError, Run, World}
use hyper_l.Commands.Senders.{open_sender}
use hyper_l.Commands.Sends.{
  sends, sends-deferred, sends-bind_quiet, sends-bind_last, bind_done, not_done, done_injective,
}
use hyper_l.Commands.Order.{open_sender-IsQuiet}
use hyper_l.Commands.Lanes.{
  Certifier, choose_lanes, send_heads, send_bulk, choose_and_send, LaneReport, LaneSummary,
  with_lanes, run_initialize_lane_heads,
}
use hyper_l.Commands.Lanes.Choice.{Split, choose_lanes-Split, choose_lanes-IsQuiet}
use hyper_l.Commands.Lanes.Sent.{EachSent, BulkSent, send_heads_done, send_bulk_done}

module _ {E Key Address Node Signed Point : Type 0} (w : World E Key Address Node Signed)
    (certifier : Certifier E Node Address Point) (latency : ℕ → ℤ) (confirmations : ℕ)
    (price : Result (AccountError E) (Option ℤ)) (key : Bytes) where
  -- What is sent for the lanes that are left, by one transaction or by one for each.
  abbrev pub IsSent : Bool → Sender Key Address Node → List (ℕ × Point) → List (ℕ × Signed) → Type 0
  IsSent true s lanes txs = BulkSent w certifier s lanes txs
  IsSent false s lanes txs = EachSent w certifier s 0 lanes txs

  -- The lanes were read, the ones to initialize chosen, and these and no others initialized.
  pub record AreInitialized (skip_existing bulk : Bool)
      (loaded : Result (CommandError E) (List (ℕ × Point))) (report : LaneReport Signed)
      (txs : List (ℕ × Signed)) : Type 0 where
    pub lanes : List (ℕ × Point)
    pub s : Sender Key Address Node
    pub chosen : List (ℕ × Point)
    pub loaded_lanes : loaded ≡ done lanes
    pub opened : (open_sender w confirmations price 0 key).1 ≡ done s
    pub chosen_lanes : Split w certifier skip_existing s.client 0 lanes report.skipped_lanes chosen
    pub sent_lanes : IsSent bulk s chosen txs
    pub counted : report.count ≡ length txs

  abbrev send_all :
      Bool
      → Sender Key Address Node
      → List (ℕ × Point)
      → Run Signed (CommandError E) (List (LaneSummary Signed))
  send_all bulk s lanes =
      if bulk
      then send_bulk w certifier latency confirmations s lanes
      else send_heads w certifier latency confirmations s 0 lanes

  send_all_done :
      (bulk : Bool) (s : Sender Key Address Node) (lanes : List (ℕ × Point))
      {r : List (LaneSummary Signed)}
      → (send_all bulk s lanes).1 ≡ done r
      → IsSent bulk s lanes (sends (send_all bulk s lanes).0)
        × (length r ≡ length (sends (send_all bulk s lanes).0))
  send_all_done true s lanes h = send_bulk_done w certifier s latency confirmations lanes h
  send_all_done false s lanes h = send_heads_done w certifier s latency confirmations 0 lanes h

  choose_and_send-sends :
      (skip_existing bulk : Bool) (lanes : List (ℕ × Point)) (s : Sender Key Address Node)
      {report : LaneReport Signed}
      → (choose_and_send w certifier latency confirmations skip_existing bulk lanes s).1
        ≡ done report
      → (open_sender w confirmations price 0 key).1 ≡ done s
      → AreInitialized skip_existing bulk
          (done lanes)
          report
          (sends (choose_and_send w certifier latency confirmations skip_existing bulk lanes s).0)
  unfolding choose_and_send
  choose_and_send-sends skip_existing bulk lanes s h opened =
      let choice = choose_lanes w certifier latency confirmations 0 skip_existing s lanes in
      let (chosen, h2, h3) = bind_done choice _ h in
      let (results, h4, h5) = bind_done (send_all bulk s chosen.1) _ h3 in
      let (h6, h7) = send_all_done bulk s chosen.1 h4 in
      let sent_all : sends
            (choose_and_send w certifier latency confirmations skip_existing bulk lanes s).0
          ≡ sends (send_all bulk s chosen.1).0 =
        sends-bind_quiet choice _ chosen
          (choose_lanes-IsQuiet w certifier latency confirmations s 0 skip_existing lanes) h2
        ∙ sends-bind_last (send_all bulk s chosen.1) _ results h4 refl in
      record {
        lanes = lanes;
        s = s;
        chosen = chosen.1;
        loaded_lanes = refl;
        opened = opened;
        chosen_lanes =
            subst
              (λ (r : LaneReport Signed).
                Split w certifier skip_existing s.client 0 lanes r.skipped_lanes chosen.1)
              (done_injective h5)
              (choose_lanes-Split w certifier latency confirmations s 0 skip_existing lanes h2);
        sent_lanes = subst (λ txs. IsSent bulk s chosen.1 txs) (sym sent_all) h6;
        counted =
            sym (ap (λ (r : LaneReport Signed). r.count) (done_injective h5))
            ∙ h7
            ∙ sym (ap length sent_all);
      }

  with_lanes_done :
      (skip_existing bulk : Bool) (lanes : List (ℕ × Point)) {report : LaneReport Signed}
      → (with_lanes w certifier latency confirmations price key skip_existing bulk lanes).1
        ≡ done report
      → AreInitialized skip_existing bulk (done lanes) report (
          sends (with_lanes w certifier latency confirmations price key skip_existing bulk lanes).0)
  with_lanes_done skip_existing bulk lanes {report} h =
      let opening = open_sender w confirmations price 0 key in
      let (s, h0, h1) = bind_done opening _ h in
      let rest = choose_and_send w certifier latency confirmations skip_existing bulk lanes s in
      subst (λ txs. AreInitialized skip_existing bulk (done lanes) report txs)
        (sym (
          sends-bind_quiet opening _ s (open_sender-IsQuiet w confirmations price 0 key) h0
          ∙ sends-deferred (closed 0 ∷ []) rest refl))
        (choose_and_send-sends skip_existing bulk lanes s h1 h0)

  -- When `init-lane-heads` succeeds, the lanes of the bundle were loaded and a sender opened; each lane
  -- was skipped if and only if existing heads are looked at and its head on the chain, when it was asked
  -- for, is set; the transactions that were sent initialize the other lanes and nothing else, each built
  -- with the nonce that was pending when its turn came and with its receipt seen and successful: in bulk
  -- one for all of them and none where there are none, else one for each, in order. The report counts
  -- these transactions and lists the skipped lanes.
  pub init_lane_heads_sound :
      (has_address skip_existing bulk : Bool) (loaded : Result (CommandError E) (List (ℕ × Point)))
      {report : LaneReport Signed}
      → (run_initialize_lane_heads w certifier latency confirmations price key has_address
          skip_existing bulk loaded).1
        ≡ done report
      → (has_address ≡ true)
        × AreInitialized skip_existing bulk loaded report (
            sends
              (run_initialize_lane_heads w certifier latency confirmations price key has_address
                skip_existing bulk loaded).0)
  unfolding run_initialize_lane_heads
  init_lane_heads_sound false skip_existing bulk loaded h = absurd (not_done h)
  init_lane_heads_sound true skip_existing bulk (failed e) h = absurd (not_done h)
  init_lane_heads_sound true skip_existing bulk (done lanes) h =
      (refl, with_lanes_done skip_existing bulk lanes h)
