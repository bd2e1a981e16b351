-- ===== src/Commands/Lanes/Sent.antt =====
-- The transactions by which `runInitializeLaneHeads` of cmd/kaia-proofctl/main.go initializes lanes.
use hyper_l.Base.{
  ℕ, suc, ◌+◌, ◌≡◌, refl, sym, ap, subst, ◌∙◌, true, List, [], ◌∷◌, ◌++◌, length, map,
}
use hyper_l.Base.Int.{ℤ, pos}
use hyper_l.Base.Bytes.{Bytes}
use hyper_l.Chain.{done, Receipt, got}
use hyper_l.Chain.NewSender.{Sender}
use hyper_l.Commands.{CommandError, pure, ◌>>=◌, asked, World}
use hyper_l.Commands.Senders.{build, send_one, waited, check_status}
use hyper_l.Commands.Sends.{
  sends, IsQuiet-bind, IsQuiet-asked, sends-bind_quiet, sends-bind_last, sends-bind, bind_done,
  asked_done, done_injective,
}
use hyper_l.Commands.Collecting.{
  waited_done, waited-IsQuiet, check_status_done, check_status-IsQuiet,
}
use hyper_l.Commands.Lanes.{
  Certifier, send_transaction, send_heads, send_bulk, LaneSummary, lane_summary,
}

module _ {E Key Address Node Signed Point : Type 0} (w : World E Key Address Node Signed)
    (certifier : Certifier E Node Address Point) (s : Sender Key Address Node) where
  -- Transaction `i`, a call of the contract that was sent with the nonce that was pending then, and confirmed with a receipt that tells of a success.
  pub record IsSentCall (i : ℕ) (data_bytes : Bytes) (tx : Signed) : Type 0 where
    pub nonce : ℕ
    pub gas : ℕ
    pub receipt : Receipt
    pub asked_nonce : w.pending_nonce i s.client s.from_address ≡ done nonce
    pub built : build w i s certifier.address data_bytes (pos 0) nonce ≡ done (tx, gas)
    pub confirmed : w.wait s.client tx s.confirmations ≡ got receipt
    pub succeeded : receipt.successful ≡ true

  -- One call for each lane, in order.
  pub data EachSent : ℕ → List (ℕ × Point) → List (ℕ × Signed) → Type 0 where
    none_left : (i : ℕ) → EachSent i [] []
    one_sent :
        (i lane : ℕ) (head : Point) (data_bytes : Bytes) (tx : Signed) {lanes : List (ℕ × Point)}
        {txs : List (ℕ × Signed)}
        → certifier.pack_lane_head lane head ≡ done data_bytes
        → IsSentCall i data_bytes tx
        → EachSent (i + 1) lanes txs
        → EachSent i ((lane, head) ∷ lanes) ((0, tx) ∷ txs)

  -- One call for all lanes, and none where there is no lane.
  pub data BulkSent : List (ℕ × Point) → List (ℕ × Signed) → Type 0 where
    none_needed : BulkSent [] []
    all_sent :
        (lane : ℕ × Point) (lanes : List (ℕ × Point)) (data_bytes : Bytes) (tx : Signed)
        → certifier.pack_lane_heads (map (λ x. x.0) (lane ∷ lanes)) (map (λ x. x.1) (lane ∷ lanes))
          ≡ done data_bytes
        → IsSentCall 0 data_bytes tx
        → BulkSent (lane ∷ lanes) ((0, tx) ∷ [])

  module _ (latency : ℕ → ℤ) (confirmations : ℕ) where
    send_transaction_done :
        (i : ℕ) (data_bytes : Bytes) {r : Receipt × (Signed × ℕ)}
        → (send_transaction w certifier latency confirmations i s data_bytes).1 ≡ done r
        → (tx : Signed) × (sends
              (send_transaction w certifier latency confirmations i s data_bytes).0
            ≡ (0, tx) ∷ [])
          × IsSentCall i data_bytes tx
    unfolding send_transaction
    send_transaction_done i data_bytes h =
        let ask =
          asked {Signed = Signed} CommandError.refused
            (w.pending_nonce i s.client s.from_address) in
        let (nonce, h0, h1) = bind_done ask _ h in
        let make =
          asked {Signed = Signed} CommandError.refused
            (build w i s certifier.address data_bytes (pos 0) nonce) in
        let (b, h2, h3) = bind_done make _ h1 in
        let (u, h4, h5) = bind_done (send_one w 0 s b.0) _ h3 in
        let (receipt, h6, h7) = bind_done (waited (w.wait s.client b.0 s.confirmations)) _ h5 in
        let (v, h8, h9) = bind_done (check_status receipt) _ h7 in
        (
          b.0,
          sends-bind_quiet ask _ nonce (IsQuiet-asked Signed CommandError.refused _) h0
              ∙ sends-bind_quiet make _ b (IsQuiet-asked Signed CommandError.refused _) h2
              ∙ sends-bind_last (send_one w 0 s b.0) _ u h4 (
                  IsQuiet-bind (waited (w.wait s.client b.0 s.confirmations)) _
                    (waited-IsQuiet Signed E (w.wait s.client b.0 s.confirmations))
                    (λ rc.
                      IsQuiet-bind (check_status rc) _ (check_status-IsQuiet Signed E rc)
                        (λ x. refl))),
          record {
            nonce = nonce;
            gas = b.1;
            receipt = receipt;
            asked_nonce = asked_done Signed CommandError.refused _ h0;
            built = asked_done Signed CommandError.refused _ h2;
            confirmed = waited_done Signed E _ h6;
            succeeded = check_status_done Signed E receipt h8;
          },
        )

    pub send_heads_done :
        (i : ℕ) (lanes : List (ℕ × Point)) {r : List (LaneSummary Signed)}
        → (send_heads w certifier latency confirmations s i lanes).1 ≡ done r
        → EachSent i lanes (sends (send_heads w certifier latency confirmations s i lanes).0)
          × (length r ≡ length (sends (send_heads w certifier latency confirmations s i lanes).0))
    unfolding send_heads
    send_heads_done i [] h = (none_left i, sym (ap length (done_injective h)))
    send_heads_done i ((lane, head) ∷ lanes) h =
        let pack =
          asked {Signed = Signed} CommandError.refused (certifier.pack_lane_head lane head) in
        let (data_bytes, h0, h1) = bind_done pack _ h in
        let send = send_transaction w certifier latency confirmations i s data_bytes in
        let (r, h2, h3) = bind_done send _ h1 in
        let others = send_heads w certifier latency confirmations s (i + 1) lanes in
        let (rest, h4, h5) = bind_done others _ h3 in
        let (tx, h6, h7) = send_transaction_done i data_bytes h2 in
        let (h8, h9) = send_heads_done (i + 1) lanes h4 in
        let sent_all : sends
              (send_heads w certifier latency confirmations s i ((lane, head) ∷ lanes)).0
            ≡ (0, tx) ∷ sends others.0 =
          sends-bind_quiet pack _ data_bytes (IsQuiet-asked Signed CommandError.refused _) h0
          ∙ sends-bind send _ r h2
          ∙ ap
              (λ xs.
                xs
                ++ sends
                    (others >>= λ rest. pure (
                      lane_summary w certifier latency confirmations "init-lane-head" i r
                      ∷ rest)).0)
              h6
          ∙ ap (λ xs. (0, tx) ∷ xs) (sends-bind_last others _ rest h4 refl) in
        (
          subst (λ xs. EachSent i ((lane, head) ∷ lanes) xs) (sym sent_all)
              (one_sent i lane head data_bytes tx (asked_done Signed CommandError.refused _ h0) h7
                h8),
          sym (ap length (done_injective h5)) ∙ ap suc h9 ∙ sym (ap length sent_all),
        )

    pub send_bulk_done :
        (lanes : List (ℕ × Point)) {r : List (LaneSummary Signed)}
        → (send_bulk w certifier latency confirmations s lanes).1 ≡ done r
        → BulkSent lanes (sends (send_bulk w certifier latency confirmations s lanes).0)
          × (length r ≡ length (sends (send_bulk w certifier latency confirmations s lanes).0))
    unfolding send_bulk
    send_bulk_done [] h = (none_needed, sym (ap length (done_injective h)))
    send_bulk_done (l ∷ lanes) h =
        let pack =
          asked {Signed = Signed} CommandError.refused
            (certifier.pack_lane_heads (map (λ x. x.0) (l ∷ lanes)) (map (λ x. x.1) (l ∷ lanes))) in
        let (data_bytes, h0, h1) = bind_done pack _ h in
        let send = send_transaction w certifier latency confirmations 0 s data_bytes in
        let (r, h2, h3) = bind_done send _ h1 in
        let (tx, h6, h7) = send_transaction_done 0 data_bytes h2 in
        let sent_all : sends (send_bulk w certifier latency confirmations s (l ∷ lanes)).0
            ≡ (0, tx) ∷ [] =
          sends-bind_quiet pack _ data_bytes (IsQuiet-asked Signed CommandError.refused _) h0
          ∙ sends-bind_last send _ r h2 refl
          ∙ h6 in
        (
          subst (λ xs. BulkSent (l ∷ lanes) xs) (sym sent_all)
              (all_sent l lanes data_bytes tx (asked_done Signed CommandError.refused _ h0) h7),
          sym (ap length (done_injective h3)) ∙ sym (ap length sent_all),
        )
