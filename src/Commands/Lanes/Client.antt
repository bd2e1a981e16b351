-- ===== src/Commands/Lanes/Client.antt =====
-- The client of `runInitializeLaneHeads` of cmd/kaia-proofctl/main.go is closed on every path.
use hyper_l.Base.{ℕ, ◌+◌, ◌≡◌, refl, Bool, true, false, Option, some, List, [], ◌∷◌, map}
use hyper_l.Base.Int.{ℤ, pos}
use hyper_l.Base.Bytes.{Bytes}
use hyper_l.Chain.{Result, done, failed}
use hyper_l.Chain.Account.{AccountError}
use hyper_l.Chain.NewSender.{Sender}
use hyper_l.Commands.{closed, CommandError, asked, World}
use hyper_l.Commands.Senders.{open_sender, build, send_one, waited, check_status}
use hyper_l.Commands.Monitor.{monitor, monitor-sent, Leads-bind, Leads-deferred}
use hyper_l.Commands.Clients.{either, open_sender-Leads}
use hyper_l.Commands.Release.{Keeps, Keeps-bind, asked-Keeps, waited-Keeps, check_status-Keeps}
use hyper_l.Commands.Lanes.{
  Certifier, lane_head_of, send_transaction, choose_lanes, send_heads, send_bulk, choose_and_send,
  run_initialize_lane_heads,
}

module _ {E Key Address Node Signed Point : Type 0} (w : World E Key Address Node Signed)
    (certifier : Certifier E Node Address Point) (latency : ℕ → ℤ) (confirmations : ℕ) where
  module _ (s : Sender Key Address Node) where
    send_transaction-Keeps :
        (i : ℕ) (data_bytes : Bytes)
        → Keeps (0 ∷ []) (send_transaction w certifier latency confirmations i s data_bytes)
    unfolding send_transaction
    send_transaction-Keeps i data_bytes =
        let js : List ℕ = 0 ∷ [] in
        Keeps-bind js (asked CommandError.refused (w.pending_nonce i s.client s.from_address)) _
          (asked-Keeps Signed js CommandError.refused _)
          (λ nonce.
            Keeps-bind js
              (asked CommandError.refused (build w i s certifier.address data_bytes (pos 0) nonce))
              _ (asked-Keeps Signed js CommandError.refused _)
              (λ built.
                Keeps-bind js (send_one w 0 s built.0) _ (monitor-sent Signed 0 built.0 js refl)
                  (λ u.
                    Keeps-bind js (waited (w.wait s.client built.0 s.confirmations)) _
                      (waited-Keeps Signed js (w.wait s.client built.0 s.confirmations))
                      (λ receipt.
                        Keeps-bind js (check_status receipt) _
                          (check_status-Keeps Signed js E receipt) (λ v. refl)))))

    choose_lanes-Keeps :
        (i : ℕ) (skip_existing : Bool) (lanes : List (ℕ × Point))
        → Keeps (0 ∷ []) (choose_lanes w certifier latency confirmations i skip_existing s lanes)
    unfolding choose_lanes
    choose_lanes-Keeps i skip_existing [] = refl
    choose_lanes-Keeps i true ((lane, head) ∷ lanes) =
        Keeps-bind (0 ∷ []) ([], lane_head_of (certifier.ask_lane_head i s.client lane)) _ refl
          (λ current.
            Keeps-bind (0 ∷ [])
              (choose_lanes w certifier latency confirmations (i + 1) true s lanes) _
              (choose_lanes-Keeps (i + 1) true lanes) (λ r. refl))
    choose_lanes-Keeps i false ((lane, head) ∷ lanes) =
        Keeps-bind (0 ∷ []) (choose_lanes w certifier latency confirmations (i + 1) false s lanes) _
          (choose_lanes-Keeps (i + 1) false lanes) (λ r. refl)

    send_heads-Keeps :
        (i : ℕ) (lanes : List (ℕ × Point))
        → Keeps (0 ∷ []) (send_heads w certifier latency confirmations s i lanes)
    unfolding send_heads
    send_heads-Keeps i [] = refl
    send_heads-Keeps i ((lane, head) ∷ lanes) =
        Keeps-bind (0 ∷ []) (asked CommandError.refused (certifier.pack_lane_head lane head)) _
          (asked-Keeps Signed (0 ∷ []) CommandError.refused _)
          (λ data_bytes.
            Keeps-bind (0 ∷ []) (send_transaction w certifier latency confirmations i s data_bytes)
              _ (send_transaction-Keeps i data_bytes)
              (λ r.
                Keeps-bind (0 ∷ []) (send_heads w certifier latency confirmations s (i + 1) lanes) _
                  (send_heads-Keeps (i + 1) lanes) (λ rest. refl)))

    send_bulk-Keeps :
        (lanes : List (ℕ × Point))
        → Keeps (0 ∷ []) (send_bulk w certifier latency confirmations s lanes)
    unfolding send_bulk
    send_bulk-Keeps [] = refl
    send_bulk-Keeps (l ∷ lanes) =
        Keeps-bind (0 ∷ [])
          (asked CommandError.refused
            (certifier.pack_lane_heads (map (λ x. x.0) (l ∷ lanes)) (map (λ x. x.1) (l ∷ lanes))))
          _ (asked-Keeps Signed (0 ∷ []) CommandError.refused _)
          (λ data_bytes.
            Keeps-bind (0 ∷ []) (send_transaction w certifier latency confirmations 0 s data_bytes)
              _ (send_transaction-Keeps 0 data_bytes) (λ r. refl))

    choose_and_send-Keeps :
        (skip_existing bulk : Bool) (lanes : List (ℕ × Point))
        → Keeps
            (0 ∷ [])
            (choose_and_send w certifier latency confirmations skip_existing bulk lanes s)
    unfolding choose_and_send
    choose_and_send-Keeps skip_existing true lanes =
        Keeps-bind (0 ∷ []) (choose_lanes w certifier latency confirmations 0 skip_existing s lanes)
          _ (choose_lanes-Keeps 0 skip_existing lanes)
          (λ chosen.
            Keeps-bind (0 ∷ []) (send_bulk w certifier latency confirmations s chosen.1) _
              (send_bulk-Keeps chosen.1) (λ r. refl))
    choose_and_send-Keeps skip_existing false lanes =
        Keeps-bind (0 ∷ []) (choose_lanes w certifier latency confirmations 0 skip_existing s lanes)
          _ (choose_lanes-Keeps 0 skip_existing lanes)
          (λ chosen.
            Keeps-bind (0 ∷ []) (send_heads w certifier latency confirmations s 0 chosen.1) _
              (send_heads-Keeps 0 chosen.1) (λ r. refl))

  -- On every path of `init-lane-heads`, the client is used and closed only while it is open, and is not
  -- open in the end.
  pub init_lane_heads_closes :
      (price : Result (AccountError E) (Option ℤ)) (key : Bytes)
      (has_address skip_existing bulk : Bool) (loaded : Result (CommandError E) (List (ℕ × Point)))
      → monitor
          (run_initialize_lane_heads w certifier latency confirmations price key has_address
            skip_existing bulk loaded).0
          []
        ≡ some []
  unfolding run_initialize_lane_heads
  init_lane_heads_closes price key false skip_existing bulk loaded = refl
  init_lane_heads_closes price key true skip_existing bulk (failed e) = refl
  init_lane_heads_closes price key true skip_existing bulk (done lanes) =
      Leads-bind (open_sender w confirmations price 0 key) _ [] (either (0 ∷ []) []) (λ r. [])
        (open_sender-Leads w confirmations price 0 [] tt key)
        (λ s.
          Leads-deferred (closed 0 ∷ [])
            (choose_and_send w certifier latency confirmations skip_existing bulk lanes s) (0 ∷ [])
            (0 ∷ []) [] (choose_and_send-Keeps s skip_existing bulk lanes) refl)
        (λ e. refl)
