-- ===== src/Commands/Lanes.antt =====
-- `sendTransaction`, `readLaneHead` and `runInitializeLaneHeads` of cmd/kaia-proofctl/main.go, after the
-- flags are read. What `Pack` gives and what the contract answers are parameters.

pub mod Choice
pub mod Client
pub mod Outcome
pub mod Sent
use hyper_l.Base.{
  ℕ, zero, suc, ◌+◌, ◌*◌, Bool, true, false, ◌&&◌, if◌then◌else◌, ltb, ◌==◌, Option, none, some,
  List, [], ◌∷◌, ◌++◌, String, length, take, drop, map,
}
use hyper_l.Base.Int.{ℤ, pos}
use hyper_l.Base.Bytes.{Bytes}
use hyper_l.Chain.{Result, done, failed, Receipt}
use hyper_l.Chain.Account.{AccountError}
use hyper_l.Chain.NewSender.{Sender}
use hyper_l.Commands.{
  closed, CommandError, missing_addresses, short_answer, Run, pure, raise, ◌>>=◌, ◌>>◌, deferred,
  asked, World,
}
use hyper_l.Commands.Senders.{open_sender, build, send_one, waited, check_status}

-- `SetBytes`: the first byte is the highest.
abbrev pub be_value_from : ℕ → Bytes → ℕ
be_value_from acc [] = acc
be_value_from acc (b ∷ bs) = be_value_from (acc * 256 + b) bs

-- `readLaneHead`, of what `CallContract` answers
unfoldable pub lane_head_of : {E : Type 0} → Result E Bytes → Result (CommandError E) (ℕ × ℕ)
lane_head_of (failed e) = failed (CommandError.refused e)
lane_head_of (done output) =
    if ltb (length output) 64
    then failed (short_answer (length output))
    else done (be_value_from 0 (take 32 output), be_value_from 0 (take 32 (drop 32 output)))

-- The test of a head: nothing was set yet.
abbrev pub is_unset : ℕ × ℕ → Bool
is_unset (x, y) = x == 0 && y == 0

-- `txSummary`, of the fields that are filled here.
pub record LaneSummary (Signed : Type 0) : Type 0 where
  pub action : String
  pub transaction : Signed
  pub block_number : ℕ
  pub gas_limit : ℕ
  pub gas_used : ℕ
  pub receipt_latency_ms : ℤ
  pub confirmations : ℕ

pub record LaneReport (Signed : Type 0) : Type 0 where
  pub count : ℕ
  pub skipped_lanes : List ℕ
  pub transactions : List (LaneSummary Signed)

-- The contract and the packing of its arguments; a point is what `toG1Point` gives. The contract
-- changes too: the number in front is that of the question.
pub record Certifier (E Node Address Point : Type 0) : Type 0 where
  pub address : Address
  pub ask_lane_head : ℕ → Node → ℕ → Result E Bytes
  pub pack_lane_heads : List ℕ → List Point → Result E Bytes
  pub pack_lane_head : ℕ → Point → Result E Bytes

module _ {E Key Address Node Signed Point : Type 0} (w : World E Key Address Node Signed)
    (certifier : Certifier E Node Address Point) (latency : ℕ → ℤ) (confirmations : ℕ) where
  -- `sendTransaction` to the contract, of transaction `i`: the node is asked for its pending nonce anew.
  unfoldable pub send_transaction :
      ℕ → Sender Key Address Node → Bytes → Run Signed (CommandError E) (Receipt × (Signed × ℕ))
  unfolding build
  send_transaction i s data_bytes = do
    nonce ← asked CommandError.refused (w.pending_nonce i s.client s.from_address)
    built ← asked CommandError.refused (build w i s certifier.address data_bytes (pos 0) nonce)
    send_one w 0 s built.0
    receipt ← waited (w.wait s.client built.0 s.confirmations)
    check_status receipt
    pure (receipt, built)

  -- The loop over the lanes of the bundle: the lanes that are skipped, and those that are left.
  unfoldable pub choose_lanes :
      ℕ
      → Bool
      → Sender Key Address Node
      → List (ℕ × Point)
      → Run Signed (CommandError E) (List ℕ × List (ℕ × Point))
  unfolding lane_head_of
  choose_lanes i skip_existing s [] = pure ([], [])
  choose_lanes i skip_existing s ((lane, head) ∷ lanes) =
      let rest = choose_lanes (i + 1) skip_existing s lanes in
      if skip_existing
      then (do
        current ← ([], lane_head_of (certifier.ask_lane_head i s.client lane))
        r ← rest
        pure (if is_unset current then (r.0, (lane, head) ∷ r.1) else (lane ∷ r.0, r.1)))
      else (do r ← rest; pure (r.0, (lane, head) ∷ r.1))

  abbrev pub lane_summary : String → ℕ → Receipt × (Signed × ℕ) → LaneSummary Signed
  lane_summary action i (receipt, (tx, gas)) = record {
    action = action;
    transaction = tx;
    block_number = receipt.block_number;
    gas_limit = gas;
    gas_used = receipt.gas_used;
    receipt_latency_ms = latency i;
    confirmations = confirmations;
  }

  -- One transaction for each lane.
  unfoldable pub send_heads :
      Sender Key Address Node
      → ℕ
      → List (ℕ × Point)
      → Run Signed (CommandError E) (List (LaneSummary Signed))
  unfolding send_transaction
  send_heads s i [] = pure []
  send_heads s i ((lane, head) ∷ lanes) = do
    data_bytes ← asked CommandError.refused (certifier.pack_lane_head lane head)
    r ← send_transaction i s data_bytes
    rest ← send_heads s (i + 1) lanes
    pure (lane_summary "init-lane-head" i r ∷ rest)

  -- One transaction for all lanes, if there are any.
  unfoldable pub send_bulk :
      Sender Key Address Node
      → List (ℕ × Point)
      → Run Signed (CommandError E) (List (LaneSummary Signed))
  unfolding send_transaction
  send_bulk s [] = pure []
  send_bulk s (l ∷ lanes) = do
    data_bytes ←
        asked CommandError.refused
          (certifier.pack_lane_heads (map (λ x. x.0) (l ∷ lanes)) (map (λ x. x.1) (l ∷ lanes)))
    r ← send_transaction 0 s data_bytes
    pure (lane_summary "init-lane-heads-bulk" 0 r ∷ [])

  -- The choice of the lanes, their transactions, and the report.
  unfoldable pub choose_and_send :
      Bool
      → Bool
      → List (ℕ × Point)
      → Sender Key Address Node
      → Run Signed (CommandError E) (LaneReport Signed)
  unfolding choose_lanes send_bulk send_heads
  choose_and_send skip_existing bulk lanes s = do
    chosen ← choose_lanes 0 skip_existing s lanes
    results ← (if bulk then send_bulk s chosen.1 else send_heads s 0 chosen.1)
    pure record { count = length results; skipped_lanes = chosen.0; transactions = results }

  module _ (price : Result (AccountError E) (Option ℤ)) (key : Bytes) where
    abbrev pub with_lanes :
        Bool → Bool → List (ℕ × Point) → Run Signed (CommandError E) (LaneReport Signed)
    with_lanes skip_existing bulk lanes = do
      s ← open_sender w confirmations price 0 key
      deferred (closed 0 ∷ []) (choose_and_send skip_existing bulk lanes s)

    -- `runInitializeLaneHeads`; `loaded` is what the bundle and the artifact of the contract give.
    unfoldable pub run_initialize_lane_heads :
        Bool
        → Bool
        → Bool
        → Result (CommandError E) (List (ℕ × Point))
        → Run Signed (CommandError E) (LaneReport Signed)
    unfolding open_sender choose_and_send
    run_initialize_lane_heads has_address skip_existing bulk loaded =
        if has_address
        then (do lanes ← ([], loaded); with_lanes skip_existing bulk lanes)
        else raise missing_addresses
