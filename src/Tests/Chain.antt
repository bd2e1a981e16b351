-- ===== src/Tests/Chain.antt =====
-- The chain helpers of cmd/kaia-proofctl/main.go at concrete inputs.
use hyper_l.Base.{Bool, true, false, if◌then◌else◌, ltb, ℕ, ◌+◌, ◌≤◌, ◌≡◌, ◌⊎◌, refl, arith}
use hyper_l.Chain.{Receipt, done, failed, got, Client, wait_for_receipt}
use hyper_l.Chain.Wait.{IsConfirmed, wait_for_receipt_sound, wait_for_receipt_returns}

abbrev receipt : Receipt
receipt = record { block_number = 10; successful = true; gas_used = 21000 }

-- The receipt comes at tick 2, and the head goes up by one at each tick.
abbrev chain : Client ℕ
chain = record {
  transaction_receipt = λ t. if ltb t 2 then failed 404 else done receipt;
  head_number = λ t. done (8 + t);
  is_stopped = λ t. false;
}

abbrev not_found : ℕ → Bool
not_found e = true

waits : wait_for_receipt not_found chain 3 9 0 ≡ got receipt
unfolding wait_for_receipt
waits = refl

wait_for_receipt_sound_example :
    (u : ℕ) × (0 ≤ u)
    × (chain.transaction_receipt u ≡ done receipt)
    × ((3 ≤ 1) ⊎ ((v : ℕ) × (u ≤ v) × IsConfirmed not_found chain 3 receipt v))
wait_for_receipt_sound_example = wait_for_receipt_sound not_found chain 3 9 0 receipt waits

wait_for_receipt_returns_example : wait_for_receipt not_found chain 3 5 0 ≡ got receipt
wait_for_receipt_returns_example =
    wait_for_receipt_returns not_found chain 3 5 0 2 4 receipt (omega arith) (omega arith)
      (omega arith) (λ s l b. (404, ground (arith, b), refl, refl)) refl
      (λ s l b. (8 + s, refl, refl)) (12, refl, omega arith)
