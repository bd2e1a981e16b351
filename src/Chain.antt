-- ===== src/Chain.antt =====
-- The chain helpers of cmd/kaia-proofctl/main.go. What the node of the chain answers, keys, signatures
-- and big integers are parameters. A text that is looked into is its bytes, with `strings.TrimSpace` as
-- a parameter; in the loops that wait, time is the number of ticks seen so far.
pub mod Account
pub mod NewSender
pub mod Text
pub mod Wait
pub mod Send
pub mod Sent
use hyper_l.Base.{
  ℕ, zero, suc, ◌+◌, ◌-◌, ◌*◌, ◌/◌, ◌%◌, ◌^◌, Bool, true, false, if◌then◌else◌, ltb, leb, ◌==◌,
  ◌&&◌, not, Option, none, some, List, [], ◌∷◌, ◌++◌,
}
use hyper_l.Base.Int.{ℤ, pos, negsuc}
use hyper_l.Base.Bytes.{Bytes}

-- The part of `types.Receipt` that is looked at.
pub record Receipt : Type 0 where
  pub block_number : ℕ
  pub successful : Bool
  pub gas_used : ℕ

-- A value or an error.
pub data Result (E A : Type 0) : Type 0 where
  done : A → Result E A
  failed : E → Result E A

-- How a wait ends. `unfinished` is the end of the fuel.
pub data Waited (E : Type 0) : Type 0 where
  got : Receipt → Waited E
  broken : E → Waited E
  stopped : Waited E
  unfinished : Waited E

-- What the client answers, and whether `ctx` is done, after a number of ticks.
pub record Client (E : Type 0) : Type 0 where
  pub transaction_receipt : ℕ → Result E Receipt
  pub head_number : ℕ → Result E ℕ
  pub is_stopped : ℕ → Bool

module _ {E : Type 0} (is_not_found : E → Bool) (client : Client E) (confirmations : ℕ) where
  -- One look at the head of the chain; `rest` is what comes after the next tick.
  abbrev pub after_head : Receipt → Bool → Waited E → Result E ℕ → Waited E
  after_head receipt is_done rest (failed e) = broken e
  after_head receipt is_done rest (done number) =
      if leb (receipt.block_number + (confirmations - 1)) number
      then got receipt
      else if is_done
      then stopped
      else rest

  -- The inner loop of `waitForReceipt`, from tick `t` on.
  unfoldable pub confirm : ℕ → ℕ → Receipt → Waited E
  confirm zero t receipt = unfinished
  confirm (suc fuel) t receipt =
      after_head receipt (client.is_stopped t) (confirm fuel (t + 1) receipt) (client.head_number t)

  -- One look for the receipt; `confirmed` is the inner loop.
  abbrev pub after_receipt : (Receipt → Waited E) → Bool → Waited E → Result E Receipt → Waited E
  after_receipt confirmed is_done rest (done receipt) =
      if leb confirmations 1 then got receipt else confirmed receipt
  after_receipt confirmed is_done rest (failed e) =
      if not (is_not_found e) then broken e else if is_done then stopped else rest

  -- `waitForReceipt`, from tick `t` on
  unfoldable pub wait_for_receipt : ℕ → ℕ → Waited E
  unfolding confirm
  wait_for_receipt zero t = unfinished
  wait_for_receipt (suc fuel) t =
      after_receipt (λ receipt. confirm (suc fuel) t receipt) (client.is_stopped t)
        (wait_for_receipt fuel (t + 1)) (client.transaction_receipt t)

-- `clampLatencyMS`, of the milliseconds of a duration
pub clamp_latency_ms : ℤ → ℤ
clamp_latency_ms (pos ms) = pos ms
clamp_latency_ms (negsuc ms) = pos 0

-- `calculateTPS`; `float_string` is `FloatString(6)` of the quotient
pub calculate_tps : {S : Type 0} → (ℕ → ℕ → S) → S → ℕ → ℤ → S
calculate_tps float_string zero_text verified (pos zero) = zero_text
calculate_tps float_string zero_text verified (pos (suc ms)) =
    float_string (verified * 1000) (suc ms)
calculate_tps float_string zero_text verified (negsuc ms) = zero_text

-- `gasLimit` of `buildSignedTransactionValue`: the sender's, or what the estimate gives
unfoldable pub gas_limit_for : {E : Type 0} → ℕ → Result E ℕ → Result E ℕ
gas_limit_for zero (done estimated) = done ((estimated * 12 % 2 ^ 64 / 10 + 25000) % 2 ^ 64)
gas_limit_for zero (failed e) = failed e
gas_limit_for (suc limit) estimated = done (suc limit)

-- The two forms of an unsigned transaction. Their gas price is the sender's, which the signer adds.
pub data Unsigned (Address Amount : Type 0) : Type 0 where
  creation : (nonce : ℕ) (value : Amount) (gas : ℕ) (data_bytes : Bytes) → Unsigned Address Amount
  call :
      (nonce : ℕ) (to : Address) (value : Amount) (gas : ℕ) (data_bytes : Bytes)
      → Unsigned Address Amount

unfoldable pub unsigned_for :
    {Address Amount : Type 0} → Option Address → ℕ → Amount → ℕ → Bytes → Unsigned Address Amount
unsigned_for none nonce value gas data_bytes = creation nonce value gas data_bytes
unsigned_for (some to) nonce value gas data_bytes = call nonce to value gas data_bytes
