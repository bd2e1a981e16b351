-- ===== src/Chain/Send.antt =====
-- `buildSignedTransactionValue` and `sendTransactionValue` of cmd/kaia-proofctl/main.go. What the client
-- and the signer answer are parameters, and so is the wait for the receipt of a signed transaction.
use hyper_l.Base.{ℕ, if◌then◌else◌, not, Option, none, some}
use hyper_l.Base.Bytes.{Bytes}
use hyper_l.Chain.{
  Receipt, Result, done, failed, Waited, got, broken, stopped, unfinished, gas_limit_for, Unsigned,
  unsigned_for,
}

-- The errors of `sendTransactionValue`: the client's, the end of `ctx`, a reverted transaction.
pub data SendError (E : Type 0) : Type 0 where
  refused : E → SendError E
  timed_out : SendError E
  reverted : (block_number gas_used : ℕ) → SendError E
  still_waiting : SendError E  -- the end of the fuel of the wait

module _ {E Signed : Type 0} where
  -- After `types.SignTx`, with the gas limit that is returned along.
  abbrev pub after_sign : ℕ → Result E Signed → Result E Signed × ℕ
  after_sign gas (done tx) = (done tx, gas)
  after_sign gas (failed e) = (failed e, gas)

  -- After `waitForReceipt`.
  abbrev pub after_wait : Signed → Waited E → Result (SendError E) (Receipt × Signed)
  after_wait tx (got receipt) =
      if not receipt.successful
      then failed (reverted receipt.block_number receipt.gas_used)
      else done (receipt, tx)
  after_wait tx (broken e) = failed (refused e)
  after_wait tx stopped = failed timed_out
  after_wait tx unfinished = failed still_waiting

  -- After `SendTransaction`, which returns an error or none.
  abbrev pub after_send :
      (Signed → Waited E) → Signed → Option E → Result (SendError E) (Receipt × Signed)
  after_send wait tx none = after_wait tx (wait tx)
  after_send wait tx (some e) = failed (refused e)

  -- After the transaction is built.
  abbrev pub after_build :
      (Signed → Option E)
      → (Signed → Waited E)
      → Result E Signed × ℕ
      → Result (SendError E) (Receipt × Signed) × ℕ
  after_build send wait (done tx, gas) = (after_send wait tx (send tx), gas)
  after_build send wait (failed e, gas) = (failed (refused e), gas)

module _ {E Address Amount Signed : Type 0} (limit : ℕ)
    (estimate_gas : Option Address → Amount → Bytes → Result E ℕ)
    (sign : Unsigned Address Amount → Result E Signed) where
  -- After the gas limit is known.
  abbrev pub after_gas : Option Address → Bytes → Amount → ℕ → Result E ℕ → Result E Signed × ℕ
  after_gas to data_bytes value nonce (done gas) =
      after_sign gas (sign (unsigned_for to nonce value gas data_bytes))
  after_gas to data_bytes value nonce (failed e) = (failed e, 0)

  -- `buildSignedTransactionValue`, of a sender whose `gasLimit` is `limit`
  unfoldable pub build_signed_transaction_value :
      Option Address → Bytes → Amount → ℕ → Result E Signed × ℕ
  build_signed_transaction_value to data_bytes value nonce =
      after_gas to data_bytes value nonce (gas_limit_for limit (estimate_gas to value data_bytes))

  module _ (send : Signed → Option E) (wait : Signed → Waited E) where
    abbrev pub after_nonce :
        Option Address → Bytes → Amount → Result E ℕ → Result (SendError E) (Receipt × Signed) × ℕ
    after_nonce to data_bytes value (done nonce) =
        after_build send wait (build_signed_transaction_value to data_bytes value nonce)
    after_nonce to data_bytes value (failed e) = (failed (refused e), 0)

    -- `sendTransactionValue`, with what `PendingNonceAt` answers
    unfoldable pub send_transaction_value :
        Result E ℕ → Option Address → Bytes → Amount → Result (SendError E) (Receipt × Signed) × ℕ
    unfolding build_signed_transaction_value
    send_transaction_value pending_nonce to data_bytes value =
        after_nonce to data_bytes value pending_nonce
