-- ===== src/Commands/Senders.antt =====
-- What the commands of cmd/kaia-proofctl/main.go have in common: the making of a sender with its calls,
-- the signing of a transaction, sending it, and waiting for its receipt.
use hyper_l.Base.{ℕ, if◌then◌else◌, not, Option, none, some, [], ◌∷◌}
use hyper_l.Base.Int.{ℤ}
use hyper_l.Base.Bytes.{Bytes}
use hyper_l.Chain.{
  Result, done, failed, Receipt, Waited, got, broken, stopped, unfinished, gas_limit_for,
  unsigned_for,
}
use hyper_l.Chain.Account.{AccountError, missing_key, refused, trim_prefix}
use hyper_l.Chain.NewSender.{Sender, with_chain}
use hyper_l.Chain.Send.{build_signed_transaction_value}
use hyper_l.Commands.{
  dialed, closed, sent, CommandError, no_sender, timed_out, still_waiting, reverted, Run, pure,
  raise, ◌>>◌, on_failure, asked, World,
}

-- The result of `buildSignedTransaction`, which comes next to the gas limit.
abbrev pub with_gas : {E Signed : Type 0} → Result E Signed × ℕ → Result E (Signed × ℕ)
with_gas (done tx, gas) = done (tx, gas)
with_gas (failed e, gas) = failed e

-- The error of `SendTransaction`, or none.
abbrev pub outcome : {E : Type 0} → Option E → Result (CommandError E) (Unit {0})
outcome none = done tt
outcome (some e) = failed (CommandError.refused e)

module _ {E Signed : Type 0} where
  abbrev pub waited : Waited E → Run Signed (CommandError E) Receipt
  waited (got receipt) = pure receipt
  waited (broken e) = raise (CommandError.refused e)
  waited stopped = raise timed_out
  waited unfinished = raise still_waiting

  -- The test of `receipt.Status`.
  abbrev pub check_status : Receipt → Run Signed (CommandError E) (Unit {0})
  check_status r = if not r.successful then raise (reverted r.block_number r.gas_used) else pure tt

module _ {E Key Address Node Signed : Type 0} (w : World E Key Address Node Signed) where
  open w use {read_key, address_of, chain_id_of, suggest_gas_price, env_gas_limit}

  -- After `ethclient.Dial`, which made client `i`: a failure closes the client.
  abbrev pub after_dial :
      ℕ
      → Result (AccountError E) (Option ℤ)
      → ℕ
      → Key
      → Result E Node
      → Run Signed (CommandError E) (Sender Key Address Node)
  after_dial confirmations price i key (failed e) = raise (no_sender (refused e))
  after_dial confirmations price i key (done node) = do
    (dialed i ∷ [], done node)
    on_failure (closed i ∷ []) (
        asked no_sender (
          with_chain read_key address_of chain_id_of suggest_gas_price env_gas_limit confirmations
            node key price (chain_id_of node)))

  abbrev pub after_read :
      ℕ
      → Result (AccountError E) (Option ℤ)
      → ℕ
      → Result E Key
      → Run Signed (CommandError E) (Sender Key Address Node)
  after_read confirmations price i (failed e) = raise (no_sender (refused e))
  after_read confirmations price i (done key) = after_dial confirmations price i key (w.dial i)

  -- `newSender`, with its calls; `price` is what `parseBigInt` gives for the text of the gas price.
  unfoldable pub open_sender :
      ℕ
      → Result (AccountError E) (Option ℤ)
      → ℕ
      → Bytes
      → Run Signed (CommandError E) (Sender Key Address Node)
  open_sender confirmations price i [] = raise (no_sender missing_key)
  open_sender confirmations price i (b ∷ bs) =
      after_read confirmations price i (read_key (trim_prefix (b ∷ bs)))

  -- `buildSignedTransactionValue` of a sender, for transaction `i`
  unfoldable pub build :
      ℕ → Sender Key Address Node → Address → Bytes → ℤ → ℕ → Result E (Signed × ℕ)
  unfolding build_signed_transaction_value gas_limit_for unsigned_for
  build i s to data_bytes value nonce = with_gas (
      build_signed_transaction_value s.gas_limit
        (λ to value data_bytes. w.estimate_gas i s.client s.from_address to value data_bytes)
        (w.sign s.private_key s.chain_id s.gas_price) (some to) data_bytes value nonce)

  -- `SendTransaction` by client `i`
  abbrev pub send_one :
      ℕ → Sender Key Address Node → Signed → Run Signed (CommandError E) (Unit {0})
  send_one i s tx = (sent i tx ∷ [], outcome (w.send s.client tx))
