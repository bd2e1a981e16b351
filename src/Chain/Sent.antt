-- ===== src/Chain/Sent.antt =====
-- What `sendTransactionValue` of cmd/kaia-proofctl/main.go has done when it returns no error.
use hyper_l.Base.{
  ℕ, ◌+◌, ◌*◌, ◌/◌, ◌%◌, ◌^◌, ◌≤◌, ◌<◌, ◌≡◌, refl, sym, ap, subst, ◌∙◌, arith, Bool, true, false,
  if◌then◌else◌, not, Option, none, some,
}
use hyper_l.Base.Bytes.{Bytes}
use hyper_l.Chain.{
  Receipt, Result, done, failed, Waited, got, broken, stopped, unfinished, gas_limit_for, Unsigned,
}
use hyper_l.Chain.Send.{
  SendError, reverted, after_wait, after_send, after_build, after_nonce,
  build_signed_transaction_value, send_transaction_value,
}

abbrev IsDone : {E A : Type 0} → Result E A → Type 0
IsDone (done a) = Unit
IsDone (failed e) = ⊥

-- The value of a result, or another one.
abbrev value_or : {E A : Type 0} → A → Result E A → A
value_or d (done a) = a
value_or d (failed e) = d

not_failed : {E A : Type 0} (r : Result E A) (a : A) → r ≡ done a → IsDone r
not_failed r a e = subst IsDone (sym e) tt

-- The gas limit that is sent covers the estimate, unless the product wraps.
pub gas_limit_covers :
    {E : Type 0} (estimated gas : ℕ)
    → estimated * 12 < 2 ^ 64
    → gas_limit_for {E = E} 0 (done estimated) ≡ done gas
    → (estimated + 25000 ≤ gas) × (gas ≤ estimated * 2 + 25000)
unfolding gas_limit_for
gas_limit_covers estimated gas fits e =
    let q : (estimated * 12 % 2 ^ 64 / 10 + 25000) % 2 ^ 64 ≡ gas = ap (value_or 0) e in
    (omega (arith, q), omega (arith, q))

module _ {E Signed : Type 0} where
  after_wait_sound :
      (tx tx' : Signed) (w : Waited E) (r : Receipt)
      → after_wait tx w ≡ done (r, tx')
      → (w ≡ got r) × (tx ≡ tx') × (r.successful ≡ true)
  after_wait_sound tx tx' (got receipt) r e = either receipt.successful refl
    where
      out : Bool → Result (SendError E) (Receipt × Signed)
      out b =
          if not b
          then failed (reverted receipt.block_number receipt.gas_used)
          else done (receipt, tx)

      returned : Result (SendError E) (Receipt × Signed)
      returned = done (r, tx')

      either :
          (b : Bool)
          → receipt.successful ≡ b
          → ◌≡◌ {A = Waited E} (got receipt) (got r) × (tx ≡ tx') × (r.successful ≡ true)
      either true s =
          let e' : out true ≡ returned = subst (λ b. out b ≡ returned) s e in
          let q : (receipt, tx) ≡ (r, tx') = ap (value_or (r, tx')) e' in
          (ap (λ z. got z.0) q, ap (λ z. z.1) q, sym (ap (λ z. z.0.successful) q) ∙ s)
      either false s = absurd (not_failed (out false) (r, tx') (subst (λ b. out b ≡ returned) s e))
  after_wait_sound tx tx' (broken x) r e =
      absurd (not_failed (after_wait {E = E} tx (broken x)) (r, tx') e)
  after_wait_sound tx tx' stopped r e =
      absurd (not_failed (after_wait {E = E} tx stopped) (r, tx') e)
  after_wait_sound tx tx' unfinished r e =
      absurd (not_failed (after_wait {E = E} tx unfinished) (r, tx') e)

  after_send_sound :
      (wait : Signed → Waited E) (o : Option E) (r : Receipt) (tx tx' : Signed)
      → after_send wait tx o ≡ done (r, tx')
      → (o ≡ none) × (wait tx ≡ got r) × (tx ≡ tx') × (r.successful ≡ true)
  after_send_sound wait none r tx tx' e =
      let (w, q, s) = after_wait_sound tx tx' (wait tx) r e in (refl, w, q, s)
  after_send_sound wait (some x) r tx tx' e =
      absurd (not_failed (after_send wait tx (some x)) (r, tx') e)

  after_build_sound :
      (send : Signed → Option E) (wait : Signed → Waited E) (built : Result E Signed × ℕ)
      (r : Receipt) (tx : Signed)
      → (after_build send wait built).0 ≡ done (r, tx)
      → (built.0 ≡ done tx) × (send tx ≡ none) × (wait tx ≡ got r) × (r.successful ≡ true)
  after_build_sound send wait (done tx', gas) r tx e =
      let (o, w, q, s) = after_send_sound wait (send tx') r tx' tx e in
      (ap done q, sym (ap send q) ∙ o, sym (ap wait q) ∙ w, s)
  after_build_sound send wait (failed x, gas) r tx e =
      absurd (not_failed (after_build send wait (failed x, gas)).0 (r, tx) e)

module _ {E Address Amount Signed : Type 0} (limit : ℕ)
    (estimate_gas : Option Address → Amount → Bytes → Result E ℕ)
    (sign : Unsigned Address Amount → Result E Signed) (send : Signed → Option E)
    (wait : Signed → Waited E) where
  -- `sendTransactionValue` returns no error only for a transaction that was built for the pending
  -- nonce, that the client took, and whose receipt, the one returned, says that it was successful.
  pub send_transaction_value_sound :
      (pending_nonce : Result E ℕ) (to : Option Address) (data_bytes : Bytes) (value : Amount)
      (r : Receipt) (tx : Signed)
      → (send_transaction_value limit estimate_gas sign send wait pending_nonce to data_bytes
          value).0
        ≡ done (r, tx)
      → ((nonce : ℕ) × (pending_nonce ≡ done nonce)
          × ((build_signed_transaction_value limit estimate_gas sign to data_bytes value nonce).0
              ≡ done tx))
        × (send tx ≡ none)
        × (wait tx ≡ got r)
        × (r.successful ≡ true)
  unfolding send_transaction_value
  send_transaction_value_sound (failed x) to data_bytes value r tx e = absurd (
      not_failed (after_nonce limit estimate_gas sign send wait to data_bytes value (failed x)).0
        (r, tx) e)
  send_transaction_value_sound (done nonce) to data_bytes value r tx e =
      let (b, o, w, s) =
        after_build_sound send wait
          (build_signed_transaction_value limit estimate_gas sign to data_bytes value nonce) r tx
          e in
      ((nonce, refl, b), o, w, s)
