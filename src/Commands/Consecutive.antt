-- ===== src/Commands/Consecutive.antt =====
-- The sending loop that `runSubmitBurst` and `runFundAccounts` of cmd/kaia-proofctl/main.go share: what
-- it sends, and with which nonces.
use hyper_l.Base.{
  ℕ, ◌+◌, ◌%◌, ◌^◌, ◌≡◌, refl, sym, ap, subst, ◌∙◌, inl, inr, ◌⊎◌, List, [], ◌∷◌, ◌++◌, Option,
  String, append-nil,
}
use hyper_l.Base.Int.{ℤ}
use hyper_l.Base.Bytes.{Bytes}
use hyper_l.Chain.{Result, done, failed}
use hyper_l.Chain.Account.{AccountError}
use hyper_l.Chain.NewSender.{Sender}
use hyper_l.Commands.{
  CommandError, Call, closed, Run, pure, after, ◌>>=◌, ◌>>◌, deferred, asked, World,
}
use hyper_l.Commands.Senders.{open_sender, build, send_one, outcome}
use hyper_l.Commands.Jobs.{Job}
use hyper_l.Commands.Sends.{
  sends, sends-append, IsQuiet, IsQuiet-asked, sends-deferred, sends-bind_quiet, not_done,
}
use hyper_l.Commands.Order.{open_sender-IsQuiet}
use hyper_l.Commands.Burst.{send_each, with_sender}

-- A quiet end, whatever comes before it.
sends-bind_end :
    {Signed F A B : Type 0} (m : Run Signed F A) (f : A → Run Signed F B)
    → ((a : A) → IsQuiet (f a))
    → sends (m >>= f).0 ≡ sends m.0
sends-bind_end (cs, done a) f h =
    sends-append cs (f a).0 ∙ ap (λ xs. sends cs ++ xs) (h a) ∙ append-nil (sends cs)
sends-bind_end (cs, failed e) f h = sends-append cs [] ∙ append-nil (sends cs)

sends-bind_failed :
    {Signed F A B : Type 0} (m : Run Signed F A) (f : A → Run Signed F B) {e : F}
    → m.1 ≡ failed e
    → sends (m >>= f).0 ≡ sends m.0
sends-bind_failed (cs, done a) f h = absurd (not_done (sym h))
sends-bind_failed (cs, failed e) f h = sends-append cs [] ∙ append-nil (sends cs)

module _ {E Key Address Node Signed : Type 0} (w : World E Key Address Node Signed) where
  module _ (s : Sender Key Address Node) (data_bytes : Bytes) (value : ℤ) (nonce : ℕ) where
    -- Transactions to the first of the addresses, in their order and with one nonce after the other,
    -- each built for its address. Not all of the addresses need be reached.
    abbrev pub AreConsecutive : ℕ → List Address → List (ℕ × Signed) → Type 0
    AreConsecutive i tos [] = Unit
    AreConsecutive i [] ((c, tx) ∷ txs) = ⊥
    AreConsecutive i (to ∷ tos) ((c, tx) ∷ txs) =
        ((gas : ℕ) × (build w i s to data_bytes value ((nonce + i) % 2 ^ 64) ≡ done (tx, gas)))
        × AreConsecutive (i + 1) tos txs

    after_keeps :
        {F A B : Type 0} (r : Result F A) (f : A → Run Signed F B) (i : ℕ) (tos : List Address)
        → ((a : A) → AreConsecutive i tos (sends (f a).0))
        → AreConsecutive i tos (sends (after r f).0)
    after_keeps (done a) f i tos h = h a
    after_keeps (failed e) f i tos h = tt

    send_each-AreConsecutive :
        (i : ℕ) (tos : List Address)
        → AreConsecutive i tos (sends (send_each w s data_bytes value nonce i tos).0)
    unfolding send_each
    send_each-AreConsecutive i [] = tt
    send_each-AreConsecutive i (to ∷ tos) =
        after_build (build w i s to data_bytes value ((nonce + i) % 2 ^ 64)) refl
          (send_each-AreConsecutive (i + 1) tos)
      where
        after_build :
            (r : Result E (Signed × ℕ))
            → build w i s to data_bytes value ((nonce + i) % 2 ^ 64) ≡ r
            → AreConsecutive
                (i + 1)
                tos
                (sends (send_each w s data_bytes value nonce (i + 1) tos).0)
            → AreConsecutive i (to ∷ tos) (
                sends
                  (asked CommandError.refused r >>= λ built.
                    send_one w 0 s built.0
                    >> (send_each w s data_bytes value nonce (i + 1) tos >>= λ jobs. pure (
                        record {
                          client = 0;
                          sender = s;
                          to = to;
                          tx = built.0;
                          gas_limit = built.1;
                        }
                        ∷ jobs))).0)
        after_build (failed e) q ih = tt
        after_build (done (tx, gas)) q ih = (
          (gas, q),
          after_keeps (outcome (w.send s.client tx)) _ (i + 1) tos (λ u.
              subst (AreConsecutive (i + 1) tos)
                (sym (
                  sends-bind_end (send_each w s data_bytes value nonce (i + 1) tos) _
                    (λ jobs. refl)))
                ih),
        )

  module _ (confirmations : ℕ) (price : Result (AccountError E) (Option ℤ)) (key : Bytes) where
    -- What a command with one sender has sent: nothing, or transactions of the sender of the key, with
    -- nonces that go on from the sender's pending nonce.
    abbrev pub SendsFrom : Bytes → ℤ → List Address → List (Call Signed) → Type 0
    SendsFrom data_bytes value tos calls =
        (sends calls ≡ [])
        ⊎ ((s : Sender Key Address Node) × (nonce : ℕ) × ((open_sender w confirmations price 0
                key).1
              ≡ done s)
            × (w.pending_nonce 0 s.client s.from_address ≡ done nonce)
            × AreConsecutive s data_bytes value nonce 0 tos (sends calls))

    module _ {A : Type 0} (data_bytes : Bytes) (value : ℤ) (tos : List Address)
        (rest : List (Job Key Address Node Signed) → Run Signed (CommandError E) A)
        (rest_quiet : (jobs : List (Job Key Address Node Signed)) → IsQuiet (rest jobs)) where
      pub with_sender-SendsFrom :
          (format : ℕ → ℕ → String) (start now : ℤ) (sent_at seen_at : ℕ → ℤ)
          → SendsFrom data_bytes value tos
              (with_sender w confirmations price format start now sent_at seen_at key data_bytes
                value tos rest).0
      with_sender-SendsFrom format start now sent_at seen_at =
          opened (open_sender w confirmations price 0 key).1 refl
        where
          ask : Sender Key Address Node → Run Signed (CommandError E) ℕ
          ask s = asked CommandError.refused (w.pending_nonce 0 s.client s.from_address)

          with_nonce : Sender Key Address Node → Run Signed (CommandError E) A
          with_nonce s = ask s >>= λ nonce. send_each w s data_bytes value nonce 0 tos >>= rest

          all : Run Signed (CommandError E) A
          all = open_sender w confirmations price 0 key >>= λ s.
              deferred (closed 0 ∷ []) (with_nonce s)

          asked_nonce :
              (s : Sender Key Address Node) (r : Result E ℕ)
              → (open_sender w confirmations price 0 key).1 ≡ done s
              → w.pending_nonce 0 s.client s.from_address ≡ r
              → sends all.0 ≡ sends (with_nonce s).0
              → SendsFrom data_bytes value tos all.0
          asked_nonce s (failed e) o q h = inl (
              h
              ∙ sends-bind_failed (ask s) _
                  (ap (λ r. (asked {Signed = Signed} CommandError.refused r).1) q)
              ∙ IsQuiet-asked Signed CommandError.refused _)
          asked_nonce s (done nonce) o q h = inr (
            s,
            nonce,
            o,
            q,
            subst (AreConsecutive s data_bytes value nonce 0 tos)
                (sym (
                  h
                  ∙ sends-bind_quiet (ask s) _ nonce (IsQuiet-asked Signed CommandError.refused _)
                      (ap (λ r. (asked {Signed = Signed} CommandError.refused r).1) q)
                  ∙ sends-bind_end (send_each w s data_bytes value nonce 0 tos) rest rest_quiet))
                (send_each-AreConsecutive s data_bytes value nonce 0 tos),
          )

          opened :
              (r : Result (CommandError E) (Sender Key Address Node))
              → (open_sender w confirmations price 0 key).1 ≡ r
              → SendsFrom data_bytes value tos all.0
          opened (failed e) q = inl (
              sends-bind_failed (open_sender w confirmations price 0 key) _ q
              ∙ open_sender-IsQuiet w confirmations price 0 key)
          opened (done s) q = asked_nonce s (w.pending_nonce 0 s.client s.from_address) q refl (
              sends-bind_quiet (open_sender w confirmations price 0 key) _ s
                (open_sender-IsQuiet w confirmations price 0 key) q
              ∙ sends-deferred (closed 0 ∷ []) (with_nonce s) refl)
