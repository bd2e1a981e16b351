-- ===== src/Chain/Wait.antt =====
-- `waitForReceipt` of cmd/kaia-proofctl/main.go: what a receipt that it returns has, and when it returns.
use native.Mathlib.Decide.{dec_le, ℕ_discrete}
use hyper_l.Base.{
  ℕ, zero, suc, ◌+◌, ◌-◌, ◌≤◌, ◌<◌, ◌≡◌, ◌⊎◌, inl, inr, refl, sym, ap, subst, ◌∙◌, arith, Bool,
  true, false, if◌then◌else◌, leb, not,
}
use hyper_l.Chain.{
  Receipt, Result, done, failed, Waited, got, broken, stopped, unfinished, Client, confirm,
  wait_for_receipt, after_head, after_receipt,
}

-- The receipt of a wait that returned one.
abbrev received : {E : Type 0} → Receipt → Waited E → Receipt
received d (got r) = r
received d w = d

abbrev IsGot : {E : Type 0} → Waited E → Type 0
IsGot (got r) = Unit
IsGot w = ⊥

module _ {E : Type 0} (is_not_found : E → Bool) (client : Client E) (confirmations : ℕ) where
  -- The chain has as many blocks from the receipt's on as there are confirmations asked for.
  abbrev pub IsConfirmed : Receipt → ℕ → Type 0
  IsConfirmed receipt t =
      (number : ℕ) × (client.head_number t ≡ done number)
      × (receipt.block_number + (confirmations - 1) ≤ number)

  no_receipt : (w : Waited E) (r : Receipt) → w ≡ got r → IsGot w
  no_receipt w r e = subst IsGot (sym e) tt

  if_same : (w : Waited E) (b : Bool) → (if b then w else w) ≡ w
  if_same w true = refl
  if_same w false = refl

  after_head_sound :
      (receipt r : Receipt) (stop : Bool) (rest : Waited E) (reply : Result E ℕ)
      → after_head is_not_found client confirmations receipt stop rest reply ≡ got r
      → ((receipt ≡ r)
          × ((number : ℕ) × (reply ≡ done number)
              × (receipt.block_number + (confirmations - 1) ≤ number)))
        ⊎ (rest ≡ got r)
  after_head_sound receipt r stop rest (failed x) e = absurd (no_receipt (broken x) r e)
  after_head_sound receipt r stop rest (done number) e =
      elim (dec_le (receipt.block_number + (confirmations - 1)) number) [
        | yes l ↦
            let big : leb (receipt.block_number + (confirmations - 1)) number ≡ true =
              ground (arith, l) in
            let w : got receipt ≡ got r =
              subst (λ b. (if b then got receipt else if stop then stopped else rest) ≡ got r) big
                e in
            inl (ap (received receipt) w, (number, refl, l))
        | no l ↦
            let small : leb (receipt.block_number + (confirmations - 1)) number ≡ false =
              ground (arith, l) in
            inr (
              waited stop (
                subst (λ b. (if b then got receipt else if stop then stopped else rest) ≡ got r)
                  small e))
      ]
    where
      waited : (b : Bool) → (if b then stopped else rest) ≡ got r → rest ≡ got r
      waited true e = absurd (no_receipt stopped r e)
      waited false e = e

  confirm_sound :
      (fuel t : ℕ) (receipt r : Receipt)
      → confirm is_not_found client confirmations fuel t receipt ≡ got r
      → (receipt ≡ r) × ((v : ℕ) × (t ≤ v) × IsConfirmed receipt v)
  unfolding confirm
  confirm_sound zero t receipt r e = absurd (no_receipt unfinished r e)
  confirm_sound (suc fuel) t receipt r e =
      elim (after_head_sound receipt r (client.is_stopped t)
        (confirm is_not_found client confirmations fuel (t + 1) receipt) (client.head_number t) e) [
          | inl (q, c) ↦ (q, (t, omega arith, c))
          | inr w ↦
              let (q, (v, l, c)) = confirm_sound fuel (t + 1) receipt r w in
              (q, (v, omega arith, c))
        ]

  after_receipt_sound :
      (confirmed : Receipt → Waited E) (r : Receipt) (stop : Bool) (rest : Waited E)
      (reply : Result E Receipt)
      → after_receipt is_not_found client confirmations confirmed stop rest reply ≡ got r
      → ((receipt : Receipt) × (reply ≡ done receipt)
          × (((confirmations ≤ 1) × (receipt ≡ r)) ⊎ (confirmed receipt ≡ got r)))
        ⊎ (rest ≡ got r)
  after_receipt_sound confirmed r stop rest (failed x) e = inr (missed (is_not_found x) stop e)
    where
      missed :
          (b c : Bool)
          → (if not b then broken x else if c then stopped else rest) ≡ got r
          → rest ≡ got r
      missed false c e = absurd (no_receipt (broken x) r e)
      missed true true e = absurd (no_receipt stopped r e)
      missed true false e = e
  after_receipt_sound confirmed r stop rest (done receipt) e = inl (
    receipt,
    refl,
    (elim (dec_le confirmations 1) [
      | yes l ↦
          let one : leb confirmations 1 ≡ true = ground (arith, l) in
          let w : got receipt ≡ got r =
            subst (λ b. (if b then got receipt else confirmed receipt) ≡ got r) one e in
          inl (l, ap (received receipt) w)
      | no l ↦
          let more : leb confirmations 1 ≡ false = ground (arith, l) in
          inr (subst (λ b. (if b then got receipt else confirmed receipt) ≡ got r) more e)
    ]),
  )

  -- A receipt that `waitForReceipt` returns is one that the chain gave at some tick, and if more than
  -- one confirmation is asked for, the head of the chain has been seen far enough ahead, not earlier.
  pub wait_for_receipt_sound :
      (fuel t : ℕ) (r : Receipt)
      → wait_for_receipt is_not_found client confirmations fuel t ≡ got r
      → (u : ℕ) × (t ≤ u)
        × (client.transaction_receipt u ≡ done r)
        × ((confirmations ≤ 1) ⊎ ((v : ℕ) × (u ≤ v) × IsConfirmed r v))
  unfolding wait_for_receipt
  wait_for_receipt_sound zero t r e = absurd (no_receipt unfinished r e)
  wait_for_receipt_sound (suc fuel) t r e =
      elim (after_receipt_sound
        (λ receipt. confirm is_not_found client confirmations (suc fuel) t receipt) r
        (client.is_stopped t) (wait_for_receipt is_not_found client confirmations fuel (t + 1))
        (client.transaction_receipt t) e) [
          | inl (receipt, q, inl (l, i)) ↦ (t, omega arith, q ∙ ap done i, inl l)
          | inl (receipt, q, inr w) ↦
              let (i, (v, m, c)) = confirm_sound (suc fuel) t receipt r w in
              (t, omega arith, q ∙ ap done i, inr (v, m, subst (λ z. IsConfirmed z v) i c))
          | inr w ↦
              let (u, l, q, c) = wait_for_receipt_sound fuel (t + 1) r w in (u, omega arith, q, c)
        ]

  -- At a tick, the chain does not know the transaction yet, or its head is somewhere; `ctx` is open.
  abbrev pub Missing : ℕ → Type 0
  Missing t =
      (x : E) × (client.transaction_receipt t ≡ failed x)
      × (is_not_found x ≡ true)
      × (client.is_stopped t ≡ false)

  abbrev pub Answers : ℕ → Type 0
  Answers t = (number : ℕ) × (client.head_number t ≡ done number) × (client.is_stopped t ≡ false)

  confirm_returns :
      (fuel t v : ℕ) (r : Receipt)
      → t ≤ v
      → v < t + fuel
      → ((s : ℕ) → t ≤ s → s < v → Answers s)
      → IsConfirmed r v
      → confirm is_not_found client confirmations fuel t r ≡ got r
  unfolding confirm
  confirm_returns zero t v r l f a c = absurd (omega arith)
  confirm_returns (suc fuel) t v r l f a (n, q, far) = elim (ℕ_discrete t v) [
    | yes i ↦ rw (ap client.head_number i ∙ q) (ground (arith, far))
    | no i ↦
        let (m, q', o) = a t (omega arith) (omega arith) in
        let rest =
          confirm_returns fuel (t + 1) v r (omega arith) (omega arith)
            (λ s x y. a s (omega arith) y) (n, q, far) in
        rw (q', o, rest) (if_same (got r) (leb (r.block_number + (confirmations - 1)) m))
  ]

  -- With a unit of fuel for each tick, `waitForReceipt` returns the receipt: the transaction is not
  -- known before tick `u` and its receipt is there then, the head of the chain is read at every tick
  -- from `u` on and is far enough at tick `v`, and `ctx` stays open.
  pub wait_for_receipt_returns :
      (fuel t u v : ℕ) (r : Receipt)
      → t ≤ u
      → u ≤ v
      → v < t + fuel
      → ((s : ℕ) → t ≤ s → s < u → Missing s)
      → client.transaction_receipt u ≡ done r
      → ((s : ℕ) → u ≤ s → s < v → Answers s)
      → IsConfirmed r v
      → wait_for_receipt is_not_found client confirmations fuel t ≡ got r
  unfolding wait_for_receipt
  wait_for_receipt_returns zero t u v r l m f before here later c = absurd (omega arith)
  wait_for_receipt_returns (suc fuel) t u v r l m f before here later c = elim (ℕ_discrete t u) [
    | yes i ↦
        let w : confirm is_not_found client confirmations (suc fuel) t r ≡ got r =
          confirm_returns (suc fuel) t v r (omega arith) f (λ s x y. later s (omega arith) y) c in
        rw (ap client.transaction_receipt i ∙ here, w) (if_same (got r) (leb confirmations 1))
    | no i ↦
        let (x, q, k, o) = before t (omega arith) (omega arith) in
        let rest =
          wait_for_receipt_returns fuel (t + 1) u v r (omega arith) m (omega arith)
            (λ s a b. before s (omega arith) b) here later c in
        rw (q, k, o) rest
  ]
