-- ===== src/Pipeline/L1/Apply.antt =====
-- `applyTxs`: what it does to each balance, to their sum, and which keys it counts.
use hyper_l.Base.{
  ℕ, ◌+◌, ◌-◌, ◌%◌, ◌^◌, ◌≡◌, refl, ◌∙◌, arith, Bool, true, false, if◌then◌else◌, ◌||◌, ◌==◌, none,
  some, List, [], ◌∷◌, length, All,
}
use hyper_l.Base.GoMap.{GoMap, lookup, insert, lookup-insert, HasUniqueKeys, insert-HasUniqueKeys}
use hyper_l.Frame.{Tx12}
use hyper_l.Frame.Tx.{IsTx}
use hyper_l.Pipeline.L1.{balance_word, apply_tx, apply_loop, apply_txs}

-- The balances added up, as 64-bit patterns.
abbrev pub total : GoMap ℕ → ℕ
total [] = 0
total ((k, w) ∷ d) = w + total d

pub total-insert : (k w : ℕ) (d : GoMap ℕ) → total (insert k w d) + balance_word k d ≡ total d + w
total-insert k w [] = omega arith
total-insert k w ((j, v) ∷ d) = ground (arith, total-insert k w d)

-- The balances after the debit of one transfer.
abbrev debited : Tx12 → GoMap ℕ → GoMap ℕ
debited tx state =
    insert tx.sender_index ((balance_word tx.sender_index state + (2 ^ 64 - tx.amount)) % 2 ^ 64)
      state

total-apply_tx :
    (tx : Tx12) (s : GoMap ℕ × GoMap Bool)
    → IsTx tx
    → total (apply_tx tx s).0 % 2 ^ 64 ≡ total s.0 % 2 ^ 64
unfolding apply_tx
total-apply_tx tx (state, changed) h = omega (
  arith,
  total-insert tx.sender_index
      ((balance_word tx.sender_index state + (2 ^ 64 - tx.amount)) % 2 ^ 64) state,
  total-insert tx.receiver_index
      ((balance_word tx.receiver_index (debited tx state) + tx.amount) % 2 ^ 64) (debited tx state),
)

total-apply_loop :
    (txs : List Tx12) (s : GoMap ℕ × GoMap Bool)
    → All IsTx txs
    → total (apply_loop txs s).0 % 2 ^ 64 ≡ total s.0 % 2 ^ 64
unfolding apply_loop
total-apply_loop [] s h = refl
total-apply_loop (tx ∷ txs) s h = total-apply_loop txs (apply_tx tx s) h.1 ∙ total-apply_tx tx s h.0

-- A batch of transfers that fit their machine words creates and destroys nothing: the sum of all
-- balances is kept, modulo 2 ^ 64.
pub total-apply_txs :
    (txs : List Tx12) (state : GoMap ℕ)
    → All IsTx txs
    → total (apply_txs txs state).0 % 2 ^ 64 ≡ total state % 2 ^ 64
unfolding apply_txs
total-apply_txs [] state h = refl
total-apply_txs (tx ∷ txs) state h = total-apply_loop (tx ∷ txs) (state, []) h

-- What the transfers send from, and to, one index.
abbrev pub sent : ℕ → List Tx12 → ℕ
sent i [] = 0
sent i (tx ∷ txs) = (if i == tx.sender_index then tx.amount else 0) + sent i txs

abbrev pub received : ℕ → List Tx12 → ℕ
received i [] = 0
received i (tx ∷ txs) = (if i == tx.receiver_index then tx.amount else 0) + received i txs

balance-insert :
    (i k w : ℕ) (d : GoMap ℕ)
    → balance_word i (insert k w d) ≡ (if i == k then w else balance_word i d)
balance-insert i k w d = ground (arith, lookup-insert i k w d)

balance-apply_tx :
    (i : ℕ) (tx : Tx12) (s : GoMap ℕ × GoMap Bool)
    → IsTx tx
    → (balance_word i (apply_tx tx s).0 + sent i (tx ∷ [])) % 2 ^ 64
      ≡ (balance_word i s.0 + received i (tx ∷ [])) % 2 ^ 64
unfolding apply_tx
balance-apply_tx i tx (state, changed) h = ground (
  arith,
  balance-insert i tx.receiver_index
      ((balance_word tx.receiver_index (debited tx state) + tx.amount) % 2 ^ 64) (debited tx state),
  balance-insert i tx.sender_index
      ((balance_word tx.sender_index state + (2 ^ 64 - tx.amount)) % 2 ^ 64) state,
  balance-insert tx.receiver_index tx.sender_index
      ((balance_word tx.sender_index state + (2 ^ 64 - tx.amount)) % 2 ^ 64) state,
)

balance-apply_loop :
    (i : ℕ) (txs : List Tx12) (s : GoMap ℕ × GoMap Bool)
    → All IsTx txs
    → (balance_word i (apply_loop txs s).0 + sent i txs) % 2 ^ 64
      ≡ (balance_word i s.0 + received i txs) % 2 ^ 64
unfolding apply_loop
balance-apply_loop i [] s h = refl
balance-apply_loop i (tx ∷ txs) s h =
    omega (arith, balance-apply_loop i txs (apply_tx tx s) h.1, balance-apply_tx i tx s h.0)

-- Each balance moves by what its index receives less what it sends, modulo 2 ^ 64, also where an
-- index sends to itself. The transfers fit their machine words.
pub balance-apply_txs :
    (i : ℕ) (txs : List Tx12) (state : GoMap ℕ)
    → All IsTx txs
    → (balance_word i (apply_txs txs state).0 + sent i txs) % 2 ^ 64
      ≡ (balance_word i state + received i txs) % 2 ^ 64
unfolding apply_txs
balance-apply_txs i [] state h = refl
balance-apply_txs i (tx ∷ txs) state h = balance-apply_loop i (tx ∷ txs) (state, []) h

-- Whether some transfer names the index.
abbrev pub touches : ℕ → List Tx12 → Bool
touches i [] = false
touches i (tx ∷ txs) = i == tx.sender_index || (i == tx.receiver_index || touches i txs)

abbrev pub known : ℕ → GoMap Bool → Bool
known i d = elim (lookup i d) [ none ↦ false | some _ ↦ true ]

known-apply_tx :
    (i : ℕ) (tx : Tx12) (s : GoMap ℕ × GoMap Bool)
    → known i (apply_tx tx s).1 ≡ (i == tx.sender_index || (i == tx.receiver_index || known i s.1))
unfolding apply_tx
known-apply_tx i tx (state, changed) = ground (
  arith,
  lookup-insert i tx.receiver_index true (insert tx.sender_index true changed),
  lookup-insert i tx.sender_index true changed,
)

known-apply_loop :
    (i : ℕ) (txs : List Tx12) (s : GoMap ℕ × GoMap Bool)
    → known i (apply_loop txs s).1 ≡ (known i s.1 || touches i txs)
unfolding apply_loop
known-apply_loop i [] s = ground arith
known-apply_loop i (tx ∷ txs) s =
    ground (arith, known-apply_loop i txs (apply_tx tx s), known-apply_tx i tx s)

unique-apply_loop :
    (txs : List Tx12) (s : GoMap ℕ × GoMap Bool)
    → HasUniqueKeys s.1
    → HasUniqueKeys (apply_loop txs s).1
unfolding apply_loop apply_tx
unique-apply_loop [] s h = h
unique-apply_loop (tx ∷ txs) (state, changed) h =
    unique-apply_loop txs (apply_tx tx (state, changed)) (
      insert-HasUniqueKeys tx.receiver_index true (insert tx.sender_index true changed)
        (insert-HasUniqueKeys tx.sender_index true changed h))

-- The count that `applyTxs` returns is the size of the set of the indices that the batch names: the
-- keys are listed once each, and are exactly the senders and receivers.
pub apply_txs-delta_count :
    (txs : List Tx12) (state : GoMap ℕ)
    → (keys : GoMap Bool) × ((apply_txs txs state).1 ≡ length keys)
      × HasUniqueKeys keys
      × ((i : ℕ) → known i keys ≡ touches i txs)
unfolding apply_txs
apply_txs-delta_count [] state = ([], refl, tt, λ i. refl)
apply_txs-delta_count (tx ∷ txs) state = (
  (apply_loop (tx ∷ txs) (state, [])).1,
  refl,
  unique-apply_loop (tx ∷ txs) (state, []) tt,
  λ i. known-apply_loop i (tx ∷ txs) (state, []),
)
