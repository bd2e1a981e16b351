-- ===== src/Ring/Threads/View.antt =====
-- What the goroutines on a ring of internal/queue/ring.go rely on: who holds which ticket, what the
-- cells say of their tickets, and what a goroutine knows where it stands.
use hyper_l.Base.{ℕ, ◌+◌, ◌%◌, ◌<◌, ◌≤◌, ◌≡◌, ◌⊎◌, Option, none, some, List, get_elem?, length}
use hyper_l.Ring.{
  Pc, enq_loaded, enq_checked, enq_claimed, enq_written, deq_loaded, deq_checked, deq_claimed,
  deq_read, deq_cleared, deq_stored,
}

-- The ticket whose cell a call is filling, and the one whose cell a call is emptying.
abbrev pub writing {ℓ} : {A : Type ℓ} → Pc A → Option ℕ
writing (enq_claimed v pos) = some pos
writing (enq_written v pos) = some pos
writing pc = none

abbrev pub reading {ℓ} : {A : Type ℓ} → Pc A → Option ℕ
reading (deq_claimed pos) = some pos
reading (deq_read pos v) = some pos
reading (deq_cleared pos v) = some pos
reading pc = none

-- No two goroutines hold one ticket.
abbrev pub HeldOnce : (ℕ → Option ℕ) → Type 0
HeldOnce f = (i j u : ℕ) → f i ≡ some u → f j ≡ some u → i ≡ j

-- The shared memory by tickets, and the tickets that the goroutines hold.
pub record View (A : Type 0) : Type 0 where
  pub enq : ℕ
  pub deq : ℕ
  pub seq : ℕ → ℕ
  pub val : ℕ → A
  pub writer : ℕ → Option ℕ
  pub reader : ℕ → Option ℕ
  pub pushed : List A

-- A cell whose sequence is its ticket waits to be filled; one past its ticket, to be emptied.
pub record IsSound {A : Type 0} (c : ℕ) (x : View A) : Type 0 where
  pub same_seq : (s t : ℕ) → s % c ≡ t % c → x.seq s ≡ x.seq t
  pub cover : (t : ℕ) → (u : ℕ) × (u % c ≡ t % c) × ((x.seq t ≡ u) ⊎ (x.seq t ≡ u + 1))
  pub free : (u : ℕ) → x.seq u ≡ u → (x.deq ≤ u) × (u < x.deq + c) × (x.enq ≤ u + c)
  pub free_held : (u : ℕ) → x.seq u ≡ u → u < x.enq → (i : ℕ) × (x.writer i ≡ some u)
  pub full : (u : ℕ) → x.seq u ≡ u + 1 → (u < x.enq) × (u < x.deq + c) × (x.enq ≤ u + c)
  pub full_held : (u : ℕ) → x.seq u ≡ u + 1 → u < x.deq → (i : ℕ) × (x.reader i ≡ some u)
  pub full_value : (u : ℕ) → x.seq u ≡ u + 1 → x.deq ≤ u → get_elem? x.pushed u ≡ some (x.val u)
  pub writes : (i u : ℕ) → x.writer i ≡ some u → (u < x.enq) × (x.seq u ≡ u)
  pub reads : (i u : ℕ) → x.reader i ≡ some u → (u < x.deq) × (x.seq u ≡ u + 1)
  pub one_writer : HeldOnce x.writer
  pub one_reader : HeldOnce x.reader
  pub valued : length x.pushed ≡ x.enq
  pub ordered : x.deq ≤ x.enq
  pub within : x.enq ≤ x.deq + c

-- What a goroutine knows where it stands.
abbrev pub Knows : {A : Type 0} → View A → Pc A → Type 0
Knows x (enq_loaded v pos) = pos ≤ x.enq
Knows x (enq_checked v pos) = (pos < x.enq) ⊎ ((pos ≡ x.enq) × (x.seq pos ≡ pos))
Knows x (enq_claimed v pos) = get_elem? x.pushed pos ≡ some v
Knows x (enq_written v pos) = (get_elem? x.pushed pos ≡ some v) × (x.val pos ≡ v)
Knows x (deq_loaded pos) = pos ≤ x.deq
Knows x (deq_checked pos) = (pos < x.deq) ⊎ ((pos ≡ x.deq) × (x.seq pos ≡ pos + 1))
Knows x (deq_claimed pos) = get_elem? x.pushed pos ≡ some (x.val pos)
Knows x (deq_read pos v) = get_elem? x.pushed pos ≡ some v
Knows x (deq_cleared pos v) = get_elem? x.pushed pos ≡ some v
Knows x (deq_stored pos v) = get_elem? x.pushed pos ≡ some v
Knows x pc = Unit
