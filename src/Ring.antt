-- ===== src/Ring.antt =====
-- The lock-free ring of internal/queue/ring.go. Every access to shared memory is a step of its own,
-- so that calls can be interleaved; positions and sequence numbers are uint64 and wrap at 2 ^ 64.
-- The int64 `length` is kept as its 64-bit pattern.
pub mod Alone
pub mod Kept
pub mod Queue
pub mod Refine
pub mod New
pub mod Threads
use hyper_l.Base.{
  ℕ, zero, suc, ◌+◌, ◌-◌, ◌*◌, ◌/◌, ◌%◌, ◌^◌, ◌<◌, bit_and, Bool, true, false, if◌then◌else◌, ltb,
  ◌==◌, not, ◌||◌, Option, none, some, List, [], ◌∷◌, length, get_or, set,
}
use hyper_l.Base.Int.{ℤ, signed64}

pub record Cell {ℓ} (A : Type ℓ) : Type ℓ where
  pub sequence : ℕ
  pub value : A

pub record Ring {ℓ} (A : Type ℓ) : Type ℓ where
  pub mask : ℕ
  pub cells : List (Cell A)
  pub enqueue_pos : ℕ
  pub dequeue_pos : ℕ
  pub count : ℕ

-- The sign of `int64(seq) - int64(pos)`, which wraps.
pub data Dif : Type 0 where
  same behind ahead : Dif

abbrev pub dif : ℕ → ℕ → Dif
dif seq pos =
    let w = (seq + 2 ^ 64 - pos) % 2 ^ 64 in
    if w == 0 then same else if ltb w (2 ^ 63) then ahead else behind

-- Where a call stands, with the local variables that are live there.
pub data Pc {ℓ} (A : Type ℓ) : Type ℓ where
  idle : Pc A
  enq_start : A → Pc A  -- head of the loop in `Enqueue`
  enq_loaded : A → ℕ → Pc A  -- before `c.sequence.Load()`
  enq_checked : A → ℕ → Pc A  -- before the compare-and-swap
  enq_claimed : A → ℕ → Pc A  -- before `c.value = v`
  enq_written : A → ℕ → Pc A  -- before `c.sequence.Store(pos + 1)`
  enq_stored : Pc A  -- before `q.length.Add(1)`
  enq_returned : Bool → Pc A
  deq_start : Pc A  -- head of the loop in `Dequeue`
  deq_loaded : ℕ → Pc A
  deq_checked : ℕ → Pc A
  deq_claimed : ℕ → Pc A  -- before `v := c.value`
  deq_read : ℕ → A → Pc A  -- before `c.value = zero`
  deq_cleared : ℕ → A → Pc A  -- before `c.sequence.Store(pos + q.mask + 1)`
  deq_stored : ℕ → A → Pc A  -- before `q.length.Add(-1)`
  deq_returned : Option A → Pc A

-- The `switch` of `Enqueue` and that of `Dequeue`.
abbrev pub enq_switch {ℓ} : {A : Type ℓ} → A → ℕ → Dif → Pc A
enq_switch v pos same = enq_checked v pos
enq_switch v pos behind = enq_returned false
enq_switch v pos ahead = enq_start v

abbrev pub deq_switch {ℓ} : {A : Type ℓ} → ℕ → Dif → Pc A
deq_switch pos same = deq_checked pos
deq_switch pos behind = deq_returned none
deq_switch pos ahead = deq_start

module _ {ℓ} {A : Type ℓ} (zero_value : A) where
  abbrev pub zero_cell : Cell A
  zero_cell = record { sequence = 0; value = zero_value }

  -- `for i := 0; i < capacity; i++ { cells[i].sequence.Store(i) }`, from `i` on
  abbrev pub fresh_cells : ℕ → ℕ → List (Cell A)
  fresh_cells i zero = []
  fresh_cells i (suc n) = record { sequence = i; value = zero_value } ∷ fresh_cells (i + 1) n

  -- `NewRing`; `none` is ErrCapacityPowerOfTwo.
  pub new_ring : ℕ → Option (Ring A)
  new_ring capacity =
      if ltb capacity 2 || not (bit_and capacity (capacity - 1) == 0)
      then none
      else some record {
        mask = capacity - 1;
        cells = fresh_cells 0 capacity;
        enqueue_pos = 0;
        dequeue_pos = 0;
        count = 0;
      }

  -- `q.cells[pos&q.mask]`
  abbrev pub cell_at : Ring A → ℕ → Cell A
  cell_at q pos = get_or q.cells (bit_and pos q.mask) zero_cell

  abbrev pub set_value : Ring A → ℕ → A → Ring A
  set_value q pos v = record q {
    cells = set q.cells (bit_and pos q.mask) (record (cell_at q pos) { value = v });
  }

  abbrev pub set_sequence : Ring A → ℕ → ℕ → Ring A
  set_sequence q pos n = record q {
    cells = set q.cells (bit_and pos q.mask) (record (cell_at q pos) { sequence = n });
  }

  -- One step of a call: what `Enqueue` and `Dequeue` do up to the next access to shared memory.
  unfoldable pub step : Ring A → Pc A → Ring A × Pc A
  step q idle = (q, idle)
  step q (enq_start v) = (q, enq_loaded v q.enqueue_pos)
  step q (enq_loaded v pos) = (q, enq_switch v pos (dif (cell_at q pos).sequence pos))
  step q (enq_checked v pos) =
      if q.enqueue_pos == pos
      then (record q { enqueue_pos = (pos + 1) % 2 ^ 64 }, enq_claimed v pos)
      else (q, enq_start v)
  step q (enq_claimed v pos) = (set_value q pos v, enq_written v pos)
  step q (enq_written v pos) = (set_sequence q pos ((pos + 1) % 2 ^ 64), enq_stored)
  step q enq_stored = (record q { count = (q.count + 1) % 2 ^ 64 }, enq_returned true)
  step q (enq_returned b) = (q, enq_returned b)
  step q deq_start = (q, deq_loaded q.dequeue_pos)
  step q (deq_loaded pos) = (q, deq_switch pos (dif (cell_at q pos).sequence ((pos + 1) % 2 ^ 64)))
  step q (deq_checked pos) =
      if q.dequeue_pos == pos
      then (record q { dequeue_pos = (pos + 1) % 2 ^ 64 }, deq_claimed pos)
      else (q, deq_start)
  step q (deq_claimed pos) = (q, deq_read pos (cell_at q pos).value)
  step q (deq_read pos v) = (set_value q pos zero_value, deq_cleared pos v)
  step q (deq_cleared pos v) = (set_sequence q pos ((pos + q.mask + 1) % 2 ^ 64), deq_stored pos v)
  step q (deq_stored pos v) =
      (record q { count = (q.count + (2 ^ 64 - 1)) % 2 ^ 64 }, deq_returned (some v))
  step q (deq_returned r) = (q, deq_returned r)

  -- A call that no other call interrupts.
  pub run_alone : ℕ → Ring A × Pc A → Ring A × Pc A
  run_alone zero s = s
  run_alone (suc fuel) (q, pc) = run_alone fuel (step q pc)

  -- `Enqueue`, uninterrupted. Six steps are enough on a ring that no other call is changing.
  pub enqueue : Ring A → A → Ring A × Pc A
  unfolding run_alone
  enqueue q v = run_alone 6 (q, enq_start v)

  -- `Dequeue`, uninterrupted; seven steps.
  pub dequeue : Ring A → Ring A × Pc A
  unfolding run_alone
  dequeue q = run_alone 7 (q, deq_start)

-- `Len`
pub len {ℓ} : {A : Type ℓ} → Ring A → ℤ
len q = signed64 q.count

-- `Capacity`
pub capacity {ℓ} : {A : Type ℓ} → Ring A → ℕ
capacity q = length q.cells
