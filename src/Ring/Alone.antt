-- ===== src/Ring/Alone.antt =====
-- The ring of internal/queue/ring.go while no other call is under way: its cells and its contents.
pub mod Calls
use hyper_l.Base.{
  ℕ, zero, suc, ◌+◌, ◌-◌, ◌%◌, ◌^◌, ◌<◌, ◌≤◌, bit_and, ◌≡◌, sym, ap, ap₂, ◌∙◌, arith, true, false,
  if◌then◌else◌, ◌==◌, ==_refl, none, some, List, [], ◌∷◌, length, get_or, get_or-set, ◌/◌,
}
use hyper_l.Base.Bits.{bit_and_low_mask}
use native.Mathlib.Nat.{
  mul-le-mul_right, add-mod_right, pow-le-pow_right, one-le-pow, mod-lt, div-add-mod',
}
use native.Mathlib.Decide.{dec_lt}
use hyper_l.Ring.{
  Ring, enq_returned, deq_returned, enqueue, dequeue, run_alone, step, zero_cell, cell_at, dif,
  same, behind, set_value, set_sequence, enq_switch, deq_switch, enq_claimed, enq_start,
  deq_claimed, deq_start,
}

-- Below 2 ^ 63 the wrapping difference has the sign of the true one.
pub dif-same : (p : ℕ) → dif p p ≡ same
dif-same p = ground arith

pub dif-behind : (s p : ℕ) → s < p → p < 2 ^ 63 → dif s p ≡ behind
dif-behind s p h l = ground arith

-- Two tickets of one cell are a whole round apart.
pub same_slot_apart : (c s t : ℕ) → s % c ≡ t % c → s < t → s + c ≤ t
same_slot_apart c s t e h = elim (dec_lt (s / c) (t / c)) [
  | yes p ↦ omega (
    arith,
    div-add-mod' s c,
    div-add-mod' t c,
    mul-le-mul_right {m = suc (s / c)} {n = t / c} c p,
  )
  | no p ↦ absurd (
      omega (
        arith,
        div-add-mod' s c,
        div-add-mod' t c,
        mul-le-mul_right {m = t / c} {n = s / c} c (omega arith),
      ))
]

module _ {A : Type 0} (zero_value : A) where
  abbrev pub seq_of : Ring A → ℕ → ℕ
  seq_of q t = (cell_at zero_value q t).sequence

  abbrev pub value_of : Ring A → ℕ → A
  value_of q t = (cell_at zero_value q t).value

  -- The cells of a ring of `2 ^ k`.
  pub record HasShape (k : ℕ) (q : Ring A) : Type 0 where
    pub big : 1 ≤ k
    pub mask_is : q.mask ≡ 2 ^ k - 1
    pub cells_are : length q.cells ≡ 2 ^ k

  pub slot : (k : ℕ) (q : Ring A) (t : ℕ) → HasShape k q → bit_and t q.mask ≡ t % 2 ^ k
  slot k q t h = ap (λ m. bit_and t m) h.mask_is ∙ bit_and_low_mask k t

  -- Tickets with one slot have one cell.
  pub cell_at_slot :
      (k : ℕ) (q : Ring A) (s t : ℕ)
      → HasShape k q
      → s % 2 ^ k ≡ t % 2 ^ k
      → cell_at zero_value q s ≡ cell_at zero_value q t
  cell_at_slot k q s t h e =
      ap (λ i. get_or q.cells i (zero_cell zero_value)) (slot k q s h ∙ e ∙ sym (slot k q t h))

  slot_in : (k : ℕ) (q : Ring A) (t : ℕ) → HasShape k q → bit_and t q.mask < length q.cells
  slot_in k q t h =
      omega (arith, slot k q t h, h.cells_are, mod-lt t {m = 2 ^ k} (one-le-pow k 2 (omega arith)))

  -- What a write to the cell of one ticket does to the cell of another.
  pub seq_of-set_value :
      (k : ℕ) (q : Ring A) (p t : ℕ) (v : A)
      → HasShape k q
      → seq_of (set_value zero_value q p v) t ≡ seq_of q t
  seq_of-set_value k q p t v h = ground (
    arith,
    slot k q p h,
    slot k q t h,
    get_or-set q.cells (bit_and p q.mask) (bit_and t q.mask)
        (record (cell_at zero_value q p) { value = v }) (zero_cell zero_value) (slot_in k q p h),
  )

  pub value_of-set_value :
      (k : ℕ) (q : Ring A) (p t : ℕ) (v : A)
      → HasShape k q
      → value_of (set_value zero_value q p v) t
        ≡ (if t % 2 ^ k == p % 2 ^ k then v else value_of q t)
  value_of-set_value k q p t v h = ground (
    arith,
    slot k q p h,
    slot k q t h,
    get_or-set q.cells (bit_and p q.mask) (bit_and t q.mask)
        (record (cell_at zero_value q p) { value = v }) (zero_cell zero_value) (slot_in k q p h),
  )

  pub seq_of-set_sequence :
      (k : ℕ) (q : Ring A) (p t n : ℕ)
      → HasShape k q
      → seq_of (set_sequence zero_value q p n) t
        ≡ (if t % 2 ^ k == p % 2 ^ k then n else seq_of q t)
  seq_of-set_sequence k q p t n h = ground (
    arith,
    slot k q p h,
    slot k q t h,
    get_or-set q.cells (bit_and p q.mask) (bit_and t q.mask)
        (record (cell_at zero_value q p) { sequence = n }) (zero_cell zero_value) (slot_in k q p h),
  )

  pub value_of-set_sequence :
      (k : ℕ) (q : Ring A) (p t n : ℕ)
      → HasShape k q
      → value_of (set_sequence zero_value q p n) t ≡ value_of q t
  value_of-set_sequence k q p t n h = ground (
    arith,
    slot k q p h,
    slot k q t h,
    get_or-set q.cells (bit_and p q.mask) (bit_and t q.mask)
        (record (cell_at zero_value q p) { sequence = n }) (zero_cell zero_value) (slot_in k q p h),
  )

  -- A ring in which no call is under way: the tickets from `dequeue_pos` up to `enqueue_pos` are
  -- filled, and the rest of the round is free.
  pub record IsQuiet (k : ℕ) (q : Ring A) : Type 0 where
    pub shape : HasShape k q
    pub ordered : q.dequeue_pos ≤ q.enqueue_pos
    pub within : q.enqueue_pos ≤ q.dequeue_pos + 2 ^ k
    pub counted : q.count + q.dequeue_pos ≡ q.enqueue_pos
    pub filled : (t : ℕ) → q.dequeue_pos ≤ t → t < q.enqueue_pos → seq_of q t ≡ t + 1
    pub free : (t : ℕ) → q.enqueue_pos ≤ t → t < q.dequeue_pos + 2 ^ k → seq_of q t ≡ t

  -- The values of `n` tickets from `t` on.
  abbrev pub window : Ring A → ℕ → ℕ → List A
  window q t zero = []
  window q t (suc n) = value_of q t ∷ window q (t + 1) n

  -- What a quiet ring holds, oldest first.
  abbrev pub contents : Ring A → List A
  contents q = window q q.dequeue_pos (q.enqueue_pos - q.dequeue_pos)
