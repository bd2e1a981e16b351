-- ===== src/Ring/Alone/Calls.antt =====
-- Uninterrupted calls on the ring of internal/queue/ring.go, on each branch.
use hyper_l.Base.{
  ℕ, ◌+◌, ◌-◌, ◌%◌, ◌^◌, ◌<◌, ◌≡◌, sym, ap, ap₂, ◌∙◌, arith, true, false, if◌then◌else◌, ==_refl,
  none, some, get_or,
}
use native.Mathlib.Nat.{add-mod_right, pow-le-pow_right, one-le-pow}
use hyper_l.Ring.{
  Ring, enq_returned, deq_returned, enqueue, dequeue, run_alone, step, zero_cell, same, behind,
  set_value, set_sequence, enq_switch, deq_switch, enq_claimed, enq_start, deq_claimed, deq_start,
}
use hyper_l.Ring.Alone.{IsQuiet, dif-behind, dif-same, seq_of, slot, value_of}

module _ {A : Type 0} (zero_value : A) where
  seq_full :
      (k : ℕ) (q : Ring A)
      → IsQuiet zero_value k q
      → q.enqueue_pos ≡ q.dequeue_pos + 2 ^ k
      → seq_of zero_value q q.enqueue_pos ≡ q.dequeue_pos + 1
  seq_full k q h e =
      ap (λ i. (get_or q.cells i (zero_cell zero_value)).sequence)
        (slot zero_value k q q.enqueue_pos h.shape
          ∙ ap (λ n. n % 2 ^ k) e
          ∙ add-mod_right q.dequeue_pos (2 ^ k)
          ∙ sym (slot zero_value k q q.dequeue_pos h.shape))
      ∙ h.filled q.dequeue_pos (omega arith) (omega (arith, one-le-pow k 2 (omega arith)))

  -- A full ring refuses, and is left as it was.
  pub enqueue_full :
      (k : ℕ) (q : Ring A) (v : A)
      → IsQuiet zero_value k q
      → q.enqueue_pos < 2 ^ 63
      → q.enqueue_pos ≡ q.dequeue_pos + 2 ^ k
      → enqueue zero_value q v ≡ (q, enq_returned false)
  unfolding enqueue step
  enqueue_full k q v h l e =
      ap (λ d. run_alone zero_value 4 (q, enq_switch v q.enqueue_pos d)) {y = behind}
        (rw (seq_full k q h e) (dif-behind (q.dequeue_pos + 1) q.enqueue_pos two l))
    where
      two : q.dequeue_pos + 1 < q.enqueue_pos
      two = omega (arith, e, pow-le-pow_right {n = 2} (omega arith) {i = 1} {j = k} h.shape.big)

  -- What an uninterrupted `Enqueue` leaves when the cell of its ticket is free.
  abbrev pub appended_at : Ring A → A → ℕ → ℕ → Ring A
  appended_at q v n c =
      record (set_sequence zero_value (set_value zero_value q q.enqueue_pos v) q.enqueue_pos n) {
        enqueue_pos = n;
        count = c;
      }

  abbrev pub appended : Ring A → A → Ring A
  appended q v = appended_at q v (q.enqueue_pos + 1) (q.count + 1)

  pub enqueue_free :
      (k : ℕ) (q : Ring A) (v : A)
      → IsQuiet zero_value k q
      → q.enqueue_pos + 1 < 2 ^ 63
      → q.enqueue_pos < q.dequeue_pos + 2 ^ k
      → enqueue zero_value q v ≡ (appended q v, enq_returned true)
  unfolding enqueue step
  enqueue_free k q v h l e =
      ap (λ d. run_alone zero_value 4 (q, enq_switch v q.enqueue_pos d)) {y = same}
        (rw (h.free q.enqueue_pos (omega arith) e) (dif-same q.enqueue_pos))
      ∙ ap
          (λ b. run_alone zero_value 3 (
            if b
            then (
              record q { enqueue_pos = (q.enqueue_pos + 1) % 2 ^ 64 },
              enq_claimed v q.enqueue_pos,
            )
            else (q, enq_start v)))
          (==_refl q.enqueue_pos)
      ∙ ap₂ (λ n c. (appended_at q v n c, enq_returned true)) (omega arith)
          (omega (arith, h.counted))

  -- What an uninterrupted `Dequeue` leaves when the cell of its ticket is filled.
  abbrev pub removed_at : Ring A → ℕ → ℕ → ℕ → Ring A
  removed_at q n m c =
      record (set_sequence zero_value (set_value zero_value q q.dequeue_pos zero_value)
        q.dequeue_pos m) { dequeue_pos = n; count = c }

  abbrev pub removed : ℕ → Ring A → Ring A
  removed k q = removed_at q (q.dequeue_pos + 1) (q.dequeue_pos + 2 ^ k) (q.count - 1)

  pub dequeue_filled :
      (k : ℕ) (q : Ring A)
      → IsQuiet zero_value k q
      → q.enqueue_pos + 2 ^ k < 2 ^ 63
      → q.dequeue_pos < q.enqueue_pos
      → dequeue zero_value q
        ≡ (removed k q, deq_returned (some (value_of zero_value q q.dequeue_pos)))
  unfolding dequeue step
  dequeue_filled k q h l e =
      ap (λ d. run_alone zero_value 5 (q, deq_switch q.dequeue_pos d)) {y = same}
        (rw (h.filled q.dequeue_pos (omega arith) e, wrap) (dif-same (q.dequeue_pos + 1)))
      ∙ ap
          (λ b. run_alone zero_value 4 (
            if b
            then (
              record q { dequeue_pos = (q.dequeue_pos + 1) % 2 ^ 64 },
              deq_claimed q.dequeue_pos,
            )
            else (q, deq_start)))
          (==_refl q.dequeue_pos)
      ∙ (λ i. (
        removed_at q (wrap i) (round i) (down i),
        deq_returned (some (value_of zero_value q q.dequeue_pos)),
      ))
    where
      wrap : (q.dequeue_pos + 1) % 2 ^ 64 ≡ q.dequeue_pos + 1
      wrap = omega arith

      round : (q.dequeue_pos + q.mask + 1) % 2 ^ 64 ≡ q.dequeue_pos + 2 ^ k
      round = omega (arith, h.shape.mask_is, one-le-pow k 2 (omega arith))

      down : (q.count + (2 ^ 64 - 1)) % 2 ^ 64 ≡ q.count - 1
      down = omega (arith, h.counted)

  -- An empty ring has nothing to give, and is left as it was.
  pub dequeue_empty :
      (k : ℕ) (q : Ring A)
      → IsQuiet zero_value k q
      → q.enqueue_pos + 1 < 2 ^ 63
      → q.dequeue_pos ≡ q.enqueue_pos
      → dequeue zero_value q ≡ (q, deq_returned none)
  unfolding dequeue step
  dequeue_empty k q h l e =
      ap (λ d. run_alone zero_value 5 (q, deq_switch q.dequeue_pos d)) {y = behind}
        (rw (h.free q.dequeue_pos (omega arith) (omega (arith, one-le-pow k 2 (omega arith))), wrap)
          (dif-behind q.dequeue_pos (q.dequeue_pos + 1) (omega arith) (omega arith)))
    where
      wrap : (q.dequeue_pos + 1) % 2 ^ 64 ≡ q.dequeue_pos + 1
      wrap = omega arith
