-- ===== src/Ring/Kept.antt =====
-- A quiet ring of internal/queue/ring.go after a value was appended or removed.
use native.Mathlib.Decide.{ℕ_discrete}
use native.Mathlib.Nat.{add-mod_right}
use hyper_l.Base.{
  ℕ, zero, suc, ◌+◌, ◌-◌, ◌%◌, ◌^◌, ◌<◌, ◌≤◌, ◌≡◌, refl, sym, ap, ap₂, ◌∙◌, arith, if◌then◌else◌,
  ◌==◌, [], ◌∷◌, ◌++◌, length, length-set,
}
use hyper_l.Ring.{Ring, set_value, set_sequence}
use hyper_l.Ring.Alone.{
  same_slot_apart, seq_of, value_of, HasShape, seq_of-set_value, value_of-set_value,
  seq_of-set_sequence, value_of-set_sequence, IsQuiet, window, contents,
}
use hyper_l.Ring.Alone.Calls.{appended, removed}

module _ {A : Type 0} (zero_value : A) where
  -- The shape depends on the mask and the number of cells alone.
  pub HasShape-of :
      (k : ℕ) {q r : Ring A}
      → r.mask ≡ q.mask
      → length r.cells ≡ length q.cells
      → HasShape zero_value k q
      → HasShape zero_value k r
  HasShape-of k m l h = record { big = h.big; mask_is = m ∙ h.mask_is; cells_are = l ∙ h.cells_are }

  -- Writing value and sequence of one ticket's cell.
  seq_of-rewritten :
      (k : ℕ) (q : Ring A) (p t n : ℕ) (v : A)
      → HasShape zero_value k q
      → seq_of zero_value (set_sequence zero_value (set_value zero_value q p v) p n) t
        ≡ (if t % 2 ^ k == p % 2 ^ k then n else seq_of zero_value q t)
  seq_of-rewritten k q p t n v h =
      seq_of-set_sequence zero_value k (set_value zero_value q p v) p t n
        (HasShape-of k {q = q} refl (length-set q.cells _ _) h)
      ∙ ap (λ s. if t % 2 ^ k == p % 2 ^ k then n else s) (seq_of-set_value zero_value k q p t v h)

  value_of-rewritten :
      (k : ℕ) (q : Ring A) (p t n : ℕ) (v : A)
      → HasShape zero_value k q
      → value_of zero_value (set_sequence zero_value (set_value zero_value q p v) p n) t
        ≡ (if t % 2 ^ k == p % 2 ^ k then v else value_of zero_value q t)
  value_of-rewritten k q p t n v h =
      value_of-set_sequence zero_value k (set_value zero_value q p v) p t n
        (HasShape-of k {q = q} refl (length-set q.cells _ _) h)
      ∙ value_of-set_value zero_value k q p t v h

  pub appended-IsQuiet :
      (k : ℕ) (q : Ring A) (v : A)
      → IsQuiet zero_value k q
      → q.enqueue_pos < q.dequeue_pos + 2 ^ k
      → IsQuiet zero_value k (appended zero_value q v)
  appended-IsQuiet k q v h room = record {
    shape =
        HasShape-of k {q = q} refl
          (length-set (set_value zero_value q q.enqueue_pos v).cells _ _ ∙ length-set q.cells _ _)
          h.shape;
    ordered = omega (arith, h.ordered);
    within = omega arith;
    counted = omega (arith, h.counted);
    filled = λ t from below. ground (
      arith,
      seq_of-rewritten k q q.enqueue_pos t (q.enqueue_pos + 1) v h.shape,
      same_slot_apart (2 ^ k) t q.enqueue_pos,
      h.filled t,
      h.ordered,
    );
    free = λ t from below. ground (
      arith,
      seq_of-rewritten k q q.enqueue_pos t (q.enqueue_pos + 1) v h.shape,
      same_slot_apart (2 ^ k) q.enqueue_pos t,
      h.free t,
      h.ordered,
    );
  }

  pub removed-IsQuiet :
      (k : ℕ) (q : Ring A)
      → IsQuiet zero_value k q
      → q.dequeue_pos < q.enqueue_pos
      → IsQuiet zero_value k (removed zero_value k q)
  removed-IsQuiet k q h some_left = record {
    shape =
        HasShape-of k {q = q} refl
          (length-set (set_value zero_value q q.dequeue_pos zero_value).cells _ _
            ∙ length-set q.cells _ _)
          h.shape;
    ordered = omega arith;
    within = omega (arith, h.within);
    counted = omega (arith, h.counted);
    filled = λ t from below. ground (
      arith,
      seq_of-rewritten k q q.dequeue_pos t (q.dequeue_pos + 2 ^ k) zero_value h.shape,
      same_slot_apart (2 ^ k) q.dequeue_pos t,
      h.filled t,
      h.within,
    );
    free = λ t from below. elim (ℕ_discrete t (q.dequeue_pos + 2 ^ k)) [
      | yes e ↦ ground (
        arith,
        seq_of-rewritten k q q.dequeue_pos t (q.dequeue_pos + 2 ^ k) zero_value h.shape,
        ap (λ n. n % 2 ^ k) e ∙ add-mod_right q.dequeue_pos (2 ^ k),
      )
      | no e ↦ ground (
        arith,
        seq_of-rewritten k q q.dequeue_pos t (q.dequeue_pos + 2 ^ k) zero_value h.shape,
        same_slot_apart (2 ^ k) q.dequeue_pos t,
        h.free t,
        h.within,
      )
    ];
  }

  window_ext :
      (q r : Ring A) (t n : ℕ)
      → ((s : ℕ) → t ≤ s → s < t + n → value_of zero_value r s ≡ value_of zero_value q s)
      → window zero_value r t n ≡ window zero_value q t n
  window_ext q r t zero h = refl
  window_ext q r t (suc n) h =
      ap₂ ◌∷◌ (h t (omega arith) (omega arith))
        (window_ext q r (t + 1) n (λ s l b. h s (omega arith) (omega arith)))

  window-last :
      (q : Ring A) (t n : ℕ)
      → window zero_value q t (suc n)
        ≡ window zero_value q t n ++ value_of zero_value q (t + n) ∷ []
  window-last q t zero = ap (λ s. value_of zero_value q s ∷ []) (omega arith)
  window-last q t (suc n) =
      ap (λ xs. value_of zero_value q t ∷ xs)
        (window-last q (t + 1) n
          ∙ ap (λ s. window zero_value q (t + 1) n ++ value_of zero_value q s ∷ []) (omega arith))

  pub length-window : (q : Ring A) (t n : ℕ) → length (window zero_value q t n) ≡ n
  length-window q t zero = refl
  length-window q t (suc n) = ap suc (length-window q (t + 1) n)

  pub contents-appended :
      (k : ℕ) (q : Ring A) (v : A)
      → IsQuiet zero_value k q
      → q.enqueue_pos < q.dequeue_pos + 2 ^ k
      → contents zero_value (appended zero_value q v) ≡ contents zero_value q ++ v ∷ []
  contents-appended k q v h room =
      ap (window zero_value (appended zero_value q v) q.dequeue_pos)
        {y = suc (q.enqueue_pos - q.dequeue_pos)} (omega (arith, h.ordered))
      ∙ window-last (appended zero_value q v) q.dequeue_pos (q.enqueue_pos - q.dequeue_pos)
      ∙ ap₂ (λ xs x. xs ++ x ∷ []) older newest
    where
      older :
          window zero_value (appended zero_value q v) q.dequeue_pos (q.enqueue_pos - q.dequeue_pos)
          ≡ contents zero_value q
      older =
          window_ext q (appended zero_value q v) q.dequeue_pos (q.enqueue_pos - q.dequeue_pos)
            (λ s l b. ground (
              arith,
              value_of-rewritten k q q.enqueue_pos s (q.enqueue_pos + 1) v h.shape,
              same_slot_apart (2 ^ k) s q.enqueue_pos,
            ))

      newest :
          value_of zero_value
            (appended zero_value q v)
            (q.dequeue_pos + (q.enqueue_pos - q.dequeue_pos))
          ≡ v
      newest =
          ap (value_of zero_value (appended zero_value q v)) {y = q.enqueue_pos}
            (omega (arith, h.ordered))
          ∙ ground (
            arith,
            value_of-rewritten k q q.enqueue_pos q.enqueue_pos (q.enqueue_pos + 1) v h.shape,
          )

  pub contents-removed :
      (k : ℕ) (q : Ring A)
      → IsQuiet zero_value k q
      → q.dequeue_pos < q.enqueue_pos
      → contents zero_value q
        ≡ value_of zero_value q q.dequeue_pos ∷ contents zero_value (removed zero_value k q)
  contents-removed k q h some_left =
      ap (window zero_value q q.dequeue_pos) {y = suc (q.enqueue_pos - (q.dequeue_pos + 1))}
        (omega arith)
      ∙ ap (λ xs. value_of zero_value q q.dequeue_pos ∷ xs)
          (sym (
            window_ext q (removed zero_value k q) (q.dequeue_pos + 1)
              (q.enqueue_pos - (q.dequeue_pos + 1))
              (λ s l b. ground (
                arith,
                value_of-rewritten k q q.dequeue_pos s (q.dequeue_pos + 2 ^ k) zero_value h.shape,
                same_slot_apart (2 ^ k) q.dequeue_pos s,
                h.within,
              ))))
