-- ===== src/Ring/Threads/Refusals.antt =====
-- When Enqueue and Dequeue of internal/queue/ring.go refuse while other calls are under way.
use native.Mathlib.Decide.{dec_lt}
use hyper_l.Base.{
  ℕ, ◌+◌, ◌-◌, ◌%◌, ◌^◌, ◌<◌, ◌≤◌, ◌≡◌, ◌⊎◌, ◌∙◌, arith, false, none, some, List, length, subst,
  inl, inr,
}
use hyper_l.Ring.{
  step, dif, enq_switch, deq_switch, enq_loaded, enq_returned, deq_loaded, deq_returned,
}
use hyper_l.Ring.Alone.{seq_of}
use hyper_l.Ring.Threads.{Act, pc_of, after}
use hyper_l.Ring.Threads.View.{View, IsSound, Knows, writing, reading}
use hyper_l.Ring.Threads.Claims.{seq_bound}
use hyper_l.Ring.Threads.Invariant.{view}
use hyper_l.Ring.Threads.Steps.{dif_cases}
use hyper_l.Ring.Threads.Begin.{two}
use hyper_l.Ring.Alone.{same_slot_apart}
use hyper_l.Ring.Threads.Safety.{holds, claimed_few}

module _ {A : Type 0} where
  switch_refused :
      (v : A) (p : ℕ) (s t : ℕ)
      → s < 2 ^ 63
      → t < 2 ^ 63
      → enq_switch v p (dif s t) ≡ enq_returned false
      → s < t
  switch_refused v p s t a b e = elim (dif_cases s t a b) [
    | inl q ↦ absurd (ground (arith, e, q.1))
    | inr (inl q) ↦ q.0
    | inr (inr q) ↦ absurd (ground (arith, e, q.1))
  ]

  get_switch_refused :
      (p : ℕ) (s t : ℕ)
      → s < 2 ^ 63
      → t < 2 ^ 63
      → deq_switch {A = A} p (dif s t) ≡ deq_returned none
      → s < t
  get_switch_refused p s t a b e = elim (dif_cases s t a b) [
    | inl q ↦ absurd (ground (arith, e, q.1))
    | inr (inl q) ↦ q.0
    | inr (inr q) ↦ absurd (ground (arith, e, q.1))
  ]

  -- A cell that lags behind its next ticket belongs to the ticket a round before.
  enqueue_behind :
      (c : ℕ) (x : View A) (p : ℕ)
      → IsSound c x
      → p ≤ x.enq
      → x.seq p < p
      → (p ≡ x.enq) × ((x.enq ≡ x.deq + c) ⊎ ((i : ℕ) × (x.reader i ≡ some (x.enq - c))))
  enqueue_behind c x p h l b = let (u, e, m) = h.cover p in at u e (h.same_seq u p e) m
    where
      at :
          (u : ℕ)
          → u % c ≡ p % c
          → x.seq u ≡ x.seq p
          → (x.seq p ≡ u) ⊎ (x.seq p ≡ u + 1)
          → (p ≡ x.enq) × ((x.enq ≡ x.deq + c) ⊎ ((i : ℕ) × (x.reader i ≡ some (x.enq - c))))
      at u e q (inl m) =
          let (d, w, n) = h.free u (q ∙ m) in
          let r : u + c ≤ p = same_slot_apart c u p e (omega arith) in
          (omega arith, inl (omega (arith, h.within)))
      at u e q (inr m) =
          let (l', w, n) = h.full u (q ∙ m) in
          let r : u + c ≤ p = same_slot_apart c u p e (omega arith) in
          let back : u ≡ x.enq - c = omega arith in
          (
            omega arith,
            elim (dec_lt u x.deq) [
              | yes g ↦
                  let (i, k) = h.full_held u (q ∙ m) g in
                  inr (i, subst (λ t. x.reader i ≡ some t) back k)
              | no g ↦ inl (omega (arith, h.within))
            ],
          )

  dequeue_behind :
      (c : ℕ) (x : View A) (p : ℕ)
      → IsSound c x
      → p ≤ x.deq
      → x.seq p < p + 1
      → (p ≡ x.deq) × ((x.enq ≡ x.deq) ⊎ ((i : ℕ) × (x.writer i ≡ some x.deq)))
  dequeue_behind c x p h l b = let (u, e, m) = h.cover p in at u e (h.same_seq u p e) m
    where
      at :
          (u : ℕ)
          → u % c ≡ p % c
          → x.seq u ≡ x.seq p
          → (x.seq p ≡ u) ⊎ (x.seq p ≡ u + 1)
          → (p ≡ x.deq) × ((x.enq ≡ x.deq) ⊎ ((i : ℕ) × (x.writer i ≡ some x.deq)))
      at u e q (inl m) =
          let (d, w, n) = h.free u (q ∙ m) in
          let here : u ≡ x.deq = omega arith in
          (
            omega arith,
            elim (dec_lt u x.enq) [
              | yes g ↦
                  let (i, k) = h.free_held u (q ∙ m) g in
                  inr (i, subst (λ t. x.writer i ≡ some t) here k)
              | no g ↦ inl (omega (arith, h.ordered))
            ],
          )
      at u e q (inr m) =
          let (l', w, n) = h.full u (q ∙ m) in
          let r : u + c ≤ p = same_slot_apart c u p e (omega arith) in
          (omega (arith, h.ordered), inl (omega (arith, h.ordered)))

module _ {A : Type 0} (zero_value : A) (k : ℕ) (big : 1 ≤ k) (n : ℕ) (acts : List (ℕ × Act A))
    (far : length acts + 2 ^ k + 1 < 2 ^ 63) where
  -- After any schedule on a new ring of 2 ^ k cells, k at least 1, that is shorter than 2 ^ 63 less
  -- the number of cells and one: an Enqueue refuses only if, at the moment when it looks at the
  -- cell, as many tickets as there are cells have been claimed and not been taken, or a Dequeue
  -- that has taken the ticket a round before the next one has not released its cell yet.
  pub enqueue_refusal :
      (j p : ℕ) (v : A)
      → pc_of (after zero_value k n acts) j ≡ enq_loaded v p
      → (step zero_value (after zero_value k n acts).ring (enq_loaded v p)).1 ≡ enq_returned false
      → (p ≡ (after zero_value k n acts).ring.enqueue_pos)
        × (((after zero_value k n acts).ring.enqueue_pos
              ≡ (after zero_value k n acts).ring.dequeue_pos + 2 ^ k)
            ⊎ ((i : ℕ) × (reading (pc_of (after zero_value k n acts) i)
                  ≡ some ((after zero_value k n acts).ring.enqueue_pos - 2 ^ k))))
  unfolding step
  enqueue_refusal j p v e r =
      let s = after zero_value k n acts in
      let h = holds zero_value k big n acts far in
      let x = view zero_value s in
      let l : p ≤ (after zero_value k n acts).ring.enqueue_pos = subst (Knows x) e (h.knows j) in
      let few : (after zero_value k n acts).ring.enqueue_pos ≤ length acts =
        claimed_few zero_value k big n acts far in
      let b : seq_of zero_value (after zero_value k n acts).ring p
          < (after zero_value k n acts).ring.enqueue_pos + 2 ^ k =
        seq_bound (2 ^ k) x p (two zero_value k big) h.sound in
      enqueue_behind (2 ^ k) x p h.sound l
        (switch_refused v p (x.seq p) p (omega arith) (omega arith) r)

  -- After any schedule on a new ring of 2 ^ k cells, k at least 1, that is shorter than 2 ^ 63 less
  -- the number of cells and one: a Dequeue finds nothing only if, at the moment when it looks at
  -- the cell, every claimed ticket has been taken, or the Enqueue that has claimed the next one has
  -- not published it yet.
  pub dequeue_refusal :
      (j p : ℕ)
      → let s = after zero_value k n acts in
        pc_of (after zero_value k n acts) j ≡ deq_loaded p
        → (step zero_value (after zero_value k n acts).ring (deq_loaded p)).1 ≡ deq_returned none
        → (p ≡ (after zero_value k n acts).ring.dequeue_pos)
          × (((after zero_value k n acts).ring.enqueue_pos
                ≡ (after zero_value k n acts).ring.dequeue_pos)
              ⊎ ((i : ℕ) × (writing (pc_of (after zero_value k n acts) i)
                    ≡ some (after zero_value k n acts).ring.dequeue_pos)))
  unfolding step
  dequeue_refusal j p e r =
      let s = after zero_value k n acts in
      let s = after zero_value k n acts in
      let h = holds zero_value k big n acts far in
      let x = view zero_value s in
      let l : p ≤ s.ring.dequeue_pos = subst (Knows x) e (h.knows j) in
      let few : s.ring.enqueue_pos ≤ length acts = claimed_few zero_value k big n acts far in
      let o : s.ring.dequeue_pos ≤ s.ring.enqueue_pos = h.sound.ordered in
      let b : seq_of zero_value s.ring p < s.ring.enqueue_pos + 2 ^ k =
        seq_bound (2 ^ k) x p (two zero_value k big) h.sound in
      let wrap : (p + 1) % 2 ^ 64 ≡ p + 1 = omega arith in
      dequeue_behind (2 ^ k) x p h.sound l (
        get_switch_refused {A = A} p (x.seq p) (p + 1) (omega arith) (omega arith)
          (subst (λ m. deq_switch {A = A} p (dif (x.seq p) m) ≡ deq_returned none) wrap r))
