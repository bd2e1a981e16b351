-- ===== src/Ring/Threads/Progress.antt =====
-- How the loops of Enqueue and Dequeue of internal/queue/ring.go come to an end.
use native.Mathlib.Decide.{ℕ_discrete, dec_lt}
use hyper_l.Base.{
  ℕ, zero, suc, ◌+◌, ◌-◌, ◌%◌, ◌^◌, ◌<◌, ◌≤◌, ◌≡◌, ◌⊎◌, sym, ap, ◌∙◌, arith, ltb, set, true, false,
  List, get_or, length, get_or_out, subst, inl, inr, replicate,
}
use hyper_l.Ring.{
  Pc, step, dif, enq_switch, deq_switch, idle, enq_start, enq_loaded, enq_checked, deq_start,
  deq_loaded, deq_checked,
}
use hyper_l.Ring.Threads.{System, Act, go, at_rest, pc_of, act, exec, after}
use hyper_l.Ring.Threads.View.{Knows}
use hyper_l.Ring.Threads.Claims.{seq_bound}
use hyper_l.Ring.Threads.Invariant.{view, Holds}
use hyper_l.Ring.Threads.Steps.{dif_cases}
use hyper_l.Ring.Threads.Begin.{two}
use hyper_l.Ring.Threads.Invariant.{pc_set}
use hyper_l.Ring.Threads.Reach.{Holds-act}
use hyper_l.Ring.Threads.Rank.{
  rank, rank-step, rank-bound, at_rest-rank, enqueue_not_ahead, dequeue_not_ahead,
}
use hyper_l.Ring.Threads.Safety.{holds, claimed_few}

module _ {A : Type 0} (zero_value : A) (k : ℕ) (large : 2 ≤ 2 ^ k) where
  abbrev left : System A → ℕ → ℕ
  left s j = rank s.ring.enqueue_pos s.ring.dequeue_pos (pc_of s j)

  -- One more step of goroutine `j`.
  left-go :
      (s : System A) (j : ℕ)
      → s.ring.enqueue_pos + 2 ^ k + 1 < 2 ^ 63
      → Holds zero_value k s
      → left (act zero_value s j go) j ≤ left s j - 1
  left-go s j far h = elim (dec_lt j (length s.pcs)) [
    | yes l ↦
        let turn : ltb j (length s.pcs) ≡ true = ground (arith, l) in
        let q = (step zero_value s.ring (pc_of s j)).0 in
        let next = (step zero_value s.ring (pc_of s j)).1 in
        let here : get_or (set s.pcs j next) j idle ≡ next =
          pc_set zero_value s.pcs j j next l ∙ ground arith in
        rw turn (
          subst (λ pc. rank q.enqueue_pos q.dequeue_pos pc ≤ left s j - 1) (sym here)
            (rank-step zero_value k s (pc_of s j) large far h (h.knows j)))
    | no l ↦
        let turn : ltb j (length s.pcs) ≡ false = ground (arith, l) in
        let none_there : pc_of s j ≡ idle = get_or_out s.pcs j idle (omega arith) in
        rw turn (rw none_there (omega arith))
  ]

  at_rest_alone :
      (m : ℕ) (s : System A) (j : ℕ)
      → s.ring.enqueue_pos + m + 2 ^ k + 1 < 2 ^ 63
      → Holds zero_value k s
      → left s j ≤ m
      → at_rest (pc_of (exec zero_value s (replicate m (j, go))) j) ≡ true
  unfolding exec
  at_rest_alone zero s j far h l =
      at_rest-rank zero_value k s.ring.enqueue_pos s.ring.dequeue_pos (pc_of s j) (omega arith)
  at_rest_alone (suc m) s j far h l =
      let (h', g) = Holds-act zero_value k s j go large (omega arith) h in
      at_rest_alone m (act zero_value s j go) j (omega (arith, g)) h'
        (omega (arith, left-go s j (omega arith) h))

  enqueue_passed :
      (s : System A) (p : ℕ) (v : A) (pc : Pc A)
      → s.ring.enqueue_pos + 2 ^ k + 1 < 2 ^ 63
      → Holds zero_value k s
      → Knows (view zero_value s) pc
      → (pc ≡ enq_loaded v p) ⊎ (pc ≡ enq_checked v p)
      → (step zero_value s.ring pc).1 ≡ enq_start v
      → p < s.ring.enqueue_pos
  unfolding step
  enqueue_passed s p v pc far h w (inl e) r =
      let x = view zero_value s in
      let l : p ≤ x.enq = subst (Knows x) e w in
      let b : x.seq p < 2 ^ 63 = omega (arith, seq_bound (2 ^ k) x p large h.sound) in
      let r' : enq_switch v p (dif (x.seq p) p) ≡ enq_start v =
        subst (λ c. (step zero_value s.ring c).1 ≡ enq_start v) e r in
      elim (dif_cases (x.seq p) p b (omega arith)) [
        | inl q ↦ absurd (ground (arith, r', q.1))
        | inr (inl q) ↦ absurd (ground (arith, r', q.1))
        | inr (inr q) ↦ elim (ℕ_discrete p x.enq) [
          | yes i ↦
              let m : x.seq p ≡ x.seq x.enq = ap x.seq i in
              absurd (omega (arith, m, q.0, i, enqueue_not_ahead (2 ^ k) x large h.sound))
          | no i ↦ omega arith
        ]
      ]
  enqueue_passed s p v pc far h w (inr e) r =
      let x = view zero_value s in
      let r' : (step zero_value s.ring (enq_checked v p)).1 ≡ enq_start v =
        subst (λ c. (step zero_value s.ring c).1 ≡ enq_start v) e r in
      elim (subst (Knows x) e w) [ inl l ↦ l | inr i ↦ absurd (ground (arith, r', i.0)) ]

  dequeue_passed :
      (s : System A) (p : ℕ) (pc : Pc A)
      → s.ring.enqueue_pos + 2 ^ k + 1 < 2 ^ 63
      → Holds zero_value k s
      → Knows (view zero_value s) pc
      → (pc ≡ deq_loaded p) ⊎ (pc ≡ deq_checked p)
      → (step zero_value s.ring pc).1 ≡ deq_start
      → p < s.ring.dequeue_pos
  unfolding step
  dequeue_passed s p pc far h w (inl e) r =
      let x = view zero_value s in
      let l : p ≤ x.deq = subst (Knows x) e w in
      let b : x.seq p < 2 ^ 63 = omega (arith, seq_bound (2 ^ k) x p large h.sound) in
      let wrap : (p + 1) % 2 ^ 64 ≡ p + 1 = omega (arith, l, h.sound.ordered) in
      let r' : deq_switch {A = A} p (dif (x.seq p) (p + 1)) ≡ deq_start =
        subst (λ m. deq_switch {A = A} p (dif (x.seq p) m) ≡ deq_start) wrap
          (subst (λ c. (step zero_value s.ring c).1 ≡ deq_start) e r) in
      elim (dif_cases (x.seq p) (p + 1) b (omega (arith, l, h.sound.ordered))) [
        | inl q ↦ absurd (ground (arith, r', q.1))
        | inr (inl q) ↦ absurd (ground (arith, r', q.1))
        | inr (inr q) ↦ elim (ℕ_discrete p x.deq) [
          | yes i ↦
              let m : x.seq p ≡ x.seq x.deq = ap x.seq i in
              absurd (omega (arith, m, q.0, i, dequeue_not_ahead (2 ^ k) x large h.sound))
          | no i ↦ omega arith
        ]
      ]
  dequeue_passed s p pc far h w (inr e) r =
      let x = view zero_value s in
      let r' : (step zero_value s.ring (deq_checked p)).1 ≡ deq_start =
        subst (λ c. (step zero_value s.ring c).1 ≡ deq_start) e r in
      elim (subst (Knows x) e w) [ inl l ↦ l | inr i ↦ absurd (ground (arith, r', i.0)) ]

module _ {A : Type 0} (zero_value : A) (k : ℕ) (big : 1 ≤ k) (n : ℕ) (acts : List (ℕ × Act A)) where
  -- After any schedule on a new ring of 2 ^ k cells, k at least 1, that is shorter than 2 ^ 63 less
  -- the number of cells and ten: whatever the others have done so far, and wherever they stand,
  -- nine steps of its own are enough for a call to return if none of the others moves meanwhile.
  pub alone_returns :
      (j : ℕ)
      → length acts + 2 ^ k + 10 < 2 ^ 63
      → at_rest (pc_of (exec zero_value (after zero_value k n acts) (replicate 9 (j, go))) j) ≡ true
  alone_returns j far =
      let s = after zero_value k n acts in
      at_rest_alone zero_value k (two zero_value k big) 9 s j
        (omega (arith, claimed_few zero_value k big n acts (omega arith)))
        (holds zero_value k big n acts (omega arith))
        (rank-bound zero_value k (after zero_value k n acts).ring.enqueue_pos
          (after zero_value k n acts).ring.dequeue_pos (pc_of (after zero_value k n acts) j))

  -- After any schedule on a new ring of 2 ^ k cells, k at least 1, that is shorter than 2 ^ 63 less
  -- the number of cells and one: an Enqueue goes round its loop only when another call has claimed
  -- the ticket that it was after: when it is back at the head, the position that it had loaded has
  -- been passed.
  pub enqueue_goes_round :
      (j p : ℕ) (v : A)
      → length acts + 2 ^ k + 1 < 2 ^ 63
      → (pc_of (after zero_value k n acts) j ≡ enq_loaded v p)
        ⊎ (pc_of (after zero_value k n acts) j ≡ enq_checked v p)
      → (step zero_value (after zero_value k n acts).ring (pc_of (after zero_value k n acts) j)).1
        ≡ enq_start v
      → p < (after zero_value k n acts).ring.enqueue_pos
  enqueue_goes_round j p v far e r =
      enqueue_passed zero_value k (two zero_value k big) (after zero_value k n acts) p v
        (pc_of (after zero_value k n acts) j)
        (omega (arith, claimed_few zero_value k big n acts (omega arith)))
        (holds zero_value k big n acts far) ((holds zero_value k big n acts far).knows j) e r

  -- A Dequeue goes round its loop only when another call has claimed the ticket that it was after.
  pub dequeue_goes_round :
      (j p : ℕ)
      → length acts + 2 ^ k + 1 < 2 ^ 63
      → (pc_of (after zero_value k n acts) j ≡ deq_loaded p)
        ⊎ (pc_of (after zero_value k n acts) j ≡ deq_checked p)
      → (step zero_value (after zero_value k n acts).ring (pc_of (after zero_value k n acts) j)).1
        ≡ deq_start
      → p < (after zero_value k n acts).ring.dequeue_pos
  dequeue_goes_round j p far e r =
      dequeue_passed zero_value k (two zero_value k big) (after zero_value k n acts) p
        (pc_of (after zero_value k n acts) j)
        (omega (arith, claimed_few zero_value k big n acts (omega arith)))
        (holds zero_value k big n acts far) ((holds zero_value k big n acts far).knows j) e r
