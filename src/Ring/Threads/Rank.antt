-- ===== src/Ring/Threads/Rank.antt =====
-- How far a call on the ring of internal/queue/ring.go is from its end when no other call moves.
use native.Mathlib.Decide.{ℕ_discrete, dec_lt}
use hyper_l.Base.{
  ℕ, ◌+◌, ◌-◌, ◌%◌, ◌^◌, ◌<◌, ◌≤◌, ◌≡◌, ◌⊎◌, refl, sym, ap, ◌∙◌, arith, if◌then◌else◌, ◌==◌, true,
  inl, inr,
}
use hyper_l.Ring.{
  Pc, step, dif, enq_switch, deq_switch, idle, enq_start, enq_loaded, enq_checked, enq_claimed,
  enq_written, enq_stored, enq_returned, deq_start, deq_loaded, deq_checked, deq_claimed, deq_read,
  deq_cleared, deq_stored, deq_returned,
}
use hyper_l.Ring.Alone.{seq_of}
use hyper_l.Ring.Threads.{System, at_rest}
use hyper_l.Ring.Threads.View.{View, IsSound, Knows}
use hyper_l.Ring.Threads.Claims.{seq_bound}
use hyper_l.Ring.Threads.Invariant.{view, Holds}
use hyper_l.Ring.Threads.Steps.{dif_cases}
use hyper_l.Ring.Threads.Begin.{two}
use hyper_l.Ring.Alone.{same_slot_apart}

-- The steps that a call has left when no other call is under way.
abbrev pub rank : {A : Type 0} → ℕ → ℕ → Pc A → ℕ
rank e d idle = 0
rank e d (enq_start v) = 6
rank e d (enq_loaded v p) = if p == e then 5 else 8
rank e d (enq_checked v p) = if p == e then 4 else 7
rank e d (enq_claimed v p) = 3
rank e d (enq_written v p) = 2
rank e d enq_stored = 1
rank e d (enq_returned b) = 0
rank e d deq_start = 7
rank e d (deq_loaded p) = if p == d then 6 else 9
rank e d (deq_checked p) = if p == d then 5 else 8
rank e d (deq_claimed p) = 4
rank e d (deq_read p v) = 3
rank e d (deq_cleared p v) = 2
rank e d (deq_stored p v) = 1
rank e d (deq_returned r) = 0

module _ {A : Type 0} where
  -- The cell of the next ticket is never ahead.
  pub enqueue_not_ahead : (c : ℕ) (x : View A) → 2 ≤ c → IsSound c x → x.seq x.enq ≤ x.enq
  enqueue_not_ahead c x two h = let (u, e, m) = h.cover x.enq in at u e (h.same_seq u x.enq e) m
    where
      at :
          (u : ℕ)
          → u % c ≡ x.enq % c
          → x.seq u ≡ x.seq x.enq
          → (x.seq x.enq ≡ u) ⊎ (x.seq x.enq ≡ u + 1)
          → x.seq x.enq ≤ x.enq
      at u e q (inl m) = elim (dec_lt x.enq u) [
        | yes l ↦
            absurd
              (omega (arith, same_slot_apart c x.enq u (sym e) l, (h.free u (q ∙ m)).1, h.ordered))
        | no l ↦ omega arith
      ]
      at u e q (inr m) = omega (arith, m, (h.full u (q ∙ m)).0)

  pub dequeue_not_ahead : (c : ℕ) (x : View A) → 2 ≤ c → IsSound c x → x.seq x.deq ≤ x.deq + 1
  dequeue_not_ahead c x two h = let (u, e, m) = h.cover x.deq in at u e (h.same_seq u x.deq e) m
    where
      at :
          (u : ℕ)
          → u % c ≡ x.deq % c
          → x.seq u ≡ x.seq x.deq
          → (x.seq x.deq ≡ u) ⊎ (x.seq x.deq ≡ u + 1)
          → x.seq x.deq ≤ x.deq + 1
      at u e q (inl m) = elim (dec_lt x.deq u) [
        | yes l ↦ absurd (omega (arith, same_slot_apart c x.deq u (sym e) l, (h.free u (q ∙ m)).1))
        | no l ↦ omega arith
      ]
      at u e q (inr m) = elim (dec_lt x.deq u) [
        | yes l ↦ absurd (omega (arith, same_slot_apart c x.deq u (sym e) l, (h.full u (q ∙ m)).1))
        | no l ↦ omega (arith, m)
      ]

module _ {A : Type 0} (zero_value : A) (k : ℕ) where
  rank-enqueue_loaded :
      (s : System A) (v : A) (p : ℕ)
      → 2 ≤ 2 ^ k
      → s.ring.enqueue_pos + 2 ^ k + 1 < 2 ^ 63
      → Holds zero_value k s
      → p ≤ s.ring.enqueue_pos
      → let next = enq_switch v p (dif (seq_of zero_value s.ring p) p) in
        rank s.ring.enqueue_pos s.ring.dequeue_pos next
        ≤ rank s.ring.enqueue_pos s.ring.dequeue_pos (enq_loaded v p) - 1
  rank-enqueue_loaded s v p two far h w =
      let x = view zero_value s in
      let b : x.seq p < 2 ^ 63 = omega (arith, seq_bound (2 ^ k) x p two h.sound) in
      elim (dif_cases (x.seq p) p b (omega arith)) [
        | inl q ↦ rw q.1 (ground arith)
        | inr (inl q) ↦ rw q.1 (omega arith)
        | inr (inr q) ↦ rw q.1 (elim (ℕ_discrete p s.ring.enqueue_pos) [
          | yes i ↦
              let r : x.seq p ≡ x.seq x.enq = ap x.seq i in
              absurd (omega (arith, r, q.0, i, enqueue_not_ahead (2 ^ k) x two h.sound))
          | no i ↦ ground (arith, i)
        ])
      ]

  rank-dequeue_loaded :
      (s : System A) (p : ℕ)
      → 2 ≤ 2 ^ k
      → s.ring.enqueue_pos + 2 ^ k + 1 < 2 ^ 63
      → Holds zero_value k s
      → p ≤ s.ring.dequeue_pos
      → let next = deq_switch {A = A} p (dif (seq_of zero_value s.ring p) (p + 1)) in
        rank s.ring.enqueue_pos s.ring.dequeue_pos next
        ≤ rank {A = A} s.ring.enqueue_pos s.ring.dequeue_pos (deq_loaded p) - 1
  rank-dequeue_loaded s p two far h w =
      let x = view zero_value s in
      let b : x.seq p < 2 ^ 63 = omega (arith, seq_bound (2 ^ k) x p two h.sound) in
      elim (dif_cases (x.seq p) (p + 1) b (omega (arith, h.sound.ordered))) [
        | inl q ↦ rw q.1 (ground arith)
        | inr (inl q) ↦ rw q.1 (omega arith)
        | inr (inr q) ↦ rw q.1 (elim (ℕ_discrete p s.ring.dequeue_pos) [
          | yes i ↦
              let r : x.seq p ≡ x.seq x.deq = ap x.seq i in
              absurd (omega (arith, r, q.0, i, dequeue_not_ahead (2 ^ k) x two h.sound))
          | no i ↦ ground (arith, i)
        ])
      ]

  -- A step leaves fewer of them.
  pub rank-step :
      (s : System A) (pc : Pc A)
      → 2 ≤ 2 ^ k
      → s.ring.enqueue_pos + 2 ^ k + 1 < 2 ^ 63
      → Holds zero_value k s
      → Knows (view zero_value s) pc
      → let (q, next) = step zero_value s.ring pc in
        rank q.enqueue_pos q.dequeue_pos next ≤ rank s.ring.enqueue_pos s.ring.dequeue_pos pc - 1
  unfolding step
  rank-step s idle two far h w = omega arith
  rank-step s (enq_start v) two far h w = ground arith
  rank-step s (enq_loaded v p) two far h w = rank-enqueue_loaded s v p two far h w
  rank-step s (enq_checked v p) two far h w = ground arith
  rank-step s (enq_claimed v p) two far h w = omega arith
  rank-step s (enq_written v p) two far h w = omega arith
  rank-step s enq_stored two far h w = omega arith
  rank-step s (enq_returned b) two far h w = omega arith
  rank-step s deq_start two far h w = ground arith
  rank-step s (deq_loaded p) two far h w =
      let wrap : (p + 1) % 2 ^ 64 ≡ p + 1 = omega (arith, h.sound.ordered) in
      rw wrap (rank-dequeue_loaded s p two far h w)
  rank-step s (deq_checked p) two far h w = ground arith
  rank-step s (deq_claimed p) two far h w = omega arith
  rank-step s (deq_read p v) two far h w = omega arith
  rank-step s (deq_cleared p v) two far h w = omega arith
  rank-step s (deq_stored p v) two far h w = omega arith
  rank-step s (deq_returned r) two far h w = omega arith

  pub at_rest-rank : (e d : ℕ) (pc : Pc A) → rank e d pc ≡ 0 → at_rest pc ≡ true
  at_rest-rank e d idle h = refl
  at_rest-rank e d (enq_start v) h = absurd (omega arith)
  at_rest-rank e d (enq_loaded v p) h = absurd (ground (arith, h))
  at_rest-rank e d (enq_checked v p) h = absurd (ground (arith, h))
  at_rest-rank e d (enq_claimed v p) h = absurd (omega arith)
  at_rest-rank e d (enq_written v p) h = absurd (omega arith)
  at_rest-rank e d enq_stored h = absurd (omega arith)
  at_rest-rank e d (enq_returned b) h = refl
  at_rest-rank e d deq_start h = absurd (omega arith)
  at_rest-rank e d (deq_loaded p) h = absurd (ground (arith, h))
  at_rest-rank e d (deq_checked p) h = absurd (ground (arith, h))
  at_rest-rank e d (deq_claimed p) h = absurd (omega arith)
  at_rest-rank e d (deq_read p v) h = absurd (omega arith)
  at_rest-rank e d (deq_cleared p v) h = absurd (omega arith)
  at_rest-rank e d (deq_stored p v) h = absurd (omega arith)
  at_rest-rank e d (deq_returned r) h = refl

  pub rank-bound : (e d : ℕ) (pc : Pc A) → rank e d pc ≤ 9
  rank-bound e d idle = omega arith
  rank-bound e d (enq_start v) = omega arith
  rank-bound e d (enq_loaded v p) = ground arith
  rank-bound e d (enq_checked v p) = ground arith
  rank-bound e d (enq_claimed v p) = omega arith
  rank-bound e d (enq_written v p) = omega arith
  rank-bound e d enq_stored = omega arith
  rank-bound e d (enq_returned b) = omega arith
  rank-bound e d deq_start = omega arith
  rank-bound e d (deq_loaded p) = ground arith
  rank-bound e d (deq_checked p) = ground arith
  rank-bound e d (deq_claimed p) = omega arith
  rank-bound e d (deq_read p v) = omega arith
  rank-bound e d (deq_cleared p v) = omega arith
  rank-bound e d (deq_stored p v) = omega arith
  rank-bound e d (deq_returned r) = omega arith
