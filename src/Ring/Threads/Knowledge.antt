-- ===== src/Ring/Threads/Knowledge.antt =====
-- What a goroutine on a ring of internal/queue/ring.go still knows after another one's move.
use hyper_l.Base.{
  ℕ, ◌+◌, ◌<◌, ◌≤◌, ◌≡◌, ◌⊎◌, inl, inr, refl, sym, ap, ◌∙◌, arith, some, get_elem?, subst,
}
use hyper_l.Ring.{
  Pc, idle, enq_start, enq_loaded, enq_checked, enq_claimed, enq_written, enq_stored, enq_returned,
  deq_start, deq_loaded, deq_checked, deq_claimed, deq_read, deq_cleared, deq_stored, deq_returned,
}
use hyper_l.Ring.Threads.View.{View, Knows, writing, reading}

module _ {A : Type 0} (x y : View A) where
  pub record IsKept : Type 0 where
    pub enq_on : x.enq ≤ y.enq
    pub deq_on : x.deq ≤ y.deq
    pub pushed_on : (u : ℕ) (v : A) → get_elem? x.pushed u ≡ some v → get_elem? y.pushed u ≡ some v
    pub enq_next : x.seq x.enq ≡ x.enq → (x.enq < y.enq) ⊎ ((x.enq ≡ y.enq) × (y.seq x.enq ≡ x.enq))
    pub deq_next :
        x.seq x.deq ≡ x.deq + 1 → (x.deq < y.deq) ⊎ ((x.deq ≡ y.deq) × (y.seq x.deq ≡ x.deq + 1))

  -- The value of the cell that a call holds is not changed.
  abbrev pub HeldKept : Pc A → Type 0
  HeldKept pc = (u : ℕ) → (writing pc ≡ some u) ⊎ (reading pc ≡ some u) → y.val u ≡ x.val u

  pub Knows-keep : (pc : Pc A) → IsKept → HeldKept pc → Knows x pc → Knows y pc
  Knows-keep idle k w h = h
  Knows-keep (enq_start v) k w h = h
  Knows-keep (enq_loaded v p) k w h = omega (arith, k.enq_on)
  Knows-keep (enq_checked v p) k w (inl h) = inl (omega (arith, k.enq_on))
  Knows-keep (enq_checked v p) k w (inr h) =
      subst (λ n. (n < y.enq) ⊎ ((n ≡ y.enq) × (y.seq n ≡ n))) (sym h.0)
        (k.enq_next (subst (λ n. x.seq n ≡ n) h.0 h.1))
  Knows-keep (enq_claimed v p) k w h = k.pushed_on p v h
  Knows-keep (enq_written v p) k w h = (k.pushed_on p v h.0, w p (inl refl) ∙ h.1)
  Knows-keep enq_stored k w h = h
  Knows-keep (enq_returned b) k w h = h
  Knows-keep deq_start k w h = h
  Knows-keep (deq_loaded p) k w h = omega (arith, k.deq_on)
  Knows-keep (deq_checked p) k w (inl h) = inl (omega (arith, k.deq_on))
  Knows-keep (deq_checked p) k w (inr h) =
      subst (λ n. (n < y.deq) ⊎ ((n ≡ y.deq) × (y.seq n ≡ n + 1))) (sym h.0)
        (k.deq_next (subst (λ n. x.seq n ≡ n + 1) h.0 h.1))
  Knows-keep (deq_claimed p) k w h = k.pushed_on p (x.val p) h ∙ ap some (sym (w p (inr refl)))
  Knows-keep (deq_read p v) k w h = k.pushed_on p v h
  Knows-keep (deq_cleared p v) k w h = k.pushed_on p v h
  Knows-keep (deq_stored p v) k w h = k.pushed_on p v h
  Knows-keep (deq_returned r) k w h = h
