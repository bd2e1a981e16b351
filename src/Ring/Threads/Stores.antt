-- ===== src/Ring/Threads/Stores.antt =====
-- The stores of one goroutine to a sequence of a ring of internal/queue/ring.go.
use native.Mathlib.Nat.{add-mod_right}
use hyper_l.Base.{
  ℕ, ◌+◌, ◌%◌, ◌≤◌, ◌≡◌, ◌≢◌, ◌⊎◌, inl, inr, sym, ap, ◌∙◌, arith, none, some, get_elem?, subst,
}
use hyper_l.Ring.Alone.{same_slot_apart}
use hyper_l.Ring.Threads.View.{View, IsSound}
use hyper_l.Ring.Threads.Slots.{
  put_at, put_slot, put_at_other, put_slot_other, ticket, put_at-none, HeldOnce-put_none,
  put_slot_cases, put_slot_slot,
}
use hyper_l.Ring.Threads.Claims.{apart}

module _ {A : Type 0} where
  pub publish :
      (c : ℕ) (x : View A) (j p : ℕ)
      → 2 ≤ c
      → IsSound c x
      → x.writer j ≡ some p
      → get_elem? x.pushed p ≡ some (x.val p)
      → IsSound c (record x { seq = put_slot c x.seq p (p + 1); writer = put_at x.writer j none })
  publish c x j p two h mine v = record {
    same_seq = λ s t e. put_slot_slot c x.seq p (p + 1) s t e (h.same_seq s t e);
    cover = λ t. elim (put_slot_cases c x.seq p t (p + 1)) [
      | inl q ↦ (p, sym q.0, inr q.1)
      | inr q ↦ let (u, e, k) = h.cover t in (u, e, ground (arith, k, q.1))
    ];
    free = λ u a. h.free u (was_free u a).1;
    free_held = λ u a l.
        let (i, w) = h.free_held u (was_free u a).1 l in
        (i, put_at_other x.writer j i u none (λ z. (was_free u a).0 (ticket (sym z ∙ mine))) w);
    full = λ u a. elim (was_full u a) [
      | inl q ↦
          let (d, b, n) = h.free p self in
          (omega (arith, q, (h.writes j p mine).0), omega (arith, q), omega (arith, q))
      | inr q ↦ h.full u q
    ];
    full_held = λ u a l. elim (was_full u a) [
      | inl q ↦ absurd (omega (arith, q, l, (h.free p self).0))
      | inr q ↦ h.full_held u q l
    ];
    full_value = λ u a l. elim (was_full u a) [
      | inl q ↦ subst (λ t. get_elem? x.pushed t ≡ some (x.val t)) (sym q) v
      | inr q ↦ h.full_value u q l
    ];
    writes = λ i u w.
        let (n, w') = put_at-none x.writer j i u w in
        let (l, a) = h.writes i u w' in
        (l, put_slot_other c x.seq p u (p + 1) (other i u n w' a) ∙ a);
    reads = λ i u w.
        let (l, a) = h.reads i u w in
        (l, put_slot_other c x.seq p u (p + 1) (λ e. apart c x p u two h self a (sym e)) ∙ a);
    one_writer = HeldOnce-put_none x.writer j h.one_writer;
    one_reader = h.one_reader;
    valued = h.valued;
    ordered = h.ordered;
    within = h.within;
  }
    where
      self : x.seq p ≡ p
      self = (h.writes j p mine).1

      was_free : (u : ℕ) → put_slot c x.seq p (p + 1) u ≡ u → (u ≢ p) × (x.seq u ≡ u)
      was_free u a = elim (put_slot_cases c x.seq p u (p + 1)) [
        | inl q ↦
            absurd (omega (arith, a, q.1, same_slot_apart c p u (sym q.0) (omega (arith, a, q.1))))
        | inr q ↦ (λ e. q.0 (ap (λ n. n % c) e), sym q.1 ∙ a)
      ]

      was_full : (u : ℕ) → put_slot c x.seq p (p + 1) u ≡ u + 1 → (u ≡ p) ⊎ (x.seq u ≡ u + 1)
      was_full u a = elim (put_slot_cases c x.seq p u (p + 1)) [
        | inl q ↦ inl (omega (arith, a, q.1))
        | inr q ↦ inr (sym q.1 ∙ a)
      ]

      other : (i u : ℕ) → i ≢ j → x.writer i ≡ some u → x.seq u ≡ u → u % c ≢ p % c
      other i u n w a e =
          n (h.one_writer i j u w (mine ∙ ap some (sym self ∙ sym (h.same_seq u p e) ∙ a)))

  pub release :
      (c : ℕ) (x : View A) (j p : ℕ)
      → 2 ≤ c
      → IsSound c x
      → x.reader j ≡ some p
      → IsSound c (record x { seq = put_slot c x.seq p (p + c); reader = put_at x.reader j none })
  release c x j p two h mine = record {
    same_seq = λ s t e. put_slot_slot c x.seq p (p + c) s t e (h.same_seq s t e);
    cover = λ t. elim (put_slot_cases c x.seq p t (p + c)) [
      | inl q ↦ (p + c, add-mod_right p c ∙ sym q.0, inl q.1)
      | inr q ↦ let (u, e, k) = h.cover t in (u, e, ground (arith, k, q.1))
    ];
    free = λ u a. elim (was_free u a) [
      | inl q ↦
          let (l, b, n) = h.full p self in
          (
            omega (arith, q, n, h.ordered),
            omega (arith, q, (h.reads j p mine).0),
            omega (arith, q, n),
          )
      | inr q ↦ h.free u q
    ];
    free_held = λ u a l. elim (was_free u a) [
      | inl q ↦ absurd (omega (arith, q, l, (h.full p self).2))
      | inr q ↦ h.free_held u q l
    ];
    full = λ u a. h.full u (was_full u a).1;
    full_held = λ u a l.
        let (i, w) = h.full_held u (was_full u a).1 l in
        (i, put_at_other x.reader j i u none (λ z. (was_full u a).0 (ticket (sym z ∙ mine))) w);
    full_value = λ u a l. h.full_value u (was_full u a).1 l;
    writes = λ i u w.
        let (l, a) = h.writes i u w in
        (l, put_slot_other c x.seq p u (p + c) (apart c x u p two h a self) ∙ a);
    reads = λ i u w.
        let (n, w') = put_at-none x.reader j i u w in
        let (l, a) = h.reads i u w' in
        (l, put_slot_other c x.seq p u (p + c) (other i u n w' a) ∙ a);
    one_writer = h.one_writer;
    one_reader = HeldOnce-put_none x.reader j h.one_reader;
    valued = h.valued;
    ordered = h.ordered;
    within = h.within;
  }
    where
      self : x.seq p ≡ p + 1
      self = (h.reads j p mine).1

      was_free : (u : ℕ) → put_slot c x.seq p (p + c) u ≡ u → (u ≡ p + c) ⊎ (x.seq u ≡ u)
      was_free u a = elim (put_slot_cases c x.seq p u (p + c)) [
        | inl q ↦ inl (sym a ∙ q.1)
        | inr q ↦ inr (sym q.1 ∙ a)
      ]

      was_full : (u : ℕ) → put_slot c x.seq p (p + c) u ≡ u + 1 → (u ≢ p) × (x.seq u ≡ u + 1)
      was_full u a = elim (put_slot_cases c x.seq p u (p + c)) [
        | inl q ↦
            absurd (omega (arith, a, q.1, same_slot_apart c p u (sym q.0) (omega (arith, a, q.1))))
        | inr q ↦ (λ e. q.0 (ap (λ n. n % c) e), sym q.1 ∙ a)
      ]

      other : (i u : ℕ) → i ≢ j → x.reader i ≡ some u → x.seq u ≡ u + 1 → u % c ≢ p % c
      other i u n w a e =
          n (h.one_reader i j u w (mine ∙ ap some (omega (arith, a, self, h.same_seq u p e))))
