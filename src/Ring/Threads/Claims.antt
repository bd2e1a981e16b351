-- ===== src/Ring/Threads/Claims.antt =====
-- The claims and the writes of one goroutine of a ring of internal/queue/ring.go.
use native.Mathlib.Decide.{ℕ_discrete}
use native.Mathlib.Nat.{add-mod_right}
use hyper_l.Base.{
  ℕ, ◌+◌, ◌%◌, ◌<◌, ◌≤◌, ◌≡◌, ◌≢◌, ◌⊎◌, inl, inr, sym, ap, ◌∙◌, arith, none, some, [], ◌∷◌, ◌++◌,
  get_elem?-append_some, length-append, subst,
}
use hyper_l.Ring.Alone.{same_slot_apart}
use hyper_l.Ring.Threads.View.{View, IsSound}
use hyper_l.Ring.Threads.Slots.{
  put_at, put_slot, put_at_inv, put_at_other, put_at_self, put_slot_other, ticket, not_held,
  HeldOnce-put_some,
}

module _ {A : Type 0} where
  -- A cell does not wait to be filled and to be emptied at once.
  pub apart :
      (c : ℕ) (x : View A) (u p : ℕ)
      → 2 ≤ c
      → IsSound c x
      → x.seq u ≡ u
      → x.seq p ≡ p + 1
      → u % c ≢ p % c
  apart c x u p two h a b e = omega (
    arith,
    a,
    b,
    h.same_seq u p e,
    same_slot_apart c p u (sym e) (omega (arith, a, b, h.same_seq u p e)),
  )

  -- The tickets that two goroutines hold have different cells.
  pub held_apart :
      (c : ℕ) (x : View A) (i j u p : ℕ)
      → 2 ≤ c
      → IsSound c x
      → i ≢ j
      → (x.writer i ≡ some u) ⊎ (x.reader i ≡ some u)
      → (x.writer j ≡ some p) ⊎ (x.reader j ≡ some p)
      → u % c ≢ p % c
  held_apart c x i j u p two h n (inl a) (inl b) e =
      let (l, m) = h.writes i u a in
      let (l', m') = h.writes j p b in
      n (h.one_writer i j u a (b ∙ ap some (sym m' ∙ sym (h.same_seq u p e) ∙ m)))
  held_apart c x i j u p two h n (inl a) (inr b) e =
      apart c x u p two h (h.writes i u a).1 (h.reads j p b).1 e
  held_apart c x i j u p two h n (inr a) (inl b) e =
      apart c x p u two h (h.writes j p b).1 (h.reads i u a).1 (sym e)
  held_apart c x i j u p two h n (inr a) (inr b) e =
      let (l, m) = h.reads i u a in
      let (l', m') = h.reads j p b in
      let eq : p ≡ u = omega (arith, m, m', h.same_seq u p e) in
      n (h.one_reader i j u a (b ∙ ap some eq))

  -- The ticket a round later is not at the same point.
  not_next :
      (c : ℕ) (x : View A) (u p : ℕ) → IsSound c x → x.seq u < u + c → x.seq p ≡ p → p ≢ u + c
  not_next c x u p h l b e =
      omega (arith, l, b, e, h.same_seq p u (ap (λ n. n % c) e ∙ add-mod_right u c))

  pub seq_bound : (c : ℕ) (x : View A) (t : ℕ) → 2 ≤ c → IsSound c x → x.seq t < x.enq + c
  seq_bound c x t two h = let (u, e, k) = h.cover t in bound u (h.same_seq u t e) k
    where
      bound : (u : ℕ) → x.seq u ≡ x.seq t → (x.seq t ≡ u) ⊎ (x.seq t ≡ u + 1) → x.seq t < x.enq + c
      bound u e (inl q) = omega (arith, q, (h.free u (e ∙ q)).1, h.ordered)
      bound u e (inr q) = omega (arith, q, (h.full u (e ∙ q)).0)

  pub claim_enqueue :
      (c : ℕ) (x : View A) (j : ℕ) (v : A)
      → 2 ≤ c
      → IsSound c x
      → x.seq x.enq ≡ x.enq
      → x.writer j ≡ none
      → IsSound c (record x {
        enq = x.enq + 1;
        writer = put_at x.writer j (some x.enq);
        pushed = x.pushed ++ v ∷ [];
      })
  claim_enqueue c x j v two h e idle = record {
    same_seq = h.same_seq;
    cover = h.cover;
    free = λ u a.
        let (d, b, n) = h.free u a in (d, b, omega (arith, not_next c x u x.enq h (omega arith) e));
    free_held = λ u a l. elim (ℕ_discrete u x.enq) [
      | yes q ↦ (j, put_at_self x.writer j (some x.enq) ∙ ap some (sym q))
      | no q ↦
          let (i, w) = h.free_held u a (omega arith) in
          (i, put_at_other x.writer j i u (some x.enq) (not_held (x.writer j) u idle) w)
    ];
    full = λ u a.
        let (l, b, n) = h.full u a in
        (omega arith, b, omega (arith, not_next c x u x.enq h (omega arith) e));
    full_held = h.full_held;
    full_value = λ u a l. get_elem?-append_some x.pushed (v ∷ []) u (x.val u) (h.full_value u a l);
    writes = λ i u w. elim (put_at_inv x.writer j i u (some x.enq) w) [
      | inl q ↦ let m : x.enq ≡ u = ticket q.1 in (omega (arith, m), subst (λ t. x.seq t ≡ t) m e)
      | inr q ↦ let (l, a) = h.writes i u q.1 in (omega (arith, l), a)
    ];
    reads = h.reads;
    one_writer = HeldOnce-put_some x.writer j x.enq (λ i u w. (h.writes i u w).0) h.one_writer;
    one_reader = h.one_reader;
    valued = length-append x.pushed (v ∷ []) ∙ ap (λ n. n + 1) h.valued;
    ordered = omega (arith, h.ordered);
    within = omega (arith, (h.free x.enq e).1);
  }

  pub claim_dequeue :
      (c : ℕ) (x : View A) (j : ℕ)
      → 2 ≤ c
      → IsSound c x
      → x.seq x.deq ≡ x.deq + 1
      → x.reader j ≡ none
      → IsSound c (record x { deq = x.deq + 1; reader = put_at x.reader j (some x.deq) })
  claim_dequeue c x j two h e idle = record {
    same_seq = h.same_seq;
    cover = h.cover;
    free = λ u a. let (d, b, n) = h.free u a in (omega (arith, not_one u a), omega arith, n);
    free_held = h.free_held;
    full = λ u a. let (l, b, n) = h.full u a in (l, omega arith, n);
    full_held = λ u a l. elim (ℕ_discrete u x.deq) [
      | yes q ↦ (j, put_at_self x.reader j (some x.deq) ∙ ap some (sym q))
      | no q ↦
          let (i, w) = h.full_held u a (omega arith) in
          (i, put_at_other x.reader j i u (some x.deq) (not_held (x.reader j) u idle) w)
    ];
    full_value = λ u a l. h.full_value u a (omega arith);
    writes = h.writes;
    reads = λ i u w. elim (put_at_inv x.reader j i u (some x.deq) w) [
      | inl q ↦
          let m : x.deq ≡ u = ticket q.1 in (omega (arith, m), subst (λ t. x.seq t ≡ t + 1) m e)
      | inr q ↦ let (l, a) = h.reads i u q.1 in (omega (arith, l), a)
    ];
    one_writer = h.one_writer;
    one_reader = HeldOnce-put_some x.reader j x.deq (λ i u w. (h.reads i u w).0) h.one_reader;
    valued = h.valued;
    ordered = omega (arith, (h.full x.deq e).0);
    within = omega (arith, h.within);
  }
    where
      not_one : (u : ℕ) → x.seq u ≡ u → u ≢ x.deq
      not_one u a q = omega (arith, e, a, sym (ap x.seq q), q)

  -- A write to a cell that is held changes the value of no full cell that is not held.
  pub write_value :
      (c : ℕ) (x : View A) (p : ℕ) (v : A)
      → 2 ≤ c
      → IsSound c x
      → (x.seq p ≡ p) ⊎ ((p < x.deq) × (x.seq p ≡ p + 1))
      → IsSound c (record x { val = put_slot c x.val p v })
  write_value c x p v two h held = record {
    same_seq = h.same_seq;
    cover = h.cover;
    free = h.free;
    free_held = h.free_held;
    full = h.full;
    full_held = h.full_held;
    full_value = λ u a l.
        h.full_value u a l ∙ ap some (sym (put_slot_other c x.val p u v (other u a l held)));
    writes = h.writes;
    reads = h.reads;
    one_writer = h.one_writer;
    one_reader = h.one_reader;
    valued = h.valued;
    ordered = h.ordered;
    within = h.within;
  }
    where
      other :
          (u : ℕ)
          → x.seq u ≡ u + 1
          → x.deq ≤ u
          → (x.seq p ≡ p) ⊎ ((p < x.deq) × (x.seq p ≡ p + 1))
          → u % c ≢ p % c
      other u a l (inl q) e = apart c x p u two h q a (sym e)
      other u a l (inr q) e = omega (arith, q.0, q.1, a, h.same_seq u p e)
