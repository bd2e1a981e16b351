-- ===== src/Ring/Threads/Claiming.antt =====
-- The compare-and-swaps of `Enqueue` and `Dequeue` of internal/queue/ring.go, when they succeed.
use hyper_l.Base.{
  ℕ, ◌+◌, ◌%◌, ◌^◌, ◌<◌, ◌≤◌, ◌≡◌, refl, sym, ap, ◌∙◌, arith, none, some, [], ◌∷◌, ◌++◌, append-nil,
  get_elem?, get_elem?-append_some, get_elem?-append_length, length, subst, inl, inr,
}
use hyper_l.Ring.{Ring, enq_checked, enq_claimed, deq_checked, deq_claimed}
use hyper_l.Ring.Threads.{System, pc_of}
use hyper_l.Ring.Threads.View.{View, Knows, writing, reading}
use hyper_l.Ring.Threads.Slots.{put_at, put_at_same}
use hyper_l.Ring.Threads.Claims.{claim_enqueue, claim_dequeue}
use hyper_l.Ring.Threads.Invariant.{adding, removing, unread, view, Holds, View-ext, held_set}
use hyper_l.Ring.Threads.Moves.{moved, Holds-moved}

module _ {A : Type 0} (zero_value : A) (k : ℕ) where
  pub enqueue_claimed :
      (s : System A) (j : ℕ) (v : A) (p : ℕ)
      → j < length s.pcs
      → 2 ≤ 2 ^ k
      → s.ring.enqueue_pos + 2 ^ k + 1 < 2 ^ 63
      → Holds zero_value k s
      → pc_of s j ≡ enq_checked v p
      → p ≡ s.ring.enqueue_pos
      → Holds zero_value k (
          moved zero_value k s j
            (record s.ring { enqueue_pos = (p + 1) % 2 ^ 64 })
            (enq_claimed v p))
  enqueue_claimed s j v p l two far h e here =
      Holds-moved zero_value k s j q (enq_claimed v p) y l h
        (record {
          shape = record {
            big = h.shape.big;
            mask_is = h.shape.mask_is;
            cells_are = h.shape.cells_are;
          };
          sound =
              claim_enqueue (2 ^ k) x j v two h.sound (free (subst (Knows x) e (h.knows j)))
                (ap writing e);
          kept = record {
            enq_on = omega arith;
            deq_on = omega arith;
            pushed_on = λ u w m. get_elem?-append_some s.pushed (v ∷ []) u w m;
            enq_next = λ m. inl (omega arith);
            deq_next = λ m. inr (refl, m);
          };
          knows =
              subst (λ n. get_elem? (s.pushed ++ v ∷ []) n ≡ some v) (h.sound.valued ∙ sym here)
                (get_elem?-append_length s.pushed v);
          count_bound = h.count_bound;
          counted = λ a r m. omega (arith, m, ap {B = ℕ} adding e, ap {B = ℕ} removing e, here);
          right = tt;
          once = λ t o n m. omega (arith, ap {B = ℕ} (unread t) e) ∙ m;
        })
        (View-ext zero_value (view zero_value (moved zero_value k s j q (enq_claimed v p))) y
          (omega (arith, here)) refl (λ t. refl) (λ t. refl)
          (λ i.
            held_set zero_value writing s.pcs j i (enq_claimed v p) l
            ∙ ap (λ n. put_at x.writer j (some n) i) here)
          (λ i.
            held_set zero_value reading s.pcs j i (enq_claimed v p) l
            ∙ put_at_same x.reader j i none (ap reading e))
          refl)
        (λ i n u m. refl)
    where
      q : Ring A
      q = record s.ring { enqueue_pos = (p + 1) % 2 ^ 64 }

      x : View A
      x = view zero_value s

      y : View A
      y = record x {
        enq = x.enq + 1;
        writer = put_at x.writer j (some x.enq);
        pushed = x.pushed ++ v ∷ [];
      }

      free : Knows x (enq_checked v p) → x.seq x.enq ≡ x.enq
      free (inl m) = absurd (omega (arith, m, here))
      free (inr m) = subst (λ n. x.seq n ≡ n) m.0 m.1

  pub dequeue_claimed :
      (s : System A) (j : ℕ) (p : ℕ)
      → j < length s.pcs
      → 2 ≤ 2 ^ k
      → s.ring.enqueue_pos + 2 ^ k + 1 < 2 ^ 63
      → Holds zero_value k s
      → pc_of s j ≡ deq_checked p
      → p ≡ s.ring.dequeue_pos
      → Holds zero_value k (
          moved zero_value k s j (record s.ring { dequeue_pos = (p + 1) % 2 ^ 64 }) (deq_claimed p))
  dequeue_claimed s j p l two far h e here =
      Holds-moved zero_value k s j q (deq_claimed p) y l h
        (record {
          shape = record {
            big = h.shape.big;
            mask_is = h.shape.mask_is;
            cells_are = h.shape.cells_are;
          };
          sound = claim_dequeue (2 ^ k) x j two h.sound full (ap reading e);
          kept = record {
            enq_on = omega arith;
            deq_on = omega arith;
            pushed_on = λ u w m. m;
            enq_next = λ m. inr (refl, m);
            deq_next = λ m. inl (omega arith);
          };
          knows =
              subst (λ n. get_elem? s.pushed n ≡ some (x.val n)) (sym here)
                (h.sound.full_value x.deq full (omega arith));
          count_bound = h.count_bound;
          counted = λ a r m.
              omega (arith, m, ap {B = ℕ} adding e, ap {B = ℕ} removing e, here, h.sound.ordered);
          right = tt;
          once = λ t o n m. ground (arith, ap {B = ℕ} (unread t) e, m, here, next_is);
        })
        (View-ext zero_value (view zero_value (moved zero_value k s j q (deq_claimed p))) y refl
          (omega (arith, here, next_is)) (λ t. refl) (λ t. refl)
          (λ i.
            held_set zero_value writing s.pcs j i (deq_claimed p) l
            ∙ put_at_same x.writer j i none (ap writing e))
          (λ i.
            held_set zero_value reading s.pcs j i (deq_claimed p) l
            ∙ ap (λ n. put_at x.reader j (some n) i) here)
          (append-nil s.pushed))
        (λ i n u m. refl)
    where
      q : Ring A
      q = record s.ring { dequeue_pos = (p + 1) % 2 ^ 64 }

      x : View A
      x = view zero_value s

      y : View A
      y = record x { deq = x.deq + 1; reader = put_at x.reader j (some x.deq) }

      next_is : (p + 1) % 2 ^ 64 ≡ p + 1
      next_is = omega (arith, here, h.sound.ordered)

      filled : Knows x (deq_checked p) → x.seq x.deq ≡ x.deq + 1
      filled (inl m) = absurd (omega (arith, m, here))
      filled (inr m) = subst (λ n. x.seq n ≡ n + 1) m.0 m.1

      full : x.seq x.deq ≡ x.deq + 1
      full = filled (subst (Knows x) e (h.knows j))
