-- ===== src/Ring/Threads/Writing.antt =====
-- What `Enqueue` and `Dequeue` of internal/queue/ring.go write to the value of a cell, and read of it.
use hyper_l.Base.{
  ℕ, ◌+◌, ◌^◌, ◌<◌, ◌≤◌, ◌≡◌, ◌⊎◌, refl, sym, ap, ◌∙◌, arith, none, some, [], ◌++◌, append-nil,
  get_elem?, get_elem?-append_some, length, length-set, subst, inl, inr,
}
use hyper_l.Ring.{Ring, Pc, set_value, enq_claimed, enq_written, deq_claimed, deq_read, deq_cleared}
use hyper_l.Ring.Alone.{value_of, seq_of-set_value, value_of-set_value}
use hyper_l.Ring.Threads.{System, pc_of, claims, reads}
use hyper_l.Ring.Threads.View.{View, Knows, writing, reading}
use hyper_l.Ring.Threads.Slots.{put_at_same, put_slot, put_slot_same, put_slot_other}
use hyper_l.Ring.Threads.Claims.{write_value, held_apart}
use hyper_l.Ring.Threads.Invariant.{
  tally, adding, removing, unread, is_for, view, Holds, View-ext, held_set,
}
use hyper_l.Ring.Threads.Moves.{moved, Holds-moved}
use hyper_l.Ring.Threads.Steps.{IsKept_self}
use hyper_l.Ring.Kept.{HasShape-of}

module _ {A : Type 0} (zero_value : A) (k : ℕ) where
  -- Writing the value of a cell that the call holds, when this counts nothing.
  written :
      (s : System A) (j p : ℕ) (w : A) (next : Pc A)
      → j < length s.pcs
      → 2 ≤ 2 ^ k
      → Holds zero_value k s
      → (writing (pc_of s j) ≡ some p) ⊎ (reading (pc_of s j) ≡ some p)
      → writing next ≡ writing (pc_of s j)
      → reading next ≡ reading (pc_of s j)
      → adding next ≡ adding (pc_of s j)
      → removing next ≡ removing (pc_of s j)
      → ((t : ℕ) → unread t next ≡ unread t (pc_of s j))
      → claims next ≡ []
      → reads next ≡ []
      → Knows
          (record (view zero_value s) { val = put_slot (2 ^ k) (value_of zero_value s.ring) p w })
          next
      → Holds zero_value k (moved zero_value k s j (set_value zero_value s.ring p w) next)
  written s j p w next l two h holds same_w same_r same_a same_d same_u no_c no_r m =
      Holds-moved zero_value k s j q next y l h
        (record {
          shape = HasShape-of zero_value k {q = s.ring} refl (length-set s.ring.cells _ _) h.shape;
          sound = write_value (2 ^ k) x p w two h.sound (held holds);
          kept = record {
            enq_on = omega arith;
            deq_on = omega arith;
            pushed_on = λ u v n. n;
            enq_next = λ n. inr (refl, n);
            deq_next = λ n. inr (refl, n);
          };
          knows = m;
          count_bound = h.count_bound;
          counted = λ a r n. omega (arith, n, same_a, same_d);
          right = rw no_r tt;
          once =
              λ t o n g. omega (arith, same_u t, ap {B = ℕ} (tally (is_for t)) {y = []} no_r) ∙ g;
        })
        (View-ext zero_value (view zero_value (moved zero_value k s j q next)) y refl refl
          (λ t. seq_of-set_value zero_value k s.ring p t w h.shape)
          (λ t. value_of-set_value zero_value k s.ring p t w h.shape)
          (λ i.
            held_set zero_value writing s.pcs j i next l
            ∙ put_at_same x.writer j i (writing next) (sym same_w))
          (λ i.
            held_set zero_value reading s.pcs j i next l
            ∙ put_at_same x.reader j i (reading next) (sym same_r))
          (ap (λ xs. s.pushed ++ xs) no_c ∙ append-nil s.pushed))
        (λ i n u g.
          put_slot_other (2 ^ k) x.val p u w (held_apart (2 ^ k) x i j u p two h.sound n g holds))
    where
      q : Ring A
      q = set_value zero_value s.ring p w

      x : View A
      x = view zero_value s

      y : View A
      y = record x { val = put_slot (2 ^ k) x.val p w }

      held :
          (writing (pc_of s j) ≡ some p) ⊎ (reading (pc_of s j) ≡ some p)
          → (x.seq p ≡ p) ⊎ ((p < x.deq) × (x.seq p ≡ p + 1))
      held (inl a) = inl (h.sound.writes j p a).1
      held (inr a) = inr (h.sound.reads j p a)

  pub enqueue_written :
      (s : System A) (j : ℕ) (v : A) (p : ℕ)
      → j < length s.pcs
      → 2 ≤ 2 ^ k
      → Holds zero_value k s
      → pc_of s j ≡ enq_claimed v p
      → Holds zero_value k
          (moved zero_value k s j (set_value zero_value s.ring p v) (enq_written v p))
  enqueue_written s j v p l two h e =
      written s j p v (enq_written v p) l two h (inl (ap writing e)) (sym (ap writing e))
        (sym (ap reading e)) (sym (ap adding e)) (sym (ap removing e)) (λ t. sym (ap (unread t) e))
        refl refl
        (
          subst (Knows (view zero_value s)) e (h.knows j),
          put_slot_same (2 ^ k) (value_of zero_value s.ring) p p v refl,
        )

  pub dequeue_cleared :
      (s : System A) (j : ℕ) (p : ℕ) (v : A)
      → j < length s.pcs
      → 2 ≤ 2 ^ k
      → Holds zero_value k s
      → pc_of s j ≡ deq_read p v
      → Holds zero_value k
          (moved zero_value k s j (set_value zero_value s.ring p zero_value) (deq_cleared p v))
  dequeue_cleared s j p v l two h e =
      written s j p zero_value (deq_cleared p v) l two h (inr (ap reading e)) (sym (ap writing e))
        (sym (ap reading e)) (sym (ap adding e)) (sym (ap removing e)) (λ t. sym (ap (unread t) e))
        refl refl (subst (Knows (view zero_value s)) e (h.knows j))

  pub dequeue_read :
      (s : System A) (j : ℕ) (p : ℕ)
      → j < length s.pcs
      → Holds zero_value k s
      → pc_of s j ≡ deq_claimed p
      → Holds zero_value k
          (moved zero_value k s j s.ring (deq_read p (value_of zero_value s.ring p)))
  dequeue_read s j p l h e =
      Holds-moved zero_value k s j s.ring next x l h
        (record {
          shape = h.shape;
          sound = h.sound;
          kept = IsKept_self zero_value k x;
          knows = value;
          count_bound = h.count_bound;
          counted = λ a r n. omega (arith, n, ap {B = ℕ} adding e, ap {B = ℕ} removing e);
          right = (get_elem?-append_some s.pushed [] p (x.val p) value, tt);
          once = λ t o n g. omega (arith, ap {B = ℕ} (unread t) e) ∙ g;
        })
        (View-ext zero_value (view zero_value (moved zero_value k s j s.ring next)) x refl refl
          (λ t. refl) (λ t. refl)
          (λ i.
            held_set zero_value writing s.pcs j i next l
            ∙ put_at_same x.writer j i none (ap writing e))
          (λ i.
            held_set zero_value reading s.pcs j i next l
            ∙ put_at_same x.reader j i (some p) (ap reading e))
          (append-nil s.pushed))
        (λ i n u g. refl)
    where
      x : View A
      x = view zero_value s

      next : Pc A
      next = deq_read p (x.val p)

      value : get_elem? s.pushed p ≡ some (x.val p)
      value = subst (Knows x) e (h.knows j)
