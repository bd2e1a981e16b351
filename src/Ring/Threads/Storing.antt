-- ===== src/Ring/Threads/Storing.antt =====
-- What `Enqueue` and `Dequeue` of internal/queue/ring.go store in the sequence of a cell.
use hyper_l.Base.{
  ℕ, ◌+◌, ◌%◌, ◌^◌, ◌<◌, ◌≤◌, ◌≡◌, ◌≢◌, refl, sym, ap, ◌∙◌, arith, none, some, append-nil,
  get_elem?, length, length-set, subst, inr,
}
use hyper_l.Ring.{Ring, set_sequence, enq_written, enq_stored, deq_cleared, deq_stored}
use hyper_l.Ring.Alone.{seq_of-set_sequence, value_of-set_sequence}
use hyper_l.Ring.Threads.{System, pc_of}
use hyper_l.Ring.Threads.View.{View, Knows, writing, reading}
use hyper_l.Ring.Threads.Slots.{put_at, put_at_same, put_slot, put_slot_other}
use hyper_l.Ring.Threads.Claims.{apart}
use hyper_l.Ring.Threads.Invariant.{adding, removing, unread, view, Holds, View-ext, held_set}
use hyper_l.Ring.Threads.Moves.{moved, Holds-moved}
use hyper_l.Ring.Kept.{HasShape-of}
use hyper_l.Ring.Threads.Stores.{publish, release}

module _ {A : Type 0} (zero_value : A) (k : ℕ) where
  pub enqueue_published :
      (s : System A) (j : ℕ) (v : A) (p : ℕ)
      → j < length s.pcs
      → 2 ≤ 2 ^ k
      → s.ring.enqueue_pos + 2 ^ k + 1 < 2 ^ 63
      → Holds zero_value k s
      → pc_of s j ≡ enq_written v p
      → Holds zero_value k
          (moved zero_value k s j (set_sequence zero_value s.ring p ((p + 1) % 2 ^ 64)) enq_stored)
  enqueue_published s j v p l two far h e =
      Holds-moved zero_value k s j q enq_stored y l h
        (record {
          shape = HasShape-of zero_value k {q = s.ring} refl (length-set s.ring.cells _ _) h.shape;
          sound =
              publish (2 ^ k) x j p two h.sound (ap writing e) (known.0 ∙ ap some (sym known.1));
          kept = record {
            enq_on = omega arith;
            deq_on = omega arith;
            pushed_on = λ u v n. n;
            enq_next = λ n. inr (refl, put_slot_other (2 ^ k) x.seq p x.enq (p + 1) (free n) ∙ n);
            deq_next = λ n. inr (refl, put_slot_other (2 ^ k) x.seq p x.deq (p + 1) (full n) ∙ n);
          };
          knows = tt;
          count_bound = h.count_bound;
          counted = λ a r n. omega (arith, n, ap {B = ℕ} adding e, ap {B = ℕ} removing e);
          right = tt;
          once = λ t o n g. omega (arith, ap {B = ℕ} (unread t) e) ∙ g;
        })
        (View-ext zero_value (view zero_value (moved zero_value k s j q enq_stored)) y refl refl
          (λ t.
            seq_of-set_sequence zero_value k s.ring p t ((p + 1) % 2 ^ 64) h.shape
            ∙ ap (λ n. put_slot (2 ^ k) x.seq p n t) (omega (arith, mine.0)))
          (λ t. value_of-set_sequence zero_value k s.ring p t ((p + 1) % 2 ^ 64) h.shape)
          (λ i. held_set zero_value writing s.pcs j i enq_stored l)
          (λ i.
            held_set zero_value reading s.pcs j i enq_stored l
            ∙ put_at_same x.reader j i none (ap reading e))
          (append-nil s.pushed))
        (λ i n u g. refl)
    where
      q : Ring A
      q = set_sequence zero_value s.ring p ((p + 1) % 2 ^ 64)

      x : View A
      x = view zero_value s

      y : View A
      y = record x { seq = put_slot (2 ^ k) x.seq p (p + 1); writer = put_at x.writer j none }

      known : (get_elem? s.pushed p ≡ some v) × (x.val p ≡ v)
      known = subst (Knows x) e (h.knows j)

      mine : (p < x.enq) × (x.seq p ≡ p)
      mine = h.sound.writes j p (ap writing e)

      free : x.seq x.enq ≡ x.enq → x.enq % 2 ^ k ≢ p % 2 ^ k
      free n m = omega (arith, mine.0, mine.1, n, h.sound.same_seq x.enq p m)

      full : x.seq x.deq ≡ x.deq + 1 → x.deq % 2 ^ k ≢ p % 2 ^ k
      full n m = apart (2 ^ k) x p x.deq two h.sound mine.1 n (sym m)

  pub dequeue_released :
      (s : System A) (j : ℕ) (p : ℕ) (v : A)
      → j < length s.pcs
      → 2 ≤ 2 ^ k
      → s.ring.enqueue_pos + 2 ^ k + 1 < 2 ^ 63
      → Holds zero_value k s
      → pc_of s j ≡ deq_cleared p v
      → Holds zero_value k (
          moved zero_value k s j
            (set_sequence zero_value s.ring p ((p + s.ring.mask + 1) % 2 ^ 64))
            (deq_stored p v))
  dequeue_released s j p v l two far h e =
      Holds-moved zero_value k s j q (deq_stored p v) y l h
        (record {
          shape = HasShape-of zero_value k {q = s.ring} refl (length-set s.ring.cells _ _) h.shape;
          sound = release (2 ^ k) x j p two h.sound (ap reading e);
          kept = record {
            enq_on = omega arith;
            deq_on = omega arith;
            pushed_on = λ u v n. n;
            enq_next =
                λ n. inr (refl, put_slot_other (2 ^ k) x.seq p x.enq (p + 2 ^ k) (free n) ∙ n);
            deq_next =
                λ n. inr (refl, put_slot_other (2 ^ k) x.seq p x.deq (p + 2 ^ k) (full n) ∙ n);
          };
          knows = subst (Knows x) e (h.knows j);
          count_bound = h.count_bound;
          counted = λ a r n. omega (arith, n, ap {B = ℕ} adding e, ap {B = ℕ} removing e);
          right = tt;
          once = λ t o n g. omega (arith, ap {B = ℕ} (unread t) e) ∙ g;
        })
        (View-ext zero_value (view zero_value (moved zero_value k s j q (deq_stored p v))) y refl
          refl
          (λ t.
            seq_of-set_sequence zero_value k s.ring p t ((p + s.ring.mask + 1) % 2 ^ 64) h.shape
            ∙ ap (λ n. put_slot (2 ^ k) x.seq p n t) round)
          (λ t.
            value_of-set_sequence zero_value k s.ring p t ((p + s.ring.mask + 1) % 2 ^ 64) h.shape)
          (λ i.
            held_set zero_value writing s.pcs j i (deq_stored p v) l
            ∙ put_at_same x.writer j i none (ap writing e))
          (λ i. held_set zero_value reading s.pcs j i (deq_stored p v) l) (append-nil s.pushed))
        (λ i n u g. refl)
    where
      q : Ring A
      q = set_sequence zero_value s.ring p ((p + s.ring.mask + 1) % 2 ^ 64)

      x : View A
      x = view zero_value s

      y : View A
      y = record x { seq = put_slot (2 ^ k) x.seq p (p + 2 ^ k); reader = put_at x.reader j none }

      mine : (p < x.deq) × (x.seq p ≡ p + 1)
      mine = h.sound.reads j p (ap reading e)

      round : (p + s.ring.mask + 1) % 2 ^ 64 ≡ p + 2 ^ k
      round = omega (arith, h.shape.mask_is, mine.0, h.sound.ordered)

      free : x.seq x.enq ≡ x.enq → x.enq % 2 ^ k ≢ p % 2 ^ k
      free n = apart (2 ^ k) x x.enq p two h.sound n mine.1

      full : x.seq x.deq ≡ x.deq + 1 → x.deq % 2 ^ k ≢ p % 2 ^ k
      full n m = omega (arith, mine.0, mine.1, n, h.sound.same_seq x.deq p m)
