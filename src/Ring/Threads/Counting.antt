-- ===== src/Ring/Threads/Counting.antt =====
-- How `Enqueue` and `Dequeue` of internal/queue/ring.go count, and return.
use hyper_l.Base.{
  ℕ, ◌+◌, ◌-◌, ◌%◌, ◌^◌, ◌<◌, ◌≡◌, refl, sym, ap, ◌∙◌, arith, true, some, [], ◌++◌, append-nil,
  length,
}
use hyper_l.Ring.{Ring, Pc, enq_stored, enq_returned, deq_stored, deq_returned}
use hyper_l.Ring.Threads.{System, pc_of, claims, reads}
use hyper_l.Ring.Threads.View.{View, Knows, writing, reading}
use hyper_l.Ring.Threads.Slots.{put_at_same}
use hyper_l.Ring.Threads.Invariant.{
  tally, adding, removing, unread, is_for, view, Holds, View-ext, held_set,
}
use hyper_l.Ring.Threads.Moves.{moved, Holds-moved}
use hyper_l.Ring.Threads.Steps.{IsKept_self}

module _ {A : Type 0} (zero_value : A) (k : ℕ) where
  -- `length.Add`, and the return.
  recounted :
      (s : System A) (j n : ℕ) (next : Pc A)
      → j < length s.pcs
      → n < 2 ^ 64
      → Holds zero_value k s
      → writing next ≡ writing (pc_of s j)
      → reading next ≡ reading (pc_of s j)
      → ((t : ℕ) → unread t next ≡ unread t (pc_of s j))
      → claims next ≡ []
      → reads next ≡ []
      → Knows (view zero_value s) next
      → ((a r : ℕ)
          → (s.ring.count + s.ring.dequeue_pos + (a + adding (pc_of s j))) % 2 ^ 64
            ≡ (s.ring.enqueue_pos + (r + removing (pc_of s j))) % 2 ^ 64
          → (n + s.ring.dequeue_pos + (a + adding next)) % 2 ^ 64
            ≡ (s.ring.enqueue_pos + (r + removing next)) % 2 ^ 64)
      → Holds zero_value k (moved zero_value k s j (record s.ring { count = n }) next)
  recounted s j n next l b h same_w same_r same_u no_c no_r m c =
      Holds-moved zero_value k s j q next x l h
        (record {
          shape = record {
            big = h.shape.big;
            mask_is = h.shape.mask_is;
            cells_are = h.shape.cells_are;
          };
          sound = h.sound;
          kept = IsKept_self zero_value k x;
          knows = m;
          count_bound = b;
          counted = c;
          right = rw no_r tt;
          once =
              λ t o n g. omega (arith, same_u t, ap {B = ℕ} (tally (is_for t)) {y = []} no_r) ∙ g;
        })
        (View-ext zero_value (view zero_value (moved zero_value k s j q next)) x refl refl
          (λ t. refl) (λ t. refl)
          (λ i.
            held_set zero_value writing s.pcs j i next l
            ∙ put_at_same x.writer j i (writing next) (sym same_w))
          (λ i.
            held_set zero_value reading s.pcs j i next l
            ∙ put_at_same x.reader j i (reading next) (sym same_r))
          (ap (λ xs. s.pushed ++ xs) no_c ∙ append-nil s.pushed))
        (λ i n u g. refl)
    where
      q : Ring A
      q = record s.ring { count = n }

      x : View A
      x = view zero_value s

  pub enqueue_counted :
      (s : System A) (j : ℕ)
      → j < length s.pcs
      → Holds zero_value k s
      → pc_of s j ≡ enq_stored
      → Holds zero_value k (
          moved zero_value k s j
            (record s.ring { count = (s.ring.count + 1) % 2 ^ 64 })
            (enq_returned true))
  enqueue_counted s j l h e =
      recounted s j ((s.ring.count + 1) % 2 ^ 64) (enq_returned true) l (omega arith) h
        (sym (ap writing e)) (sym (ap reading e)) (λ t. sym (ap (unread t) e)) refl refl tt
        (λ a r m. omega (arith, m, ap {B = ℕ} adding e, ap {B = ℕ} removing e))

  pub dequeue_counted :
      (s : System A) (j : ℕ) (p : ℕ) (v : A)
      → j < length s.pcs
      → Holds zero_value k s
      → pc_of s j ≡ deq_stored p v
      → Holds zero_value k (
          moved zero_value k s j
            (record s.ring { count = (s.ring.count + (2 ^ 64 - 1)) % 2 ^ 64 })
            (deq_returned (some v)))
  dequeue_counted s j p v l h e =
      recounted s j ((s.ring.count + (2 ^ 64 - 1)) % 2 ^ 64) (deq_returned (some v)) l (omega arith)
        h (sym (ap writing e)) (sym (ap reading e)) (λ t. sym (ap (unread t) e)) refl refl tt
        (λ a r m. omega (arith, m, ap {B = ℕ} adding e, ap {B = ℕ} removing e))
