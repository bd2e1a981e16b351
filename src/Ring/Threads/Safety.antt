-- ===== src/Ring/Threads/Safety.antt =====
-- What the callers of Enqueue and Dequeue of internal/queue/ring.go get, in any interleaving.
use hyper_l.Base.{
  ℕ, ◌+◌, ◌^◌, ◌<◌, ◌≤◌, ◌≡◌, arith, if◌then◌else◌, ltb, some, List, get_elem?, length, All,
}
use hyper_l.Ring.Threads.{Act, begin, after}
use hyper_l.Ring.Threads.Invariant.{tally, unread, is_for, Holds}
use hyper_l.Ring.Threads.Reach.{Holds-exec}
use hyper_l.Ring.Threads.Begin.{Holds-begin, two}

module _ {A : Type 0} (zero_value : A) (k : ℕ) (big : 1 ≤ k) (n : ℕ) (acts : List (ℕ × Act A))
    (far : length acts + 2 ^ k + 1 < 2 ^ 63) where
  reached :
      Holds zero_value k (after zero_value k n acts)
      × ((after zero_value k n acts).ring.enqueue_pos ≤ 0 + length acts)
  reached =
      Holds-exec zero_value k (begin zero_value k n) acts (two zero_value k big) (omega arith)
        (Holds-begin zero_value k big n)

  pub holds : Holds zero_value k (after zero_value k n acts)
  holds = reached.0

  pub claimed_few : (after zero_value k n acts).ring.enqueue_pos ≤ length acts
  claimed_few = omega (arith, reached.1)

  -- Of any schedule on a new ring of 2 ^ k cells, k at least 1, that is shorter than 2 ^ 63 less
  -- the number of cells and one: a value that a Dequeue reads is the one that was given to the
  -- Enqueue of the same ticket; each ticket below the dequeue position has been read once, or one
  -- Dequeue has claimed it and has not read yet; no other ticket is read.
  pub each_once :
      All
        (λ e. get_elem? (after zero_value k n acts).pushed e.0 ≡ some e.1)
        (after zero_value k n acts).delivered
      × ((t : ℕ)
          → tally (is_for t) (after zero_value k n acts).delivered
              + tally (unread t) (after zero_value k n acts).pcs
            ≡ (if ltb t (after zero_value k n acts).ring.dequeue_pos then 1 else 0))
  each_once = (holds.right, holds.once)
