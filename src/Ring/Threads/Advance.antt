-- ===== src/Ring/Threads/Advance.antt =====
-- Every step of a call on a ring of internal/queue/ring.go keeps what holds.
use native.Mathlib.Decide.{ℕ_discrete}
use hyper_l.Base.{
  ℕ, ◌+◌, ◌%◌, ◌^◌, ◌<◌, ◌≤◌, ◌≡◌, refl, sym, arith, if◌then◌else◌, ◌==◌, Bool, true, false, none,
  length, subst, inl, inr,
}
use hyper_l.Ring.{
  Ring, Pc, step, dif, enq_switch, deq_switch, idle, enq_start, enq_loaded, enq_checked,
  enq_claimed, enq_written, enq_stored, enq_returned, deq_start, deq_loaded, deq_checked,
  deq_claimed, deq_read, deq_cleared, deq_stored, deq_returned,
}
use hyper_l.Ring.Alone.{seq_of}
use hyper_l.Ring.Threads.{System, pc_of, advance}
use hyper_l.Ring.Threads.View.{Knows}
use hyper_l.Ring.Threads.Claims.{seq_bound}
use hyper_l.Ring.Threads.Invariant.{view, Holds}
use hyper_l.Ring.Threads.Moves.{moved}
use hyper_l.Ring.Threads.Steps.{Outside, relocated, dif_cases}
use hyper_l.Ring.Threads.Claiming.{enqueue_claimed, dequeue_claimed}
use hyper_l.Ring.Threads.Writing.{enqueue_written, dequeue_cleared, dequeue_read}
use hyper_l.Ring.Threads.Storing.{enqueue_published, dequeue_released}
use hyper_l.Ring.Threads.Counting.{enqueue_counted, dequeue_counted}

module _ {A : Type 0} (zero_value : A) (k : ℕ) where
  -- A goroutine that held no ticket where it stood.
  pub aside_from :
      (s : System A) (j : ℕ) (pc next : Pc A)
      → j < length s.pcs
      → Holds zero_value k s
      → pc_of s j ≡ pc
      → Outside pc
      → Outside next
      → Knows (view zero_value s) next
      → Holds zero_value k (moved zero_value k s j s.ring next)
  aside_from s j pc next l h e a b m =
      relocated zero_value k s j next l h (subst Outside {x = pc} (sym e) a) b m

  enqueue_checked :
      (s : System A) (j : ℕ) (v : A) (p : ℕ)
      → j < length s.pcs
      → 2 ≤ 2 ^ k
      → s.ring.enqueue_pos + 2 ^ k + 1 < 2 ^ 63
      → Holds zero_value k s
      → pc_of s j ≡ enq_loaded v p
      → Holds zero_value k
          (moved zero_value k s j s.ring (enq_switch v p (dif (seq_of zero_value s.ring p) p)))
  enqueue_checked s j v p l two far h e =
      elim (dif_cases (seq_of zero_value s.ring p) p bound (omega (arith, known))) [
        | inl q ↦ rw q.1 (
            aside_from s j (enq_loaded v p) (enq_checked v p) l h e tt tt
              (elim (ℕ_discrete p s.ring.enqueue_pos) [
                | yes i ↦ inr (i, q.0)
                | no i ↦ inl (omega (arith, known))
              ]))
        | inr (inl q) ↦ rw q.1 (aside_from s j (enq_loaded v p) (enq_returned false) l h e tt tt tt)
        | inr (inr q) ↦ rw q.1 (aside_from s j (enq_loaded v p) (enq_start v) l h e tt tt tt)
      ]
    where
      known : p ≤ s.ring.enqueue_pos
      known = subst (Knows (view zero_value s)) e (h.knows j)

      bound : seq_of zero_value s.ring p < 2 ^ 63
      bound = omega (arith, seq_bound (2 ^ k) (view zero_value s) p two h.sound)

  dequeue_checked :
      (s : System A) (j p : ℕ)
      → j < length s.pcs
      → 2 ≤ 2 ^ k
      → s.ring.enqueue_pos + 2 ^ k + 1 < 2 ^ 63
      → Holds zero_value k s
      → pc_of s j ≡ deq_loaded p
      → Holds zero_value k (
          moved zero_value k s j s.ring
            (deq_switch p (dif (seq_of zero_value s.ring p) ((p + 1) % 2 ^ 64))))
  dequeue_checked s j p l two far h e =
      rw wrap
        (elim (dif_cases (seq_of zero_value s.ring p) (p + 1) bound
          (omega (arith, known, h.sound.ordered))) [
            | inl q ↦ rw q.1 (
                aside_from s j (deq_loaded p) (deq_checked p) l h e tt tt
                  (elim (ℕ_discrete p s.ring.dequeue_pos) [
                    | yes i ↦ inr (i, q.0)
                    | no i ↦ inl (omega (arith, known))
                  ]))
            | inr (inl q) ↦
                rw q.1 (aside_from s j (deq_loaded p) (deq_returned none) l h e tt tt tt)
            | inr (inr q) ↦ rw q.1 (aside_from s j (deq_loaded p) deq_start l h e tt tt tt)
          ])
    where
      known : p ≤ s.ring.dequeue_pos
      known = subst (Knows (view zero_value s)) e (h.knows j)

      bound : seq_of zero_value s.ring p < 2 ^ 63
      bound = omega (arith, seq_bound (2 ^ k) (view zero_value s) p two h.sound)

      wrap : (p + 1) % 2 ^ 64 ≡ p + 1
      wrap = omega (arith, known, h.sound.ordered)

  -- The outcome of a compare-and-swap.
  either :
      (s : System A) (j : ℕ) (b : Bool) (x y : Ring A × Pc A)
      → (b ≡ true → Holds zero_value k (moved zero_value k s j x.0 x.1))
      → (b ≡ false → Holds zero_value k (moved zero_value k s j y.0 y.1))
      → Holds zero_value k (moved zero_value k s j (if b then x else y).0 (if b then x else y).1)
  either s j true x y f g = f refl
  either s j false x y f g = g refl

  -- One step of one call.
  pub Holds-advance :
      (s : System A) (j : ℕ) (pc : Pc A)
      → j < length s.pcs
      → 2 ≤ 2 ^ k
      → s.ring.enqueue_pos + 2 ^ k + 1 < 2 ^ 63
      → Holds zero_value k s
      → pc_of s j ≡ pc
      → Holds zero_value k (advance zero_value s j pc)
  unfolding step
  Holds-advance s j idle l two far h e = aside_from s j idle idle l h e tt tt tt
  Holds-advance s j (enq_start v) l two far h e =
      aside_from s j (enq_start v) (enq_loaded v s.ring.enqueue_pos) l h e tt tt (omega arith)
  Holds-advance s j (enq_loaded v p) l two far h e = enqueue_checked s j v p l two far h e
  Holds-advance s j (enq_checked v p) l two far h e =
      either s j (s.ring.enqueue_pos == p)
        (record s.ring { enqueue_pos = (p + 1) % 2 ^ 64 }, enq_claimed v p) (s.ring, enq_start v)
        (λ q. enqueue_claimed zero_value k s j v p l two far h e (ground (arith, q)))
        (λ q. aside_from s j (enq_checked v p) (enq_start v) l h e tt tt tt)
  Holds-advance s j (enq_claimed v p) l two far h e = enqueue_written zero_value k s j v p l two h e
  Holds-advance s j (enq_written v p) l two far h e =
      enqueue_published zero_value k s j v p l two far h e
  Holds-advance s j enq_stored l two far h e = enqueue_counted zero_value k s j l h e
  Holds-advance s j (enq_returned b) l two far h e =
      aside_from s j (enq_returned b) (enq_returned b) l h e tt tt tt
  Holds-advance s j deq_start l two far h e =
      aside_from s j deq_start (deq_loaded s.ring.dequeue_pos) l h e tt tt (omega arith)
  Holds-advance s j (deq_loaded p) l two far h e = dequeue_checked s j p l two far h e
  Holds-advance s j (deq_checked p) l two far h e =
      either s j (s.ring.dequeue_pos == p)
        (record s.ring { dequeue_pos = (p + 1) % 2 ^ 64 }, deq_claimed p) (s.ring, deq_start)
        (λ q. dequeue_claimed zero_value k s j p l two far h e (ground (arith, q)))
        (λ q. aside_from s j (deq_checked p) deq_start l h e tt tt tt)
  Holds-advance s j (deq_claimed p) l two far h e = dequeue_read zero_value k s j p l h e
  Holds-advance s j (deq_read p v) l two far h e = dequeue_cleared zero_value k s j p v l two h e
  Holds-advance s j (deq_cleared p v) l two far h e =
      dequeue_released zero_value k s j p v l two far h e
  Holds-advance s j (deq_stored p v) l two far h e = dequeue_counted zero_value k s j p v l h e
  Holds-advance s j (deq_returned r) l two far h e =
      aside_from s j (deq_returned r) (deq_returned r) l h e tt tt tt
