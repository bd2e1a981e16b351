-- ===== src/Ring/Refine.antt =====
-- Uninterrupted calls on the ring of internal/queue/ring.go, against the bounded queue.
use native.Mathlib.Decide.{dec_lt}
use hyper_l.Base.{ℕ, ◌+◌, ◌-◌, ◌^◌, ◌<◌, ◌≤◌, ◌≡◌, refl, sym, ap, arith, List, [], ◌∷◌, length}
use hyper_l.Ring.{Ring, Pc, enq_returned, deq_returned, enqueue, dequeue}
use hyper_l.Ring.Queue
use hyper_l.Ring.Queue.{Op, put, get, Reply, accepted, taken, pending}
use hyper_l.Ring.Alone.{IsQuiet, contents}
use hyper_l.Ring.Alone.Calls.{enqueue_full, enqueue_free, dequeue_filled, dequeue_empty}
use hyper_l.Ring.Kept.{
  appended-IsQuiet, contents-appended, contents-removed, length-window, removed-IsQuiet,
}

-- The reply that a finished call gives.
abbrev pub reply : {A : Type 0} → Pc A → Reply A
reply (enq_returned b) = accepted b
reply (deq_returned r) = taken r
reply pc = pending

module _ {A : Type 0} (zero_value : A) where
  -- A client's calls in order, none of them interrupted, with what each returns.
  unfoldable pub run : Ring A → List (Op A) → List (Reply A)
  run q [] = []
  run q (put x ∷ ops) = let (q', pc) = enqueue zero_value q x in reply pc ∷ run q' ops
  run q (get ∷ ops) = let (q', pc) = dequeue zero_value q in reply pc ∷ run q' ops

  -- One uninterrupted `Enqueue` on a quiet ring, and `push` on its contents.
  pub enqueue_refines :
      (k : ℕ) (q : Ring A) (v : A)
      → IsQuiet zero_value k q
      → q.enqueue_pos + 2 ^ k + 1 < 2 ^ 63
      → let (q', pc) = enqueue zero_value q v in
        IsQuiet zero_value k q'
        × (q'.enqueue_pos ≤ q.enqueue_pos + 1)
        × ((contents zero_value q', reply pc) ≡ Queue.push (2 ^ k) (contents zero_value q) v)
  unfolding Queue.push
  enqueue_refines k q v h far = elim (dec_lt q.enqueue_pos (q.dequeue_pos + 2 ^ k)) [
    | yes room ↦ rw (enqueue_free zero_value k q v h (omega arith) room) (
      appended-IsQuiet zero_value k q v h room,
      omega arith,
      ground (
        arith,
        contents-appended zero_value k q v h room,
        length-window zero_value q q.dequeue_pos (q.enqueue_pos - q.dequeue_pos),
      ),
    )
    | no full ↦ rw (enqueue_full zero_value k q v h (omega arith) (omega (arith, h.within))) (
      h,
      omega arith,
      ground (
        arith,
        h.within,
        length-window zero_value q q.dequeue_pos (q.enqueue_pos - q.dequeue_pos),
      ),
    )
  ]

  -- One uninterrupted `Dequeue` on a quiet ring, and `pop` on its contents.
  pub dequeue_refines :
      (k : ℕ) (q : Ring A)
      → IsQuiet zero_value k q
      → q.enqueue_pos + 2 ^ k + 1 < 2 ^ 63
      → let (q', pc) = dequeue zero_value q in
        IsQuiet zero_value k q'
        × (q'.enqueue_pos ≡ q.enqueue_pos)
        × ((contents zero_value q', reply pc) ≡ Queue.pop (contents zero_value q))
  unfolding Queue.pop
  dequeue_refines k q h far = elim (dec_lt q.dequeue_pos q.enqueue_pos) [
    | yes left ↦ rw (dequeue_filled zero_value k q h (omega arith) left) (
      removed-IsQuiet zero_value k q h left,
      refl,
      sym (ap Queue.pop (contents-removed zero_value k q h left)),
    )
    | no empty ↦
        rw (dequeue_empty zero_value k q h (omega arith) (omega (arith, h.ordered))) (
          h,
          refl,
          (let none_left : q.enqueue_pos - q.dequeue_pos ≡ 0 = omega arith in rw none_left),
        )
  ]

  -- Of any sequence of uninterrupted calls that stays clear of the wrap of the positions, no reply
  -- tells a quiet ring of `2 ^ k` cells from the queue of its contents bounded by `2 ^ k`.
  pub run_refines :
      (k : ℕ) (ops : List (Op A)) (q : Ring A)
      → IsQuiet zero_value k q
      → q.enqueue_pos + length ops + 2 ^ k + 1 < 2 ^ 63
      → run q ops ≡ Queue.run (2 ^ k) (contents zero_value q) ops
  unfolding run Queue.run
  run_refines k [] q h far = refl
  run_refines k (put x ∷ ops) q h far =
      let r = enqueue_refines k q x h (omega arith) in
      rw (run_refines k ops (enqueue zero_value q x).0 r.0 (omega (arith, r.1)), ← r.2)
  run_refines k (get ∷ ops) q h far =
      let r = dequeue_refines k q h (omega arith) in
      rw (run_refines k ops (dequeue zero_value q).0 r.0 (omega (arith, r.1)), ← r.2)
