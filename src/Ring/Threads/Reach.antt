-- ===== src/Ring/Threads/Reach.antt =====
-- Every schedule of goroutines on a new ring of internal/queue/ring.go keeps what holds.
use hyper_l.Base.{
  ℕ, ◌+◌, ◌^◌, ◌<◌, ◌≤◌, ◌≡◌, refl, sym, arith, if◌then◌else◌, ltb, set, Bool, true, false, List,
  [], ◌∷◌, ◌++◌, append-nil, length, subst,
}
use hyper_l.Ring.{
  Ring, Pc, step, idle, enq_start, enq_loaded, enq_checked, enq_claimed, enq_written, enq_stored,
  enq_returned, deq_start, deq_loaded, deq_checked, deq_claimed, deq_read, deq_cleared, deq_stored,
  deq_returned,
}
use hyper_l.Ring.Threads.{
  System, Act, call_enqueue, call_dequeue, go, at_rest, pc_of, perform, act, exec,
}
use hyper_l.Ring.Threads.Invariant.{Holds}
use hyper_l.Ring.Threads.Steps.{Outside, relocated}
use hyper_l.Ring.Threads.Advance.{Holds-advance}

pub Outside-at_rest : {A : Type 0} (pc : Pc A) → at_rest pc ≡ true → Outside pc
Outside-at_rest idle h = tt
Outside-at_rest (enq_start v) h = tt
Outside-at_rest (enq_loaded v p) h = tt
Outside-at_rest (enq_checked v p) h = tt
Outside-at_rest (enq_claimed v p) h = absurd (ground (arith, h))
Outside-at_rest (enq_written v p) h = absurd (ground (arith, h))
Outside-at_rest enq_stored h = absurd (ground (arith, h))
Outside-at_rest (enq_returned b) h = tt
Outside-at_rest deq_start h = tt
Outside-at_rest (deq_loaded p) h = tt
Outside-at_rest (deq_checked p) h = tt
Outside-at_rest (deq_claimed p) h = absurd (ground (arith, h))
Outside-at_rest (deq_read p v) h = absurd (ground (arith, h))
Outside-at_rest (deq_cleared p v) h = absurd (ground (arith, h))
Outside-at_rest (deq_stored p v) h = absurd (ground (arith, h))
Outside-at_rest (deq_returned r) h = tt

-- A call begins where it holds nothing.
data IsCall {A : Type 0} : Pc A → Type 0 where
  enqueuing : (v : A) → IsCall (enq_start v)
  dequeuing : IsCall deq_start

module _ {A : Type 0} (zero_value : A) where
  -- A step moves the enqueue position by one at most.
  enqueue_pos-step :
      (q : Ring A) (pc : Pc A) → (step zero_value q pc).0.enqueue_pos ≤ q.enqueue_pos + 1
  unfolding step
  enqueue_pos-step q idle = omega arith
  enqueue_pos-step q (enq_start v) = omega arith
  enqueue_pos-step q (enq_loaded v p) = omega arith
  enqueue_pos-step q (enq_checked v p) = ground arith
  enqueue_pos-step q (enq_claimed v p) = omega arith
  enqueue_pos-step q (enq_written v p) = omega arith
  enqueue_pos-step q enq_stored = omega arith
  enqueue_pos-step q (enq_returned b) = omega arith
  enqueue_pos-step q deq_start = omega arith
  enqueue_pos-step q (deq_loaded p) = omega arith
  enqueue_pos-step q (deq_checked p) = ground arith
  enqueue_pos-step q (deq_claimed p) = omega arith
  enqueue_pos-step q (deq_read p v) = omega arith
  enqueue_pos-step q (deq_cleared p v) = omega arith
  enqueue_pos-step q (deq_stored p v) = omega arith
  enqueue_pos-step q (deq_returned r) = omega arith

  -- Any act, of any goroutine.
  pub Holds-act :
      (k : ℕ) (s : System A) (j : ℕ) (a : Act A)
      → 2 ≤ 2 ^ k
      → s.ring.enqueue_pos + 2 ^ k + 1 < 2 ^ 63
      → Holds zero_value k s
      → Holds zero_value k (act zero_value s j a)
        × ((act zero_value s j a).ring.enqueue_pos ≤ s.ring.enqueue_pos + 1)
  Holds-act k s j a two far h = guarded (ltb j (length s.pcs)) refl
    where
      unchanged :
          (next : Pc A)
          → record {
            ring = s.ring;
            pcs = set s.pcs j next;
            pushed = s.pushed ++ [];
            delivered = s.delivered ++ [];
          }
            ≡ record s { pcs = set s.pcs j next }
      unchanged next = λ i. record s {
        pcs = set s.pcs j next;
        pushed = append-nil s.pushed i;
        delivered = append-nil s.delivered i;
      }

      P : System A → Type 0
      P t = Holds zero_value k t × (t.ring.enqueue_pos ≤ s.ring.enqueue_pos + 1)

      begun :
          (next : Pc A)
          → IsCall next
          → Outside (pc_of s j)
          → j < length s.pcs
          → Holds zero_value k (record s { pcs = set s.pcs j next })
      begun next (enqueuing v) o l =
          subst (Holds zero_value k) (unchanged (enq_start v))
            (relocated zero_value k s j (enq_start v) l h o tt tt)
      begun next dequeuing o l =
          subst (Holds zero_value k) (unchanged deq_start)
            (relocated zero_value k s j deq_start l h o tt tt)

      started :
          (pc next : Pc A)
          → IsCall next
          → j < length s.pcs
          → pc_of s j ≡ pc
          → P (if at_rest pc then record s { pcs = set s.pcs j next } else s)
      started pc next c l e =
          elim (at_rest pc)
              as (λ b. at_rest pc ≡ b → P (if b then record s { pcs = set s.pcs j next } else s)) [
                | true ↦ λ r. (
                  begun next c (subst Outside {x = pc} (sym e) (Outside-at_rest pc r)) l,
                  omega arith,
                )
                | false ↦ λ r. (h, omega arith)
              ]
            refl

      performed : (a : Act A) → j < length s.pcs → P (perform zero_value s j a)
      performed (call_enqueue v) l = started (pc_of s j) (enq_start v) (enqueuing v) l refl
      performed call_dequeue l = started (pc_of s j) deq_start dequeuing l refl
      performed go l = (
        Holds-advance zero_value k s j (pc_of s j) l two far h refl,
        enqueue_pos-step s.ring (pc_of s j),
      )

      guarded :
          (b : Bool) → ltb j (length s.pcs) ≡ b → P (if b then perform zero_value s j a else s)
      guarded true e = performed a (ground (arith, e))
      guarded false e = (h, omega arith)

  -- A schedule of `length acts` acts keeps what holds as long as the positions stay clear of the wrap.
  pub Holds-exec :
      (k : ℕ) (s : System A) (acts : List (ℕ × Act A))
      → 2 ≤ 2 ^ k
      → s.ring.enqueue_pos + length acts + 2 ^ k + 1 < 2 ^ 63
      → Holds zero_value k s
      → Holds zero_value k (exec zero_value s acts)
        × ((exec zero_value s acts).ring.enqueue_pos ≤ s.ring.enqueue_pos + length acts)
  unfolding exec
  Holds-exec k s [] two far h = (h, omega arith)
  Holds-exec k s (a ∷ acts) two far h =
      let (h', l) = Holds-act k s a.0 a.1 two (omega arith) h in
      let (g, m) = Holds-exec k (act zero_value s a.0 a.1) acts two (omega arith) h' in
      (g, omega (arith, l, m))
