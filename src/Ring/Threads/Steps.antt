-- ===== src/Ring/Threads/Steps.antt =====
-- The steps of `Enqueue` and `Dequeue` of internal/queue/ring.go that change no cell, and the claims.
use native.Mathlib.Decide.{dec_lt}
use hyper_l.Base.{
  ℕ, ◌^◌, ◌<◌, ◌≡◌, ◌⊎◌, refl, sym, ap, ◌∙◌, arith, none, [], ◌++◌, append-nil, length, subst, inl,
  inr,
}
use hyper_l.Ring.{
  Pc, dif, same, behind, ahead, idle, enq_start, enq_loaded, enq_checked, enq_claimed, enq_written,
  enq_stored, enq_returned, deq_start, deq_loaded, deq_checked, deq_claimed, deq_read, deq_cleared,
  deq_stored, deq_returned,
}
use hyper_l.Ring.Alone.{dif-same, dif-behind}
use hyper_l.Ring.Threads.{System, pc_of, claims, reads}
use hyper_l.Ring.Threads.View.{View, Knows, writing, reading}
use hyper_l.Ring.Threads.Slots.{put_at_same}
use hyper_l.Ring.Threads.Knowledge.{IsKept}
use hyper_l.Ring.Threads.Invariant.{
  tally, adding, removing, unread, is_for, view, Holds, View-ext, held_set,
}
use hyper_l.Ring.Threads.Moves.{moved, Holds-moved}

dif-ahead : (s p : ℕ) → p < s → s < 2 ^ 63 → dif s p ≡ ahead
dif-ahead s p h l = ground arith

pub dif_cases :
    (s p : ℕ)
    → s < 2 ^ 63
    → p < 2 ^ 63
    → ((s ≡ p) × (dif s p ≡ same)) ⊎ ((s < p) × (dif s p ≡ behind)) ⊎ ((p < s) × (dif s p ≡ ahead))
dif_cases s p l m = elim (dec_lt s p) [
  | yes b ↦ inr (inl (b, dif-behind s p b m))
  | no n ↦ elim (dec_lt p s) [
    | yes a ↦ inr (inr (a, dif-ahead s p a l))
    | no n' ↦
        let e : s ≡ p = omega arith in inl (e, subst (λ t. dif t p ≡ same) (sym e) (dif-same p))
  ]
]

-- A goroutine that holds no ticket.
abbrev pub Aside : {A : Type 0} → Pc A → Type 0
Aside pc =
    (writing pc ≡ none)
    × (reading pc ≡ none)
    × (adding pc ≡ 0)
    × (removing pc ≡ 0)
    × ((t : ℕ) → unread t pc ≡ 0)
    × (claims pc ≡ [])
    × (reads pc ≡ [])

-- A goroutine that holds no ticket and has counted all of its own.
abbrev pub Outside : {A : Type 0} → Pc A → Type 0
Outside (enq_claimed v p) = ⊥
Outside (enq_written v p) = ⊥
Outside enq_stored = ⊥
Outside (deq_claimed p) = ⊥
Outside (deq_read p v) = ⊥
Outside (deq_cleared p v) = ⊥
Outside (deq_stored p v) = ⊥
Outside pc = Unit

pub Aside-Outside : {A : Type 0} (pc : Pc A) → Outside pc → Aside pc
Aside-Outside idle h = (refl, refl, refl, refl, λ t. refl, refl, refl)
Aside-Outside (enq_start v) h = (refl, refl, refl, refl, λ t. refl, refl, refl)
Aside-Outside (enq_loaded v p) h = (refl, refl, refl, refl, λ t. refl, refl, refl)
Aside-Outside (enq_checked v p) h = (refl, refl, refl, refl, λ t. refl, refl, refl)
Aside-Outside (enq_claimed v p) h = absurd h
Aside-Outside (enq_written v p) h = absurd h
Aside-Outside enq_stored h = absurd h
Aside-Outside (enq_returned b) h = (refl, refl, refl, refl, λ t. refl, refl, refl)
Aside-Outside deq_start h = (refl, refl, refl, refl, λ t. refl, refl, refl)
Aside-Outside (deq_loaded p) h = (refl, refl, refl, refl, λ t. refl, refl, refl)
Aside-Outside (deq_checked p) h = (refl, refl, refl, refl, λ t. refl, refl, refl)
Aside-Outside (deq_claimed p) h = absurd h
Aside-Outside (deq_read p v) h = absurd h
Aside-Outside (deq_cleared p v) h = absurd h
Aside-Outside (deq_stored p v) h = absurd h
Aside-Outside (deq_returned r) h = (refl, refl, refl, refl, λ t. refl, refl, refl)

module _ {A : Type 0} (zero_value : A) (k : ℕ) where
  pub IsKept_self : (x : View A) → IsKept x x
  IsKept_self x = record {
    enq_on = omega arith;
    deq_on = omega arith;
    pushed_on = λ u v h. h;
    enq_next = λ e. inr (refl, e);
    deq_next = λ e. inr (refl, e);
  }

  -- A step that only looks at the ring.
  pub relocated :
      (s : System A) (j : ℕ) (next : Pc A)
      → j < length s.pcs
      → Holds zero_value k s
      → Outside (pc_of s j)
      → Outside next
      → Knows (view zero_value s) next
      → Holds zero_value k (moved zero_value k s j s.ring next)
  relocated s j next l h o o' m =
      let (w, r, a, d, u, c, e) = Aside-Outside (pc_of s j) o in
      let (w', r', a', d', u', c', e') = Aside-Outside next o' in
      Holds-moved zero_value k s j s.ring next (view zero_value s) l h
        (record {
          shape = h.shape;
          sound = h.sound;
          kept = IsKept_self (view zero_value s);
          knows = m;
          count_bound = h.count_bound;
          counted = λ x y q. omega (arith, a, d, a', d', q);
          right = rw e' tt;
          once = λ t o n q. omega (arith, u t, u' t, ap {B = ℕ} (tally (is_for t)) {y = []} e') ∙ q;
        })
        (View-ext zero_value (view zero_value (moved zero_value k s j s.ring next))
          (view zero_value s) refl refl (λ t. refl) (λ t. refl)
          (λ i.
            held_set zero_value writing s.pcs j i next l
            ∙ put_at_same (λ i. writing (pc_of s i)) j i (writing next) (w ∙ sym w'))
          (λ i.
            held_set zero_value reading s.pcs j i next l
            ∙ put_at_same (λ i. reading (pc_of s i)) j i (reading next) (r ∙ sym r'))
          (ap (λ xs. s.pushed ++ xs) c' ∙ append-nil s.pushed))
        (λ i n u h. refl)
