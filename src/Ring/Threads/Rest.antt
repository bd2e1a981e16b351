-- ===== src/Ring/Threads/Rest.antt =====
-- A ring of internal/queue/ring.go that goroutines have shared, when all their calls have returned.
use native.Mathlib.Decide.{dec_lt}
use hyper_l.Base.{
  ℕ, zero, suc, ◌+◌, ◌-◌, ◌%◌, ◌^◌, ◌<◌, ◌≤◌, ◌≡◌, ◌≢◌, ◌⊎◌, refl, sym, ap, ◌∙◌, arith,
  if◌then◌else◌, ltb, true, some, List, [], ◌∷◌, get_or, get_elem?, length, drop, inl, inr,
}
use hyper_l.Ring.{Ring, Pc, idle}
use hyper_l.Ring.Alone.{IsQuiet, contents, window, seq_of, value_of}
use hyper_l.Ring.Threads.{System, Act, at_rest, pc_of, after}
use hyper_l.Ring.Threads.View.{writing, reading}
use hyper_l.Ring.Threads.Invariant.{tally, adding, removing, unread, is_for, Holds}
use hyper_l.Ring.Threads.Steps.{Aside}
use mathlib.Core.Option.{none-ne-some}
use hyper_l.Base.{drop-get_elem?, drop_all}
use hyper_l.Ring.Alone.{same_slot_apart}
use hyper_l.Ring.Threads.Reach.{Outside-at_rest}
use hyper_l.Ring.Threads.Steps.{Aside-Outside}
use hyper_l.Ring.Threads.Safety.{holds, claimed_few}
use mathlib.Core.Option.{none-ne-some}

-- No goroutine is in a call.
abbrev pub AllAtRest : {A : Type 0} → List (Pc A) → Type 0
AllAtRest [] = Unit
AllAtRest (pc ∷ pcs) = (at_rest pc ≡ true) × AllAtRest pcs

Aside-at_rest : {A : Type 0} (pc : Pc A) → at_rest pc ≡ true → Aside pc
Aside-at_rest pc e = Aside-Outside pc (Outside-at_rest pc e)

get_or-at_rest :
    {A : Type 0} (pcs : List (Pc A)) (i : ℕ) → AllAtRest pcs → at_rest (get_or pcs i idle) ≡ true
get_or-at_rest [] i h = refl
get_or-at_rest (pc ∷ pcs) zero h = h.0
get_or-at_rest (pc ∷ pcs) (suc i) h = get_or-at_rest pcs i h.1

tally-at_rest :
    {A : Type 0} (f : Pc A → ℕ) (pcs : List (Pc A))
    → ((pc : Pc A) → at_rest pc ≡ true → f pc ≡ 0)
    → AllAtRest pcs
    → tally f pcs ≡ 0
tally-at_rest f [] z h = refl
tally-at_rest f (pc ∷ pcs) z h = omega (arith, z pc h.0, tally-at_rest f pcs z h.1)

-- Two tickets of one round that have one cell are the same.
same_round : (c d u t : ℕ) → u % c ≡ t % c → d ≤ u → u < d + c → d ≤ t → t < d + c → u ≡ t
same_round c d u t e a b a' b' = elim (dec_lt u t) [
  | yes l ↦ absurd (omega (arith, same_slot_apart c u t e l))
  | no l ↦ elim (dec_lt t u) [
    | yes l' ↦ absurd (omega (arith, same_slot_apart c t u (sym e) l'))
    | no l' ↦ omega arith
  ]
]

module _ {A : Type 0} (zero_value : A) where
  window-drop :
      (q : Ring A) (xs : List A) (t n : ℕ)
      → length xs ≡ t + n
      → ((s : ℕ) → t ≤ s → s < t + n → get_elem? xs s ≡ some (value_of zero_value q s))
      → window zero_value q t n ≡ drop t xs
  window-drop q xs t zero e h = sym (drop_all xs t (omega arith))
  window-drop q xs t (suc n) e h =
      ap (λ ys. value_of zero_value q t ∷ ys)
        (window-drop q xs (t + 1) n (omega arith) (λ s a b. h s (omega arith) (omega arith)))
      ∙ sym (drop-get_elem? xs t (value_of zero_value q t) (h t (omega arith) (omega arith)))

  module _ (k : ℕ) (s : System A) where
    -- The ticket that the cell of `t` waits to be filled for, and the one it is filled with.
    abbrev FreeFor : ℕ → Type 0
    FreeFor t =
        (u : ℕ) × (u % 2 ^ k ≡ t % 2 ^ k)
        × (seq_of zero_value s.ring t ≡ u)
        × (s.ring.enqueue_pos ≤ u)
        × (u < s.ring.dequeue_pos + 2 ^ k)

    abbrev FilledWith : ℕ → Type 0
    FilledWith t =
        (u : ℕ) × (u % 2 ^ k ≡ t % 2 ^ k)
        × (seq_of zero_value s.ring t ≡ u + 1)
        × (s.ring.dequeue_pos ≤ u)
        × (u < s.ring.enqueue_pos)

  module _ (k : ℕ) (s : System A) (h : Holds zero_value k s) (rest : AllAtRest s.pcs) where
    no_writer : (i u : ℕ) → writing (pc_of s i) ≢ some u
    no_writer i u e =
        none-ne-some u (sym (Aside-at_rest (pc_of s i) (get_or-at_rest s.pcs i rest)).0 ∙ e)

    no_reader : (i u : ℕ) → reading (pc_of s i) ≢ some u
    no_reader i u e =
        none-ne-some u (sym (Aside-at_rest (pc_of s i) (get_or-at_rest s.pcs i rest)).1 ∙ e)

    placed : (t : ℕ) → FreeFor k s t ⊎ FilledWith k s t
    placed t = let (u, e, m) = h.sound.cover t in at u e (h.sound.same_seq u t e) m
      where
        at :
            (u : ℕ)
            → u % 2 ^ k ≡ t % 2 ^ k
            → seq_of zero_value s.ring u ≡ seq_of zero_value s.ring t
            → (seq_of zero_value s.ring t ≡ u) ⊎ (seq_of zero_value s.ring t ≡ u + 1)
            → FreeFor k s t ⊎ FilledWith k s t
        at u e q (inl m) = elim (dec_lt u s.ring.enqueue_pos) [
          | yes l ↦ let (i, w) = h.sound.free_held u (q ∙ m) l in absurd (no_writer i u w)
          | no l ↦ inl (u, e, m, omega arith, (h.sound.free u (q ∙ m)).1)
        ]
        at u e q (inr m) = elim (dec_lt u s.ring.dequeue_pos) [
          | yes l ↦ let (i, w) = h.sound.full_held u (q ∙ m) l in absurd (no_reader i u w)
          | no l ↦ inr (u, e, m, omega arith, (h.sound.full u (q ∙ m)).0)
        ]

    IsQuiet-at_rest : s.ring.enqueue_pos < 2 ^ 63 → IsQuiet zero_value k s.ring
    IsQuiet-at_rest far = record {
      shape = h.shape;
      ordered = h.sound.ordered;
      within = h.sound.within;
      counted = omega (
        arith,
        h.counted,
        h.count_bound,
        h.sound.ordered,
        tally-at_rest adding s.pcs (λ pc e. (Aside-at_rest pc e).2) rest,
        tally-at_rest removing s.pcs (λ pc e. (Aside-at_rest pc e).3) rest,
      );
      filled = λ t from below. elim (placed t) [
        | inl (u, e, m, l, b) ↦
            let i : u ≡ t =
              same_round (2 ^ k) s.ring.dequeue_pos u t e (omega (arith, h.sound.ordered)) b from
                (omega (arith, h.sound.within)) in
            absurd (omega (arith, i))
        | inr (u, e, m, l, b) ↦
            let i : u ≡ t =
              same_round (2 ^ k) s.ring.dequeue_pos u t e l (omega (arith, h.sound.within)) from
                (omega (arith, h.sound.within)) in
            m ∙ ap (λ n. n + 1) i
      ];
      free = λ t from below. elim (placed t) [
        | inl (u, e, m, l, b) ↦
            m
            ∙ same_round (2 ^ k) s.ring.dequeue_pos u t e (omega (arith, h.sound.ordered)) b
                (omega (arith, h.sound.ordered)) below
        | inr (u, e, m, l, b) ↦
            let i : u ≡ t =
              same_round (2 ^ k) s.ring.dequeue_pos u t e l (omega (arith, h.sound.within))
                (omega (arith, h.sound.ordered)) below in
            absurd (omega (arith, i))
      ];
    }

    contents-at_rest :
        s.ring.enqueue_pos < 2 ^ 63 → contents zero_value s.ring ≡ drop s.ring.dequeue_pos s.pushed
    contents-at_rest far =
        window-drop s.ring s.pushed s.ring.dequeue_pos (s.ring.enqueue_pos - s.ring.dequeue_pos)
          (omega (arith, h.sound.valued, h.sound.ordered))
          (λ t a b.
            h.sound.full_value t ((IsQuiet-at_rest far).filled t a (omega (arith, h.sound.ordered)))
              a)

module _ {A : Type 0} (zero_value : A) (k : ℕ) (big : 1 ≤ k) (n : ℕ) (acts : List (ℕ × Act A))
    (far : length acts + 2 ^ k + 1 < 2 ^ 63) where
  -- After any schedule on a new ring of 2 ^ k cells, k at least 1, that is shorter than 2 ^ 63 less
  -- the number of cells and one, and that leaves every call returned: nothing is left half done and
  -- `length` is exact; the ring holds what was put in, in the order of the tickets, from the first
  -- ticket on that no Dequeue has taken; and each ticket before that one has been handed to exactly
  -- one caller.
  pub at_rest-IsQuiet :
      AllAtRest (after zero_value k n acts).pcs
      → IsQuiet zero_value k (after zero_value k n acts).ring
        × (contents zero_value (after zero_value k n acts).ring
            ≡ drop (after zero_value k n acts).ring.dequeue_pos (after zero_value k n acts).pushed)
        × ((t : ℕ)
            → tally (is_for t) (after zero_value k n acts).delivered
              ≡ (if ltb t (after zero_value k n acts).ring.dequeue_pos then 1 else 0))
  at_rest-IsQuiet rest =
      let s = after zero_value k n acts in
      let h = holds zero_value k big n acts far in
      let b : s.ring.enqueue_pos < 2 ^ 63 =
        omega (arith, claimed_few zero_value k big n acts far) in
      (
        IsQuiet-at_rest zero_value k s h rest b,
        contents-at_rest zero_value k s h rest b,
        λ t.
            omega (arith, tally-at_rest (unread t) s.pcs (λ pc e. (Aside-at_rest pc e).4 t) rest)
            ∙ h.once t,
      )
