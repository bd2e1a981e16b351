-- ===== src/Ring/Threads/Slots.antt =====
-- What changes for one goroutine, and what changes in one cell, of a ring of internal/queue/ring.go.
use native.Mathlib.Decide.{ℕ_discrete}
use mathlib.Core.Option.{some-injective, none-ne-some}
use hyper_l.Base.{
  ℕ, ◌%◌, ◌<◌, ◌≡◌, ◌≢◌, ◌⊎◌, inl, inr, sym, ap, ◌∙◌, arith, Option, none, some, if◌then◌else◌,
  ◌==◌,
}
use hyper_l.Ring.Threads.View.{HeldOnce}

-- One goroutine's ticket changes.
abbrev pub put_at : (ℕ → Option ℕ) → ℕ → Option ℕ → ℕ → Option ℕ
put_at f j b i = if i == j then b else f i

-- The cell of one ticket changes.
abbrev pub put_slot {ℓ} : {B : Type ℓ} → ℕ → (ℕ → B) → ℕ → B → ℕ → B
put_slot c f p b t = if t % c == p % c then b else f t

pub put_at_inv :
    (f : ℕ → Option ℕ) (j i u : ℕ) (b : Option ℕ)
    → put_at f j b i ≡ some u
    → ((i ≡ j) × (b ≡ some u)) ⊎ ((i ≢ j) × (f i ≡ some u))
put_at_inv f j i u b h = elim (ℕ_discrete i j) [
  | yes e ↦ inl (e, ground (arith, h))
  | no e ↦ inr (e, ground (arith, h))
]

pub put_at_other :
    (f : ℕ → Option ℕ) (j i u : ℕ) (b : Option ℕ)
    → f j ≢ some u
    → f i ≡ some u
    → put_at f j b i ≡ some u
put_at_other f j i u b n h = elim (ℕ_discrete i j) [
  | yes e ↦ absurd (n (ap f (sym e) ∙ h))
  | no e ↦ ground (arith, h)
]

pub put_at_self : (f : ℕ → Option ℕ) (j : ℕ) (b : Option ℕ) → put_at f j b j ≡ b
put_at_self f j b = ground arith

pub put_at_same : (f : ℕ → Option ℕ) (j i : ℕ) (b : Option ℕ) → f j ≡ b → put_at f j b i ≡ f i
put_at_same f j i b e = elim (ℕ_discrete i j) [
  | yes q ↦ ground (arith, e, ap f q)
  | no q ↦ ground (arith, q)
]

pub put_slot_same {ℓ} :
    {B : Type ℓ} (c : ℕ) (f : ℕ → B) (p t : ℕ) (b : B) → t % c ≡ p % c → put_slot c f p b t ≡ b
put_slot_same c f p t b e = ground (arith, e)

pub put_slot_other {ℓ} :
    {B : Type ℓ} (c : ℕ) (f : ℕ → B) (p t : ℕ) (b : B) → t % c ≢ p % c → put_slot c f p b t ≡ f t
put_slot_other c f p t b e = ground (arith, e)

pub ticket : {a b : ℕ} → some a ≡ some b → a ≡ b
ticket {a} {b} e = some-injective a b e

pub not_held : (o : Option ℕ) (u : ℕ) → o ≡ none → o ≢ some u
not_held o u n h = none-ne-some u (sym n ∙ h)

pub put_at-none :
    (f : ℕ → Option ℕ) (j i u : ℕ) → put_at f j none i ≡ some u → (i ≢ j) × (f i ≡ some u)
put_at-none f j i u h = elim (put_at_inv f j i u none h) [
  | inl q ↦ absurd (none-ne-some u q.1)
  | inr q ↦ q
]

pub HeldOnce-put_none : (f : ℕ → Option ℕ) (j : ℕ) → HeldOnce f → HeldOnce (put_at f j none)
HeldOnce-put_none f j h i k u a b = h i k u (put_at-none f j i u a).1 (put_at-none f j k u b).1

-- A ticket that no goroutine holds can be given out.
pub HeldOnce-put_some :
    (f : ℕ → Option ℕ) (j p : ℕ)
    → ((i u : ℕ) → f i ≡ some u → u < p)
    → HeldOnce f
    → HeldOnce (put_at f j (some p))
HeldOnce-put_some f j p below h i k u a b =
    once (put_at_inv f j i u (some p) a) (put_at_inv f j k u (some p) b)
  where
    once :
        ((i ≡ j) × (some p ≡ some u)) ⊎ ((i ≢ j) × (f i ≡ some u))
        → ((k ≡ j) × (some p ≡ some u)) ⊎ ((k ≢ j) × (f k ≡ some u))
        → i ≡ k
    once (inl a) (inl b) = a.0 ∙ sym b.0
    once (inl a) (inr b) = absurd (omega (arith, ticket a.1, below k u b.1))
    once (inr a) (inl b) = absurd (omega (arith, ticket b.1, below i u a.1))
    once (inr a) (inr b) = h i k u a.1 b.1

pub put_slot_cases {ℓ} :
    {B : Type ℓ} (c : ℕ) (f : ℕ → B) (p t : ℕ) (b : B)
    → ((t % c ≡ p % c) × (put_slot c f p b t ≡ b)) ⊎ ((t % c ≢ p % c) × (put_slot c f p b t ≡ f t))
put_slot_cases c f p t b = elim (ℕ_discrete (t % c) (p % c)) [
  | yes e ↦ inl (e, put_slot_same c f p t b e)
  | no e ↦ inr (e, put_slot_other c f p t b e)
]

pub put_slot_slot :
    (c : ℕ) (f : ℕ → ℕ) (p n s t : ℕ)
    → s % c ≡ t % c
    → f s ≡ f t
    → put_slot c f p n s ≡ put_slot c f p n t
put_slot_slot c f p n s t e h = ground (arith, e, h)
