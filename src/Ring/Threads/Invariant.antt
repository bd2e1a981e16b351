-- ===== src/Ring/Threads/Invariant.antt =====
-- What holds of the goroutines on a ring of internal/queue/ring.go after every act.
use native.Mathlib.Decide.{ℕ_discrete}
use hyper_l.Base.{
  ℕ, zero, suc, ◌+◌, ◌%◌, ◌^◌, ◌<◌, ◌≡◌, sym, ap, ◌∙◌, arith, if◌then◌else◌, ◌==◌, ltb, Option,
  some, List, [], ◌∷◌, ◌++◌, All, get_or, get_elem?, length, set, get_or-set, subst,
}
use hyper_l.Ring.{
  Pc, idle, enq_claimed, enq_written, enq_stored, deq_claimed, deq_read, deq_cleared, deq_stored,
}
use hyper_l.Ring.Alone.{HasShape, seq_of, value_of}
use hyper_l.Ring.Threads.{System, pc_of}
use hyper_l.Ring.Threads.View.{View, IsSound, Knows, writing, reading}
use hyper_l.Ring.Threads.Slots.{put_at}

-- How many of a list's elements there are by a measure.
abbrev pub tally {ℓ} : {B : Type ℓ} → (B → ℕ) → List B → ℕ
tally f [] = 0
tally f (b ∷ bs) = f b + tally f bs

-- One element apart from the rest, and what a change of it changes.
pub tally_split {ℓ} :
    {B : Type ℓ} (f : B → ℕ) (bs : List B) (i : ℕ) (d : B)
    → i < length bs
    → (rest : ℕ) × (tally f bs ≡ rest + f (get_or bs i d))
      × ((b : B) → tally f (set bs i b) ≡ rest + f b)
tally_split f [] i d h = absurd (omega arith)
tally_split f (a ∷ bs) zero d h = (tally f bs, omega arith, λ b. omega arith)
tally_split f (a ∷ bs) (suc i) d h =
    let (n, e, g) = tally_split f bs i d (omega arith) in
    (f a + n, omega (arith, e), λ b. omega (arith, g b))

pub tally-append {ℓ} :
    {B : Type ℓ} (f : B → ℕ) (xs bs : List B) → tally f (xs ++ bs) ≡ tally f xs + tally f bs
tally-append f [] bs = omega arith
tally-append f (a ∷ xs) bs = omega (arith, tally-append f xs bs)

-- The calls that have claimed a ticket and not yet counted it.
abbrev pub adding {ℓ} : {A : Type ℓ} → Pc A → ℕ
adding (enq_claimed v pos) = 1
adding (enq_written v pos) = 1
adding enq_stored = 1
adding pc = 0

abbrev pub removing {ℓ} : {A : Type ℓ} → Pc A → ℕ
removing (deq_claimed pos) = 1
removing (deq_read pos v) = 1
removing (deq_cleared pos v) = 1
removing (deq_stored pos v) = 1
removing pc = 0

-- Whether a call has claimed the ticket and not yet read its value.
abbrev pub unread {ℓ} : {A : Type ℓ} → ℕ → Pc A → ℕ
unread t (deq_claimed pos) = if pos == t then 1 else 0
unread t pc = 0

abbrev pub is_for {ℓ} : {A : Type ℓ} → ℕ → ℕ × A → ℕ
is_for t e = if e.0 == t then 1 else 0

module _ {A : Type 0} (zero_value : A) where
  abbrev pub view : System A → View A
  view s = record {
    enq = s.ring.enqueue_pos;
    deq = s.ring.dequeue_pos;
    seq = seq_of zero_value s.ring;
    val = value_of zero_value s.ring;
    writer = λ i. writing (pc_of s i);
    reader = λ i. reading (pc_of s i);
    pushed = s.pushed;
  }

  -- Every ticket below the dequeue position has been read once, or is still to be read by the
  -- one call that claimed it; `length` is behind by the calls that have not counted yet.
  pub record Holds (k : ℕ) (s : System A) : Type 0 where
    pub shape : HasShape zero_value k s.ring
    pub sound : IsSound (2 ^ k) (view s)
    pub knows : (i : ℕ) → Knows (view s) (pc_of s i)
    pub counted :
        (s.ring.count + s.ring.dequeue_pos + tally adding s.pcs) % 2 ^ 64
        ≡ (s.ring.enqueue_pos + tally removing s.pcs) % 2 ^ 64
    pub count_bound : s.ring.count < 2 ^ 64
    pub right : All (λ e. get_elem? s.pushed e.0 ≡ some e.1) s.delivered
    pub once :
        (t : ℕ)
        → tally (is_for t) s.delivered + tally (unread t) s.pcs
          ≡ (if ltb t s.ring.dequeue_pos then 1 else 0)

  pub View-ext :
      (x y : View A)
      → x.enq ≡ y.enq
      → x.deq ≡ y.deq
      → ((t : ℕ) → x.seq t ≡ y.seq t)
      → ((t : ℕ) → x.val t ≡ y.val t)
      → ((i : ℕ) → x.writer i ≡ y.writer i)
      → ((i : ℕ) → x.reader i ≡ y.reader i)
      → x.pushed ≡ y.pushed
      → x ≡ y
  View-ext x y e d s v w r p = λ i. record {
    enq = e i;
    deq = d i;
    seq = λ t. s t i;
    val = λ t. v t i;
    writer = λ t. w t i;
    reader = λ t. r t i;
    pushed = p i;
  }

  pub pc_set :
      (pcs : List (Pc A)) (j i : ℕ) (next : Pc A)
      → j < length pcs
      → get_or (set pcs j next) i idle ≡ (if i == j then next else get_or pcs i idle)
  pc_set pcs j i next l = get_or-set pcs j i next idle l

  pub held_set :
      (f : Pc A → Option ℕ) (pcs : List (Pc A)) (j i : ℕ) (next : Pc A)
      → j < length pcs
      → f (get_or (set pcs j next) i idle) ≡ put_at (λ m. f (get_or pcs m idle)) j (f next) i
  held_set f pcs j i next l = ap f (pc_set pcs j i next l) ∙ ground arith

  -- The one goroutine moves on, and the others stay where they are.
  pub Knows-set :
      (y : View A) (pcs : List (Pc A)) (j : ℕ) (next : Pc A)
      → j < length pcs
      → Knows y next
      → ((i : ℕ) → ¬ (i ≡ j) → Knows y (get_or pcs i idle))
      → (i : ℕ) → Knows y (get_or (set pcs j next) i idle)
  Knows-set y pcs j next l mine others i = elim (ℕ_discrete i j) [
    | yes e ↦ subst (Knows y) {x = next} (sym (pc_set pcs j i next l ∙ ground (arith, e))) mine
    | no e ↦
        subst (Knows y) {x = get_or pcs i idle} (sym (pc_set pcs j i next l ∙ ground (arith, e)))
          (others i e)
  ]
