-- ===== src/Ring/Threads.antt =====
-- Several goroutines on one ring of internal/queue/ring.go. A schedule says which goroutine acts
-- next: it starts a call, or takes one step of the call that it is in. What no goroutine sees is
-- kept beside the ring: the values in the order of the claims, and the tickets that were read.
pub mod View
pub mod Slots
pub mod Claims
pub mod Stores
pub mod Knowledge
pub mod Invariant
pub mod Moves
pub mod Steps
pub mod Claiming
pub mod Writing
pub mod Storing
pub mod Counting
pub mod Advance
pub mod Reach
pub mod Begin
pub mod Safety
pub mod Rest
pub mod Refusals
pub mod Rank
pub mod Progress
use hyper_l.Base.{
  ℕ, ◌+◌, zero, suc, Bool, true, false, if◌then◌else◌, ltb, List, [], ◌∷◌, ◌++◌, length, get_or,
  set, replicate,
}
use hyper_l.Ring.{
  Ring, Pc, step, idle, enq_start, enq_claimed, enq_returned, deq_start, deq_read, deq_returned,
}
use hyper_l.Ring.New.{fresh}

pub data Act {ℓ} (A : Type ℓ) : Type ℓ where
  call_enqueue : A → Act A
  call_dequeue : Act A
  go : Act A

pub record System {ℓ} (A : Type ℓ) : Type ℓ where
  pub ring : Ring A
  pub pcs : List (Pc A)
  pub pushed : List A  -- the value of every ticket, in the order of the tickets
  pub delivered : List (ℕ × A)  -- each ticket that was read, with the value

abbrev pub at_rest {ℓ} : {A : Type ℓ} → Pc A → Bool
at_rest idle = true
at_rest (enq_returned b) = true
at_rest (deq_returned r) = true
at_rest pc = false

-- A claim gives the next ticket to the value; a read gives the ticket's value to the caller.
abbrev pub claims {ℓ} : {A : Type ℓ} → Pc A → List A
claims (enq_claimed v pos) = v ∷ []
claims pc = []

abbrev pub reads {ℓ} : {A : Type ℓ} → Pc A → List (ℕ × A)
reads (deq_read pos v) = (pos, v) ∷ []
reads pc = []

abbrev pub pc_of {ℓ} : {A : Type ℓ} → System A → ℕ → Pc A
pc_of s i = get_or s.pcs i idle

module _ {A : Type 0} (zero_value : A) where
  abbrev pub advance : System A → ℕ → Pc A → System A
  advance s i pc =
      let (q, next) = step zero_value s.ring pc in
      record {
        ring = q;
        pcs = set s.pcs i next;
        pushed = s.pushed ++ claims next;
        delivered = s.delivered ++ reads next;
      }

  abbrev pub start : System A → ℕ → Pc A → System A
  start s i pc = if at_rest (pc_of s i) then record s { pcs = set s.pcs i pc } else s

  abbrev pub perform : System A → ℕ → Act A → System A
  perform s i (call_enqueue v) = start s i (enq_start v)
  perform s i call_dequeue = start s i deq_start
  perform s i go = advance s i (pc_of s i)

  abbrev pub act : System A → ℕ → Act A → System A
  act s i a = if ltb i (length s.pcs) then perform s i a else s

  -- A schedule, from its first act on.
  unfoldable pub exec : System A → List (ℕ × Act A) → System A
  exec s [] = s
  exec s ((i, a) ∷ acts) = exec (act s i a) acts

  -- A new ring of `2 ^ k` cells that `n` goroutines share.
  abbrev pub begin : ℕ → ℕ → System A
  begin k n = record {
    ring = fresh zero_value k;
    pcs = replicate n idle;
    pushed = [];
    delivered = [];
  }

  -- Where `n` goroutines on a new ring of `2 ^ k` cells are after a schedule.
  abbrev pub after : ℕ → ℕ → List (ℕ × Act A) → System A
  after k n acts = exec (begin k n) acts
