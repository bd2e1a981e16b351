-- ===== src/Tests/Threads.antt =====
-- Goroutines that share a ring of internal/queue/ring.go, at concrete schedules.
use hyper_l.Base.{
  ℕ, ◌+◌, ◌-◌, ◌^◌, ◌<◌, ◌≡◌, ◌⊎◌, inr, refl, arith, true, if◌then◌else◌, ltb, some, List, [], ◌∷◌,
  All, drop, get_elem?, replicate,
}
use hyper_l.Ring.{step}
use hyper_l.Ring.Alone.{IsQuiet, contents}
use hyper_l.Ring.Threads.{Act, call_enqueue, call_dequeue, go, at_rest, pc_of, exec, after}
use hyper_l.Ring.Threads.View.{reading}
use hyper_l.Ring.Threads.Invariant.{tally, unread, is_for}
use hyper_l.Ring.Threads.Safety.{each_once}
use hyper_l.Ring.Threads.Rest.{at_rest-IsQuiet}
use hyper_l.Ring.Threads.Refusals.{enqueue_refusal}
use hyper_l.Ring.Threads.Progress.{alone_returns, enqueue_goes_round}

-- Two goroutines race for the first ticket, and the loser takes the second one.
abbrev race : List (ℕ × Act ℕ)
race =
    (0, call_enqueue 5) ∷ (1, call_enqueue 6) ∷ (0, go) ∷ (1, go) ∷ (0, go) ∷ (1, go) ∷ (1, go) ∷ []

-- Both write, and a third goroutine takes the first value.
abbrev finish : List (ℕ × Act ℕ)
finish =
    (0, call_enqueue 5)
    ∷ (1, call_enqueue 6)
    ∷ (2, call_dequeue)
    ∷ (0, go)
    ∷ (1, go)
    ∷ (1, go)
    ∷ (1, go)
    ∷ (0, go)
    ∷ (1, go)
    ∷ (0, go)
    ∷ (1, go)
    ∷ (0, go)
    ∷ (1, go)
    ∷ (0, go)
    ∷ (0, go)
    ∷ (0, go)
    ∷ (2, go)
    ∷ (0, go)
    ∷ (2, go)
    ∷ (0, go)
    ∷ (2, go)
    ∷ (2, go)
    ∷ (2, go)
    ∷ (2, go)
    ∷ (2, go)
    ∷ []

finish_delivers : (after 0 1 3 finish).delivered ≡ (0, 6) ∷ []
unfolding exec step
finish_delivers = refl

each_once_example :
    All (λ e. get_elem? (after 0 1 3 finish).pushed e.0 ≡ some e.1) (after 0 1 3 finish).delivered
    × ((t : ℕ)
        → tally (is_for t) (after 0 1 3 finish).delivered
            + tally (unread t) (after 0 1 3 finish).pcs
          ≡ (if ltb t (after 0 1 3 finish).ring.dequeue_pos then 1 else 0))
each_once_example = each_once 0 1 (omega arith) 3 finish (omega arith)

at_rest-IsQuiet_example :
    IsQuiet 0 1 (after 0 1 3 finish).ring
    × (contents 0 (after 0 1 3 finish).ring
        ≡ drop (after 0 1 3 finish).ring.dequeue_pos (after 0 1 3 finish).pushed)
    × ((t : ℕ)
        → tally (is_for t) (after 0 1 3 finish).delivered
          ≡ (if ltb t (after 0 1 3 finish).ring.dequeue_pos then 1 else 0))
unfolding exec step
at_rest-IsQuiet_example =
    at_rest-IsQuiet 0 1 (omega arith) 3 finish (omega arith) (refl, (refl, (refl, tt)))

alone_returns_example : at_rest (pc_of (exec 0 (after 0 1 3 race) (replicate 9 (0, go))) 0) ≡ true
alone_returns_example = alone_returns 0 1 (omega arith) 3 race 0 (omega arith)

-- Goroutine 1 has taken the ticket that goroutine 0 had loaded.
enqueue_goes_round_example : 0 < (after 0 1 3 race).ring.enqueue_pos
unfolding exec step
enqueue_goes_round_example =
    enqueue_goes_round 0 1 (omega arith) 3 race 0 0 5 (omega arith) (inr refl) refl

-- The ring of two is full when a third value comes.
abbrev crowd : List (ℕ × Act ℕ)
crowd =
    (0, call_enqueue 5)
    ∷ (1, call_enqueue 6)
    ∷ (0, go)
    ∷ (0, go)
    ∷ (0, go)
    ∷ (1, go)
    ∷ (1, go)
    ∷ (1, go)
    ∷ (2, call_enqueue 7)
    ∷ (0, go)
    ∷ (0, go)
    ∷ (2, go)
    ∷ []

enqueue_refusal_example :
    (2 ≡ (after 0 1 3 crowd).ring.enqueue_pos)
    × (((after 0 1 3 crowd).ring.enqueue_pos ≡ (after 0 1 3 crowd).ring.dequeue_pos + 2 ^ 1)
        ⊎ ((i : ℕ) × (reading (pc_of (after 0 1 3 crowd) i)
              ≡ some ((after 0 1 3 crowd).ring.enqueue_pos - 2 ^ 1))))
unfolding exec step
enqueue_refusal_example = enqueue_refusal 0 1 (omega arith) 3 crowd (omega arith) 2 2 7 refl refl
