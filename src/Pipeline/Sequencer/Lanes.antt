-- ===== src/Pipeline/Sequencer/Lanes.antt =====
-- The dealing of the sequencer (internal/pipeline/runner.go): what each lane gets, and all of them.
use hyper_l.Base.{
  ℕ, zero, suc, ◌+◌, ◌%◌, ◌<◌, ◌≡◌, refl, sym, ap, ◌∙◌, arith, if◌then◌else◌, ◌==◌, List, [], ◌∷◌,
  ◌++◌, length, get_or, set, replicate, length-set, get_or-set, length-replicate, get_or-replicate,
  append-nil, append_assoc,
}
use mathlib.Core.List.{Perm, flatten, perm_middle}
use mathlib.Core.List.Perm
use native.Mathlib.Nat.{mod-lt}
use native.Mathlib.Decide.{ℕ_discrete}
use hyper_l.Frame.{Tx12}
use hyper_l.Pipeline.Sequencer.{deal, lanes_of}

-- The transfers at the positions that leave the remainder `l`, in order; the first has position `i`.
abbrev pub every : ℕ → ℕ → ℕ → List Tx12 → List Tx12
every n l i [] = []
every n l i (tx ∷ txs) = if i % n == l then tx ∷ every n l (i + 1) txs else every n l (i + 1) txs

length-deal :
    (n i : ℕ) (txs : List Tx12) (lanes : List (List Tx12))
    → length (deal n i txs lanes) ≡ length lanes
unfolding deal
length-deal n i [] lanes = refl
length-deal n i (tx ∷ txs) lanes = length-deal n (i + 1) txs _ ∙ length-set lanes _ _

deal-every :
    (n l i : ℕ) (txs : List Tx12) (lanes : List (List Tx12))
    → 0 < n
    → length lanes ≡ n
    → get_or (deal n i txs lanes) l [] ≡ get_or lanes l [] ++ every n l i txs
unfolding deal
deal-every n l i [] lanes p e = sym (append-nil _)
deal-every n l i (tx ∷ txs) lanes p e =
    deal-every n l (i + 1) txs lanes' p (length-set lanes _ _ ∙ e) ∙ elim (ℕ_discrete l (i % n)) [
      | yes here ↦ rw written (
          ground (
            arith,
            append_assoc (get_or lanes (i % n) []) (tx ∷ []) (every n l (i + 1) txs),
            ap (λ k. get_or lanes k []) here,
          ))
      | no there ↦ rw written (ground arith)
    ]
  where
    lanes' : List (List Tx12)
    lanes' = set lanes (i % n) (get_or lanes (i % n) [] ++ tx ∷ [])

    written :
        get_or lanes' l []
        ≡ (if l == i % n then get_or lanes (i % n) [] ++ tx ∷ [] else get_or lanes l [])
    written = get_or-set lanes (i % n) l _ [] (rw e (mod-lt i p))

-- With `n` lanes, at least one, lane `l` gets exactly the transfers whose position leaves the
-- remainder `l` by `n`, in the order in which they came.
pub lanes_of-every :
    (n l : ℕ) (txs : List Tx12) → 0 < n → get_or (lanes_of n txs) l [] ≡ every n l 0 txs
unfolding lanes_of
lanes_of-every n l txs p =
    deal-every n l 0 txs (replicate n []) p (length-replicate n [])
    ∙ ap (λ xs. xs ++ every n l 0 txs) (get_or-replicate n [] l)

pub length-lanes_of : (n : ℕ) (txs : List Tx12) → length (lanes_of n txs) ≡ n
unfolding lanes_of
length-lanes_of n txs = length-deal n 0 txs (replicate n []) ∙ length-replicate n []

-- Appending to one of the lists appends to the whole, up to order.
pub flatten-set :
    (lanes : List (List Tx12)) (j : ℕ) (tx : Tx12)
    → j < length lanes
    → Perm (flatten (set lanes j (get_or lanes j [] ++ tx ∷ []))) (tx ∷ flatten lanes)
unfolding flatten
flatten-set [] j tx h = absurd (omega arith)
flatten-set (xs ∷ lanes) zero tx h =
    rw (append_assoc xs (tx ∷ []) (flatten lanes)) (perm_middle xs (flatten lanes))
flatten-set (xs ∷ lanes) (suc j) tx h =
    Perm.trans (Perm.append_left xs (flatten-set lanes j tx (omega arith)))
      (perm_middle xs (flatten lanes))

deal-perm :
    (n i : ℕ) (txs : List Tx12) (lanes : List (List Tx12))
    → 0 < n
    → length lanes ≡ n
    → Perm (flatten (deal n i txs lanes)) (txs ++ flatten lanes)
unfolding deal
deal-perm n i [] lanes p e = Perm.refl (flatten lanes)
deal-perm n i (tx ∷ txs) lanes p e =
    Perm.trans
      (deal-perm n (i + 1) txs (set lanes (i % n) (get_or lanes (i % n) [] ++ tx ∷ [])) p
        (length-set lanes _ _ ∙ e))
      (Perm.trans (Perm.append_left txs (flatten-set lanes (i % n) tx (rw e (mod-lt i p))))
        (perm_middle txs (flatten lanes)))

pub empty_lanes : (n : ℕ) → flatten (replicate {A = List Tx12} n []) ≡ []
unfolding flatten
empty_lanes zero = refl
empty_lanes (suc n) = empty_lanes n

-- With at least one lane, the lanes together hold the transfers of the block, each as often as it
-- came, none lost or added.
pub lanes_of-perm : (n : ℕ) (txs : List Tx12) → 0 < n → Perm (flatten (lanes_of n txs)) txs
unfolding lanes_of
lanes_of-perm n txs p =
    rw (empty_lanes n, append-nil) at (deal-perm n 0 txs (replicate n []) p (length-replicate n []))
