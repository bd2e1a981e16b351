-- ===== src/Ring/Queue.antt =====
-- What a client sees of a ring: a queue of at most `cap` values, oldest first.
use hyper_l.Base.{
  ℕ, Bool, true, false, if◌then◌else◌, ltb, Option, none, some, List, [], ◌∷◌, ◌++◌, length,
}

pub data Op (A : Type 0) : Type 0 where
  put : A → Op A
  get : Op A

pub data Reply (A : Type 0) : Type 0 where
  accepted : Bool → Reply A
  taken : Option A → Reply A
  pending : Reply A  -- no reply: the call has not returned

module _ {A : Type 0} where
  unfoldable pub push : ℕ → List A → A → List A × Reply A
  push cap xs x =
      if ltb (length xs) cap then (xs ++ x ∷ [], accepted true) else (xs, accepted false)

  unfoldable pub pop : List A → List A × Reply A
  pop [] = ([], taken none)
  pop (x ∷ xs) = (xs, taken (some x))

  unfoldable pub run : ℕ → List A → List (Op A) → List (Reply A)
  run cap xs [] = []
  run cap xs (put x ∷ ops) = let (xs', r) = push cap xs x in r ∷ run cap xs' ops
  run cap xs (get ∷ ops) = let (xs', r) = pop xs in r ∷ run cap xs' ops
