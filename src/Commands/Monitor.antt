-- ===== src/Commands/Monitor.antt =====
-- A monitor of the calls that a command makes of its clients: it follows which clients are open, and
-- stops at a call that must not be made.
use hyper_l.Base.{
  ℕ, ◌<◌, ◌≡◌, refl, ap, ◌∙◌, arith, Bool, true, false, ◌||◌, if◌then◌else◌, ◌==◌, Option, none,
  some, List, [], ◌∷◌, ◌++◌, All,
}
use mathlib.Core.Option.{none-ne-some, some-injective}
use hyper_l.Chain.{Result, done, failed}
use hyper_l.Commands.{Call, dialed, closed, sent, Run, ◌>>=◌, close_all, on_failure, deferred}

abbrev pub has : ℕ → List ℕ → Bool
has i [] = false
has i (j ∷ js) = i == j || has i js

abbrev pub remove : ℕ → List ℕ → List ℕ
remove i [] = []
remove i (j ∷ js) = if i == j then js else j ∷ remove i js

-- Clients with numbers below `i`.
abbrev pub Below : ℕ → List ℕ → Type 0
Below i = All (λ j. j < i)

pub has-Below : (i : ℕ) (js : List ℕ) → Below i js → has i js ≡ false
has-Below i [] h = refl
has-Below i (j ∷ js) h = ground (arith, has-Below i js h.1)

has-last : (i : ℕ) (js : List ℕ) → has i (js ++ i ∷ []) ≡ true
has-last i [] = ground arith
has-last i (j ∷ js) = ground (arith, has-last i js)

remove-last : (i : ℕ) (js : List ℕ) → Below i js → remove i (js ++ i ∷ []) ≡ js
remove-last i [] h = ground arith
remove-last i (j ∷ js) h = ground (arith, remove-last i js h.1)

-- What comes after a call that may be made.
abbrev pub then_watch : Option (List ℕ) → (List ℕ → Option (List ℕ)) → Option (List ℕ)
then_watch none f = none
then_watch (some js) f = f js

module _ {Signed : Type 0} where
  -- A client is dialed when it is not open, and used and closed when it is.
  abbrev pub watch : Call Signed → List ℕ → Option (List ℕ)
  watch (dialed i) js = if has i js then none else some (js ++ i ∷ [])
  watch (closed i) js = if has i js then some (remove i js) else none
  watch (sent i tx) js = if has i js then some js else none

  abbrev pub monitor : List (Call Signed) → List ℕ → Option (List ℕ)
  monitor [] js = some js
  monitor (c ∷ cs) js = then_watch (watch c js) (monitor cs)

  pub monitor-append :
      (cs ds : List (Call Signed)) (js : List ℕ) {ks ls : List ℕ}
      → monitor cs js ≡ some ks
      → monitor ds ks ≡ some ls
      → monitor (cs ++ ds) js ≡ some ls
  monitor-append [] ds js h k = ap (monitor ds) (some-injective _ _ h) ∙ k
  monitor-append (c ∷ cs) ds js {ks} {ls} h k =
      step (watch c js) (λ js' e. monitor-append cs ds js' e k) h
    where
      step :
          (o : Option (List ℕ))
          → ((js' : List ℕ) → monitor cs js' ≡ some ks → monitor (cs ++ ds) js' ≡ some ls)
          → then_watch o (monitor cs) ≡ some ks
          → then_watch o (monitor (cs ++ ds)) ≡ some ls
      step none ih e = absurd (none-ne-some _ e)
      step (some js') ih e = ih js' e

  -- The calls of `m` lead from the open clients `js` to those that its result leaves open.
  abbrev pub Leads : {F A : Type 0} → List ℕ → Run Signed F A → (Result F A → List ℕ) → Type 0
  Leads js m left = monitor m.0 js ≡ some (left m.1)

  module _ {F A : Type 0} where
    pub Leads-bind :
        {B : Type 0} (m : Run Signed F A) (f : A → Run Signed F B) (js : List ℕ)
        (left : Result F A → List ℕ) (left' : Result F B → List ℕ)
        → Leads js m left
        → ((a : A) → Leads (left (done a)) (f a) left')
        → ((e : F) → left (failed e) ≡ left' (failed e))
        → Leads js (m >>= f) left'
    Leads-bind (cs, done a) f js left left' h next stop = monitor-append cs (f a).0 js h (next a)
    Leads-bind (cs, failed e) f js left left' h next stop =
        monitor-append cs [] js h (ap some (stop e))

    pub Leads-on_failure :
        (calls : List (Call Signed)) (m : Run Signed F A) (js : List ℕ)
        (left left' : Result F A → List ℕ)
        → Leads js m left
        → ((a : A) → left (done a) ≡ left' (done a))
        → ((e : F) → monitor calls (left (failed e)) ≡ some (left' (failed e)))
        → Leads js (on_failure calls m) left'
    Leads-on_failure calls (cs, done a) js left left' h same cleaned =
        monitor-append cs [] js h (ap some (same a))
    Leads-on_failure calls (cs, failed e) js left left' h same cleaned =
        monitor-append cs calls js h (cleaned e)

    pub Leads-deferred :
        (calls : List (Call Signed)) (m : Run Signed F A) (js ks : List ℕ) (left' : List ℕ)
        → Leads js m (λ r. ks)
        → monitor calls ks ≡ some left'
        → Leads js (deferred calls m) (λ r. left')
    Leads-deferred calls m js ks left' h k = monitor-append m.0 calls js h k

module _ (Signed : Type 0) where
  pub monitor-close_all : (js : List ℕ) → monitor {Signed = Signed} (close_all js) js ≡ some []
  monitor-close_all [] = refl
  monitor-close_all (j ∷ js) = ground (arith, monitor-close_all js)

  pub monitor-dialed :
      (i : ℕ) (js : List ℕ)
      → Below i js
      → monitor {Signed = Signed} (dialed i ∷ []) js ≡ some (js ++ i ∷ [])
  monitor-dialed i js h = ground (arith, has-Below i js h)

  pub monitor-closed :
      (i : ℕ) (js : List ℕ)
      → Below i js
      → monitor {Signed = Signed} (closed i ∷ []) (js ++ i ∷ []) ≡ some js
  monitor-closed i js h = ground (arith, has-last i js, remove-last i js h)

  pub monitor-sent :
      (i : ℕ) (tx : Signed) (js : List ℕ)
      → has i js ≡ true
      → monitor {Signed = Signed} (sent i tx ∷ []) js ≡ some js
  monitor-sent i tx js h = ground arith
