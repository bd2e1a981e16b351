-- ===== src/Commands/Sends.antt =====
-- What the commands of cmd/kaia-proofctl send, and what their results rest on.
use hyper_l.Base.{ℕ, ◌≡◌, refl, ap, ◌∙◌, List, [], ◌∷◌, ◌++◌, append-nil}
use hyper_l.Chain.{Result, done, failed}
use hyper_l.Commands.{
  Call, dialed, closed, sent, Run, after, ◌>>=◌, on_failure, deferred, close_all, asked,
}

-- The transactions that were sent, with their clients, in order.
abbrev pub sends : {Signed : Type 0} → List (Call Signed) → List (ℕ × Signed)
sends [] = []
sends (dialed i ∷ cs) = sends cs
sends (closed i ∷ cs) = sends cs
sends (sent i tx ∷ cs) = (i, tx) ∷ sends cs

pub sends-append :
    {Signed : Type 0} (cs ds : List (Call Signed)) → sends (cs ++ ds) ≡ sends cs ++ sends ds
sends-append [] ds = refl
sends-append (dialed i ∷ cs) ds = sends-append cs ds
sends-append (closed i ∷ cs) ds = sends-append cs ds
sends-append (sent i tx ∷ cs) ds = ap (λ xs. (i, tx) ∷ xs) (sends-append cs ds)

pub sends-close_all : (Signed : Type 0) (js : List ℕ) → sends (close_all {Signed = Signed} js) ≡ []
sends-close_all Signed [] = refl
sends-close_all Signed (j ∷ js) = sends-close_all Signed js

pub not_done : {F A : Type 0} {e : F} {a : A} → failed e ≡ done a → ⊥
not_done h = cc

pub done_injective : {F A : Type 0} {a b : A} → ◌≡◌ {A = Result F A} (done a) (done b) → a ≡ b
done_injective h = cc

pub asked_done :
    (Signed : Type 0) {F E A : Type 0} (wrap : E → F) (r : Result E A) {a : A}
    → (asked {Signed = Signed} wrap r).1 ≡ done a
    → r ≡ done a
asked_done Signed wrap (done a) h = ap done (done_injective h)
asked_done Signed wrap (failed e) h = absurd (not_done h)

module _ {Signed F : Type 0} where
  -- Nothing is sent.
  abbrev pub IsQuiet : {A : Type 0} → Run Signed F A → Type 0
  IsQuiet m = sends m.0 ≡ []

  pub IsQuiet-bind :
      {A B : Type 0} (m : Run Signed F A) (f : A → Run Signed F B)
      → IsQuiet m
      → ((a : A) → IsQuiet (f a))
      → IsQuiet (m >>= f)
  IsQuiet-bind (cs, done a) f h k = sends-append cs (f a).0 ∙ ap (λ xs. xs ++ sends (f a).0) h ∙ k a
  IsQuiet-bind (cs, failed e) f h k = sends-append cs [] ∙ ap (λ xs. xs ++ []) h

  pub IsQuiet-on_failure :
      {A : Type 0} (calls : List (Call Signed)) (m : Run Signed F A)
      → sends calls ≡ []
      → IsQuiet m
      → IsQuiet (on_failure calls m)
  IsQuiet-on_failure calls (cs, done a) c h = sends-append cs [] ∙ ap (λ xs. xs ++ []) h
  IsQuiet-on_failure calls (cs, failed e) c h =
      sends-append cs calls ∙ ap (λ xs. xs ++ sends calls) h ∙ c

  pub sends-deferred :
      {A : Type 0} (calls : List (Call Signed)) (m : Run Signed F A)
      → sends calls ≡ []
      → sends (deferred calls m).0 ≡ sends m.0
  sends-deferred calls m c =
      sends-append m.0 calls ∙ ap (λ xs. sends m.0 ++ xs) c ∙ append-nil (sends m.0)

  -- A quiet part leaves what is sent to the rest.
  pub sends-bind_quiet :
      {A B : Type 0} (m : Run Signed F A) (f : A → Run Signed F B) (a : A)
      → IsQuiet m
      → m.1 ≡ done a
      → sends (m >>= f).0 ≡ sends (f a).0
  sends-bind_quiet m f a h e =
      sends-append m.0 (after m.1 f).0
      ∙ ap (λ xs. xs ++ sends (after m.1 f).0) h
      ∙ ap (λ r. sends (after r f).0) e

  -- What a first part sent stands before what the rest sends.
  pub sends-bind :
      {A B : Type 0} (m : Run Signed F A) (f : A → Run Signed F B) (a : A)
      → m.1 ≡ done a
      → sends (m >>= f).0 ≡ sends m.0 ++ sends (f a).0
  sends-bind m f a e =
      sends-append m.0 (after m.1 f).0 ∙ ap (λ r. sends m.0 ++ sends (after r f).0) e

  -- A quiet end adds nothing to what was sent.
  pub sends-bind_last :
      {A B : Type 0} (m : Run Signed F A) (f : A → Run Signed F B) (a : A)
      → m.1 ≡ done a
      → IsQuiet (f a)
      → sends (m >>= f).0 ≡ sends m.0
  sends-bind_last m f a e h =
      sends-append m.0 (after m.1 f).0
      ∙ ap (λ r. sends m.0 ++ sends (after r f).0) e
      ∙ ap (λ xs. sends m.0 ++ xs) h
      ∙ append-nil (sends m.0)

  -- A command that succeeds has had its first part succeed.
  pub bind_done :
      {A B : Type 0} (m : Run Signed F A) (f : A → Run Signed F B) {b : B}
      → (m >>= f).1 ≡ done b
      → (a : A) × (m.1 ≡ done a) × ((f a).1 ≡ done b)
  bind_done (cs, done a) f h = (a, refl, h)
  bind_done (cs, failed e) f h = absurd (not_done h)

pub IsQuiet-asked :
    (Signed : Type 0) {F E A : Type 0} (wrap : E → F) (r : Result E A)
    → IsQuiet (asked {Signed = Signed} wrap r)
IsQuiet-asked Signed wrap (done a) = refl
IsQuiet-asked Signed wrap (failed e) = refl
