-- ===== src/Ring/Threads/Begin.antt =====
-- A new ring of internal/queue/ring.go, before any goroutine has called it.
use native.Mathlib.Nat.{pow-le-pow_right, mod-lt, mod-mod, mod-le}
use hyper_l.Base.{
  ℕ, zero, suc, ◌%◌, ◌^◌, ◌≤◌, ◌≡◌, ◌≢◌, refl, sym, ap, ◌∙◌, arith, Option, none, some, subst, inl,
  get_or-replicate, replicate,
}
use hyper_l.Ring.{Pc, idle}
use hyper_l.Ring.Alone.{IsQuiet, seq_of, cell_at_slot}
use hyper_l.Ring.Threads.{pc_of, begin}
use hyper_l.Ring.Threads.View.{Knows, writing, reading}
use hyper_l.Ring.Threads.Invariant.{tally, adding, removing, unread, view, Holds}
use hyper_l.Ring.New.{fresh, fresh-IsQuiet}
use mathlib.Core.Option.{none-ne-some}

tally-replicate {ℓ} :
    {B : Type ℓ} (f : B → ℕ) (n : ℕ) (b : B) → f b ≡ 0 → tally f (replicate n b) ≡ 0
tally-replicate f zero b e = refl
tally-replicate f (suc n) b e = omega (arith, e, tally-replicate f n b e)

module _ {A : Type 0} (zero_value : A) (k : ℕ) (big : 1 ≤ k) where
  pub two : 2 ≤ 2 ^ k
  two = omega (arith, pow-le-pow_right {n = 2} (omega arith) {i = 1} {j = k} big)

  quiet : IsQuiet zero_value k (fresh zero_value k)
  quiet = fresh-IsQuiet zero_value k big

  -- The sequence of a new ring's cell is its index.
  seq_of-fresh : (t : ℕ) → seq_of zero_value (fresh zero_value k) t ≡ t % 2 ^ k
  seq_of-fresh t =
      ap (λ c. c.sequence)
        (cell_at_slot zero_value k (fresh zero_value k) t (t % 2 ^ k) quiet.shape
          (sym (mod-mod t (2 ^ k))))
      ∙ quiet.free (t % 2 ^ k) (omega arith)
          (omega (arith, mod-lt t {m = 2 ^ k} (omega (arith, two))))

  no_call : (n i : ℕ) → pc_of (begin zero_value k n) i ≡ idle
  no_call n i = get_or-replicate n idle i

  not_begun :
      (f : Pc A → Option ℕ) (n i u : ℕ)
      → f idle ≡ none
      → f (pc_of (begin zero_value k n) i) ≢ some u
  not_begun f n i u e h = none-ne-some u (sym e ∙ sym (ap f (no_call n i)) ∙ h)

  pub Holds-begin : (n : ℕ) → Holds zero_value k (begin zero_value k n)
  Holds-begin n = record {
    shape = quiet.shape;
    sound = record {
      same_seq = λ s t e. seq_of-fresh s ∙ e ∙ sym (seq_of-fresh t);
      cover = λ t. (t % 2 ^ k, mod-mod t (2 ^ k), inl (seq_of-fresh t));
      free = λ u e. (
        omega arith,
        omega (arith, e, seq_of-fresh u, mod-lt u {m = 2 ^ k} (omega (arith, two))),
        omega arith,
      );
      free_held = λ u e l. absurd (omega arith);
      full = λ u e. absurd (omega (arith, e, seq_of-fresh u, mod-le u (2 ^ k)));
      full_held = λ u e l. absurd (omega arith);
      full_value = λ u e l. absurd (omega (arith, e, seq_of-fresh u, mod-le u (2 ^ k)));
      writes = λ i u e. absurd (not_begun writing n i u refl e);
      reads = λ i u e. absurd (not_begun reading n i u refl e);
      one_writer = λ i j u a b. absurd (not_begun writing n i u refl a);
      one_reader = λ i j u a b. absurd (not_begun reading n i u refl a);
      valued = refl;
      ordered = omega arith;
      within = omega arith;
    };
    knows = λ i. subst (Knows (view zero_value (begin zero_value k n))) (sym (no_call n i)) tt;
    counted = omega (
      arith,
      tally-replicate {B = Pc A} adding n idle refl,
      tally-replicate {B = Pc A} removing n idle refl,
    );
    count_bound = omega arith;
    right = tt;
    once = λ t. ground (arith, tally-replicate {B = Pc A} (unread t) n idle refl);
  }
