-- ===== src/Ring/New.antt =====
-- `NewRing`: which capacities it takes, and what it returns.
use native.Mathlib.Nat.{pow-le-pow_right, one-le-pow, mod-eq_of_lt}
use native.Mathlib.Decide.{ℕ_discrete, dec_lt}
use hyper_l.Base.{
  ℕ, zero, suc, ◌+◌, ◌-◌, ◌^◌, ◌<◌, ◌≤◌, ◌≡◌, ◌≢◌, ◌⊎◌, inl, inr, refl, ap, ◌∙◌, arith, bit_and,
  none, some, length, get_or,
}
use hyper_l.Base.Bits.{power_of_two_iff, bit_and_low_mask}
use hyper_l.Ring.{Ring, new_ring, fresh_cells, zero_cell}
use hyper_l.Ring.Alone.{IsQuiet}

pub exponent_pos : (k : ℕ) → 1 < 2 ^ k → 1 ≤ k
exponent_pos zero l = absurd (omega arith)
exponent_pos (suc k) l = omega arith

module _ {A : Type 0} (zero_value : A) where
  length-fresh_cells : (i n : ℕ) → length (fresh_cells zero_value i n) ≡ n
  length-fresh_cells i zero = refl
  length-fresh_cells i (suc n) = ap suc (length-fresh_cells (i + 1) n)

  sequence-fresh_cells :
      (i n t : ℕ)
      → t < n
      → (get_or (fresh_cells zero_value i n) t (zero_cell zero_value)).sequence ≡ i + t
  sequence-fresh_cells i zero t h = absurd (omega arith)
  sequence-fresh_cells i (suc n) zero h = omega arith
  sequence-fresh_cells i (suc n) (suc t) h =
      sequence-fresh_cells (i + 1) n t (omega arith) ∙ omega arith

  -- What `NewRing` returns for a capacity of `2 ^ k`.
  abbrev pub fresh : ℕ → Ring A
  fresh k = record {
    mask = 2 ^ k - 1;
    cells = fresh_cells zero_value 0 (2 ^ k);
    enqueue_pos = 0;
    dequeue_pos = 0;
    count = 0;
  }

  pub fresh-IsQuiet : (k : ℕ) → 1 ≤ k → IsQuiet zero_value k (fresh k)
  fresh-IsQuiet k h = record {
    shape = record { big = h; mask_is = refl; cells_are = length-fresh_cells 0 (2 ^ k) };
    ordered = omega arith;
    within = omega arith;
    counted = refl;
    filled = λ t from below. absurd (omega arith);
    free = λ t from below.
        ap (λ i. (get_or (fresh_cells zero_value 0 (2 ^ k)) i (zero_cell zero_value)).sequence)
          (bit_and_low_mask k t ∙ mod-eq_of_lt (omega arith))
        ∙ sequence-fresh_cells 0 (2 ^ k) t (omega arith)
        ∙ omega arith;
  }

  new_ring-power : (c k : ℕ) → 1 ≤ k → c ≡ 2 ^ k → new_ring zero_value c ≡ some (fresh k)
  unfolding new_ring
  new_ring-power c k h e = rw e (
      ground (
        arith,
        pow-le-pow_right {n = 2} (omega arith) {i = 1} {j = k} h,
        (power_of_two_iff (2 ^ k) (one-le-pow k 2 (omega arith))).1 (k, refl),
      ))

  new_ring-other : (c : ℕ) → ¬ ((k : ℕ) × (1 ≤ k) × (c ≡ 2 ^ k)) → new_ring zero_value c ≡ none
  unfolding new_ring
  new_ring-other c h = elim (dec_lt c 2) [
    | yes small ↦ ground arith
    | no big ↦ elim (ℕ_discrete (bit_and c (c - 1)) 0) [
      | yes z ↦
          let (k, e) = (power_of_two_iff c (omega arith)).0 z in
          absurd (h (k, exponent_pos k (omega arith), e))
      | no nz ↦ ground arith
    ]
  ]

  -- `NewRing` accepts exactly the powers of two from 2 on, and then returns the ring of as many
  -- fresh cells; it refuses every other capacity.
  pub new_ring_exact :
      (c : ℕ)
      → ((k : ℕ) × (1 ≤ k) × (c ≡ 2 ^ k) × (new_ring zero_value c ≡ some (fresh k)))
        ⊎ (¬ ((k : ℕ) × (1 ≤ k) × (c ≡ 2 ^ k)) × (new_ring zero_value c ≡ none))
  new_ring_exact c = elim (dec_lt c 2) [
    | yes small ↦ inr (no_power small, new_ring-other c (no_power small))
    | no big ↦ elim (ℕ_discrete (bit_and c (c - 1)) 0) [
      | yes z ↦
          let (k, e) = (power_of_two_iff c (omega arith)).0 z in
          let pos = exponent_pos k (omega arith) in inl (k, pos, e, new_ring-power c k pos e)
      | no nz ↦ inr (shared nz (omega arith), new_ring-other c (shared nz (omega arith)))
    ]
  ]
    where
      no_power : c < 2 → ¬ ((k : ℕ) × (1 ≤ k) × (c ≡ 2 ^ k))
      no_power small (k, h, e) =
          absurd (omega (arith, pow-le-pow_right {n = 2} (omega arith) {i = 1} {j = k} h))

      shared : bit_and c (c - 1) ≢ 0 → 0 < c → ¬ ((k : ℕ) × (1 ≤ k) × (c ≡ 2 ^ k))
      shared nz p (k, h, e) = nz ((power_of_two_iff c p).1 (k, e))
