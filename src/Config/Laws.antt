-- ===== src/Config/Laws.antt =====
-- What a configuration that `Validate` lets through guarantees, and how many blocks a phase has.
use hyper_l.Base.{ℕ, ◌*◌, ◌/◌, ◌^◌, ◌<◌, ◌≤◌, ◌≡◌, ◌≢◌, ◌↔◌, inl, inr, sym, ◌∙◌, arith, none, some}
use hyper_l.Base.Int.{pos, ◌≤ℤ◌}
use hyper_l.Base.Bits.{power_of_two_iff}
use hyper_l.Config.{Config, Phase, validate, block_interval, blocks_for_phase}
use native.Mathlib.Nat.{mul-div-mul_right}
use hyper_l.Ring.{new_ring}
use hyper_l.Ring.New.{new_ring_exact, exponent_pos}
use text.Mathlib.TextEquality.{eq_iff}

-- The conditions that the checks stand for.
pub record IsRunnable (c : Config) : Type 0 where
  pub block_time : pos 1 ≤ℤ c.block_time_millis
  pub some_lane : pos 1 ≤ℤ c.lanes
  pub lanes_fit : c.lanes ≤ℤ c.max_lanes
  pub capacity_big : 2 ≤ c.queue_capacity
  pub capacity_power : (k : ℕ) × (c.queue_capacity ≡ 2 ^ k)
  pub warmup_tps : pos 0 ≤ℤ c.warmup.tps
  pub certification_tps : pos 1 ≤ℤ c.certification.tps
  pub warmup_duration : pos 0 ≤ℤ c.warmup.duration_seconds
  pub certification_duration : pos 1 ≤ℤ c.certification.duration_seconds
  pub report_dir_set : c.report_dir ≢ ""
  pub listen_addr_set : c.metrics_listen_addr ≢ ""

-- `Validate` returns no error exactly for the runnable configurations: positive block time, lanes
-- and certification phase, no more lanes than their maximum, a power of two from 2 on as the
-- capacity, a warmup that is not negative, and both texts set.
pub validate_iff : (c : Config) → (validate c ≡ none) ↔ IsRunnable c
unfolding validate
validate_iff c = (
  λ e. ground (
    arith,
    eq_iff c.report_dir "",
    eq_iff c.metrics_listen_addr "",
    power_of_two_iff c.queue_capacity,
  ),
  λ r. ground (
    arith,
    eq_iff c.report_dir "",
    eq_iff c.metrics_listen_addr "",
    (power_of_two_iff c.queue_capacity (omega (arith, r.capacity_big))).1 r.capacity_power,
  ),
)

-- A queue capacity that `Validate` lets through is one that `NewRing` accepts.
pub validated_ring :
    {A : Type 0} (zero_value : A) (c : Config)
    → validate c ≡ none
    → new_ring zero_value c.queue_capacity ≢ none
validated_ring zero_value c e none_made = elim (new_ring_exact zero_value c.queue_capacity) [
  | inl (k, big, size, made) ↦ cc (sym made ∙ none_made)
  | inr (other, none_made') ↦
      let r = (validate_iff c).0 e in
      let (k, size) = r.capacity_power in
      other (k, exponent_pos k (omega (arith, r.capacity_big)), size)
]

-- Where the block time is positive and neither product overflows int64, a phase has as many
-- blocks as whole block intervals fit into its duration.
pub blocks_for_phase_exact :
    (c : Config) (p : Phase) (b s : ℕ)
    → c.block_time_millis ≡ pos b
    → p.duration_seconds ≡ pos s
    → 1 ≤ b
    → b * 1000000 < 2 ^ 63
    → s * 1000000000 < 2 ^ 63
    → blocks_for_phase c p ≡ some (pos (s * 1000 / b))
unfolding blocks_for_phase block_interval
blocks_for_phase_exact c p b s eb es hb fb fs =
    rw (eb, es) (ground (arith, mul-div-mul_right {m = 1000000} (s * 1000) b (omega arith)))
