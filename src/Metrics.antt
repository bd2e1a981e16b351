-- ===== src/Metrics.antt =====
-- The counters of internal/metrics/registry.go. Each is one atomic word, so an operation is one step.
-- A quotient of two counters is kept as the pair that float64 division is applied to; the HTTP
-- handler that prints the counters is not modelled.
use hyper_l.Base.{ℕ, ◌+◌, ◌^◌, ◌%◌, if◌then◌else◌, ◌==◌, Option, none, some}
use hyper_l.Base.Int.{ℤ, pos}

pub record Registry : Type 0 where
  pub ingress_tx : ℕ
  pub verified_tx : ℕ
  pub drop_count : ℕ
  pub queue_depth : ℤ
  pub finalize_latency : ℕ
  pub finalize_samples : ℕ

-- `NewRegistry`
abbrev pub new_registry : Registry
new_registry = record {
  ingress_tx = 0;
  verified_tx = 0;
  drop_count = 0;
  queue_depth = pos 0;
  finalize_latency = 0;
  finalize_samples = 0;
}

-- uint64 addition
abbrev pub add64 : ℕ → ℕ → ℕ
add64 a b = (a + b) % 2 ^ 64

unfoldable pub add_ingress_tx : ℕ → Registry → Registry
add_ingress_tx n r = record r { ingress_tx = add64 r.ingress_tx n }

unfoldable pub add_verified_tx : ℕ → Registry → Registry
add_verified_tx n r = record r { verified_tx = add64 r.verified_tx n }

unfoldable pub inc_drop : ℕ → Registry → Registry
inc_drop n r = record r { drop_count = add64 r.drop_count n }

unfoldable pub set_queue_depth : ℤ → Registry → Registry
set_queue_depth depth r = record r { queue_depth = depth }

unfoldable pub observe_finalize_latency_ms : ℕ → Registry → Registry
observe_finalize_latency_ms ms r = record r {
  finalize_latency = add64 r.finalize_latency ms;
  finalize_samples = add64 r.finalize_samples 1;
}

-- `AverageFinalizeLatencyMs`: `none` is the constant 0 that it returns without a sample, and
-- `some (a, b)` the quotient of a by b.
unfoldable pub average_finalize_latency_ms : Registry → Option (ℕ × ℕ)
average_finalize_latency_ms r =
    if r.finalize_samples == 0 then none else some (r.finalize_latency, r.finalize_samples)
