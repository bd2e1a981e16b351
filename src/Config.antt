-- ===== src/Config.antt =====
-- The configuration of internal/config/config.go. An `int` is an integer, with int64 arithmetic that
-- wraps; a `time.Duration` is a number of nanoseconds. float64 is a parameter, with the operations that
-- the code uses. `Load` without its file: the JSON decoder's result, `none` for an error, is given.
pub mod Laws
use hyper_l.Base.{
  ℕ, zero, suc, ◌+◌, ◌-◌, ◌*◌, ◌/◌, ◌%◌, ◌^◌, bit_and, Bool, true, false, not, ◌&&◌, ◌||◌,
  if◌then◌else◌, ltb, leb, ◌==◌, Option, none, some, String,
}
use hyper_l.Base.Int.{ℤ, pos, negsuc, pos_part, neg_part, sub_ℕ, ltb_ℤ, leb_ℤ, uint64_of, signed64}
use text.Mathlib.Text.{◌==◌ as str_eq}

pub record Phase : Type 0 where
  pub tps : ℤ
  pub duration_seconds : ℤ

pub record FaultInjection : Type 0 where
  pub pause_at_block : ℕ
  pub pause_millis : ℤ
  pub bad_proof_at : ℕ

pub record Config : Type 0 where
  pub name : String
  pub block_time_millis : ℤ
  pub gas_limit : ℕ
  pub lanes : ℤ
  pub max_lanes : ℤ
  pub queue_capacity : ℕ
  pub cert_mode : Bool
  pub skip_state : Bool
  pub skip_signature : Bool
  pub proof_seed : String
  pub warmup : Phase
  pub certification : Phase
  pub metrics_listen_addr : String
  pub report_dir : String
  pub tx_dataset_path : String
  pub proof_dataset_path : String
  pub fault : FaultInjection

-- The errors of `Validate`, in its order, and the two of `Load` before it.
pub data ConfigError : Type 0 where
  bad_block_time bad_lanes bad_max_lanes bad_queue_capacity bad_tps bad_duration : ConfigError
  no_report_dir no_listen_addr parse_config : ConfigError

-- `Validate`; `none` is nil.
unfoldable pub validate : Config → Option ConfigError
validate c =
    if leb_ℤ c.block_time_millis (pos 0)
    then some bad_block_time
    else if leb_ℤ c.lanes (pos 0) || ltb_ℤ c.max_lanes c.lanes
    then some bad_lanes
    else if leb_ℤ c.max_lanes (pos 0)
    then some bad_max_lanes
    else if ltb c.queue_capacity 2 || not (bit_and c.queue_capacity (c.queue_capacity - 1) == 0)
    then some bad_queue_capacity
    else if ltb_ℤ c.warmup.tps (pos 0) || leb_ℤ c.certification.tps (pos 0)
    then some bad_tps
    else if ltb_ℤ c.warmup.duration_seconds (pos 0)
        || leb_ℤ c.certification.duration_seconds (pos 0)
    then some bad_duration
    else if str_eq c.report_dir ""
    then some no_report_dir
    else if str_eq c.metrics_listen_addr ""
    then some no_listen_addr
    else none

-- `Load` after `os.ReadFile`
unfoldable pub load : Option Config → Option ConfigError × Option Config
load none = (some parse_config, none)
load (some cfg) = elim (validate cfg) [ none ↦ (none, some cfg) | some e ↦ (some e, none) ]

-- int64 multiplication by a positive constant
abbrev pub scale64 : ℤ → ℕ → ℤ
scale64 a k = signed64 (uint64_of (sub_ℕ (pos_part a * k) (neg_part a * k)))

-- Go's integer division, which truncates towards zero; `none` is the panic of a division by zero.
abbrev pub div64 : ℤ → ℤ → Option ℤ
div64 a (pos zero) = none
div64 a (pos (suc k)) = some (sub_ℕ (pos_part a / suc k) (neg_part a / suc k))
div64 a (negsuc k) = some (sub_ℕ (neg_part a / suc k) (pos_part a / suc k))

-- `BlockInterval`
unfoldable pub block_interval : Config → ℤ
block_interval c = scale64 c.block_time_millis 1000000

-- `BlocksForPhase`
unfoldable pub blocks_for_phase : Config → Phase → Option ℤ
unfolding block_interval
blocks_for_phase c p =
    if leb_ℤ p.duration_seconds (pos 0) && leb_ℤ (pos 0) p.duration_seconds
    then some (pos 0)
    else div64 (scale64 p.duration_seconds 1000000000) (block_interval c)

-- float64, as far as the code uses it.
pub record Floats : Type 1 where
  pub Float : Type 0
  pub of_int : ℤ → Float
  pub times : Float → Float → Float
  pub over : Float → Float → Float
  pub at_least : Float → Float → Bool
  pub truncate : Float → ℤ  -- `int(x)`
  pub seconds : ℤ → Float  -- `Duration.Seconds`

module _ (fl : Floats) where
  open fl use {of_int, times, truncate, seconds}

  -- `TxPerBlock`
  unfoldable pub tx_per_block : Config → ℤ → ℤ
  unfolding block_interval
  tx_per_block c tps =
      if leb_ℤ tps (pos 0)
      then pos 0
      else truncate (times (of_int tps) (seconds (block_interval c)))
