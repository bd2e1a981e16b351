-- ===== src/Pipeline/Report.antt =====
-- The report: `buildReport` of internal/pipeline/runner.go and `Report` of internal/pipeline/report.go.
-- What comes from the machine (times, host, versions, the hashes of two files) and the texts of the
-- assumptions are parameters. The files that `WriteReport` writes are not modelled.
pub mod Sound
use hyper_l.Base.{
  ℕ, zero, suc, ◌+◌, ◌*◌, ◌%◌, ◌^◌, Bool, true, false, not, ◌&&◌, if◌then◌else◌, ltb, leb, ◌==◌,
  Option, none, some, List, [], ◌∷◌, ◌++◌, String,
}
use text.Mathlib.Text.{◌==◌ as str_eq}
use hyper_l.Base.Int.{
  ℤ, pos, negsuc, pos_part, neg_part, sub_ℕ, leb_ℤ, uint64_of, signed64, times64,
}
use hyper_l.Metrics.{Registry, add64, average_finalize_latency_ms}
use hyper_l.Config.{Config, Phase, Floats, blocks_for_phase, tx_per_block}
use hyper_l.Pipeline.Types.{BlockLog}

-- The three counters of the loop over the logs.
pub record Tally : Type 0 where
  pub verified_tx : ℕ
  pub proof_failures : ℕ
  pub verified_blocks : ℕ

-- The test that a log entry of the certification phase has to pass; `tally_entry` looks at the phase.
abbrev pub is_certified : BlockLog → Bool
is_certified e = e.finalized && (e.proof_verified && not e.duplicate)

-- One round of the loop.
unfoldable pub tally_entry : BlockLog → Tally → Tally
tally_entry e t =
    if not (str_eq e.phase "certification")
    then t
    else if is_certified e
    then record t {
      verified_tx = add64 t.verified_tx e.tx_count;
      verified_blocks = t.verified_blocks + 1;
    }
    else if not e.proof_verified
    then record t { proof_failures = t.proof_failures + 1 }
    else t

unfoldable pub tally_from : List BlockLog → Tally → Tally
unfolding tally_entry
tally_from [] t = t
tally_from (e ∷ logs) t = tally_from logs (tally_entry e t)

abbrev pub tally : List BlockLog → Tally
tally logs = tally_from logs (record { verified_tx = 0; proof_failures = 0; verified_blocks = 0 })

-- What the report takes from the machine that runs it.
pub record Machine : Type 0 where
  pub started_at : String
  pub finished_at : String
  pub host : String
  pub go_version : String
  pub config_sha256 : String
  pub binary_sha256 : String

module _ (fl : Floats) where
  open fl use {Float, of_int, over, at_least}

  -- `AverageFinalizeMs` is kept as the two integers of `average_finalize_latency_ms`.
  pub record Report : Type 0 where
    pub config_name : String
    pub machine : Machine
    pub block_time_millis : ℤ
    pub gas_limit : ℕ
    pub lanes : ℤ
    pub expected_certification_tx : ℕ
    pub certification_seconds : ℤ
    pub certification_tps_goal : ℤ
    pub certification_verified_tx : ℕ
    pub certification_avg_tps : Float
    pub certified_blocks : ℕ
    pub proof_failures : ℕ
    pub drop_count : ℕ
    pub average_finalize : Option (ℕ × ℕ)
    pub pass : Bool
    pub assumptions : List String
    pub blocks : List BlockLog

  -- `avgVerifiedTPS`
  unfoldable pub average_tps : ℕ → ℤ → Float
  average_tps verified_tx seconds =
      if leb_ℤ seconds (pos 0)
      then of_int (pos 0)
      else over (of_int (pos verified_tx)) (of_int seconds)

  -- The report of `buildReport`, with the number of blocks of the certification phase.
  unfoldable pub report_of : Config → ℤ → Registry → List BlockLog → Machine → List String → Report
  unfolding average_tps
  report_of cfg blocks m logs machine assumptions =
      let t = tally logs in
      let average = average_tps t.verified_tx cfg.certification.duration_seconds in
      let expected = uint64_of (times64 blocks (tx_per_block fl cfg cfg.certification.tps)) in
      record {
        config_name = cfg.name;
        machine = machine;
        block_time_millis = cfg.block_time_millis;
        gas_limit = cfg.gas_limit;
        lanes = cfg.lanes;
        expected_certification_tx = expected;
        certification_seconds = cfg.certification.duration_seconds;
        certification_tps_goal = cfg.certification.tps;
        certification_verified_tx = t.verified_tx;
        certification_avg_tps = average;
        certified_blocks = t.verified_blocks;
        proof_failures = t.proof_failures;
        drop_count = m.drop_count;
        average_finalize = average_finalize_latency_ms m;
        pass =
            at_least average (of_int cfg.certification.tps)
            && (leb expected t.verified_tx && (m.drop_count == 0 && t.proof_failures == 0));
        assumptions = assumptions;
        blocks = logs;
      }

  -- `buildReport`; `none` is the panic of `BlocksForPhase` for a block time of zero.
  unfoldable pub build_report :
      Config → Registry → List BlockLog → Machine → List String → Option Report
  unfolding report_of
  build_report cfg m logs machine assumptions = elim (blocks_for_phase cfg cfg.certification) [
    | none ↦ none
    | some blocks ↦ some (report_of cfg blocks m logs machine assumptions)
  ]
