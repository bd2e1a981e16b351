-- ===== src/Dashboard/Workflow.antt =====
-- The workflow of the dashboard, cmd/kaia-proofctl/dashboard.go: the reading of the exporter's progress,
-- the making of the bundle, and what the goroutine of `runDashboard` does with the result. The exporter,
-- files and JSON are parameters; the clock is read once for each step.

pub mod Mixed
pub mod Run
use hyper_l.Base.{
  ℕ, ◌+◌, ◌-◌, ◌%◌, ◌^◌, Bool, ◌||◌, ◌&&◌, ◌*◌, ◌++◌, if◌then◌else◌, ◌==◌, Option, none, some, List,
  [], ◌∷◌, String, length,
}
use text.Mathlib.Text.{◌==◌ as str_eq}
use hyper_l.Base.Int.{ℤ, pos, pos_part, ◌-ℤ◌, leb_ℤ, ltb_ℤ, uint64_of}
use hyper_l.Base.Bytes.{Bytes}
use hyper_l.Bundle.{
  Artifact, Bundle, Converted, converted, no_artifacts, panicked, MergeError, Merged, merged,
  refused, merge_bundles,
}
use hyper_l.Chain.{Result, done, failed}
use hyper_l.Dashboard.Types.{State, Event, with_proof}
use hyper_l.Dashboard.State.{
  mutate, show_merged, log, set_phase, set_error, set_done, apply_exporter_event, set_bundle_path,
}

-- A line of the exporter's output: an event, or a text after `TrimSpace`.
pub data Line : Type 0 where
  progress : Event → Line
  other : String → Line

-- The errors of the workflow: a file's, the exporter's or a client's, a merge's, a bundle's without
-- artifacts, the panic of a number that is none, a bad address.
pub data WorkError (E : Type 0) : Type 0 where
  io : E → WorkError E
  merge : MergeError → WorkError E
  empty_bundle bad_number bad_address : WorkError E

infixl 5 ◌>>=◌
abbrev pub ◌>>=◌ : {F A B : Type 0} → Result F A → (A → Result F B) → Result F B
done a >>= f = f a
failed e >>= f = failed e

abbrev pub io_of : {E A : Type 0} → Result E A → Result (WorkError E) A
io_of (done a) = done a
io_of (failed e) = failed (io e)

abbrev pub merge_result : {E : Type 0} → Merged → Result (WorkError E) Bundle
merge_result (merged b) = done b
merge_result (refused e) = failed (merge e)

-- The options that are looked at, and the number of lanes to prove live.
pub record Options : Type 0 where
  pub bundle_path : String
  pub batch_size : ℤ
  pub lane_count : ℤ
  pub live_lane_count : ℤ

unfoldable pub live_lanes : Options → ℤ
live_lanes o =
    if leb_ℤ o.live_lane_count (pos 0) || ltb_ℤ o.lane_count o.live_lane_count
    then o.lane_count
    else o.live_lane_count

-- What is outside of the program: the exporter's lines and output for a number of lanes, JSON, the
-- replayed bundle, and the file that is written.
pub record Outside (E Data : Type 0) : Type 0 where
  pub export : ℤ → List Line × Result E Data
  pub decode : Data → Result E Bundle
  pub replay_bundle : Result E Bundle
  pub encode : Bundle → Result E Data
  pub write : Data → Option E

-- The file that was written, the error, and the state.
pub record Made (E Data : Type 0) : Type 0 where
  pub file : Option Data
  pub error : Option (WorkError E)
  pub state : State

-- The texts of the log lines of an event.
pub record EventTexts : Type 0 where
  pub setup_completed : ℤ → String
  pub proof_started : ℤ → ℤ → ℤ → String
  pub proof_completed : ℤ → ℤ → ℤ → String
  pub bundle_completed : ℤ → String
  pub bundle_written : String
  pub starting : String
  pub loading : String
  pub skipped : String
  pub mixed_mode : ℤ → ℤ → String
  pub replay_loaded : ℤ → String

module _ (format : ℤ → String) (texts : EventTexts) (has_prefix : String → String → Bool) where
  -- The `switch` that logs an event.
  unfoldable pub log_event : Event → ℤ → State → State
  unfolding log
  log_event e now s =
      if str_eq e.event "setup_started"
      then log format "info" "proof setup started" now s
      else if str_eq e.event "setup_completed"
      then log format "info" (texts.setup_completed e.elapsed_ms) now s
      else if str_eq e.event "proof_started"
      then log format "info" (texts.proof_started e.current e.total e.lane_id) now s
      else if str_eq e.event "proof_completed"
      then log format "info" (texts.proof_completed e.current e.total e.elapsed_ms) now s
      else if str_eq e.event "bundle_completed"
      then log format "info" (texts.bundle_completed e.elapsed_ms) now s
      else s

  -- The texts of cargo that are shown.
  unfoldable pub is_shown : String → Bool
  is_shown text =
      has_prefix text "Compiling "
      || (has_prefix text "Finished "
          || (has_prefix text "Running `"
              || (has_prefix text "warning:" || has_prefix text "error:")))

  -- One line. A text that is an event without a name counts as a text.
  unfoldable pub take_line : ℤ → Line → State → State
  unfolding log_event is_shown apply_exporter_event log
  take_line now (progress e) s = log_event e now (apply_exporter_event format e now s)
  take_line now (other text) s =
      if str_eq text "" then s else if is_shown text then log format "info" text now s else s

  -- The loop over the lines, the clock read for the line at position `i`.
  unfoldable pub take_lines : (ℕ → ℤ) → ℕ → List Line → State → State
  unfolding take_line
  take_lines clock i [] s = s
  take_lines clock i (l ∷ ls) s = take_lines clock (i + 1) ls (take_line (clock i) l s)

  module _ {E Data : Type 0} (clock : ℕ → ℤ) (outside : Outside E Data) where
    -- After the bundle is written.
    abbrev pub written : Data → (State → State) → State → Option E → Made E Data
    written d f s none = record { file = some d; error = none; state = f s }
    written d f s (some e) = record { file = none; error = some (io e); state = s }

    abbrev pub write_made : (State → State) → State → Result (WorkError E) Data → Made E Data
    write_made f s (done d) = written d f s (outside.write d)
    write_made f s (failed e) = record { file = none; error = some e; state = s }

    -- The bundle of the live lanes and the replayed ones.
    unfoldable pub mixed_file : ℤ → ℤ → Result E Data → Result (WorkError E) Data
    unfolding merge_bundles
    mixed_file live lanes exported = do
      d ← io_of exported
      live_bundle ← io_of (outside.decode d)
      replay ← io_of outside.replay_bundle
      b ← merge_result (merge_bundles live_bundle replay (pos_part live) (pos_part lanes))
      io_of (outside.encode b)

    -- What is shown after a mixed bundle is written.
    unfoldable pub show_mixed : Options → ℤ → State → State
    unfolding show_merged set_bundle_path log
    show_mixed o now s =
        let replay_count = o.lane_count -ℤ live_lanes o in
        let s1 =
          show_merged format o.lane_count replay_count
            (uint64_of o.batch_size * uint64_of o.lane_count % 2 ^ 64) now s in
        log format "info" texts.bundle_written now (
          log format "info" (texts.replay_loaded replay_count) now
            (set_bundle_path format o.bundle_path now s1))

    -- `generateBundleWithProgress`
    unfoldable pub generate_bundle : Options → State → Made E Data
    unfolding live_lanes take_lines mixed_file show_mixed log set_bundle_path
    generate_bundle o s =
        let live = live_lanes o in
        let now = clock (length (outside.export live).0) in
        if leb_ℤ live o.lane_count && leb_ℤ o.lane_count live
        then write_made
            (λ x.
              log format "info" texts.bundle_written now
                (set_bundle_path format o.bundle_path now x))
            (take_lines clock 0 (outside.export o.lane_count).0 s)
            (io_of (outside.export o.lane_count).1)
        else let s0 =
            log format "info" (texts.mixed_mode live (o.lane_count -ℤ live)) (clock 0) s in
          write_made (show_mixed o now) (take_lines clock 0 (outside.export live).0 s0)
            (mixed_file live o.lane_count (outside.export live).1)
