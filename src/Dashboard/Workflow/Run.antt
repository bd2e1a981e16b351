-- ===== src/Dashboard/Workflow/Run.antt =====
-- `runDashboardWorkflow` of cmd/kaia-proofctl/dashboard.go: the bundle is made or read, and submitted if
-- there are keys and addresses; and what the goroutine of `runDashboard` does with the result.
use hyper_l.Base.{ℕ, Bool, Option, none, some, List, [], ◌∷◌, String}
use hyper_l.Base.Int.{ℤ}
use hyper_l.Base.Bytes.{Bytes}
use hyper_l.Chain.{Result, done, failed}
use hyper_l.Dashboard.Types.{State}
use hyper_l.Dashboard.State.{
  mutate, show_loaded, log, set_phase, set_error, set_done, set_bundle_path,
}
use hyper_l.Dashboard.Workflow.{
  Options, Outside, Made, WorkError, io, bad_address, EventTexts, generate_bundle,
}

module _ (format : ℤ → String) (texts : EventTexts) (has_prefix : String → String → Bool) where
  module _ {E Data : Type 0} (clock : ℕ → ℤ) (outside : Outside E Data) where
    -- The first half of `runDashboardWorkflow`: the bundle is made, or read.
    unfoldable pub prepare_bundle :
        Bool → Option E → Result (WorkError E) (ℤ × ℕ) → Options → State → Made E Data
    unfolding generate_bundle log set_phase mutate
    prepare_bundle Bool.false (some e) loaded o s = record {
      file = none;
      error = some (io e);
      state = s;
    }
    prepare_bundle Bool.false none loaded o s =
        generate_bundle format texts has_prefix clock outside o
          (log format "info" texts.starting (clock 0) s)
    prepare_bundle Bool.true made_dir (failed e) o s = record {
      file = none;
      error = some e;
      state =
          log format "info" texts.loading (clock 0) (set_phase format "bundle_ready" (clock 0) s);
    }
    prepare_bundle Bool.true made_dir (done loaded) o s = record {
      file = none;
      error = none;
      state =
          show_loaded format o.bundle_path loaded.0 loaded.1 (clock 0) (
            log format "info" texts.loading (clock 0)
              (set_phase format "bundle_ready" (clock 0) s));
    }

    module _ {Address : Type 0}
        (submit : List Bytes → List Address → State → Option (WorkError E) × State) where
      -- The second half: the keys and the addresses, and the submission if there are both.
      unfoldable pub submit_bundle :
          ℤ → List Bytes → Option (List Address) → State → Option (WorkError E) × State
      unfolding log
      submit_bundle now keys none s = (some bad_address, s)
      submit_bundle now [] (some tos) s = (none, log format "info" texts.skipped now s)
      submit_bundle now (key ∷ keys) (some []) s = (none, log format "info" texts.skipped now s)
      submit_bundle now (key ∷ keys) (some (to ∷ tos)) s = submit (key ∷ keys) (to ∷ tos) s

      abbrev pub after_prepare :
          Options
          → ℤ
          → List Bytes
          → Option (List Address)
          → Option (WorkError E)
          → State
          → Option (WorkError E) × State
      after_prepare o now keys addresses (some e) s = (some e, s)
      after_prepare o now keys addresses none s =
          submit_bundle now keys addresses (set_bundle_path format o.bundle_path now s)

      -- `runDashboardWorkflow`, with the file that is written; `made_dir` is the error of `MkdirAll`.
      unfoldable pub run_workflow :
          Bool
          → Option E
          → Result (WorkError E) (ℤ × ℕ)
          → Options
          → ℤ
          → List Bytes
          → Option (List Address)
          → State
          → Option Data × (Option (WorkError E) × State)
      unfolding prepare_bundle submit_bundle set_bundle_path
      run_workflow skip made_dir loaded o now keys addresses s =
          let made = prepare_bundle skip made_dir loaded o s in
          (made.file, after_prepare o now keys addresses made.error made.state)

  -- What the goroutine of `runDashboard` does with the result of the workflow.
  unfoldable pub end_workflow : Option String → ℤ → ℤ → State → State
  unfolding set_error set_done log
  end_workflow (some e) now later s = set_error format (some e) now later s
  end_workflow none now later s =
      log format "info" "workflow completed" later (set_done format now s)
