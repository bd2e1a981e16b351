-- ===== src/Dashboard/State.antt =====
-- The methods of `dashboardState`, but for the receipts, and the two functions that the workflow gives to
-- `mutate`. The mutex makes each call of `mutate` one step; `setError` makes two.
-- `Format(time.RFC3339)` is a parameter.
use hyper_l.Base.{
  ℕ, ◌+◌, true, false, not, ◌||◌, if◌then◌else◌, ◌==◌, Option, none, some, [], ◌∷◌, ◌++◌, String,
}
use text.Mathlib.Text.{◌==◌ as str_eq}
use hyper_l.Base.Int.{ℤ, pos}
use hyper_l.Dashboard.Types.{
  ProofState, TxSummary, Snapshot, State, Event, SubmitJob, is_zero, last_of, no_proof_state,
  no_l1_state, with_proof, with_l1,
}

-- The effect of an exporter event on the proof state, before the `switch`.
unfoldable pub note_event : Event → ProofState → ProofState
note_event e p =
    let started = str_eq e.event "proof_started" || str_eq e.event "proof_completed" in
    record {
      batch_size = if is_zero e.batch_size then p.batch_size else e.batch_size;
      total = if is_zero e.total then p.total else e.total;
      generated = p.generated;
      replay_loaded = p.replay_loaded;
      current_lane_id = if not (is_zero e.lane_id) || started then e.lane_id else p.current_lane_id;
      current_batch_id = if e.batch_id == 0 then p.current_batch_id else e.batch_id;
      setup_done = p.setup_done;
      setup_elapsed_ms = p.setup_elapsed_ms;
      last_proof_elapsed_ms = p.last_proof_elapsed_ms;
      generation_elapsed_ms = p.generation_elapsed_ms;
      verified_tx_total =
          if e.verified_tx_total == 0 then p.verified_tx_total else e.verified_tx_total;
    }

-- The `switch` on the name of the event.
unfoldable pub switch_event : Event → Snapshot → Snapshot
switch_event e s =
    let p = s.proof in
    if str_eq e.event "setup_started"
    then record s { phase = "proof_setup" }
    else if str_eq e.event "setup_completed"
    then record s {
      phase = "proof_generation";
      proof = record p { setup_done = true; setup_elapsed_ms = e.elapsed_ms };
    }
    else if str_eq e.event "proof_started"
    then record s {
      phase = "proof_generation";
      proof = record p { total = if is_zero e.total then p.total else e.total };
    }
    else if str_eq e.event "proof_completed"
    then record s {
      phase = "proof_generation";
      proof = record p {
        generated = e.current;
        last_proof_elapsed_ms = e.elapsed_ms;
        verified_tx_total = e.generated_tx_total;
      };
    }
    else if str_eq e.event "bundle_completed"
    then record s {
      phase = "bundle_ready";
      proof = record p {
        generation_elapsed_ms = e.elapsed_ms;
        verified_tx_total = e.verified_tx_total;
      };
    }
    else s

module _ (format : ℤ → String) where
  -- `newDashboardState`
  abbrev pub new_state : String → ℤ → State
  new_state title now = record {
    started_at = now;
    updated_at = now;
    snapshot = record {
      title = title;
      phase = "starting";
      done = false;
      error = "";
      started_at = format now;
      updated_at = format now;
      bundle_path = "";
      proof = no_proof_state;
      l1 = no_l1_state;
      logs = [];
    };
  }

  -- `mutate`
  unfoldable pub mutate : (Snapshot → Snapshot) → ℤ → State → State
  mutate f now s = record s {
    updated_at = now;
    snapshot = record (f s.snapshot) { updated_at = format now };
  }

  -- `log`, with the text of its format: the last 200 entries are kept.
  unfoldable pub log : String → String → ℤ → State → State
  unfolding mutate
  log level message now =
      mutate
        (λ s. record s {
          logs =
              last_of 200
                (s.logs ++ record { at = format now; level = level; message = message } ∷ []);
        })
        now

  -- `setPhase`
  unfoldable pub set_phase : String → ℤ → State → State
  unfolding mutate
  set_phase phase = mutate (λ s. record s { phase = phase })

  -- The first half of `setError`
  unfoldable pub mark_failed : String → ℤ → State → State
  unfolding mutate
  mark_failed e = mutate (λ x. record x { error = e; phase = "failed"; done = true })

  -- `setError`; `none` is nil. Its log is a step of its own, at a later time.
  unfoldable pub set_error : Option String → ℤ → ℤ → State → State
  unfolding mark_failed log
  set_error none now later s = s
  set_error (some e) now later s = log "error" e later (mark_failed e now s)

  -- What `runDashboardWorkflow` shows of a bundle that was made before: its path, the number of its
  -- artifacts and that of their transfers.
  unfoldable pub show_loaded : String → ℤ → ℕ → ℤ → State → State
  unfolding mutate
  show_loaded path count verified = mutate (λ x. record x {
    bundle_path = path;
    proof = record x.proof { total = count; generated = count; verified_tx_total = verified };
  })

  -- What `generateBundleWithProgress` shows of a merged bundle.
  unfoldable pub show_merged : (lane_count replay_count : ℤ) → ℕ → ℤ → State → State
  unfolding mutate
  show_merged lane_count replay_count verified = mutate (λ x. record x {
    phase = "bundle_ready";
    proof = record x.proof {
      total = lane_count;
      generated = lane_count;
      replay_loaded = replay_count;
      verified_tx_total = verified;
    };
  })

  -- `setDone`
  unfoldable pub set_done : ℤ → State → State
  unfolding mutate
  set_done =
      mutate
        (λ s. record s { done = true; phase = if str_eq s.error "" then "completed" else s.phase })

  -- `applyExporterEvent`
  unfoldable pub apply_exporter_event : Event → ℤ → State → State
  unfolding mutate note_event switch_event
  apply_exporter_event e = mutate (λ s. switch_event e (with_proof (note_event e s.proof) s))

  -- `setBundlePath`
  unfoldable pub set_bundle_path : String → ℤ → State → State
  unfolding mutate
  set_bundle_path path = mutate (λ s. record s { bundle_path = path })

  -- `configureSubmission`
  unfoldable pub configure_submission : String → ℤ → ℕ → ℤ → State → State
  unfolding mutate
  configure_submission mode total_calls per_call = mutate (λ s. record s {
    phase = "l1_submitting";
    l1 = record s.l1 {
      enabled = true;
      mode = mode;
      total_calls = total_calls;
      verified_tx_per_call = per_call;
    };
  })

  -- The summary of a call, with nothing known of its outcome.
  abbrev pub summary_of : SubmitJob → TxSummary
  summary_of job = record {
    sender_address = job.sender;
    contract_address = job.to;
    transaction_hash = job.hash;
    block_number = "";
    block_timestamp = "";
    gas_used = 0;
    gas_limit = job.gas_limit;
    block_inclusion_latency_ms = pos 0;
    receipt_latency_ms = pos 0;
    receipt_visibility_delay_ms = pos 0;
    end_to_end_latency_ms = pos 0;
    status = "";
    error = "";
  }

  -- `noteTxSent`
  unfoldable pub note_tx_sent : SubmitJob → ℤ → State → State
  unfolding mutate
  note_tx_sent job = mutate (λ s.
      with_l1
        (record s.l1 {
          sent_calls = s.l1.sent_calls + 1;
          first_send_at =
              if str_eq s.l1.first_send_at "" then format job.sent_at else s.l1.first_send_at;
          transactions = s.l1.transactions ++ record (summary_of job) { status = "sent" } ∷ [];
        })
        s)

-- `clone`: a snapshot is a value, so its copies of the lists are the lists.
abbrev pub clone : State → Snapshot
clone s = s.snapshot
