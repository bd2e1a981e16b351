-- ===== src/Dashboard/Workflow/Mixed.antt =====
-- A bundle that `generateBundleWithProgress` of cmd/kaia-proofctl/dashboard.go makes of live and of
-- replayed proofs.
use hyper_l.Base.{
  ℕ, ◌-◌, ◌*◌, ◌%◌, ◌^◌, ◌<◌, ◌≡◌, refl, sym, ap, subst, ◌∙◌, arith, false, ◌&&◌, Bool, Option,
  none, some, ◌++◌, String, length, take, drop,
}
use mathlib.Core.Option.{none-ne-some}
use hyper_l.Base.Int.{ℤ, pos, ◌-ℤ◌, leb_ℤ, uint64_of}
use hyper_l.Bundle.{Bundle, source_of, merge_bundles, merge_of, Merged, merged, refused}
use hyper_l.Bundle.Merge.{IsMergeable, merge_bundles_lem}
use hyper_l.Chain.{Result, done, failed}
use hyper_l.Dashboard.Types.{State}
use hyper_l.Dashboard.State.{log}
use hyper_l.Dashboard.Workflow.{
  Options, Outside, Made, WorkError, EventTexts, live_lanes, generate_bundle, mixed_file,
  show_mixed, write_made, written, io_of, merge_result, ◌>>=◌, take_lines,
}

not_done : {F A : Type 0} {e : F} {a : A} → failed e ≡ done a → ⊥
not_done h = cc

bind_done :
    {F A B : Type 0} (m : Result F A) (f : A → Result F B) {b : B}
    → (m >>= f) ≡ done b
    → (a : A) × (m ≡ done a) × (f a ≡ done b)
bind_done (done a) f h = (a, refl, h)
bind_done (failed e) f h = absurd (not_done h)

io_of_done : {E A : Type 0} (r : Result E A) {a : A} → io_of r ≡ done a → r ≡ done a
io_of_done (done a) h = cc
io_of_done (failed e) h = absurd (not_done h)

merge_result_done :
    {E : Type 0} (m : Merged) {b : Bundle} → merge_result {E = E} m ≡ done b → m ≡ merged b
merge_result_done (merged b) h = cc
merge_result_done (refused e) h = absurd (not_done h)

-- A merge that succeeds had enough of everything.
merge_bundles-IsMergeable :
    (live replay b : Bundle) (n total : ℕ)
    → merge_bundles live replay n total ≡ merged b
    → IsMergeable live replay n total × (b ≡ merge_of live replay n total)
unfolding merge_bundles
merge_bundles-IsMergeable live replay b n total h = ground arith

module _ (format : ℤ → String) (texts : EventTexts) (has_prefix : String → String → Bool)
    {E Data : Type 0} (clock : ℕ → ℤ) (outside : Outside E Data) where
  write_made_done :
      (f : State → State) (s : State) (r : Result (WorkError E) Data)
      → (write_made format texts has_prefix clock outside f s r).error ≡ none
      → (d : Data) × (r ≡ done d)
        × (outside.write d ≡ none)
        × (write_made format texts has_prefix clock outside f s r
            ≡ record { file = some d; error = none; state = f s })
  write_made_done f s (done d) h = after (outside.write d) refl h
    where
      after :
          (o : Option E)
          → outside.write d ≡ o
          → (written format texts has_prefix clock outside d f s o).error ≡ none
          → (d' : Data) × (◌≡◌ {A = Result (WorkError E) Data} (done d) (done d'))
            × (outside.write d' ≡ none)
            × (written format texts has_prefix clock outside d f s o
                ≡ record { file = some d'; error = none; state = f s })
      after none q e = (d, refl, q, refl)
      after (some x) q e = absurd (none-ne-some _ (sym e))
  write_made_done f s (failed x) h = absurd (none-ne-some _ (sym h))

  -- The bundle that is written for `live` proofs and replayed ones up to `total`, and what is shown.
  pub record IsMixed (path : String) (batch_size : ℤ) (live total : ℕ) (made : Made E Data)
      : Type 0 where
    pub output : Data
    pub live_bundle : Bundle
    pub replay : Bundle
    pub exported : (outside.export (pos live)).1 ≡ done output
    pub decoded : outside.decode output ≡ done live_bundle
    pub loaded : outside.replay_bundle ≡ done replay
    pub mergeable : IsMergeable live_bundle replay live total
    pub batch_count : length (merge_of live_bundle replay live total).batches ≡ total
    pub batches_eq :
        (merge_of live_bundle replay live total).batches
        ≡ take live (source_of live_bundle) ++ take (total - live) (drop live (source_of replay))
    pub file : Data
    pub encoded : outside.encode (merge_of live_bundle replay live total) ≡ done file
    pub file_eq : made.file ≡ some file
    pub write_eq : outside.write file ≡ none
    pub total_eq : made.state.snapshot.proof.total ≡ pos total
    pub generated_eq : made.state.snapshot.proof.generated ≡ pos total
    pub replay_eq : made.state.snapshot.proof.replay_loaded ≡ pos (total - live)
    pub verified_eq :
        made.state.snapshot.proof.verified_tx_total
        ≡ uint64_of batch_size * uint64_of (pos total) % 2 ^ 64
    pub path_eq : made.state.snapshot.bundle_path ≡ path
    pub phase_eq : made.state.snapshot.phase ≡ "bundle_ready"

  abbrev options_of : String → ℤ → ℕ → ℕ → Options
  options_of path batch_size live total = record {
    bundle_path = path;
    batch_size = batch_size;
    lane_count = pos total;
    live_lane_count = pos live;
  }

  live_lanes_mixed :
      (path : String) (batch_size : ℤ) (live total : ℕ)
      → 0 < live
      → live < total
      → live_lanes (options_of path batch_size live total) ≡ pos live
  unfolding live_lanes
  live_lanes_mixed path batch_size live total p q = ground arith

  sub_pos : (live total : ℕ) → live < total → pos total -ℤ pos live ≡ pos (total - live)
  unfolding ◌-ℤ◌
  sub_pos live total q = ground arith

  not_all_live :
      (live total : ℕ)
      → live < total
      → (leb_ℤ (pos live) (pos total) && leb_ℤ (pos total) (pos live)) ≡ false
  not_all_live live total q = ground arith

  -- The state before the bundle is written.
  abbrev before : ℕ → ℕ → State → State
  unfolding log take_lines
  before live total s =
      take_lines format texts has_prefix clock 0 (outside.export (pos live)).0
        (log format "info" (texts.mixed_mode (pos live) (pos total -ℤ pos live)) (clock 0) s)

  generate_bundle_mixed :
      (path : String) (batch_size : ℤ) (live total : ℕ) (s : State)
      → 0 < live
      → live < total
      → let o = options_of path batch_size live total in
        generate_bundle format texts has_prefix clock outside o s
        ≡ write_made format texts has_prefix clock outside
            (show_mixed format texts has_prefix clock outside o
              (clock (length (outside.export (pos live)).0)))
            (before live total s)
            (mixed_file format texts has_prefix clock outside
              (pos live)
              (pos total)
              (outside.export (pos live)).1)
  unfolding generate_bundle before
  generate_bundle_mixed path batch_size live total s p q =
      rw (live_lanes_mixed path batch_size live total p q, not_all_live live total q) refl

  mixed_file-IsMixed :
      (path : String) (batch_size : ℤ) (live total : ℕ) (s : State) (d : Data)
      → 0 < live
      → live < total
      → mixed_file format texts has_prefix clock outside
          (pos live)
          (pos total)
          (outside.export (pos live)).1
        ≡ done d
      → outside.write d ≡ none
      → let now = clock (length (outside.export (pos live)).0) in
        IsMixed path batch_size live total (record {
          file = some d;
          error = none;
          state =
              show_mixed format texts has_prefix clock outside
                (options_of path batch_size live total)
                now
                s;
        })
  unfolding mixed_file show_mixed
  mixed_file-IsMixed path batch_size live total s d p q h w =
      let (output, h0, h1) = bind_done (io_of (outside.export (pos live)).1) _ h in
      let (live_bundle, h2, h3) = bind_done (io_of (outside.decode output)) _ h1 in
      let (replay, h4, h5) = bind_done (io_of outside.replay_bundle) _ h3 in
      let (b, h6, h7) =
        bind_done (merge_result (merge_bundles live_bundle replay live total)) _ h5 in
      let m = merge_bundles-IsMergeable live_bundle replay b live total (merge_result_done _ h6) in
      record {
        output = output;
        live_bundle = live_bundle;
        replay = replay;
        exported = io_of_done _ h0;
        decoded = io_of_done _ h2;
        loaded = io_of_done _ h4;
        mergeable = m.0;
        batch_count = (merge_bundles_lem live_bundle replay live total m.0).1;
        batches_eq = (merge_bundles_lem live_bundle replay live total m.0).3;
        file = d;
        encoded = ap outside.encode (sym m.1) ∙ io_of_done _ h7;
        file_eq = refl;
        write_eq = w;
        total_eq = refl;
        generated_eq = refl;
        replay_eq =
            ap (λ z. pos total -ℤ z) (live_lanes_mixed path batch_size live total p q)
            ∙ sub_pos live total q;
        verified_eq = refl;
        path_eq = refl;
        phase_eq = refl;
      }

  -- If the bundle of `total` lanes, of which `live` are proved now, at least one and not all, is made
  -- without an error: the exporter's output and the replayed bundle were read and were large enough;
  -- what was written is their merge, `total` artifacts, the first `live` of them the exporter's and the
  -- rest the replayed ones from there on; and the dashboard shows the path, the phase "bundle_ready",
  -- `total` proofs, `total - live` of them replayed, and batch size times `total` transfers, modulo
  -- 2 ^ 64.
  pub generate_bundle-IsMixed :
      (path : String) (batch_size : ℤ) (live total : ℕ) (s : State)
      → 0 < live
      → live < total
      → let o : Options = record {
        bundle_path = path;
        batch_size = batch_size;
        lane_count = pos total;
        live_lane_count = pos live;
      } in
        let made = generate_bundle format texts has_prefix clock outside o s in
        made.error ≡ none → IsMixed path batch_size live total made
  generate_bundle-IsMixed path batch_size live total s p q h =
      let e = generate_bundle_mixed path batch_size live total s p q in
      let (d, made, wrote, out) =
        write_made_done
          (show_mixed format texts has_prefix clock outside (options_of path batch_size live total)
            (clock (length (outside.export (pos live)).0)))
          (before live total s) _ (ap (λ m. m.error) (sym e) ∙ h) in
      subst (IsMixed path batch_size live total) (sym (e ∙ out))
        (mixed_file-IsMixed path batch_size live total (before live total s) d p q made wrote)
