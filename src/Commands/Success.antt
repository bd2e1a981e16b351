-- ===== src/Commands/Success.antt =====
-- A `runSubmitMultisenderBurst` of cmd/kaia-proofctl/main.go that returns no error.
use hyper_l.Base.{
  ℕ, suc, ◌+◌, ◌*◌, ◌%◌, ◌^◌, ◌==◌, ◌≡◌, refl, sym, ap, subst, ◌∙◌, arith, Bool-cases, inl, inr,
  List, [], ◌∷◌, Option, none, some, String, All, length, ==_iff,
}
use hyper_l.Base.Int.{ℤ}
use hyper_l.Base.Bytes.{Bytes}
use hyper_l.Chain.{Result, done, failed}
use hyper_l.Chain.Account.{AccountError}
use hyper_l.Commands.{Call, CommandError, ◌>>=◌, close_all, World}
use hyper_l.Commands.Jobs.{
  Job, clients, pairs, send_jobs, multi_jobs, nothing_collected, BurstReport,
}
use hyper_l.Commands.Multi.{
  send_and_collect, with_data, with_addresses, run_submit_multisender_burst,
}
use hyper_l.Commands.Sends.{
  sends, sends-close_all, IsQuiet-bind, sends-deferred, sends-bind_quiet, sends-bind_last,
  bind_done, not_done, done_injective,
}
use hyper_l.Commands.Order.{transactions, AreJobsOf, multi_jobs-IsQuiet, multi_jobs-AreJobsOf}
use hyper_l.Commands.Collecting.{
  send_jobs_done, collect_done, collect_all-IsQuiet, collect_all, IsConfirmedJob,
}

module _ {E Key Address Node Signed : Type 0} (w : World E Key Address Node Signed)
    (confirmations : ℕ) (price : Result (AccountError E) (Option ℤ)) (format : ℕ → ℕ → String)
    (start now : ℤ) (sent_at seen_at : ℕ → ℤ) where
  -- The jobs of a burst that succeeded: one for each key and its address, each sent once, in order, by
  -- its own client, and each confirmed with a receipt that tells of a success.
  pub record IsSuccess (keys : List Bytes) (tos : List Address) (d : Bytes × ℕ)
      (calls : List (Call Signed)) (report : BurstReport Address Signed) : Type 0 where
    pub jobs : List (Job Key Address Node Signed)
    pub counts : length keys ≡ length tos
    pub are_jobs : AreJobsOf w confirmations price d.0 0 (pairs keys tos) jobs
    pub all_sent : sends calls ≡ transactions jobs
    pub all_confirmed : All (IsConfirmedJob w) jobs
    pub count_eq : report.count ≡ length tos
    pub verified_eq : report.verified_tx_total ≡ d.1 * length tos % 2 ^ 64

  send_and_collect_done :
      (verified : ℕ) (jobs : List (Job Key Address Node Signed))
      {report : BurstReport Address Signed}
      → let run =
          send_and_collect w confirmations price format start now sent_at seen_at verified jobs in
        run.1 ≡ done report
        → (sends run.0 ≡ transactions jobs)
          × All (IsConfirmedJob w) jobs
          × (report.count ≡ length jobs)
          × (report.verified_tx_total ≡ verified * length jobs % 2 ^ 64)
  unfolding send_and_collect
  send_and_collect_done verified jobs h =
      let (u, all_sent, h1) = bind_done (send_jobs w jobs) _ h in
      let (c, all_got, h2) =
        bind_done (collect_all w confirmations verified sent_at seen_at 0 jobs nothing_collected) _
          h1 in
      let got_all =
        collect_done w confirmations verified sent_at seen_at 0 jobs nothing_collected all_got in
      let same = done_injective h2 in
      (
        sends-bind_last (send_jobs w jobs) _ u all_sent (
              IsQuiet-bind
                (collect_all w confirmations verified sent_at seen_at 0 jobs nothing_collected) _
                (collect_all-IsQuiet w confirmations verified sent_at seen_at 0 jobs
                  nothing_collected)
                (λ c. refl))
            ∙ send_jobs_done w jobs all_sent,
        got_all.0,
        sym (ap (λ r. r.count) same) ∙ got_all.1 ∙ omega arith,
        sym (ap (λ r. r.verified_tx_total) same),
      )

  length-AreJobsOf :
      (data_bytes : Bytes) (i : ℕ) (targets : List (Bytes × Address))
      (jobs : List (Job Key Address Node Signed))
      → AreJobsOf w confirmations price data_bytes i targets jobs
      → length jobs ≡ length targets
  length-AreJobsOf data_bytes i [] [] h = refl
  length-AreJobsOf data_bytes i [] (job ∷ jobs) h = absurd h
  length-AreJobsOf data_bytes i (t ∷ targets) [] h = absurd h
  length-AreJobsOf data_bytes i (t ∷ targets) (job ∷ jobs) h =
      ap suc (length-AreJobsOf data_bytes (i + 1) targets jobs h.1)

  length-pairs :
      {A B : Type 0} (xs : List A) (ys : List B)
      → length xs ≡ length ys
      → length (pairs xs ys) ≡ length ys
  length-pairs [] ys e = e
  length-pairs (x ∷ xs) [] e = refl
  length-pairs (x ∷ xs) (y ∷ ys) e = ap suc (length-pairs xs ys (omega (arith, e)))

  with_data-IsSuccess :
      (keys : List Bytes) (tos : List Address) (d : Bytes × ℕ) {report : BurstReport Address Signed}
      → length keys ≡ length tos
      → (with_data w confirmations price format start now sent_at seen_at (pairs keys tos) d).1
        ≡ done report
      → IsSuccess keys tos d
          (with_data w confirmations price format start now sent_at seen_at (pairs keys tos) d).0
          report
  unfolding multi_jobs send_and_collect
  with_data-IsSuccess keys tos (data_bytes, verified) {report} e h =
      let targets = pairs keys tos in
      let making = multi_jobs w confirmations price data_bytes 0 targets [] in
      let (all, made, h1) = bind_done making _ h in
      let (new, split, are) =
        multi_jobs-AreJobsOf w confirmations price data_bytes 0 targets [] made in
      let all_are = subst (AreJobsOf w confirmations price data_bytes 0 targets) (sym split) are in
      let number = length-AreJobsOf data_bytes 0 targets all all_are ∙ length-pairs keys tos e in
      let (all_sent, confirmed, count_eq, verified_eq) = send_and_collect_done verified all h1 in
      record {
        jobs = all;
        counts = e;
        are_jobs = all_are;
        all_sent =
            sends-bind_quiet making _ all
              (multi_jobs-IsQuiet w confirmations price data_bytes 0 targets []) made
            ∙ sends-deferred (close_all (clients all))
                (send_and_collect w confirmations price format start now sent_at seen_at verified
                  all)
                (sends-close_all Signed (clients all))
            ∙ all_sent;
        all_confirmed = confirmed;
        count_eq = count_eq ∙ number;
        verified_eq = verified_eq ∙ ap (λ n. verified * n % 2 ^ 64) number;
      }

  packed-IsSuccess :
      (keys : List Bytes) (tos : List Address) (packed : Result (CommandError E) (Bytes × ℕ))
      {report : BurstReport Address Signed}
      → length keys ≡ length tos
      → let run =
          ([], packed)
          >>= with_data w confirmations price format start now sent_at seen_at (pairs keys tos) in
        run.1 ≡ done report
        → (d : Bytes × ℕ) × (packed ≡ done d) × IsSuccess keys tos d run.0 report
  packed-IsSuccess keys tos (done d) e h = (d, refl, with_data-IsSuccess keys tos d e h)
  packed-IsSuccess keys tos (failed x) e h = absurd (not_done h)

  with_addresses-IsSuccess :
      (keys : List Bytes) (addresses : Option (List Address))
      (packed : Result (CommandError E) (Bytes × ℕ)) {report : BurstReport Address Signed}
      → let run =
          with_addresses w confirmations price format start now sent_at seen_at keys packed
            addresses in
        run.1 ≡ done report
        → (tos : List Address) × (d : Bytes × ℕ) × (addresses ≡ some tos)
          × (packed ≡ done d)
          × IsSuccess keys tos d run.0 report
  with_addresses-IsSuccess keys none packed h = absurd (not_done h)
  with_addresses-IsSuccess keys (some []) packed h = absurd (not_done h)
  with_addresses-IsSuccess keys (some (to ∷ tos)) packed h =
      elim (Bool-cases (length keys == length (to ∷ tos))) [
        | inl e ↦
            let (d, p, s) =
              packed-IsSuccess keys (to ∷ tos) packed ((==_iff _ _).0 e) (rw e at h) in
            (to ∷ tos, d, refl, p, rw e s)
        | inr e ↦ absurd (not_done (rw e at h))
      ]

  -- If `submit-multisender-burst` returns no error: there were as many keys as addresses; one
  -- transaction was sent for each address, in the order of the addresses and none besides, from the
  -- sender of its key, built of the packed data with that sender's pending nonce; each was confirmed
  -- with a receipt that tells of a success; and the report counts the addresses, and as verified the
  -- transfers of the data once for each address, modulo 2 ^ 64.
  pub multisender_burst_sound :
      (keys : List Bytes) (addresses : Option (List Address))
      (packed : Result (CommandError E) (Bytes × ℕ)) {report : BurstReport Address Signed}
      → let run =
          run_submit_multisender_burst w confirmations price format start now sent_at seen_at keys
            addresses packed in
        run.1 ≡ done report
        → (tos : List Address) × (d : Bytes × ℕ) × (addresses ≡ some tos)
          × (packed ≡ done d)
          × IsSuccess keys tos d run.0 report
  unfolding run_submit_multisender_burst
  multisender_burst_sound [] addresses packed h = absurd (not_done h)
  multisender_burst_sound (key ∷ keys) addresses packed h =
      with_addresses-IsSuccess (key ∷ keys) addresses packed h
