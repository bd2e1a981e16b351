-- ===== src/Commands/Multi.antt =====
-- `runSubmitMultisenderBurst` of cmd/kaia-proofctl/main.go, after the flags are read. What `loadBundle`,
-- `toArtifacts`, `loadContractArtifact` and `Pack` give is one parameter: the data and the number of
-- verified transfers.
use hyper_l.Base.{
  ℕ, ◌*◌, ◌%◌, ◌^◌, if◌then◌else◌, ◌==◌, Option, none, some, List, [], ◌∷◌, String, length,
}
use hyper_l.Base.Int.{ℤ}
use hyper_l.Base.Bytes.{Bytes}
use hyper_l.Chain.{Result}
use hyper_l.Chain.Account.{AccountError}
use hyper_l.Commands.{
  CommandError, missing_keys, missing_addresses, bad_address, count_mismatch, Run, pure, raise,
  ◌>>=◌, ◌>>◌, deferred, close_all, World,
}
use hyper_l.Commands.Senders.{check_status}
use hyper_l.Commands.Jobs.{
  Job, clients, pairs, multi_jobs, send_jobs, collect, nothing_collected, report_of, BurstReport,
}

module _ {E Key Address Node Signed : Type 0} (w : World E Key Address Node Signed)
    (confirmations : ℕ) (price : Result (AccountError E) (Option ℤ)) (format : ℕ → ℕ → String)
    (start now : ℤ) (sent_at seen_at : ℕ → ℤ) where
  -- After the jobs are made: everything is sent, then every receipt is waited for.
  unfoldable pub send_and_collect :
      ℕ
      → List (Job Key Address Node Signed)
      → Run Signed (CommandError E) (BurstReport Address Signed)
  unfolding send_jobs collect
  send_and_collect verified jobs = do
    send_jobs w jobs
    c ←
        collect w "submit-multisender-burst-item" (λ a. some a) check_status confirmations verified
          sent_at seen_at 0 jobs nothing_collected
    pure (report_of format start now (verified * length jobs % 2 ^ 64) c)

  -- After the data is packed; the clients of the jobs are closed in the end.
  abbrev pub with_data :
      List (Bytes × Address) → Bytes × ℕ → Run Signed (CommandError E) (BurstReport Address Signed)
  with_data targets (data_bytes, verified) = do
    jobs ← multi_jobs w confirmations price data_bytes 0 targets []
    deferred (close_all (clients jobs)) (send_and_collect verified jobs)

  -- After the addresses are read.
  abbrev pub with_addresses :
      List Bytes
      → Result (CommandError E) (Bytes × ℕ)
      → Option (List Address)
      → Run Signed (CommandError E) (BurstReport Address Signed)
  with_addresses keys packed none = raise bad_address
  with_addresses keys packed (some []) = raise missing_addresses
  with_addresses keys packed (some (to ∷ tos)) =
      if length keys == length (to ∷ tos)
      then ([], packed) >>= with_data (pairs keys (to ∷ tos))
      else raise (count_mismatch (length keys) (length (to ∷ tos)))

  unfoldable pub run_submit_multisender_burst :
      List Bytes
      → Option (List Address)
      → Result (CommandError E) (Bytes × ℕ)
      → Run Signed (CommandError E) (BurstReport Address Signed)
  unfolding multi_jobs send_and_collect
  run_submit_multisender_burst [] addresses packed = raise missing_keys
  run_submit_multisender_burst (key ∷ keys) addresses packed =
      with_addresses (key ∷ keys) packed addresses
