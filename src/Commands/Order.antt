-- ===== src/Commands/Order.antt =====
-- What `runSubmitMultisenderBurst` of cmd/kaia-proofctl/main.go sends, and what its report rests on.
use hyper_l.Base.{
  ℕ, ◌+◌, ◌≡◌, refl, sym, ◌∙◌, List, [], ◌∷◌, ◌++◌, Option, append-nil, append_assoc,
}
use hyper_l.Base.Int.{ℤ, pos}
use hyper_l.Base.Bytes.{Bytes}
use hyper_l.Chain.{Result, done, failed}
use hyper_l.Chain.Account.{AccountError, trim_prefix}
use hyper_l.Chain.NewSender.{with_chain}
use hyper_l.Commands.{CommandError, no_sender, on_failure, closed, close_all, asked, World}
use hyper_l.Commands.Senders.{open_sender, after_dial, after_read, build}
use hyper_l.Commands.Jobs.{Job, clients, multi_jobs}
use hyper_l.Commands.Sends.{
  sends-close_all, IsQuiet, IsQuiet-bind, IsQuiet-on_failure, IsQuiet-asked, bind_done, asked_done,
  done_injective,
}

-- The transactions of jobs, with the clients that send them.
abbrev pub transactions :
    {Key Address Node Signed : Type 0} → List (Job Key Address Node Signed) → List (ℕ × Signed)
transactions [] = []
transactions (job ∷ jobs) = (job.client, job.tx) ∷ transactions jobs

module _ {E Key Address Node Signed : Type 0} (w : World E Key Address Node Signed) where
  open w use {read_key, address_of, chain_id_of, suggest_gas_price, env_gas_limit}

  module _ (confirmations : ℕ) (price : Result (AccountError E) (Option ℤ)) where
    after_dial-IsQuiet :
        (i : ℕ) (key : Key) (r : Result E Node) → IsQuiet (after_dial w confirmations price i key r)
    after_dial-IsQuiet i key (failed e) = refl
    after_dial-IsQuiet i key (done node) =
        let made =
          with_chain read_key address_of chain_id_of suggest_gas_price env_gas_limit confirmations
            node key price (chain_id_of node) in
        IsQuiet-on_failure (closed i ∷ []) (asked no_sender made) refl
          (IsQuiet-asked Signed no_sender made)

    pub open_sender-IsQuiet :
        (i : ℕ) (text : Bytes) → IsQuiet (open_sender w confirmations price i text)
    unfolding open_sender
    open_sender-IsQuiet i [] = refl
    open_sender-IsQuiet i (b ∷ bs) = after_key (read_key (trim_prefix (b ∷ bs)))
      where
        after_key : (r : Result E Key) → IsQuiet (after_read w confirmations price i r)
        after_key (failed e) = refl
        after_key (done key) = after_dial-IsQuiet i key (w.dial i)

    module _ (data_bytes : Bytes) where
      -- A job is the call of `verifyBatches` at its address: its sender is made of its key, and its
      -- transaction is built and signed with that sender's pending nonce.
      pub record IsJobOf (i : ℕ) (target : Bytes × Address) (job : Job Key Address Node Signed)
          : Type 0 where
        pub nonce : ℕ
        pub client_eq : job.client ≡ i
        pub to_eq : job.to ≡ target.1
        pub opened : (open_sender w confirmations price i target.0).1 ≡ done job.sender
        pub asked_nonce : w.pending_nonce i job.sender.client job.sender.from_address ≡ done nonce
        pub built :
            build w i job.sender job.to data_bytes (pos 0) nonce ≡ done (job.tx, job.gas_limit)

      -- The jobs of the targets, one for each, in order.
      abbrev pub AreJobsOf :
          ℕ → List (Bytes × Address) → List (Job Key Address Node Signed) → Type 0
      AreJobsOf i [] [] = Unit
      AreJobsOf i [] (job ∷ jobs) = ⊥
      AreJobsOf i (target ∷ targets) [] = ⊥
      AreJobsOf i (target ∷ targets) (job ∷ jobs) =
          IsJobOf i target job × AreJobsOf (i + 1) targets jobs

      pub multi_jobs-IsQuiet :
          (i : ℕ) (targets : List (Bytes × Address)) (jobs : List (Job Key Address Node Signed))
          → IsQuiet (multi_jobs w confirmations price data_bytes i targets jobs)
      unfolding multi_jobs
      multi_jobs-IsQuiet i [] jobs = refl
      multi_jobs-IsQuiet i ((key, to) ∷ targets) jobs =
          let js = clients jobs in
          IsQuiet-bind (on_failure (close_all js) (open_sender w confirmations price i key)) _
            (IsQuiet-on_failure (close_all js) (open_sender w confirmations price i key)
              (sends-close_all Signed js) (open_sender-IsQuiet i key))
            (λ s.
              IsQuiet-bind
                (on_failure (closed i ∷ close_all js)
                  (asked CommandError.refused (w.pending_nonce i s.client s.from_address)))
                _
                (IsQuiet-on_failure (closed i ∷ close_all js)
                  (asked CommandError.refused (w.pending_nonce i s.client s.from_address))
                  (sends-close_all Signed js) (IsQuiet-asked Signed CommandError.refused _))
                (λ nonce.
                  IsQuiet-bind
                    (on_failure (closed i ∷ close_all js)
                      (asked CommandError.refused (build w i s to data_bytes (pos 0) nonce)))
                    _
                    (IsQuiet-on_failure (closed i ∷ close_all js)
                      (asked CommandError.refused (build w i s to data_bytes (pos 0) nonce))
                      (sends-close_all Signed js) (IsQuiet-asked Signed CommandError.refused _))
                    (λ built. multi_jobs-IsQuiet (i + 1) targets _)))

      pub multi_jobs-AreJobsOf :
          (i : ℕ) (targets : List (Bytes × Address)) (jobs : List (Job Key Address Node Signed))
          {all : List (Job Key Address Node Signed)}
          → (multi_jobs w confirmations price data_bytes i targets jobs).1 ≡ done all
          → (new : List (Job Key Address Node Signed)) × (all ≡ jobs ++ new)
            × AreJobsOf i targets new
      unfolding multi_jobs
      multi_jobs-AreJobsOf i [] jobs h = ([], sym (done_injective h) ∙ sym (append-nil jobs), tt)
      multi_jobs-AreJobsOf i ((key, to) ∷ targets) jobs h =
          let js = clients jobs in
          let (s, opened, h1) =
            bind_done (on_failure (close_all js) (open_sender w confirmations price i key)) _ h in
          let (nonce, asked_nonce, h2) =
            bind_done
              (on_failure (closed i ∷ close_all js)
                (asked CommandError.refused (w.pending_nonce i s.client s.from_address)))
              _ h1 in
          let (signed, built, h3) =
            bind_done
              (on_failure (closed i ∷ close_all js)
                (asked CommandError.refused (build w i s to data_bytes (pos 0) nonce)))
              _ h2 in
          let job : Job Key Address Node Signed = record {
            client = i;
            sender = s;
            to = to;
            tx = signed.0;
            gas_limit = signed.1;
          } in
          let (new, split, are) = multi_jobs-AreJobsOf (i + 1) targets (jobs ++ job ∷ []) h3 in
          (
            job ∷ new,
            split ∙ append_assoc jobs (job ∷ []) new,
            (
              record {
                nonce = nonce;
                client_eq = refl;
                to_eq = refl;
                opened = opened;
                asked_nonce = asked_done Signed CommandError.refused _ asked_nonce;
                built = asked_done Signed CommandError.refused _ built;
              },
              are,
            ),
          )
