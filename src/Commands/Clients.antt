-- ===== src/Commands/Clients.antt =====
-- The clients of `runSubmitMultisenderBurst` of cmd/kaia-proofctl/main.go, under the monitor.
use hyper_l.Base.{
  ℕ, ◌+◌, ◌≡◌, refl, sym, ap, subst, arith, List, [], ◌∷◌, ◌++◌, Option, All-imp, All-append,
}
use hyper_l.Base.Int.{ℤ, pos}
use hyper_l.Base.Bytes.{Bytes}
use hyper_l.Chain.{Result, done, failed}
use hyper_l.Chain.Account.{AccountError, trim_prefix}
use hyper_l.Chain.NewSender.{with_chain}
use hyper_l.Commands.{dialed, closed, CommandError, no_sender, on_failure, close_all, asked, World}
use hyper_l.Commands.Monitor.{
  Below, monitor-append, monitor-dialed, monitor-closed, monitor-close_all, Leads, Leads-bind,
  Leads-on_failure,
}
use hyper_l.Commands.Senders.{open_sender, build, after_dial, after_read}
use hyper_l.Commands.Jobs.{Job, clients, multi_jobs}

-- What is left open: `js` after a success, `ks` after an error.
abbrev pub either : {F A : Type 0} → List ℕ → List ℕ → Result F A → List ℕ
either js ks (done a) = js
either js ks (failed e) = ks

-- A call-free step leaves open what was open.
pub Leads-asked :
    (Signed : Type 0) {F E A : Type 0} (wrap : E → F) (r : Result E A) (js : List ℕ)
    → Leads {Signed = Signed} js (asked wrap r) (either js js)
Leads-asked Signed wrap (done a) js = refl
Leads-asked Signed wrap (failed e) js = refl

module _ {E Key Address Node Signed : Type 0} (w : World E Key Address Node Signed) where
  open w use {read_key, address_of, chain_id_of, suggest_gas_price, env_gas_limit}

  module _ (confirmations : ℕ) (price : Result (AccountError E) (Option ℤ)) (i : ℕ) (js : List ℕ)
      (below : Below i js) where
    after_dial-Leads :
        (key : Key) (r : Result E Node)
        → Leads js (after_dial w confirmations price i key r) (either (js ++ i ∷ []) js)
    after_dial-Leads key (failed e) = refl
    after_dial-Leads key (done node) =
        let made =
          with_chain read_key address_of chain_id_of suggest_gas_price env_gas_limit confirmations
            node key price (chain_id_of node) in
        Leads-bind (dialed i ∷ [], done node) _ js (either (js ++ i ∷ []) js)
          (either (js ++ i ∷ []) js) (monitor-dialed Signed i js below)
          (λ n.
            Leads-on_failure (closed i ∷ []) (asked no_sender made) (js ++ i ∷ [])
              (either (js ++ i ∷ []) (js ++ i ∷ [])) (either (js ++ i ∷ []) js)
              (Leads-asked Signed no_sender made (js ++ i ∷ [])) (λ a. refl)
              (λ e. monitor-closed Signed i js below))
          (λ e. refl)

    after_read-Leads :
        (r : Result E Key)
        → Leads js (after_read w confirmations price i r) (either (js ++ i ∷ []) js)
    after_read-Leads (failed e) = refl
    after_read-Leads (done key) = after_dial-Leads key (w.dial i)

    -- A sender that is made has its client open; where none is made, nothing is left open.
    pub open_sender-Leads :
        (text : Bytes)
        → Leads js (open_sender w confirmations price i text) (either (js ++ i ∷ []) js)
    unfolding open_sender
    open_sender-Leads [] = refl
    open_sender-Leads (b ∷ bs) = after_read-Leads (read_key (trim_prefix (b ∷ bs)))

    -- An error after the sender is made closes all clients.
    pub closing-Leads :
        {F D A : Type 0} (wrap : D → F) (r : Result D A)
        → Leads {Signed = Signed}
            (js ++ i ∷ [])
            (on_failure (closed i ∷ close_all js) (asked wrap r))
            (either (js ++ i ∷ []) [])
    closing-Leads wrap r =
        Leads-on_failure (closed i ∷ close_all js) (asked wrap r) (js ++ i ∷ [])
          (either (js ++ i ∷ []) (js ++ i ∷ [])) (either (js ++ i ∷ []) [])
          (Leads-asked Signed wrap r (js ++ i ∷ [])) (λ a. refl)
          (λ e.
            monitor-append (closed i ∷ []) (close_all js) (js ++ i ∷ [])
              (monitor-closed Signed i js below) (monitor-close_all Signed js))

    pub opening-Leads :
        (text : Bytes)
        → Leads js
            (on_failure (close_all js) (open_sender w confirmations price i text))
            (either (js ++ i ∷ []) [])
    opening-Leads text =
        Leads-on_failure (close_all js) (open_sender w confirmations price i text) js
          (either (js ++ i ∷ []) js) (either (js ++ i ∷ []) []) (open_sender-Leads text) (λ a. refl)
          (λ e. monitor-close_all Signed js)

-- What the making of the jobs leaves open: the clients of the jobs, or nothing after an error.
abbrev pub of_jobs :
    {F Key Address Node Signed : Type 0} → Result F (List (Job Key Address Node Signed)) → List ℕ
of_jobs (done jobs) = clients jobs
of_jobs (failed e) = []

clients-append :
    {Key Address Node Signed : Type 0} (jobs : List (Job Key Address Node Signed))
    (job : Job Key Address Node Signed)
    → clients (jobs ++ job ∷ []) ≡ clients jobs ++ job.client ∷ []
clients-append [] job = refl
clients-append (j ∷ jobs) job = ap (λ js. j.client ∷ js) (clients-append jobs job)

pub Below-snoc : (i : ℕ) (js : List ℕ) → Below i js → Below (i + 1) (js ++ i ∷ [])
Below-snoc i js h =
    All-append _ js (i ∷ []) (All-imp _ _ js (λ j p. omega arith) h) (omega arith, tt)

module _ {E Key Address Node Signed : Type 0} (w : World E Key Address Node Signed)
    (confirmations : ℕ) (price : Result (AccountError E) (Option ℤ)) (data_bytes : Bytes) where
  pub multi_jobs-Leads :
      (i : ℕ) (targets : List (Bytes × Address)) (jobs : List (Job Key Address Node Signed))
      → Below i (clients jobs)
      → Leads (clients jobs) (multi_jobs w confirmations price data_bytes i targets jobs) of_jobs
  unfolding multi_jobs
  multi_jobs-Leads i [] jobs below = refl
  multi_jobs-Leads i ((key, to) ∷ rest) jobs below =
      let js = clients jobs in
      Leads-bind (on_failure (close_all js) (open_sender w confirmations price i key)) _ js
        (either (js ++ i ∷ []) []) of_jobs (opening-Leads w confirmations price i js below key)
        (λ s.
          Leads-bind
            (on_failure (closed i ∷ close_all js)
              (asked CommandError.refused (w.pending_nonce i s.client s.from_address)))
            _ (js ++ i ∷ []) (either (js ++ i ∷ []) []) of_jobs
            (closing-Leads w confirmations price i js below CommandError.refused
              (w.pending_nonce i s.client s.from_address))
            (λ nonce.
              Leads-bind
                (on_failure (closed i ∷ close_all js)
                  (asked CommandError.refused (build w i s to data_bytes (pos 0) nonce)))
                _ (js ++ i ∷ []) (either (js ++ i ∷ []) []) of_jobs
                (closing-Leads w confirmations price i js below CommandError.refused
                  (build w i s to data_bytes (pos 0) nonce))
                (λ built.
                  let job : Job Key Address Node Signed = record {
                    client = i;
                    sender = s;
                    to = to;
                    tx = built.0;
                    gas_limit = built.1;
                  } in
                  let e = clients-append jobs job in
                  subst
                    (λ ks.
                      Leads ks
                        (multi_jobs w confirmations price data_bytes (i + 1) rest
                          (jobs ++ job ∷ []))
                        of_jobs)
                    e
                    (multi_jobs-Leads (i + 1) rest (jobs ++ job ∷ [])
                      (subst (Below (i + 1)) (sym e) (Below-snoc i js below))))
                (λ e. refl))
            (λ e. refl))
        (λ e. refl)
