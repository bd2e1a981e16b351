-- ===== src/Commands/Release.antt =====
-- The clients of `runSubmitMultisenderBurst` of cmd/kaia-proofctl/main.go are closed on every path.
use hyper_l.Base.{ℕ, ◌+◌, ◌≡◌, refl, true, Bool-cases, inl, inr, List, [], ◌∷◌, Option, String, All}
use hyper_l.Base.Int.{ℤ}
use hyper_l.Base.Bytes.{Bytes}
use hyper_l.Chain.{Result, done, failed, Receipt, Waited, got, broken, stopped, unfinished}
use hyper_l.Commands.{CommandError, Run, ◌>>=◌, asked, World}
use hyper_l.Commands.Monitor.{has, monitor-sent, Leads, Leads-bind}
use hyper_l.Commands.Senders.{waited, check_status, send_one}
use hyper_l.Commands.Jobs.{Job, send_jobs, collect, Collected}

-- What was open stays open.
abbrev pub Keeps : {Signed F A : Type 0} → List ℕ → Run Signed F A → Type 0
Keeps js m = Leads js m (λ r. js)

-- Two parts that leave the clients as they are do so one after the other.
pub Keeps-bind :
    {Signed F A B : Type 0} (js : List ℕ) (m : Run Signed F A) (f : A → Run Signed F B)
    → Keeps js m
    → ((a : A) → Keeps js (f a))
    → Keeps js (m >>= f)
Keeps-bind js m f h k = Leads-bind m f js (λ r. js) (λ r. js) h k (λ e. refl)

module _ (Signed : Type 0) (js : List ℕ) where
  pub asked-Keeps :
      {F D A : Type 0} (wrap : D → F) (r : Result D A) → Keeps {Signed = Signed} js (asked wrap r)
  asked-Keeps wrap (done a) = refl
  asked-Keeps wrap (failed e) = refl

  pub waited-Keeps : {E : Type 0} (r : Waited E) → Keeps {Signed = Signed} js (waited r)
  waited-Keeps (got receipt) = refl
  waited-Keeps (broken e) = refl
  waited-Keeps stopped = refl
  waited-Keeps unfinished = refl

  pub check_status-Keeps :
      (E : Type 0) (r : Receipt) → Keeps {Signed = Signed} js (check_status {E = E} r)
  check_status-Keeps E r = elim (Bool-cases r.successful) [ inl e ↦ rw e refl | inr e ↦ rw e refl ]

module _ {E Key Address Node Signed : Type 0} (w : World E Key Address Node Signed)
    (js : List ℕ) where
  pub send_jobs-Keeps :
      (jobs : List (Job Key Address Node Signed))
      → All (λ job. has job.client js ≡ true) jobs
      → Keeps js (send_jobs w jobs)
  unfolding send_jobs
  send_jobs-Keeps [] h = refl
  send_jobs-Keeps (job ∷ jobs) h =
      Keeps-bind js (send_one w job.client job.sender job.tx) _
        (monitor-sent Signed job.client job.tx js h.0) (λ u. send_jobs-Keeps jobs h.1)

  module _ (action : String) (named : Address → Option Address)
      (check : Receipt → Run Signed (CommandError E) (Unit {0})) (confirmations verified : ℕ)
      (sent_at seen_at : ℕ → ℤ) (check_keeps : (r : Receipt) → Keeps js (check r)) where
    pub collect-Keeps :
        (i : ℕ) (jobs : List (Job Key Address Node Signed)) (c : Collected Address Signed)
        → Keeps js (collect w action named check confirmations verified sent_at seen_at i jobs c)
    unfolding collect
    collect-Keeps i [] c = refl
    collect-Keeps i (job ∷ jobs) c =
        Keeps-bind js (waited (w.wait job.sender.client job.tx job.sender.confirmations)) _
          (waited-Keeps Signed js (w.wait job.sender.client job.tx job.sender.confirmations))
          (λ receipt. Keeps-bind js (check receipt) _ (check_keeps receipt) (λ u.
            Keeps-bind js
              (asked CommandError.refused (w.header_time i job.sender.client receipt.block_number))
              _
              (asked-Keeps Signed js CommandError.refused
                (w.header_time i job.sender.client receipt.block_number))
              (λ seconds. collect-Keeps (i + 1) jobs _)))
