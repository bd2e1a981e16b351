-- ===== src/Pipeline/Report/Sound.antt =====
-- What the report says of the node: its counters against the node's blocks, and its verdict.
use hyper_l.Base.{
  ℕ, suc, ap, if◌then◌else◌, ◌+◌, ◌≤◌, ◌≡◌, inl, inr, refl, sym, subst, ◌∙◌, arith, Bool, true,
  false, not, ◌&&◌, ◌==◌, some, Bool-cases, Option-cases, List, [], ◌∷◌, ◌++◌, String, length, All,
  All-append,
}
use mathlib.Core.List.{append_assoc, append-nil}
use mathlib.Core.Option.{some-injective, none-ne-some}
use text.Mathlib.Text.{◌==◌ as str_eq}
use hyper_l.Base.Int.{ℤ}
use hyper_l.Base.GoMap.{GoMap, lookup}
use hyper_l.Base.Bytes.{Bytes, bytes_eq}
use hyper_l.Metrics.{Registry}
use hyper_l.Config.{Config, Floats, blocks_for_phase}
use hyper_l.Pipeline.Types.{SubmitRequest, BlockLog}
use hyper_l.Pipeline.L1.{
  AcceptedBlock, L1CertNode, Outcome, since_ms, proof_ok_of, payload_ok_of, answer_duplicate,
  answer_conflict, reject_payload, reject_proof, accept_block, apply_txs, submit_certified_block,
}
use hyper_l.Pipeline.L1.Submit.{applied, IsConsistent}
use hyper_l.Pipeline.Report.{
  Tally, is_certified, tally_entry, tally_from, tally, Machine, Report, report_of, build_report,
}

-- A log whose entries pass the report's test exactly if they say that the state was applied.
abbrev pub IsAudited : List BlockLog → Type 0
IsAudited = All (λ e. is_certified e ≡ e.state_applied)

module _ (sha256 : Bytes → Bytes) (now : ℤ) (req : SubmitRequest) (m : Registry)
    (n : L1CertNode) where
  abbrev ms : ℕ
  ms = since_ms now req.created_at

  -- What holds of each branch of the call holds of the call.
  submit_branches :
      (P : Outcome → Type 0)
      → ((b : AcceptedBlock) (p q : Bool) → P (answer_duplicate req ms m n b p q))
      → P (answer_conflict req ms m n)
      → ((p : Bool) → P (reject_payload req ms m n p))
      → P (reject_proof req ms m n)
      → P (accept_block req ms m n)
      → P (submit_certified_block sha256 now req m n)
  unfolding submit_certified_block
  submit_branches P duplicate conflict payload proof accept =
      elim (Option-cases (lookup req.block_index n.blocks)) [
        | inr (b, known) ↦
            elim (Bool-cases
              (bytes_eq b.commitment req.commitment_hash && b.tx_count == req.tx_count)) [
                | inl same ↦ rw (known, submit_certified_block, same) (duplicate b _ _)
                | inr other ↦ rw (known, submit_certified_block, other) conflict
              ]
        | inl new ↦ elim (Bool-cases (payload_ok_of sha256 req)) [
          | inr bad ↦ rw (new, submit_certified_block, bad) (payload _)
          | inl good ↦ elim (Bool-cases (proof_ok_of sha256 n.proof_seed req)) [
            | inr bad ↦ rw (new, submit_certified_block, good, bad) proof
            | inl ok ↦ rw (new, submit_certified_block, good, ok) accept
          ]
        ]
      ]

  grown :
      (e : BlockLog)
      → IsAudited n.block_log
      → is_certified e ≡ e.state_applied
      → IsAudited (n.block_log ++ e ∷ [])
  grown e h p = All-append _ n.block_log (e ∷ []) h (p, tt)

  pub submit-IsAudited :
      IsAudited n.block_log → IsAudited (submit_certified_block sha256 now req m n).1.block_log
  unfolding answer_duplicate answer_conflict reject_payload reject_proof accept_block
  submit-IsAudited h =
      submit_branches (λ out. IsAudited out.1.block_log) (λ b p q. grown _ h (ground arith))
        (grown _ h refl) (λ p. grown _ h (ground arith)) (grown _ h refl) (grown _ h refl)

-- The balances that a log tells of, given the calls that made it: the transfers of the calls whose entry
-- passes the test, one call after the other.
abbrev pub tells : List (ℤ × SubmitRequest) → List BlockLog → GoMap ℕ → GoMap ℕ
tells [] es s = s
tells (c ∷ cs) [] s = s
tells (c ∷ cs) (e ∷ es) s = tells cs es (if is_certified e then (apply_txs c.1.txs s).0 else s)

-- Calls of the node, each with the time at which it comes.
abbrev pub submit_all :
    (Bytes → Bytes) → List (ℤ × SubmitRequest) → Registry → L1CertNode → Registry × L1CertNode
submit_all sha256 [] m n = (m, n)
submit_all sha256 ((now, req) ∷ calls) m n =
    let (m', n', resp) = submit_certified_block sha256 now req m n in submit_all sha256 calls m' n'

submit_tells :
    (sha256 : Bytes → Bytes) (now : ℤ) (req : SubmitRequest) (m : Registry) (n : L1CertNode)
    → let (m', n', resp) = submit_certified_block sha256 now req m n in
      (entry : BlockLog) × (n'.block_log ≡ n.block_log ++ entry ∷ [])
      × (n'.state ≡ (if is_certified entry then (apply_txs req.txs n.state).0 else n.state))
unfolding answer_duplicate answer_conflict reject_payload reject_proof accept_block
submit_tells sha256 now req m n =
    submit_branches sha256 now req m n
      (λ out.
        (entry : BlockLog) × (out.1.block_log ≡ n.block_log ++ entry ∷ [])
        × (out.1.state ≡ (if is_certified entry then (apply_txs req.txs n.state).0 else n.state)))
      (λ b p q. (_, refl, ground arith)) (_, refl, refl) (λ p. (_, refl, ground arith))
      (_, refl, refl) (_, refl, refl)

-- After any calls, duplicates, conflicts and rejected ones among them, the log has one new entry for each
-- call, and the balances are what the new entries tell: those before the calls, with the transfers applied
-- of exactly the calls whose entry passes the test of the report (finalized, with a verified proof, and
-- no duplicate), in their order.
pub log_tells_balances :
    (sha256 : Bytes → Bytes) (calls : List (ℤ × SubmitRequest)) (m : Registry) (n : L1CertNode)
    → let (m', n') = submit_all sha256 calls m n in
      (entries : List BlockLog) × (n'.block_log ≡ n.block_log ++ entries)
      × (length entries ≡ length calls)
      × (n'.state ≡ tells calls entries n.state)
log_tells_balances sha256 [] m n = ([], sym (append-nil n.block_log), refl, refl)
log_tells_balances sha256 ((now, req) ∷ calls) m n =
    let (m', n', resp) = submit_certified_block sha256 now req m n in
    let (entry, added, changed) = submit_tells sha256 now req m n in
    let (entries, more, count, told) = log_tells_balances sha256 calls m' n' in
    (
      entry ∷ entries,
      more ∙ ap (λ xs. xs ++ entries) added ∙ append_assoc n.block_log (entry ∷ []) entries,
      ap suc count,
      told ∙ ap (tells calls entries) changed,
    )

tally_from-blocks :
    (logs : List BlockLog) (t : Tally)
    → IsAudited logs
    → (tally_from logs t).verified_blocks ≤ t.verified_blocks + applied logs
unfolding tally_from tally_entry
tally_from-blocks [] t h = omega arith
tally_from-blocks (e ∷ logs) t (h, hs) = ground (arith, tally_from-blocks logs (tally_entry e t) hs)

-- Of a node whose books agree and whose log is audited, the report never certifies more blocks
-- than are stored.
pub tally_blocks_stored :
    (m : Registry) (n : L1CertNode)
    → IsConsistent m n
    → IsAudited n.block_log
    → (tally n.block_log).verified_blocks ≤ length n.blocks
tally_blocks_stored m n c h = omega (
  arith,
  c.logged,
  tally_from-blocks n.block_log
      (record { verified_tx = 0; proof_failures = 0; verified_blocks = 0 }) h,
)

-- An entry of the certification phase whose proof was not verified.
abbrev pub is_failure : BlockLog → Bool
is_failure e = str_eq e.phase "certification" && not e.proof_verified

tally_from-failures :
    (logs : List BlockLog) (t : Tally)
    → (tally_from logs t).proof_failures ≡ 0
    → (t.proof_failures ≡ 0) × All (λ e. is_failure e ≡ false) logs
unfolding tally_from tally_entry
tally_from-failures [] t h = (h, tt)
tally_from-failures (e ∷ logs) t h = ground (arith, tally_from-failures logs (tally_entry e t) h)

report_of-pass :
    (fl : Floats) (cfg : Config) (blocks : ℤ) (m : Registry) (logs : List BlockLog)
    (machine : Machine) (assumptions : List String)
    → let r = report_of fl cfg blocks m logs machine assumptions in
      r.pass ≡ true
      → ((tally logs).proof_failures ≡ 0)
        × (m.drop_count ≡ 0)
        × (r.expected_certification_tx ≤ r.certification_verified_tx)
unfolding report_of
report_of-pass fl cfg blocks m logs machine assumptions pass = ground arith

-- A report that passes was made of a log without a failed proof in the certification phase, without a
-- drop, and with at least the expected number of verified transactions.
pub pass_sound :
    (fl : Floats) (cfg : Config) (m : Registry) (logs : List BlockLog) (machine : Machine)
    (assumptions : List String) {r : Report fl}
    → build_report fl cfg m logs machine assumptions ≡ some r
    → r.pass ≡ true
    → All (λ e. is_failure e ≡ false) logs
      × (m.drop_count ≡ 0)
      × (r.expected_certification_tx ≤ r.certification_verified_tx)
unfolding build_report
pass_sound fl cfg m logs machine assumptions {r} made pass =
    elim (Option-cases (blocks_for_phase cfg cfg.certification)) [
      | inl stuck ↦ absurd (none-ne-some r (sym (rw (stuck, build_report) refl) ∙ made))
      | inr (blocks, known) ↦
          let is : build_report fl cfg m logs machine assumptions
              ≡ some (report_of fl cfg blocks m logs machine assumptions) =
            rw (known, build_report) refl in
          subst
            (λ q.
              q.pass ≡ true
              → All (λ e. is_failure e ≡ false) logs
                × (m.drop_count ≡ 0)
                × (q.expected_certification_tx ≤ q.certification_verified_tx))
            (some-injective _ _ (sym is ∙ made))
            (λ p.
              let (failures, drops, enough) =
                report_of-pass fl cfg blocks m logs machine assumptions p in
              ((tally_from-failures logs _ failures).1, drops, enough))
            pass
    ]
