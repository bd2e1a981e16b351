-- ===== src/Pipeline/Aggregator/Gather.antt =====
-- The aggregator over the lane batches of one block (internal/pipeline/runner.go).
use hyper_l.Base.{
  ℕ, ◌+◌, ◌%◌, ◌^◌, ◌≡◌, ◌≢◌, refl, sym, ap, subst, ◌∙◌, arith, if◌then◌else◌, none, some, ==_refl,
  Bool-cases, inl, inr, List, [], ◌∷◌, ◌++◌, length, length-append, append-nil, append_assoc,
}
use hyper_l.Base.GoMap.{
  GoMap, lookup, insert, erase, lookup-insert, length-insert_new, erase-insert,
}
use hyper_l.Base.Bytes.{Bytes}
use hyper_l.Frame.{Tx12}
use hyper_l.Metrics.{Registry, inc_drop}
use hyper_l.Pipeline.Types.{LaneBatch, BlockCommit, commitment_from_txs}
use hyper_l.Pipeline.Aggregator.{
  AggregateState, is_payload_valid, first_state, state_for, collect, note_lane, commit_of, settle,
  receive, receive_all,
}

-- The transfers that move something, in order.
abbrev pub valid_txs : List Tx12 → List Tx12
valid_txs [] = []
valid_txs (tx ∷ txs) = if is_payload_valid tx then tx ∷ valid_txs txs else valid_txs txs

pub valid_txs-append : (xs ys : List Tx12) → valid_txs (xs ++ ys) ≡ valid_txs xs ++ valid_txs ys
valid_txs-append [] ys = refl
valid_txs-append (x ∷ xs) ys = ground (arith, valid_txs-append xs ys)

-- The count is that of the gathered transfers, as a uint32.
abbrev pub IsCounted : AggregateState → Type 0
IsCounted st = st.tx_count ≡ length st.txs % 2 ^ 32

pub collect_lem :
    (txs : List Tx12) (st : AggregateState) (m : Registry)
    → let st' = (collect txs (st, m)).0 in
      (st'.txs ≡ st.txs ++ valid_txs txs)
      × (st'.lane_hashes ≡ st.lane_hashes)
      × (st'.phase ≡ st.phase)
      × (st'.created_at ≡ st.created_at)
      × (IsCounted st → IsCounted st')
unfolding collect
collect_lem [] st m = (sym (append-nil st.txs), refl, refl, refl, λ h. h)
collect_lem (tx ∷ txs) st m = elim (Bool-cases (is_payload_valid tx)) [
  | inl valid ↦
      let ih =
        collect_lem txs
          (record st { tx_count = (st.tx_count + 1) % 2 ^ 32; txs = st.txs ++ tx ∷ [] }) m in
      rw (valid, collect)
        (
          ih.0 ∙ append_assoc st.txs (tx ∷ []) (valid_txs txs),
          ih.1,
          ih.2,
          ih.3,
          λ h. ih.4 (omega (arith, length-append st.txs (tx ∷ []))),
        )
  | inr void ↦ rw (void, collect) (collect_lem txs st (inc_drop 1 m))
]

-- The payloads of a run of batches, in the order of arrival.
abbrev pub payloads : List LaneBatch → List Tx12
payloads [] = []
payloads (b ∷ bs) = b.payload ++ payloads bs

-- Each batch comes from a lane that has not reported yet.
abbrev pub FromNewLanes : List LaneBatch → GoMap Bytes → Type 0
FromNewLanes [] d = Unit
FromNewLanes (b ∷ bs) d =
    (lookup b.lane_id d ≡ none) × ((h : Bytes) → FromNewLanes bs (insert b.lane_id h d))

abbrev pub AreOfBlock : ℕ → List LaneBatch → Type 0
AreOfBlock i [] = Unit
AreOfBlock i (b ∷ bs) = (b.block_index ≡ i) × AreOfBlock i bs

module _ (sha256 : Bytes → Bytes) (lanes : ℕ) (i : ℕ) where
  -- The commit of a block that has gathered the transfers `txs`.
  abbrev pub commit_with : AggregateState → List Tx12 → BlockCommit
  commit_with st txs = record {
    phase = st.phase;
    block_index = i;
    commitment_hash = commitment_from_txs sha256 i txs;
    tx_count = length txs % 2 ^ 32;
    txs = txs;
    created_at = st.created_at;
  }

  settle_full :
      (b : LaneBatch) (states : GoMap AggregateState) (s : AggregateState × Registry)
      → b.block_index ≡ i
      → length s.0.lane_hashes ≡ lanes
      → settle sha256 lanes b states s ≡ (erase i states, some (commit_of sha256 lanes b s.0), s.1)
  settle_full b states s e full = ground arith

  settle_open :
      (b : LaneBatch) (states : GoMap AggregateState) (s : AggregateState × Registry)
      → b.block_index ≡ i
      → length s.0.lane_hashes ≢ lanes
      → settle sha256 lanes b states s ≡ (insert i s.0 states, none, s.1)
  settle_open b states s e open_ = ground arith

  commit_of_lem :
      (b : LaneBatch) (st st' : AggregateState) (txs : List Tx12)
      → b.block_index ≡ i
      → st'.phase ≡ st.phase
      → st'.created_at ≡ st.created_at
      → st'.txs ≡ txs
      → IsCounted st'
      → commit_of sha256 lanes b st' ≡ commit_with st txs
  commit_of_lem b st st' txs e p c t n = rw (p, c, e, n, t) refl

  state_for_known :
      (b : LaneBatch) (states : GoMap AggregateState) (st : AggregateState)
      → b.block_index ≡ i
      → state_for b (insert i st states) ≡ st
  state_for_known b states st e =
      ap (λ found. elim found [ some x ↦ x | none ↦ first_state b ])
        {x = lookup b.block_index (insert i st states)} {y = some st}
        (rw (e, lookup-insert i i st states, ==_refl i) refl)

  -- The state that a batch leads to.
  abbrev pub reached : LaneBatch → GoMap AggregateState → Registry → AggregateState × Registry
  reached b states m = collect b.payload (note_lane sha256 lanes b (state_for b states), m)

  reached-lane_count :
      (b : LaneBatch) (states : GoMap AggregateState) (m : Registry)
      → lookup b.lane_id (state_for b states).lane_hashes ≡ none
      → length (reached b states m).0.lane_hashes ≡ length (state_for b states).lane_hashes + 1
  reached-lane_count b states m fresh =
      let st = state_for b states in
      ap length (collect_lem b.payload (note_lane sha256 lanes b st) m).1
      ∙ length-insert_new b.lane_id _ st.lane_hashes fresh

  receive_all_open :
      (b : LaneBatch) (bs : List LaneBatch) (states states' : GoMap AggregateState)
      (m m' : Registry)
      → receive sha256 lanes b (states, m) ≡ (states', none, m')
      → receive_all sha256 lanes (b ∷ bs) (states, m) ≡ receive_all sha256 lanes bs (states', m')
  unfolding receive_all
  receive_all_open b bs states states' m m' r = rw (r, receive_all) refl

  commit_with_lem :
      (st st' : AggregateState) (txs txs' : List Tx12)
      → st'.phase ≡ st.phase
      → st'.created_at ≡ st.created_at
      → txs' ≡ txs
      → commit_with st' txs' ≡ commit_with st txs
  commit_with_lem st st' txs txs' p c t = rw (p, c, t) refl

  pub receive_all-completes :
      (b : LaneBatch) (bs : List LaneBatch) (states : GoMap AggregateState) (m : Registry)
      → let st = state_for b states in
        AreOfBlock i (b ∷ bs)
        → IsCounted st
        → FromNewLanes (b ∷ bs) st.lane_hashes
        → length st.lane_hashes + length (b ∷ bs) ≡ lanes
        → ((receive_all sha256 lanes (b ∷ bs) (states, m)).1
            ≡ commit_with st (st.txs ++ valid_txs (payloads (b ∷ bs))) ∷ [])
          × ((receive_all sha256 lanes (b ∷ bs) (states, m)).0 ≡ erase i states)
  unfolding receive receive_all
  receive_all-completes b [] states m of counted fresh full =
      let st = state_for b states in
      let c = collect_lem b.payload (note_lane sha256 lanes b st) m in
      let n = reached-lane_count b states m fresh.0 in
      let r = settle_full b states (reached b states m) of.0 (n ∙ full) in
      let txs = c.0 ∙ ap (λ l. st.txs ++ valid_txs l) (sym (append-nil b.payload)) in
      rw r (
        ap (λ x. x ∷ [])
            (commit_of_lem b st (reached b states m).0 _ of.0 c.2 c.3 txs (c.4 counted)),
        refl,
      )
  receive_all-completes b (b' ∷ bs) states m of counted fresh full =
      let st = state_for b states in
      let c = collect_lem b.payload (note_lane sha256 lanes b st) m in
      let n = reached-lane_count b states m fresh.0 in
      let r = settle_open b states (reached b states m) of.0 (λ h. omega arith) in
      let s = reached b states m in
      let known = state_for_known b' states s.0 of.1.0 in
      let step = receive_all_open b (b' ∷ bs) states (insert i s.0 states) m s.1 r in
      let ih =
        subst
          (λ x.
            IsCounted x
            → FromNewLanes (b' ∷ bs) x.lane_hashes
            → length x.lane_hashes + length (b' ∷ bs) ≡ lanes
            → ((receive_all sha256 lanes (b' ∷ bs) (insert i s.0 states, s.1)).1
                ≡ commit_with x (x.txs ++ valid_txs (payloads (b' ∷ bs))) ∷ [])
              × ((receive_all sha256 lanes (b' ∷ bs) (insert i s.0 states, s.1)).0
                  ≡ erase i (insert i s.0 states)))
          known (receive_all-completes b' bs (insert i s.0 states) s.1 of.1) (c.4 counted)
          (subst (FromNewLanes (b' ∷ bs)) (sym c.1) (fresh.1 _)) (omega (arith, n)) in
      let txs =
        ap (λ l. l ++ valid_txs (payloads (b' ∷ bs))) c.0
        ∙ append_assoc st.txs (valid_txs b.payload) (valid_txs (payloads (b' ∷ bs)))
        ∙ ap (λ l. st.txs ++ l) (sym (valid_txs-append b.payload (payloads (b' ∷ bs)))) in
      (
        ap (λ q. q.1) step ∙ ih.0 ∙ ap (λ x. x ∷ []) (commit_with_lem st s.0 _ _ c.2 c.3 txs),
        ap (λ q. q.0) step ∙ ih.1 ∙ erase-insert i s.0 states,
      )
