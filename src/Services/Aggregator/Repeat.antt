-- ===== src/Services/Aggregator/Repeat.antt =====
-- What the aggregator process makes of a lane batch that is posted twice (cmd/l2-aggregator/main.go).
use hyper_l.Base.{
  ℕ, ◌+◌, ◌%◌, ◌^◌, ◌≡◌, ◌≢◌, refl, sym, ap, ◌∙◌, arith, if◌then◌else◌, ◌==◌, ==_refl, Bool-cases,
  inl, inr, some, List, [], ◌∷◌, ◌++◌, length, append-nil, append_assoc,
}
use hyper_l.Base.Int.{ℤ}
use hyper_l.Base.GoMap.{GoMap, lookup, insert, lookup-insert, length-insert_old}
use hyper_l.Base.Bytes.{Bytes}
use hyper_l.Frame.{Tx12, BatchFrameV1, commitment_hash}
use hyper_l.Services.Api.{LaneBatchEnvelope}
use hyper_l.Services.Aggregator.{LaneState, begin_state, gather, update}

-- The transfers that the process keeps.
abbrev pub kept : List Tx12 → List Tx12
kept [] = []
kept (tx ∷ txs) = if tx.amount == 0 then kept txs else tx ∷ kept txs

gather_lem :
    (txs : List Tx12) (st : LaneState)
    → ((gather txs st).txs ≡ st.txs ++ kept txs) × ((gather txs st).lanes ≡ st.lanes)
unfolding gather
gather_lem [] st = (sym (append-nil st.txs), refl)
gather_lem (tx ∷ txs) st = elim (Bool-cases (tx.amount == 0)) [
  | inl void ↦ rw (void, gather) (gather_lem txs st)
  | inr valid ↦
      let ih =
        gather_lem txs
          (record st { tx_count = (st.tx_count + 1) % 2 ^ 32; txs = st.txs ++ tx ∷ [] }) in
      rw (valid, gather) (ih.0 ∙ append_assoc st.txs (tx ∷ []) (kept txs), ih.1)
]

module _ (sha256 : Bytes → Bytes) (lanes : ℕ) (now : ℤ) (env : LaneBatchEnvelope)
    (bf : BatchFrameV1) where
  -- The state that a batch leads to when its block is known.
  abbrev reached : LaneState → LaneState
  reached st =
      let begun = begin_state env (some st) in
      gather bf.payload
        (record begun { lanes = insert env.lane_id (commitment_hash sha256 bf) begun.lanes })

  reached_lem :
      (st : LaneState)
      → ((reached st).txs ≡ st.txs ++ kept bf.payload)
        × ((reached st).lanes ≡ insert env.lane_id (commitment_hash sha256 bf) st.lanes)
  unfolding begin_state
  reached_lem st = gather_lem bf.payload _

  update_open :
      (st : LaneState) (states : GoMap LaneState)
      → lookup env.block_index states ≡ some st
      → length (insert env.lane_id (commitment_hash sha256 bf) st.lanes) ≢ lanes
      → (update sha256 lanes now env bf states).0 ≡ insert env.block_index (reached st) states
  unfolding update
  update_open st states known more =
      rw (known, update) (ground (arith, ap length (reached_lem st).1))

  stored :
      (st : LaneState) (states : GoMap LaneState)
      → lookup env.block_index (insert env.block_index st states) ≡ some st
  stored st states =
      rw (lookup-insert env.block_index env.block_index st states, ==_refl env.block_index) refl

  -- The lane is known after its batch, so a second one does not add to the lanes.
  lanes_counted :
      (st : LaneState)
      → length (insert env.lane_id (commitment_hash sha256 bf) (reached st).lanes)
        ≡ length (insert env.lane_id (commitment_hash sha256 bf) st.lanes)
  lanes_counted st =
      let h = commitment_hash sha256 bf in
      let noted : lookup env.lane_id (insert env.lane_id h st.lanes) ≡ some h =
        rw (lookup-insert env.lane_id env.lane_id h st.lanes, ==_refl env.lane_id) refl in
      ap (λ d. length (insert env.lane_id h d)) (reached_lem st).1
      ∙ length-insert_old env.lane_id h h (insert env.lane_id h st.lanes) noted

  -- Where the batch of a lane is posted twice to a block that is being gathered and that its lane does
  -- not complete, the block's state has the transfers of the batch twice, while its lanes are counted
  -- as after one post.
  pub update-twice :
      (st : LaneState) (states : GoMap LaneState)
      → lookup env.block_index states ≡ some st
      → length (insert env.lane_id (commitment_hash sha256 bf) st.lanes) ≢ lanes
      → let once = (update sha256 lanes now env bf states).0 in
        let twice = (update sha256 lanes now env bf once).0 in
        (st' : LaneState) × (lookup env.block_index twice ≡ some st')
        × (st'.txs ≡ st.txs ++ (kept bf.payload ++ kept bf.payload))
        × (length st'.lanes ≡ length (insert env.lane_id (commitment_hash sha256 bf) st.lanes))
  update-twice st states known more =
      let once = insert env.block_index (reached st) states in
      let again =
        update_open (reached st) once (stored (reached st) states)
          (λ e. more (sym (lanes_counted st) ∙ e)) in
      (
        reached (reached st),
        rw (update_open st states known more, again) (stored (reached (reached st)) once),
        (reached_lem (reached st)).0
            ∙ ap (λ l. l ++ kept bf.payload) (reached_lem st).0
            ∙ append_assoc st.txs (kept bf.payload) (kept bf.payload),
        ap length (reached_lem (reached st)).1 ∙ lanes_counted st,
      )
