-- ===== src/Bundle.antt =====
-- The proof bundle of cmd/kaia-proofctl: its types, its conversion to the contract's arguments
-- (main.go) and the merge of a live bundle with a replayed one (dashboard.go). Files and JSON are not
-- modelled. `math/big` and `strings` are a parameter: the integer that a text stands for, after its
-- spaces are trimmed, if it is one in base ten.
pub mod Merge
use hyper_l.Base.{
  ℕ, zero, suc, ◌+◌, ◌-◌, ◌%◌, ◌^◌, Bool, if◌then◌else◌, ltb, ◌==◌, Option, none, some, List, [],
  ◌∷◌, ◌++◌, String, length, take, drop,
}
use hyper_l.Base.Int.{ℤ}
use hyper_l.Metrics.{add64}

-- `jsonG1Point` and `g1Point`: a point with coordinates in text, or in integers.
pub record G1Point (A : Type 0) : Type 0 where
  pub x : A
  pub y : A

pub record G2Point (A : Type 0) : Type 0 where
  pub x : A × A
  pub y : A × A

pub record VerifyingKey (A : Type 0) : Type 0 where
  pub alpha : G1Point A
  pub beta : G2Point A
  pub gamma : G2Point A
  pub delta : G2Point A
  pub gamma_abc : G1Point A × G1Point A

pub record TransitionProof (A : Type 0) : Type 0 where
  pub a : G1Point A
  pub b : G2Point A
  pub c : G1Point A
  pub d : G1Point A

pub record Artifact (A : Type 0) : Type 0 where
  pub lane_id : ℕ
  pub batch_id : ℕ
  pub tx_count : ℕ
  pub prev_state_commitment : G1Point A
  pub next_state_commitment : G1Point A
  pub proof : TransitionProof A

pub record LaneHead : Type 0 where
  pub lane_id : ℕ
  pub initial_head : G1Point String

-- `jsonBundle`
pub record Bundle : Type 0 where
  pub verifying_key : VerifyingKey String
  pub lane_heads : List LaneHead
  pub verified_tx_total : ℕ
  pub batches : List (Artifact String)
  pub ten_batches : List (Artifact String)

-- `VerifyBatchesInput.Artifacts`, or the older field when it is empty.
abbrev pub source_of : Bundle → List (Artifact String)
source_of b = if length b.batches == 0 then b.ten_batches else b.batches

-- The errors of `mergeBundles`, with the numbers of their texts; `panicked` is a slice out of range.
pub data MergeError : Type 0 where
  nil_input panicked : MergeError
  few_live few_replay few_live_heads few_replay_heads : (has needs : ℕ) → MergeError

pub data Merged : Type 0 where
  refused : MergeError → Merged
  merged : Bundle → Merged

-- The loop that adds up the counts.
unfoldable pub count_txs : ℕ → List (Artifact String) → ℕ
count_txs total [] = total
count_txs total (a ∷ artifacts) = count_txs (add64 total a.tx_count) artifacts

-- `append(xs[:n], ys[n:total])`
abbrev pub spliced {ℓ} : {A : Type ℓ} → ℕ → ℕ → List A → List A → List A
spliced n total xs ys = take n xs ++ take (total - n) (drop n ys)

-- The bundle that `mergeBundles` makes once its tests have passed.
unfoldable pub merge_of : Bundle → Bundle → ℕ → ℕ → Bundle
unfolding count_txs
merge_of live replay live_count total =
    let artifacts = spliced live_count total (source_of live) (source_of replay) in
    record live {
      lane_heads = spliced live_count total live.lane_heads replay.lane_heads;
      verified_tx_total = count_txs 0 artifacts;
      batches = artifacts;
      ten_batches = artifacts;
    }

-- `mergeBundles` of two bundles that are not nil, with counts of lanes that are not negative. A slice
-- `ys[n:total]` panics when n is above total.
unfoldable pub merge_bundles : Bundle → Bundle → ℕ → ℕ → Merged
unfolding merge_of
merge_bundles live replay live_count total =
    let live_artifacts = source_of live in
    let replay_artifacts = source_of replay in
    if ltb (length live_artifacts) live_count
    then refused (few_live (length live_artifacts) live_count)
    else if ltb (length replay_artifacts) total
    then refused (few_replay (length replay_artifacts) total)
    else if ltb (length live.lane_heads) live_count
    then refused (few_live_heads (length live.lane_heads) live_count)
    else if ltb (length replay.lane_heads) total
    then refused (few_replay_heads (length replay.lane_heads) total)
    else if ltb total live_count
    then refused panicked
    else merged (merge_of live replay live_count total)

-- The first lines of `mergeBundles`, with nil pointers as `none`.
abbrev pub merge_pointers : Option Bundle → Option Bundle → ℕ → ℕ → Merged
merge_pointers (some live) (some replay) live_count total =
    merge_bundles live replay live_count total
merge_pointers none replay live_count total = refused nil_input
merge_pointers (some live) none live_count total = refused nil_input

-- A conversion of the bundle: it may panic on a text that is no integer.
pub data Converted (A : Type 0) : Type 0 where
  no_artifacts panicked : Converted A
  converted : A → Converted A

-- `mustBigInt` of each text in turn; `none` is its panic.
module _ (parse : String → Option ℤ) where
  unfoldable pub must_pair : String × String → Option (ℤ × ℤ)
  must_pair (s, t) = elim (parse s) [
    | none ↦ none
    | some a ↦ elim (parse t) [ none ↦ none | some b ↦ some (a, b) ]
  ]

  -- `toG1Point`
  unfoldable pub to_g1_point : G1Point String → Option (G1Point ℤ)
  unfolding must_pair
  to_g1_point p = elim (must_pair (p.x, p.y)) [
    | none ↦ none
    | some (a, b) ↦ some (record { x = a; y = b })
  ]

  -- `toG2Point`
  unfoldable pub to_g2_point : G2Point String → Option (G2Point ℤ)
  unfolding must_pair
  to_g2_point p = elim (must_pair p.x) [
    | none ↦ none
    | some a ↦ elim (must_pair p.y) [ none ↦ none | some b ↦ some (record { x = a; y = b }) ]
  ]

  unfoldable pub to_proof : TransitionProof String → Option (TransitionProof ℤ)
  unfolding to_g1_point to_g2_point
  to_proof p = elim (to_g1_point p.a) [
    | none ↦ none
    | some a ↦ elim (to_g2_point p.b) [
      | none ↦ none
      | some b ↦ elim (to_g1_point p.c) [
        | none ↦ none
        | some c ↦ elim (to_g1_point p.d) [
          | none ↦ none
          | some d ↦ some (record { a = a; b = b; c = c; d = d })
        ]
      ]
    ]
  ]

  -- One round of the loop of `toArtifacts`.
  unfoldable pub to_artifact : Artifact String → Option (Artifact ℤ)
  unfolding to_g1_point to_proof
  to_artifact t = elim (to_g1_point t.prev_state_commitment) [
    | none ↦ none
    | some prev ↦ elim (to_g1_point t.next_state_commitment) [
      | none ↦ none
      | some next ↦ elim (to_proof t.proof) [
        | none ↦ none
        | some p ↦ some (record {
          lane_id = t.lane_id;
          batch_id = t.batch_id;
          tx_count = t.tx_count;
          prev_state_commitment = prev;
          next_state_commitment = next;
          proof = p;
        })
      ]
    ]
  ]

  unfoldable pub to_artifacts_loop : List (Artifact String) → Option (List (Artifact ℤ))
  unfolding to_artifact
  to_artifacts_loop [] = some []
  to_artifacts_loop (t ∷ ts) =
      let rest = to_artifacts_loop ts in
      elim (to_artifact t) [
        | none ↦ none
        | some a ↦ elim rest [ none ↦ none | some r ↦ some (a ∷ r) ]
      ]

  -- `toArtifacts`
  unfoldable pub to_artifacts : Bundle → Converted (List (Artifact ℤ) × ℕ)
  unfolding to_artifacts_loop
  to_artifacts b =
      if length (source_of b) == 0 then no_artifacts else elim (to_artifacts_loop (source_of b)) [
        | none ↦ panicked
        | some artifacts ↦ converted (artifacts, b.verified_tx_total)
      ]

  -- `toVerifyingKey`
  unfoldable pub to_verifying_key : Bundle → Option (VerifyingKey ℤ)
  unfolding to_g1_point to_g2_point
  to_verifying_key bundle =
      let k = bundle.verifying_key in
      elim (to_g1_point k.alpha) [
        | none ↦ none
        | some alpha ↦ elim (to_g2_point k.beta) [
          | none ↦ none
          | some beta ↦ elim (to_g2_point k.gamma) [
            | none ↦ none
            | some gamma ↦ elim (to_g2_point k.delta) [
              | none ↦ none
              | some delta ↦ elim (to_g1_point k.gamma_abc.0) [
                | none ↦ none
                | some g ↦ elim (to_g1_point k.gamma_abc.1) [
                  | none ↦ none
                  | some h ↦ some (record {
                    alpha = alpha;
                    beta = beta;
                    gamma = gamma;
                    delta = delta;
                    gamma_abc = (g, h);
                  })
                ]
              ]
            ]
          ]
        ]
      ]
