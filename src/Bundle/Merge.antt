-- ===== src/Bundle/Merge.antt =====
-- `mergeBundles` of cmd/kaia-proofctl/dashboard.go: what a merged bundle holds.
use hyper_l.Base.{
  ℕ, ◌+◌, ◌-◌, ◌%◌, ◌^◌, ◌≤◌, ◌≡◌, refl, arith, List, [], ◌∷◌, ◌++◌, String, length, length-append,
  length-take, length-drop, take, drop,
}
use hyper_l.Metrics.{add64}
use hyper_l.Bundle.{
  Artifact, Bundle, source_of, count_txs, spliced, merged, merge_of, merge_bundles,
}

-- The counts of the artifacts, added up.
abbrev pub tx_total : List (Artifact String) → ℕ
tx_total [] = 0
tx_total (a ∷ artifacts) = a.tx_count + tx_total artifacts

count_txs_lem :
    (total : ℕ) (artifacts : List (Artifact String))
    → count_txs total artifacts % 2 ^ 64 ≡ (total + tx_total artifacts) % 2 ^ 64
unfolding count_txs
count_txs_lem total [] = omega arith
count_txs_lem total (a ∷ artifacts) =
    omega (arith, count_txs_lem (add64 total a.tx_count) artifacts)

-- What `mergeBundles` asks of its arguments.
abbrev pub IsMergeable : Bundle → Bundle → ℕ → ℕ → Type 0
IsMergeable live replay live_count total =
    (live_count ≤ total)
    × (live_count ≤ length (source_of live))
    × (total ≤ length (source_of replay))
    × (live_count ≤ length live.lane_heads)
    × (total ≤ length replay.lane_heads)

length-spliced :
    {A : Type 0} (n total : ℕ) (xs ys : List A)
    → n ≤ total
    → n ≤ length xs
    → total ≤ length ys
    → length (spliced n total xs ys) ≡ total
length-spliced n total xs ys p q r = omega (
  arith,
  length-append (take n xs) (take (total - n) (drop n ys)),
  length-take n xs,
  length-take (total - n) (drop n ys),
  length-drop n ys,
)

-- Two bundles with enough artifacts and lane heads, and no more live lanes than lanes, merge into
-- one with exactly `total` artifacts and lane heads. The first `live_count` artifacts are those
-- of the live bundle and the rest those of the replayed one from there on, both fields hold them,
-- and the noted total is the sum of their counts, as a uint64.
pub merge_bundles_lem :
    (live replay : Bundle) (live_count total : ℕ)
    → IsMergeable live replay live_count total
    → let b = merge_of live replay live_count total in
      (merge_bundles live replay live_count total ≡ merged b)
      × (length b.batches ≡ total)
      × (length b.lane_heads ≡ total)
      × (b.batches
          ≡ take live_count (source_of live)
            ++ take (total - live_count) (drop live_count (source_of replay)))
      × (b.ten_batches ≡ b.batches)
      × (b.verified_tx_total % 2 ^ 64 ≡ tx_total b.batches % 2 ^ 64)
unfolding merge_bundles merge_of
merge_bundles_lem live replay live_count total (p, q, r, s, t) = (
  ground arith,
  length-spliced live_count total (source_of live) (source_of replay) p q r,
  length-spliced live_count total live.lane_heads replay.lane_heads p s t,
  refl,
  refl,
  omega (arith, count_txs_lem 0 (spliced live_count total (source_of live) (source_of replay))),
)
