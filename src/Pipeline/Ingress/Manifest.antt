-- ===== src/Pipeline/Ingress/Manifest.antt =====
-- The manifest of `GenerateDatasets` (internal/pipeline/datasets.go) against the blob.
use hyper_l.Base.{
  ℕ, zero, suc, ◌+◌, ◌*◌, ◌%◌, ◌^◌, ◌<◌, ◌≡◌, refl, sym, ap, ◌∙◌, subst, ap₂, arith, String, List,
  [], ◌∷◌, ◌++◌, length, length-append, take, drop, take-append, drop-append, drop-drop, All,
  All-imp,
}
use hyper_l.Base.Int.{pos, pos_part, plus64, minus64, times64}
use hyper_l.Base.Bytes.{Bytes}
use hyper_l.Frame.{Tx12, marshal_tx12}
use hyper_l.Frame.Tx.{length-marshal_tx12}
use hyper_l.Pipeline.Ingress.Synthetic.{generate-pos}
use hyper_l.Pipeline.Ingress.{
  synthetic_from, generate_synthetic_txs, TxBlockIndex, blob_of, dataset_phase,
}

length-blob_of : (txs : List Tx12) → length (blob_of txs) ≡ length txs * 12
unfolding blob_of
length-blob_of [] = refl
length-blob_of (tx ∷ txs) = omega (
  arith,
  length-append (marshal_tx12 tx) (blob_of txs),
  length-marshal_tx12 tx,
  length-blob_of txs,
)

length-synthetic_from : (b i n : ℕ) → length (synthetic_from b i n) ≡ n
unfolding synthetic_from
length-synthetic_from b i zero = refl
length-synthetic_from b i (suc n) = ap suc (length-synthetic_from b (i + 1) n)

length-generate : (b n : ℕ) → length (generate_synthetic_txs b (pos n)) ≡ n
unfolding generate_synthetic_txs
length-generate b zero = refl
length-generate b (suc n) = ap length (generate-pos b n) ∙ length-synthetic_from b 0 (suc n)

-- An entry's bytes in a blob that is written from `offset` on: the transfers of its block.
abbrev pub Finds : ℕ → Bytes → ℕ → TxBlockIndex → Type 0
Finds offset blob tx_per_block entry =
    (k : ℕ) × (entry.offset_bytes ≡ pos (offset + k))
    × (take (pos_part entry.tx_count * 12) (drop k blob)
        ≡ blob_of (generate_synthetic_txs entry.block_index (pos tx_per_block)))

length-block : (b m : ℕ) → length (blob_of (generate_synthetic_txs b (pos m))) ≡ m * 12
length-block b m =
    length-blob_of (generate_synthetic_txs b (pos m)) ∙ ap (λ n. n * 12) (length-generate b m)

Finds-behind :
    (offset : ℕ) (front blob : Bytes) (m : ℕ) (entry : TxBlockIndex)
    → Finds (offset + length front) blob m entry
    → Finds offset (front ++ blob) m entry
Finds-behind offset front blob m entry (k, p, q) = (
  length front + k,
  p ∙ ap pos (omega arith),
  ap (take (pos_part entry.tx_count * 12))
        (sym (drop-drop k (length front) (front ++ blob)) ∙ ap (drop k) (drop-append front blob))
      ∙ q,
)

take-front : (n : ℕ) (xs ys : Bytes) → length xs ≡ n → take n (xs ++ ys) ≡ xs
take-front n xs ys e = ap (λ k. take k (xs ++ ys)) (sym e) ∙ take-append xs ys

-- Below 2^63 the product and the offset of the block just written do not wrap: the source adds the
-- block's bytes, and subtracts them again.
times64_bytes : (m : ℕ) → m * 12 < 2 ^ 63 → times64 (pos m) (pos 12) ≡ pos (m * 12)
times64_bytes m h = ground arith

plus64_bytes : (offset l : ℕ) → offset + l < 2 ^ 63 → plus64 (pos offset) (pos l) ≡ pos (offset + l)
plus64_bytes offset l h = ground arith

minus64_bytes :
    (offset l : ℕ) → offset + l < 2 ^ 63 → minus64 (pos (offset + l)) (pos l) ≡ pos (offset + 0)
minus64_bytes offset l h = ground arith

-- In the dataset of one phase there is one entry for each block, and every entry of the manifest names
-- its own block's place in the blob: at the entry's offset, less the offset at which the phase starts,
-- stand exactly the encodings of the transfers that `GenerateSyntheticTxs` makes for the entry's block.
-- This holds for every first block, if the count of transfers per block and the starting offset are not
-- negative and the bytes of all blocks end below 2^63.
pub dataset_phase-Finds :
    (phase : String) (tx_per_block block offset n : ℕ)
    → offset + n * (tx_per_block * 12) < 2 ^ 63
    → let (blob, entries) = dataset_phase phase (pos tx_per_block) block (pos offset) n in
      (length entries ≡ n) × All (Finds offset blob tx_per_block) entries
unfolding dataset_phase
dataset_phase-Finds phase m block offset zero h = (refl, tt)
dataset_phase-Finds phase m block offset (suc n) h =
    let front = blob_of (generate_synthetic_txs (block % 2 ^ 32) (pos m)) in
    let size = length-block (block % 2 ^ 32) m in
    let next : plus64 (pos offset) (pos (length front)) ≡ pos (offset + m * 12) =
      ap (λ l. plus64 (pos offset) (pos l)) size ∙ plus64_bytes offset (m * 12) (omega arith) in
    let (count, found) =
      dataset_phase-Finds phase m (block + 1) (offset + m * 12) n (omega arith) in
    let rest =
      dataset_phase phase (pos m) (block + 1) (plus64 (pos offset) (pos (length front))) n in
    (
      ap suc (
          subst (λ end. length (dataset_phase phase (pos m) (block + 1) end n).1 ≡ n) (sym next)
            count),
      (
        (
          0,
          ap₂ minus64 next (times64_bytes m (omega arith))
              ∙ minus64_bytes offset (m * 12) (omega arith),
          take-front (m * 12) front rest.0 size,
        ),
        All-imp (Finds (offset + m * 12) rest.0 m) (Finds offset (front ++ rest.0) m) rest.1
            (λ entry f.
              Finds-behind offset front rest.0 m entry
                (subst (λ l. Finds (offset + l) rest.0 m entry) (sym size) f))
            (subst
              (λ end.
                let after = dataset_phase phase (pos m) (block + 1) end n in
                All (Finds (offset + m * 12) after.0 m) after.1)
              (sym next) found),
      ),
    )
