-- ===== src/Pipeline/Ingress/Synthetic.antt =====
-- `GenerateSyntheticTxs` of internal/pipeline/runner.go against the tests of the aggregator and the node.
use hyper_l.Base.{ℕ, zero, suc, ◌+◌, ◌*◌, ◌%◌, ◌^◌, ◌≡◌, refl, arith, true, [], length, All}
use hyper_l.Base.Bits.{bit_xor-lt}
use hyper_l.Frame.Tx.{IsTx}
use hyper_l.Base.Int.{ℤ, pos, negsuc, pos_part}
use hyper_l.Pipeline.L1.{amounts_ok}
use hyper_l.Pipeline.Aggregator.Gather.{valid_txs}
use hyper_l.Pipeline.Ingress.{synthetic_tx, synthetic_from, generate_synthetic_txs}

length-synthetic_from : (b i n : ℕ) → length (synthetic_from b i n) ≡ n
unfolding synthetic_from
length-synthetic_from b i zero = refl
length-synthetic_from b i (suc n) = omega (arith, length-synthetic_from b (i + 1) n)

synthetic_from-amounts_ok : (b i n : ℕ) → amounts_ok (synthetic_from b i n) ≡ true
unfolding synthetic_from synthetic_tx amounts_ok
synthetic_from-amounts_ok b i zero = refl
synthetic_from-amounts_ok b i (suc n) = ground (arith, synthetic_from-amounts_ok b (i + 1) n)

synthetic_from-valid_txs : (b i n : ℕ) → valid_txs (synthetic_from b i n) ≡ synthetic_from b i n
unfolding synthetic_from synthetic_tx
synthetic_from-valid_txs b i zero = refl
synthetic_from-valid_txs b i (suc n) = ground (arith, synthetic_from-valid_txs b (i + 1) n)

pub generate-pos : (b n : ℕ) → generate_synthetic_txs b (pos (suc n)) ≡ synthetic_from b 0 (suc n)
unfolding generate_synthetic_txs
generate-pos b n = ground arith

generate-negsuc : (b n : ℕ) → generate_synthetic_txs b (negsuc n) ≡ []
unfolding generate_synthetic_txs
generate-negsuc b n = ground arith

-- As many transfers as were asked for (none for a negative number), none of which moves nothing: the
-- aggregator drops none of them, and the node's test of the amounts holds.
pub synthetic_usable :
    (b : ℕ) (n : ℤ)
    → let txs = generate_synthetic_txs b n in
      (length txs ≡ pos_part n) × (valid_txs txs ≡ txs) × (amounts_ok txs ≡ true)
unfolding generate_synthetic_txs amounts_ok
synthetic_usable b (pos zero) = (refl, refl, refl)
synthetic_usable b (pos (suc n)) = rw (generate-pos b n) (
  length-synthetic_from b 0 (suc n),
  synthetic_from-valid_txs b 0 (suc n),
  synthetic_from-amounts_ok b 0 (suc n),
)
synthetic_usable b (negsuc n) = rw (generate-negsuc b n) (refl, refl, refl)

synthetic_from-IsTx : (b i n : ℕ) → All IsTx (synthetic_from b i n)
unfolding synthetic_from synthetic_tx
synthetic_from-IsTx b i zero = tt
synthetic_from-IsTx b i (suc n) = (
  record {
    sender_fits = omega arith;
    receiver_fits =
        bit_xor-lt 32 ((b * 1000000 + i) % 2 ^ 32) 2654435769 (omega arith) (omega arith);
    amount_fits = omega arith;
  },
  synthetic_from-IsTx b (i + 1) n,
)

-- The transfers fit their machine words.
pub generate-IsTx : (b : ℕ) (m : ℤ) → All IsTx (generate_synthetic_txs b m)
unfolding generate_synthetic_txs
generate-IsTx b (pos zero) = tt
generate-IsTx b (pos (suc n)) = rw (generate-pos b n) (synthetic_from-IsTx b 0 (suc n))
generate-IsTx b (negsuc n) = rw (generate-negsuc b n) tt
