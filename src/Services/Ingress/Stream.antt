-- ===== src/Services/Ingress/Stream.antt =====
-- What cmd/l2-ingress/main.go writes, as cmd/l2-sequencer/main.go reads it.
use hyper_l.Base.{
  ℕ, zero, suc, ◌+◌, ◌%◌, ◌^◌, ◌≤◌, ◌<◌, ◌≡◌, ◌≢◌, ◌⊎◌, inl, inr, refl, sym, ap, ap₂, ◌∙◌, arith,
  Option, none, some, List, [], ◌∷◌, ◌++◌, length, length-append, length-take, take, take_of_le,
  All, All-append, All-take, append-nil, append_assoc,
}
use mathlib.Core.Option.{none-ne-some}
use hyper_l.Base.Int.{ℤ}
use hyper_l.Base.Bytes.{Bytes}
use hyper_l.Frame.{Tx12, marshal_tx12, encode_tx_slice}
use hyper_l.Frame.Tx.{IsTx}
use hyper_l.Pipeline.Ingress.{generate_synthetic_txs}
use hyper_l.Pipeline.Ingress.Synthetic.{generate-IsTx}
use hyper_l.Services.Sequencer.{Channel, read_tx_stream}
use hyper_l.Services.Sequencer.Intake.{read_tx_stream-encode}
use hyper_l.Services.Ingress.{Streamed, stream_txs, stream_blocks, txs_of_blocks}

encode-append :
    (xs ys : List Tx12) → encode_tx_slice (xs ++ ys) ≡ encode_tx_slice xs ++ encode_tx_slice ys
unfolding encode_tx_slice
encode-append [] ys = refl
encode-append (x ∷ xs) ys =
    ap (λ zs. marshal_tx12 x ++ zs) (encode-append xs ys)
    ∙ sym (append_assoc (marshal_tx12 x) (encode_tx_slice xs) (encode_tx_slice ys))

-- A stream of `txs` that began after `w` writes: whole transfers from the first on and a part of the
-- next one. It is complete, or it names the block where a write failed.
record IsStreamOf (w : ℕ) (txs : List Tx12) (s : Streamed) : Type 0 where
  part : Bytes
  written : ℕ
  bytes_eq : s.bytes ≡ encode_tx_slice (take written txs) ++ part
  whole_eq : s.whole ≡ w + written
  part_lt : length part < 12
  written_le : written ≤ length txs
  ending :
      ((s.failed_block ≡ none) × (part ≡ []) × (written ≡ length txs)) ⊎ (s.failed_block ≢ none)

take-append_le {ℓ} :
    {A : Type ℓ} (k : ℕ) (xs ys : List A) → k ≤ length xs → take k (xs ++ ys) ≡ take k xs
take-append_le zero xs ys h = refl
take-append_le (suc k) [] ys h = absurd (omega arith)
take-append_le (suc k) (x ∷ xs) ys h = ap (λ zs. x ∷ zs) (take-append_le k xs ys (omega arith))

take-append_add {ℓ} :
    {A : Type ℓ} (k : ℕ) (xs ys : List A) → take (length xs + k) (xs ++ ys) ≡ xs ++ take k ys
take-append_add k [] ys = ap (λ n. take n ys) (omega arith)
take-append_add k (x ∷ xs) ys =
    ap (λ n. take n (x ∷ xs ++ ys)) {x = suc (length xs) + k} {y = suc (length xs + k)}
      (omega arith)
    ∙ ap (λ zs. x ∷ zs) (take-append_add k xs ys)

-- A stream that stopped is a stream of any longer list.
IsStreamOf-stopped :
    (w : ℕ) (xs ys : List Tx12) (s : Streamed)
    → IsStreamOf w xs s
    → s.failed_block ≢ none
    → IsStreamOf w (xs ++ ys) s
IsStreamOf-stopped w xs ys s h f = record {
  part = h.part;
  written = h.written;
  bytes_eq =
      h.bytes_eq
      ∙ ap (λ zs. encode_tx_slice zs ++ h.part) (sym (take-append_le h.written xs ys h.written_le));
  whole_eq = h.whole_eq;
  part_lt = h.part_lt;
  written_le = omega (arith, h.written_le, length-append xs ys);
  ending = inr f;
}

-- A complete stream and a stream that goes on after it.
IsStreamOf-append :
    (w : ℕ) (xs ys : List Tx12) (s t : Streamed)
    → IsStreamOf w xs s
    → s.failed_block ≡ none
    → IsStreamOf s.whole ys t
    → IsStreamOf w (xs ++ ys) (record t { bytes = s.bytes ++ t.bytes })
IsStreamOf-append w xs ys s t h f k = elim h.ending [
  | inr q ↦ absurd (q f)
  | inl (a, b, c) ↦ record {
    part = k.part;
    written = length xs + k.written;
    bytes_eq =
        ap₂ (λ u v. u ++ v)
          (h.bytes_eq
            ∙ ap₂ (λ zs p. encode_tx_slice zs ++ p)
                (ap (λ n. take n xs) c ∙ take_of_le (length xs) xs (omega arith)) b
            ∙ append-nil (encode_tx_slice xs))
          k.bytes_eq
        ∙ sym (append_assoc (encode_tx_slice xs) (encode_tx_slice (take k.written ys)) k.part)
        ∙ ap (λ u. u ++ k.part)
            (sym (encode-append xs (take k.written ys))
              ∙ ap encode_tx_slice (sym (take-append_add k.written xs ys)));
    whole_eq = omega (arith, h.whole_eq, k.whole_eq, c);
    part_lt = k.part_lt;
    written_le = omega (arith, k.written_le, length-append xs ys);
    ending = elim k.ending [
      | inl (d, e, g) ↦ inl (d, e, omega (arith, g, length-append xs ys))
      | inr q ↦ inr q
    ];
  }
]

module _ (broken : ℕ → Option ℕ) (short : (w k : ℕ) → broken w ≡ some k → k < 12) where
  stream_txs-IsStreamOf :
      (block w : ℕ) (txs : List Tx12) → IsStreamOf w txs (stream_txs broken block w txs)
  unfolding stream_txs encode_tx_slice
  stream_txs-IsStreamOf block w [] = record {
    part = [];
    written = 0;
    bytes_eq = refl;
    whole_eq = omega arith;
    part_lt = omega arith;
    written_le = omega arith;
    ending = inl (refl, refl, refl);
  }
  stream_txs-IsStreamOf block w (tx ∷ txs) =
      after (broken w) refl (stream_txs-IsStreamOf block (w + 1) txs)
    where
      after :
          (o : Option ℕ)
          → broken w ≡ o
          → IsStreamOf (w + 1) txs (stream_txs broken block (w + 1) txs)
          → IsStreamOf w (tx ∷ txs) (
              let rest = stream_txs broken block (w + 1) txs in
              elim o as (λ o. Streamed) [
                | none ↦ record rest { bytes = marshal_tx12 tx ++ rest.bytes }
                | some k ↦ record {
                  bytes = take k (marshal_tx12 tx);
                  whole = w;
                  failed_block = some block;
                }
              ])
      after none e ih = record {
        part = ih.part;
        written = suc ih.written;
        bytes_eq =
            ap (λ bs. marshal_tx12 tx ++ bs) ih.bytes_eq
            ∙ sym (append_assoc (marshal_tx12 tx) (encode_tx_slice (take ih.written txs)) ih.part);
        whole_eq = omega (arith, ih.whole_eq);
        part_lt = ih.part_lt;
        written_le = omega (arith, ih.written_le);
        ending = elim ih.ending [ inl (a, b, c) ↦ inl (a, b, ap suc c) | inr q ↦ inr q ];
      }
      after (some k) e ih = record {
        part = take k (marshal_tx12 tx);
        written = 0;
        bytes_eq = refl;
        whole_eq = omega arith;
        part_lt = omega (arith, length-take k (marshal_tx12 tx), short w k e);
        written_le = omega arith;
        ending = inr (λ q. none-ne-some _ (sym q));
      }

  stream_blocks-IsStreamOf :
      (tx_per_block : ℤ) (w block n : ℕ)
      → IsStreamOf w
          (txs_of_blocks tx_per_block block n)
          (stream_blocks broken tx_per_block w block n)
  unfolding stream_blocks txs_of_blocks encode_tx_slice
  stream_blocks-IsStreamOf m w block zero = record {
    part = [];
    written = 0;
    bytes_eq = refl;
    whole_eq = omega arith;
    part_lt = omega arith;
    written_le = omega arith;
    ending = inl (refl, refl, refl);
  }
  stream_blocks-IsStreamOf m w block (suc n) =
      after sent.failed_block refl (stream_blocks-IsStreamOf m sent.whole (block + 1) n)
    where
      txs : List Tx12
      txs = generate_synthetic_txs (block % 2 ^ 32) m

      sent : Streamed
      sent = stream_txs broken (block % 2 ^ 32) w txs

      after :
          (o : Option ℕ)
          → sent.failed_block ≡ o
          → IsStreamOf sent.whole
              (txs_of_blocks m (block + 1) n)
              (stream_blocks broken m sent.whole (block + 1) n)
          → IsStreamOf w (txs ++ txs_of_blocks m (block + 1) n) (
              let rest = stream_blocks broken m sent.whole (block + 1) n in
              elim o as (λ o. Streamed) [
                | none ↦ record rest { bytes = sent.bytes ++ rest.bytes }
                | some b ↦ sent
              ])
      after none e ih =
          IsStreamOf-append w txs (txs_of_blocks m (block + 1) n) sent
            (stream_blocks broken m sent.whole (block + 1) n)
            (stream_txs-IsStreamOf (block % 2 ^ 32) w txs) e ih
      after (some b) e ih =
          IsStreamOf-stopped w txs (txs_of_blocks m (block + 1) n) sent
            (stream_txs-IsStreamOf (block % 2 ^ 32) w txs) (λ q. none-ne-some b (sym q ∙ e))

txs_of_blocks-IsTx : (m : ℤ) (block n : ℕ) → All IsTx (txs_of_blocks m block n)
unfolding txs_of_blocks
txs_of_blocks-IsTx m block zero = tt
txs_of_blocks-IsTx m block (suc n) =
    All-append IsTx (generate_synthetic_txs (block % 2 ^ 32) m) (txs_of_blocks m (block + 1) n)
      (generate-IsTx (block % 2 ^ 32) m) (txs_of_blocks-IsTx m (block + 1) n)

-- The sequencer queues exactly the transfers that the ingress wrote whole, in order and none dropped,
-- wherever a write fails; and if no write fails, these are all transfers of all blocks. The channel has
-- room for all of them, and a write that fails has sent less than the twelve bytes of its transfer.
pub stream_blocks-read :
    (broken : ℕ → Option ℕ) (tx_per_block : ℤ) (block n : ℕ) (ch : Channel)
    → ((w k : ℕ) → broken w ≡ some k → k < 12)
    → length ch.queued + length (txs_of_blocks tx_per_block block n) ≤ 131072
    → let s = stream_blocks broken tx_per_block 0 block n in
      let all = txs_of_blocks tx_per_block block n in
      (read_tx_stream s.bytes ch ≡ record ch { queued = ch.queued ++ take s.whole all })
      × ((s.failed_block ≢ none) ⊎ (s.whole ≡ length all))
stream_blocks-read broken m block n ch short room =
    let all = txs_of_blocks m block n in
    let h = stream_blocks-IsStreamOf broken short m 0 block n in
    let e : (stream_blocks broken m 0 block n).whole ≡ h.written = omega (arith, h.whole_eq) in
    (
      ap (λ bs. read_tx_stream bs ch) h.bytes_eq
          ∙ read_tx_stream-encode (take h.written all) h.part ch
              (All-take IsTx h.written all (txs_of_blocks-IsTx m block n)) h.part_lt
              (omega (arith, length-take h.written all, room))
          ∙ ap (λ k. record ch { queued = ch.queued ++ take k all }) (sym e),
      elim h.ending [ inl (a, b, c) ↦ inr (e ∙ c) | inr q ↦ inl q ],
    )
