-- ===== src/Frame/Tx.antt =====
-- The transfer codec of internal/frame/frame.go: round trips both ways, and what is refused.
use hyper_l.Base.{
  ℕ, zero, suc, ◌+◌, ◌*◌, ◌/◌, ◌%◌, ◌^◌, ◌<◌, ◌≡◌, ◌≢◌, refl, sym, ap, ap₂, ◌∙◌, ◌≤◌, arith, none,
  List, [], ◌∷◌, ◌++◌, length, length-append, take, drop, All, take_of_le, drop-drop,
  take-append-drop, length-drop, length-take, All-take, All-drop,
}
use hyper_l.Base.Bytes.{Bytes, IsByte, le_value, le_bytes, le_bytes-le_value, slice}
use hyper_l.Frame.{
  Tx12, ok, err, tx_slice_size, marshal_tx12, unmarshal_tx12, encode_tx_slice, decode_tx_slice,
  read_txs,
}

-- The three fields are uint32.
pub record IsTx (t : Tx12) : Type 0 where
  pub sender_fits : t.sender_index < 2 ^ 32
  pub receiver_fits : t.receiver_index < 2 ^ 32
  pub amount_fits : t.amount < 2 ^ 32

pub unmarshal-marshal_tx12 : (t : Tx12) → IsTx t → unmarshal_tx12 (marshal_tx12 t) ≡ ok t
unfolding unmarshal_tx12 marshal_tx12
unmarshal-marshal_tx12 t h = ground arith

pub length-marshal_tx12 : (t : Tx12) → length (marshal_tx12 t) ≡ 12
unfolding marshal_tx12
length-marshal_tx12 t = refl

pub length-encode_tx_slice : (txs : List Tx12) → length (encode_tx_slice txs) ≡ 12 * length txs
unfolding encode_tx_slice
length-encode_tx_slice [] = refl
length-encode_tx_slice (t ∷ txs) = omega (
  arith,
  length-append (marshal_tx12 t) (encode_tx_slice txs),
  length-marshal_tx12 t,
  length-encode_tx_slice txs,
)

pub read_txs-encode :
    (txs : List Tx12) → All IsTx txs → read_txs (length txs) (encode_tx_slice txs) ≡ (txs, none)
unfolding read_txs encode_tx_slice marshal_tx12
read_txs-encode [] h = refl
read_txs-encode (t ∷ txs) h =
    rw (unmarshal-marshal_tx12 t h.0, read_txs) (ap (λ r. (t ∷ r.0, r.1)) (read_txs-encode txs h.1))

-- Decoding what was encoded gives the transfers back, for any number of transfers that fit their
-- machine words.
pub decode-encode_tx_slice :
    (txs : List Tx12) → All IsTx txs → decode_tx_slice (encode_tx_slice txs) ≡ ok txs
unfolding decode_tx_slice
decode-encode_tx_slice txs h = ground (
  arith,
  length-encode_tx_slice txs,
  read_txs-encode txs h,
  ap (λ n. read_txs n (encode_tx_slice txs)) {x = length (encode_tx_slice txs) / 12}
      {y = length txs} (omega (arith, length-encode_tx_slice txs)),
)

-- Four bytes are the little-endian form of the number that they are read as.
le_bytes-of_four : (xs : Bytes) → All IsByte xs → length xs ≡ 4 → le_bytes 4 (le_value xs) ≡ xs
le_bytes-of_four xs h e = rw e at (le_bytes-le_value xs h)

three_slices : (p : Bytes) → length p ≡ 12 → slice 0 4 p ++ (slice 4 8 p ++ slice 8 12 p) ≡ p
three_slices p e = rw (
  take_of_le 4 (drop 8 p) (omega (arith, length-drop 8 p)),
  ← drop-drop 4 4 p,
  take-append-drop 4 (drop 4 p),
  take-append-drop 4 p,
)

abbrev pub read_fields : Bytes → Tx12
read_fields p = record {
  sender_index = le_value (slice 0 4 p);
  receiver_index = le_value (slice 4 8 p);
  amount = le_value (slice 8 12 p);
}

unmarshal_tx12-inversion :
    (p : Bytes) {t : Tx12} → unmarshal_tx12 p ≡ ok t → (length p ≡ 12) × (t ≡ read_fields p)
unfolding unmarshal_tx12
unmarshal_tx12-inversion p e = ground arith

marshal-read_fields : (p : Bytes) → All IsByte p → length p ≡ 12 → marshal_tx12 (read_fields p) ≡ p
unfolding marshal_tx12
marshal-read_fields p h e =
    ap₂ ◌++◌ (four 0 (omega arith)) (ap₂ ◌++◌ (four 4 (omega arith)) (four 8 (omega arith)))
    ∙ three_slices p e
  where
    four : (k : ℕ) → k + 4 ≤ 12 → le_bytes 4 (le_value (take 4 (drop k p))) ≡ take 4 (drop k p)
    four k l =
        le_bytes-of_four (take 4 (drop k p)) (All-take IsByte 4 (drop k p) (All-drop IsByte k p h))
          (omega (arith, length-take 4 (drop k p), length-drop k p))

-- A 12-byte payload that decodes is the encoding of the transfer that it decodes to.
pub marshal-unmarshal_tx12 :
    (p : Bytes) {t : Tx12} → All IsByte p → unmarshal_tx12 p ≡ ok t → marshal_tx12 t ≡ p
marshal-unmarshal_tx12 p {t} h e =
    let (l, f) = unmarshal_tx12-inversion p e in rw f (marshal-read_fields p h l)

pub unmarshal_tx12-total : (p : Bytes) → length p ≡ 12 → unmarshal_tx12 p ≡ ok (read_fields p)
unfolding unmarshal_tx12
unmarshal_tx12-total p e = ground arith

-- Reading `n` transfers from `12 * n` bytes meets no error, and encoding them gives the bytes back.
pub encode-read_txs :
    (n : ℕ) (p : Bytes)
    → All IsByte p
    → length p ≡ 12 * n
    → ((read_txs n p).1 ≡ none)
      × (encode_tx_slice (read_txs n p).0 ≡ p)
      × (length (read_txs n p).0 ≡ n)
unfolding read_txs encode_tx_slice
encode-read_txs zero p h e = (refl, sym (empty p e), refl)
  where
    empty : (xs : Bytes) → length xs ≡ 12 * 0 → xs ≡ []
    empty [] e = refl
    empty (x ∷ xs) e = absurd (omega arith)
encode-read_txs (suc n) p h e =
    let first : length (take 12 p) ≡ 12 = omega (arith, length-take 12 p) in
    let rest =
      encode-read_txs n (drop 12 p) (All-drop IsByte 12 p h) (omega (arith, length-drop 12 p)) in
    rw (unmarshal_tx12-total (take 12 p) first, read_txs)
      (
        rest.0,
        ap₂ ◌++◌ (marshal-read_fields (take 12 p) (All-take IsByte 12 p h) first) rest.1
            ∙ take-append-drop 12 p,
        ap suc rest.2,
      )

-- Every byte string of a length that 12 divides decodes, to a twelfth as many transfers, and those
-- encode to the same bytes: the encoding is onto.
pub encode-decode_tx_slice :
    (p : Bytes)
    → All IsByte p
    → length p % 12 ≡ 0
    → (txs : List Tx12) × (decode_tx_slice p ≡ ok txs)
      × (encode_tx_slice txs ≡ p)
      × (12 * length txs ≡ length p)
unfolding decode_tx_slice
encode-decode_tx_slice p h e =
    let r = encode-read_txs (length p / 12) p h (omega arith) in
    let n = length p / 12 in ((read_txs n p).0, ground (arith, r), r.1, omega (arith, r.2))

-- Any other length is refused.
pub decode_tx_slice_bad_length :
    (p : Bytes) → length p % 12 ≢ 0 → decode_tx_slice p ≡ err tx_slice_size
unfolding decode_tx_slice
decode_tx_slice_bad_length p h = ground arith

pub encode_tx_slice-IsByte : (txs : List Tx12) → All IsByte (encode_tx_slice txs)
unfolding encode_tx_slice marshal_tx12
encode_tx_slice-IsByte [] = tt
encode_tx_slice-IsByte (t ∷ txs) = ground (arith, encode_tx_slice-IsByte txs)
