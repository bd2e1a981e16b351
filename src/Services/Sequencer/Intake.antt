-- ===== src/Services/Sequencer/Intake.antt =====
-- The intake and the sealing of cmd/l2-sequencer/main.go.
use hyper_l.Base.{
  ℕ, zero, suc, ◌+◌, ◌/◌, ◌%◌, ◌^◌, ◌≤◌, ◌<◌, ◌≡◌, ◌∙◌, arith, List, [], ◌∷◌, ◌++◌, length,
  length-append, length-set, length-replicate, get_or, set, replicate, All, append-nil,
  append_assoc,
}
use mathlib.Core.List.{Perm, flatten, perm_middle}
use mathlib.Core.List.Perm
use native.Mathlib.Nat.{mod-lt}
use hyper_l.Base.Bytes.{Bytes}
use hyper_l.Frame.{Tx12, marshal_tx12, encode_tx_slice}
use hyper_l.Frame.Tx.{IsTx, unmarshal-marshal_tx12, length-encode_tx_slice}
use hyper_l.Pipeline.Sequencer.Lanes.{flatten-set, empty_lanes}
use hyper_l.Services.Sequencer.{Channel, offer, read_stream, read_tx_stream, deal_on}

-- A connection that ends in the middle of a transfer: the rest is not read.
pub read_stream-encode :
    (n : ℕ) (txs : List Tx12) (rest : Bytes) (ch : Channel)
    → All IsTx txs
    → length rest < 12
    → length txs < n
    → length ch.queued + length txs ≤ 131072
    → read_stream n (encode_tx_slice txs ++ rest) ch ≡ record ch { queued = ch.queued ++ txs }
unfolding read_stream offer encode_tx_slice marshal_tx12
read_stream-encode zero txs rest ch h short fuel room = absurd (omega arith)
read_stream-encode (suc n) [] rest ch h short fuel room = rw append-nil (ground arith)
read_stream-encode (suc n) (t ∷ txs) rest ch (h, hs) short fuel room =
    let ch' : Channel = record ch { queued = ch.queued ++ t ∷ [] } in
    let ih =
      read_stream-encode n txs rest ch' hs short (omega arith)
        (omega (arith, length-append ch.queued (t ∷ []))) in
    ground (arith, unmarshal-marshal_tx12 t h, ih, append_assoc ch.queued (t ∷ []) txs)

-- A connection that sends the bytes of transfers that fit their machine words, and less than one
-- transfer more, has all of them queued, in order and none dropped, when the channel has room for them.
pub read_tx_stream-encode :
    (txs : List Tx12) (rest : Bytes) (ch : Channel)
    → All IsTx txs
    → length rest < 12
    → length ch.queued + length txs ≤ 131072
    → read_tx_stream (encode_tx_slice txs ++ rest) ch ≡ record ch { queued = ch.queued ++ txs }
unfolding read_tx_stream
read_tx_stream-encode txs rest ch h short room =
    read_stream-encode (length (encode_tx_slice txs ++ rest) / 12 + 1) txs rest ch h short
      (omega (arith, length-encode_tx_slice txs, length-append (encode_tx_slice txs) rest)) room

deal_on-perm :
    (n rr : ℕ) (txs : List Tx12) (laned : List (List Tx12))
    → 0 < n
    → length laned ≡ n
    → Perm (flatten (deal_on n rr txs laned).0) (txs ++ flatten laned)
unfolding deal_on
deal_on-perm n rr [] laned p e = Perm.refl (flatten laned)
deal_on-perm n rr (tx ∷ txs) laned p e =
    Perm.trans
      (deal_on-perm n ((rr + 1) % 2 ^ 64) txs
        (set laned (rr % n) (get_or laned (rr % n) [] ++ tx ∷ [])) p (length-set laned _ _ ∙ e))
      (Perm.trans (Perm.append_left txs (flatten-set laned (rr % n) tx (rw e (mod-lt rr p))))
        (perm_middle txs (flatten laned)))

-- With at least one lane, a sealed block holds the buffered transfers, none lost or doubled,
-- wherever the round robin stands, also where its uint64 wraps.
pub deal_on_all :
    (n rr : ℕ) (buffer : List Tx12)
    → 0 < n
    → Perm (flatten (deal_on n rr buffer (replicate n [])).0) buffer
deal_on_all n rr buffer p =
    rw (empty_lanes n, append-nil) at
      (deal_on-perm n rr buffer (replicate n []) p (length-replicate n []))
