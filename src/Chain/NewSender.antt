-- ===== src/Chain/NewSender.antt =====
-- `newSender` of cmd/kaia-proofctl/main.go. Keys, and what the node of the chain answers, are parameters.
use hyper_l.Base.{ℕ, ◌≡◌, refl, ap, subst, Option, none, some, [], ◌∷◌}
use hyper_l.Base.Int.{ℤ, uint64_of}
use hyper_l.Base.Bytes.{Bytes}
use hyper_l.Chain.{Result, done, failed}
use hyper_l.Chain.Account.{
  AccountError, missing_key, invalid_key, refused, trim_prefix, derive_sender_address, after_key,
  after_public_key,
}

-- `sender`
pub record Sender (Key Address Node : Type 0) : Type 0 where
  pub client : Node
  pub private_key : Key
  pub from_address : Address
  pub chain_id : ℤ
  pub gas_price : ℤ
  pub gas_limit : ℕ
  pub confirmations : ℕ

abbrev IsFailed : {F B : Type 0} → Result F B → Type 0
IsFailed (done b) = ⊥
IsFailed (failed e) = Unit

abbrev sender_or : {F B : Type 0} → B → Result F B → B
sender_or d (done b) = b
sender_or d (failed e) = d

module _ {E Key Address Node : Type 0} (read_key : Bytes → Result E Key)
    (address_of : Key → Option Address) (chain_id_of : Node → Result E ℤ)
    (suggest_gas_price : Node → Result E ℤ) (gas_limit : ℤ) (confirmations : ℕ) where
  abbrev pub with_address :
      Node → Key → ℤ → ℤ → Option Address → Result (AccountError E) (Sender Key Address Node)
  with_address node key chain_id price none = failed invalid_key
  with_address node key chain_id price (some address) = done record {
    client = node;
    private_key = key;
    from_address = address;
    chain_id = chain_id;
    gas_price = price;
    gas_limit = uint64_of gas_limit;
    confirmations = confirmations;
  }

  abbrev pub with_suggested :
      Node → Key → ℤ → Result E ℤ → Result (AccountError E) (Sender Key Address Node)
  with_suggested node key chain_id (failed e) = failed (refused e)
  with_suggested node key chain_id (done price) =
      with_address node key chain_id price (address_of key)

  -- The price that the text asks for, or the one that the node suggests.
  abbrev pub with_price :
      Node
      → Key
      → ℤ
      → Result (AccountError E) (Option ℤ)
      → Result (AccountError E) (Sender Key Address Node)
  with_price node key chain_id (failed e) = failed e
  with_price node key chain_id (done none) =
      with_suggested node key chain_id (suggest_gas_price node)
  with_price node key chain_id (done (some price)) =
      with_address node key chain_id price (address_of key)

  abbrev pub with_chain :
      Node
      → Key
      → Result (AccountError E) (Option ℤ)
      → Result E ℤ
      → Result (AccountError E) (Sender Key Address Node)
  with_chain node key price (failed e) = failed (refused e)
  with_chain node key price (done chain_id) = with_price node key chain_id price

  abbrev pub with_node :
      Key
      → Result (AccountError E) (Option ℤ)
      → Result E Node
      → Result (AccountError E) (Sender Key Address Node)
  with_node key price (failed e) = failed (refused e)
  with_node key price (done node) = with_chain node key price (chain_id_of node)

  abbrev pub with_key :
      Result (AccountError E) (Option ℤ)
      → Result E Node
      → Result E Key
      → Result (AccountError E) (Sender Key Address Node)
  with_key price dialed (failed e) = failed (refused e)
  with_key price dialed (done key) = with_node key price dialed

  -- `newSender`, with what `ethclient.Dial` and `parseBigInt` give
  unfoldable pub new_sender :
      Bytes
      → Result E Node
      → Result (AccountError E) (Option ℤ)
      → Result (AccountError E) (Sender Key Address Node)
  new_sender [] dialed price = failed missing_key
  new_sender (b ∷ bs) dialed price = with_key price dialed (read_key (trim_prefix (b ∷ bs)))

  module _ (s : Sender Key Address Node) where
    -- A failure is no sender.
    no_sender : {e : AccountError E} → failed e ≡ done s → ⊥
    no_sender q = subst IsFailed q tt

    -- The sender's address is its key's, and its chain the node's.
    abbrev IsFor : Key → Type 0
    IsFor key = (address_of key ≡ some s.from_address) × (chain_id_of s.client ≡ done s.chain_id)

    with_address_sound :
        (node : Node) (key : Key) (c price : ℤ) (o : Option Address)
        → chain_id_of node ≡ done c
        → with_address node key c price o ≡ done s
        → (o ≡ some s.from_address) × (chain_id_of s.client ≡ done s.chain_id)
    with_address_sound node key c price none q e = absurd (no_sender e)
    with_address_sound node key c price (some a) q e =
        let made : Sender Key Address Node = record {
          client = node;
          private_key = key;
          from_address = a;
          chain_id = c;
          gas_price = price;
          gas_limit = uint64_of gas_limit;
          confirmations = confirmations;
        } in
        let i : made ≡ s = ap (sender_or s) e in
        (ap (λ z. some z.from_address) i, subst (λ z. chain_id_of z.client ≡ done z.chain_id) i q)

    with_suggested_sound :
        (node : Node) (key : Key) (c : ℤ) (r : Result E ℤ)
        → chain_id_of node ≡ done c
        → with_suggested node key c r ≡ done s
        → IsFor key
    with_suggested_sound node key c (failed x) q e = absurd (no_sender e)
    with_suggested_sound node key c (done price) q e =
        with_address_sound node key c price (address_of key) q e

    with_price_sound :
        (node : Node) (key : Key) (c : ℤ) (r : Result (AccountError E) (Option ℤ))
        → chain_id_of node ≡ done c
        → with_price node key c r ≡ done s
        → IsFor key
    with_price_sound node key c (failed x) q e = absurd (no_sender e)
    with_price_sound node key c (done none) q e =
        with_suggested_sound node key c (suggest_gas_price node) q e
    with_price_sound node key c (done (some price)) q e =
        with_address_sound node key c price (address_of key) q e

    with_chain_sound :
        (node : Node) (key : Key) (price : Result (AccountError E) (Option ℤ)) (r : Result E ℤ)
        → chain_id_of node ≡ r
        → with_chain node key price r ≡ done s
        → IsFor key
    with_chain_sound node key price (failed x) q e = absurd (no_sender e)
    with_chain_sound node key price (done c) q e = with_price_sound node key c price q e

    with_node_sound :
        (key : Key) (price : Result (AccountError E) (Option ℤ)) (r : Result E Node)
        → with_node key price r ≡ done s
        → IsFor key
    with_node_sound key price (failed x) e = absurd (no_sender e)
    with_node_sound key price (done node) e =
        with_chain_sound node key price (chain_id_of node) refl e

    with_key_sound :
        (dialed : Result E Node) (price : Result (AccountError E) (Option ℤ)) (r : Result E Key)
        → with_key price dialed r ≡ done s
        → (after_key read_key address_of r ≡ done s.from_address)
          × (chain_id_of s.client ≡ done s.chain_id)
    with_key_sound dialed price (failed x) e = absurd (no_sender e)
    with_key_sound dialed price (done key) e =
        let (a, c) = with_node_sound key price dialed e in
        (ap (after_public_key read_key address_of) a, c)

    -- A sender is made under the address that belongs to its key, as `deriveSenderAddress` gives it
    -- for the same text, and on the chain that its node names.
    pub new_sender-derive_sender_address :
        (text : Bytes) (dialed : Result E Node) (price : Result (AccountError E) (Option ℤ))
        → new_sender text dialed price ≡ done s
        → (derive_sender_address read_key address_of text ≡ done s.from_address)
          × (chain_id_of s.client ≡ done s.chain_id)
    unfolding new_sender derive_sender_address
    new_sender-derive_sender_address [] dialed price e = absurd (no_sender e)
    new_sender-derive_sender_address (b ∷ bs) dialed price e =
        with_key_sound dialed price (read_key (trim_prefix (b ∷ bs))) e
