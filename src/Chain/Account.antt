-- ===== src/Chain/Account.antt =====
-- Numbers, keys and addresses of cmd/kaia-proofctl/main.go. A text is its bytes. Cryptography, the
-- reading of digits and of addresses are parameters.
use hyper_l.Base.{ℕ, if◌then◌else◌, ◌==◌, ◌&&◌, ◌||◌, Option, none, some, [], ◌∷◌}
use hyper_l.Base.Int.{ℤ}
use hyper_l.Base.Bytes.{Bytes}
use hyper_l.Chain.{Result, done, failed}

-- `strings.TrimPrefix(text, "0x")`
abbrev pub trim_prefix : Bytes → Bytes
trim_prefix [] = []
trim_prefix (b ∷ []) = b ∷ []
trim_prefix (b ∷ c ∷ bs) = if b == 48 && c == 120 then bs else b ∷ c ∷ bs

-- The base of a number and its digits: "0x" or "0X" stands before base 16.
abbrev pub base_of : Bytes → ℕ × Bytes
base_of [] = (10, [])
base_of (b ∷ []) = (10, b ∷ [])
base_of (b ∷ c ∷ bs) = if b == 48 && (c == 120 || c == 88) then (16, bs) else (10, b ∷ c ∷ bs)

pub data AccountError (E : Type 0) : Type 0 where
  missing_key : AccountError E
  invalid_key : AccountError E
  invalid_address : Bytes → AccountError E
  invalid_number : Bytes → AccountError E
  refused : E → AccountError E

-- `SetString`, after the text is trimmed and its base is known.
abbrev pub read_digits :
    {E : Type 0} → (ℕ → Bytes → Option ℤ) → ℕ → Bytes → Result (AccountError E) (Option ℤ)
read_digits set_string base digits = elim (set_string base digits) [
  | none ↦ failed (invalid_number digits)
  | some value ↦ done (some value)
]

abbrev pub parse_trimmed :
    {E : Type 0} → (ℕ → Bytes → Option ℤ) → Bytes → Result (AccountError E) (Option ℤ)
parse_trimmed set_string [] = done none
parse_trimmed set_string (b ∷ bs) =
    let (base, digits) = base_of (b ∷ bs) in read_digits set_string base digits

-- `parseBigInt`; no number for an empty text
pub parse_big_int :
    {E : Type 0}
    → (Bytes → Bytes)
    → (ℕ → Bytes → Option ℤ)
    → Bytes
    → Result (AccountError E) (Option ℤ)
parse_big_int trim_space set_string text = parse_trimmed set_string (trim_space text)

module _ {E Key Address : Type 0} (read_key : Bytes → Result E Key)
    (address_of : Key → Option Address) where
  abbrev pub after_public_key : Option Address → Result (AccountError E) Address
  after_public_key none = failed invalid_key
  after_public_key (some address) = done address

  abbrev pub after_key : Result E Key → Result (AccountError E) Address
  after_key (failed e) = failed (refused e)
  after_key (done key) = after_public_key (address_of key)

  -- `deriveSenderAddress`
  unfoldable pub derive_sender_address : Bytes → Result (AccountError E) Address
  derive_sender_address [] = failed missing_key
  derive_sender_address (b ∷ bs) = after_key (read_key (trim_prefix (b ∷ bs)))

  abbrev pub address_or_derived :
      (Bytes → Option Address) → Bytes → Bytes → Result (AccountError E) Address
  address_or_derived read_address [] private_key = derive_sender_address private_key
  address_or_derived read_address (b ∷ bs) private_key = elim (read_address (b ∷ bs)) [
    | none ↦ failed (invalid_address (b ∷ bs))
    | some address ↦ done address
  ]

  -- `resolveAccountAddress`
  pub resolve_account_address :
      (Bytes → Bytes) → (Bytes → Option Address) → Bytes → Bytes → Result (AccountError E) Address
  resolve_account_address trim_space read_address address_text private_key =
      address_or_derived read_address (trim_space address_text) private_key
