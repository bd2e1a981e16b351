-- ===== src/Chain/Text.antt =====
-- `parseCSV` and `parseAddressList` of cmd/kaia-proofctl/main.go.
use hyper_l.Base.{
  ◌≡◌, ◌≢◌, refl, sym, ap, subst, ◌∙◌, arith, Bool, true, false, if◌then◌else◌, ◌==◌, Option, none,
  some, List, [], ◌∷◌, ◌++◌, All,
}
use mathlib.Core.List.{append-nil, append_assoc}
use mathlib.Core.Option
use hyper_l.Base.Bytes.{Bytes}

-- `strings.Split(text, ",")`: the part that is being read, and the parts after it
unfoldable pub split_from : Bytes → Bytes → List Bytes
split_from part [] = part ∷ []
split_from part (b ∷ bs) =
    let next = split_from [] bs in
    let more = split_from (part ++ b ∷ []) bs in if b == 44 then part ∷ next else more

abbrev is_empty : Bytes → Bool
is_empty [] = true
is_empty (b ∷ bs) = false

-- The loop of `parseCSV`.
unfoldable pub keep_values : (Bytes → Bytes) → List Bytes → List Bytes
keep_values trim_space [] = []
keep_values trim_space (part ∷ parts) =
    let rest = keep_values trim_space parts in
    if is_empty (trim_space part) then rest else trim_space part ∷ rest

unfoldable pub parse_csv : (Bytes → Bytes) → Bytes → List Bytes
unfolding split_from keep_values
parse_csv trim_space text = keep_values trim_space (split_from [] text)

-- `parseAddressList`; `none` is an error. `read_address` is `common.HexToAddress` where
-- `common.IsHexAddress` holds.
unfoldable pub addresses_of :
    {Address : Type 0} → (Bytes → Option Address) → List Bytes → Option (List Address)
addresses_of read_address [] = some []
addresses_of read_address (part ∷ parts) =
    let rest = addresses_of read_address parts in
    elim (read_address part) [
      | none ↦ none
      | some address ↦ Option.map (λ addresses. address ∷ addresses) rest
    ]

unfoldable pub parse_address_list :
    {Address : Type 0} → (Bytes → Bytes) → (Bytes → Option Address) → Bytes → Option (List Address)
unfolding parse_csv addresses_of
parse_address_list trim_space read_address text =
    addresses_of read_address (parse_csv trim_space text)

-- A list of values with a comma between each two of them.
abbrev pub join_comma : List Bytes → Bytes
join_comma [] = []
join_comma (v ∷ []) = v
join_comma (v ∷ w ∷ vs) = v ++ 44 ∷ join_comma (w ∷ vs)

-- A value without commas.
abbrev pub NoComma : Bytes → Type 0
NoComma = All (λ b. b ≢ 44)

split_from-part :
    (part v rest : Bytes) → NoComma v → split_from part (v ++ rest) ≡ split_from (part ++ v) rest
unfolding split_from
split_from-part part [] rest h = ap (λ p. split_from p rest) (sym (append-nil part))
split_from-part part (b ∷ v) rest h =
    ground (arith, h.0)
    ∙ split_from-part (part ++ b ∷ []) v rest h.1
    ∙ ap (λ p. split_from p rest) (append_assoc part (b ∷ []) v)

split_from-join :
    (v : Bytes) (vs : List Bytes)
    → All NoComma (v ∷ vs)
    → split_from [] (join_comma (v ∷ vs)) ≡ v ∷ vs
unfolding split_from
split_from-join v [] h = ap (split_from []) (sym (append-nil v)) ∙ split_from-part [] v [] h.0
split_from-join v (w ∷ vs) h =
    split_from-part [] v (44 ∷ join_comma (w ∷ vs)) h.0
    ∙ ap (λ parts. v ∷ parts) (split_from-join w vs h.1)

module _ (trim_space : Bytes → Bytes) where
  -- A value as the loop leaves it: no comma, no space around it, and not empty.
  abbrev pub IsValue : Bytes → Type 0
  IsValue v = NoComma v × (trim_space v ≡ v) × (v ≢ [])

  keep_values-same : (vs : List Bytes) → All IsValue vs → keep_values trim_space vs ≡ vs
  unfolding keep_values
  keep_values-same [] h = refl
  keep_values-same (v ∷ vs) ((c, t, n), hs) =
      subst
        (λ w.
          (if is_empty w then keep_values trim_space vs else w ∷ keep_values trim_space vs)
          ≡ v ∷ vs)
        (sym t) (kept v n (keep_values-same vs hs))
    where
      kept :
          (v : Bytes)
          → v ≢ []
          → keep_values trim_space vs ≡ vs
          → (if is_empty v then keep_values trim_space vs else v ∷ keep_values trim_space vs)
            ≡ v ∷ vs
      kept [] n e = absurd (n refl)
      kept (b ∷ bs) n e = ap (λ ws. (b ∷ bs) ∷ ws) e

  -- Values that have no comma and no space around them and are not empty come back from the list that
  -- they make with commas between them, also when there are none; `TrimSpace` leaves "" as it is.
  pub parse_csv-join_comma :
      (vs : List Bytes)
      → trim_space [] ≡ []
      → All IsValue vs
      → parse_csv trim_space (join_comma vs) ≡ vs
  unfolding parse_csv
  parse_csv-join_comma [] z h = rw z refl
  parse_csv-join_comma (v ∷ vs) z h =
      ap (keep_values trim_space) (split_from-join v vs (no_commas (v ∷ vs) h))
      ∙ keep_values-same (v ∷ vs) h
    where
      no_commas : (vs : List Bytes) → All IsValue vs → All NoComma vs
      no_commas [] h = tt
      no_commas (v ∷ vs) h = (h.0.0, no_commas vs h.1)
