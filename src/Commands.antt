-- ===== src/Commands.antt =====
-- The commands of cmd/kaia-proofctl that send transactions: what they ask of their clients, in order,
-- next to what they return. A client is named by the number of the dial that made it.
pub mod Senders
pub mod Jobs
pub mod Multi
pub mod Clients
pub mod Release
pub mod Sends
pub mod Order
pub mod Success
pub mod Collecting
pub mod Burst
pub mod Nonces
pub mod Consecutive
pub mod OneClient
pub mod Lanes
pub mod Monitor
use hyper_l.Base.{ℕ, Option, none, some, List, [], ◌∷◌, ◌++◌}
use hyper_l.Base.Int.{ℤ}
use hyper_l.Base.Bytes.{Bytes}
use hyper_l.Chain.{Result, done, failed, Receipt, Waited, Unsigned}
use hyper_l.Chain.Account.{AccountError}

-- The calls whose order matters.
pub data Call (Signed : Type 0) : Type 0 where
  dialed closed : ℕ → Call Signed
  sent : ℕ → Signed → Call Signed

-- The errors of the commands.
pub data CommandError (E : Type 0) : Type 0 where
  missing_keys missing_addresses bad_address : CommandError E
  count_mismatch : (keys addresses : ℕ) → CommandError E
  no_sender : AccountError E → CommandError E
  refused : E → CommandError E
  invalid_amount timed_out still_waiting : CommandError E
  short_answer : ℕ → CommandError E
  reverted : (block_number gas_used : ℕ) → CommandError E

-- A command: the calls that it makes, and its result.
abbrev pub Run : Type 0 → Type 0 → Type 0 → Type 0
Run Signed F A = List (Call Signed) × Result F A

module _ {Signed F : Type 0} where
  abbrev pub pure : {A : Type 0} → A → Run Signed F A
  pure a = ([], done a)

  abbrev pub raise : {A : Type 0} → F → Run Signed F A
  raise e = ([], failed e)

  -- What comes after a result; an error ends the command.
  abbrev pub after : {A B : Type 0} → Result F A → (A → Run Signed F B) → Run Signed F B
  after (done a) f = f a
  after (failed e) f = ([], failed e)

  infixl 5 ◌>>=◌ ◌>>◌
  abbrev pub ◌>>=◌ : {A B : Type 0} → Run Signed F A → (A → Run Signed F B) → Run Signed F B
  m >>= f = (m.0 ++ (after m.1 f).0, (after m.1 f).1)

  abbrev pub ◌>>◌ : {A B : Type 0} → Run Signed F A → Run Signed F B → Run Signed F B
  m >> k = m >>= λ _. k

  -- Calls that are made if `m` fails, before its error is returned.
  abbrev pub if_failed : {A : Type 0} → List (Call Signed) → Result F A → List (Call Signed)
  if_failed calls (done a) = []
  if_failed calls (failed e) = calls

  abbrev pub on_failure : {A : Type 0} → List (Call Signed) → Run Signed F A → Run Signed F A
  on_failure calls m = (m.0 ++ if_failed calls m.1, m.1)

  -- `defer`: calls that are made in any case, at the end.
  abbrev pub deferred : {A : Type 0} → List (Call Signed) → Run Signed F A → Run Signed F A
  deferred calls m = (m.0 ++ calls, m.1)

-- Closing clients, in order.
abbrev pub close_all : {Signed : Type 0} → List ℕ → List (Call Signed)
close_all [] = []
close_all (i ∷ js) = closed i ∷ close_all js

-- An answer of a client or a library.
abbrev pub asked : {Signed F E A : Type 0} → (E → F) → Result E A → Run Signed F A
asked wrap (done a) = ([], done a)
asked wrap (failed e) = ([], failed (wrap e))

-- What the clients, the signer and the environment answer. A node changes while a command runs: the
-- number in front is that of the transaction for which the node is asked, and each dial has an answer
-- of its own.
pub record World (E Key Address Node Signed : Type 0) : Type 0 where
  pub read_key : Bytes → Result E Key
  pub address_of : Key → Option Address
  pub dial : ℕ → Result E Node
  pub chain_id_of : Node → Result E ℤ
  pub suggest_gas_price : Node → Result E ℤ
  pub pending_nonce : ℕ → Node → Address → Result E ℕ
  pub estimate_gas : ℕ → Node → Address → Option Address → ℤ → Bytes → Result E ℕ
  pub sign : Key → ℤ → ℤ → Unsigned Address ℤ → Result E Signed
  pub send : Node → Signed → Option E
  pub wait : Node → Signed → ℕ → Waited E  -- `waitForReceipt`
  pub header_time : ℕ → Node → ℕ → Result E ℕ
  pub env_gas_limit : ℤ
