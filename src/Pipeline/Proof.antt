-- ===== src/Pipeline/Proof.antt =====
-- The proof book of internal/pipeline/proof.go: deterministic proofs from a seed, and those loaded
-- from a file. The JSON codec and the files are not modelled: `save_jsonl` returns the lines that are
-- written, and `load_jsonl` takes the lines that were read, `none` for one that is no JSON object.
use hyper_l.Base.{ℕ, zero, suc, ◌+◌, ◌%◌, ◌^◌, Option, none, some, List, [], ◌∷◌, ◌++◌}
use hyper_l.Base.GoMap.{GoMap, lookup, insert}
use hyper_l.Base.Bytes.{Bytes, le_bytes, hex_encode, hex_decode}
use hyper_l.Frame.{ProofRecordV1}

-- `proofLine`
pub record ProofLine : Type 0 where
  pub block_index : ℕ
  pub proof_hex : Bytes

pub record ProofBook : Type 0 where
  pub seed : Bytes
  pub proof : GoMap Bytes

-- `NewProofBook`
abbrev pub new_proof_book : Bytes → ProofBook
new_proof_book seed = record { seed = seed; proof = [] }

pub data LoadError : Type 0 where
  parse_line decode_hex : LoadError

-- The loop of `LoadJSONL`: what was loaded before a bad line stays loaded.
unfoldable pub load_jsonl : List (Option ProofLine) → ProofBook → Option LoadError × ProofBook
load_jsonl [] b = (none, b)
load_jsonl (none ∷ lines) b = (some parse_line, b)
load_jsonl (some line ∷ lines) b = elim (hex_decode line.proof_hex) [
  | none ↦ (some decode_hex, b)
  | some p ↦ load_jsonl lines (record b { proof = insert line.block_index p b.proof })
]

-- `BuildProofRecord`; the copy of the bytes is the same list.
unfoldable pub build_proof_record : ℕ → Bytes → Bytes → ProofRecordV1
build_proof_record block_index commitment proof_bytes = record {
  block_index = block_index;
  commitment_hash = commitment;
  proof_bytes = proof_bytes;
}

module _ (sha256 : Bytes → Bytes) where
  -- `GenerateProofBytes`
  unfoldable pub generate_proof_bytes : Bytes → ℕ → Bytes
  generate_proof_bytes seed block_index = sha256 (le_bytes 4 block_index ++ sha256 seed)

  -- `EnsureBlock`: the proof of the book, which is generated and kept when there is none.
  unfoldable pub ensure_block : ℕ → ProofBook → Bytes × ProofBook
  ensure_block block_index b = elim (lookup block_index b.proof) [
    | some p ↦ (p, b)
    | none ↦
        let p = generate_proof_bytes b.seed block_index in
        (p, record b { proof = insert block_index p b.proof })
  ]

  -- `ProofForBlock`
  unfoldable pub proof_for_block : ℕ → ProofBook → Bytes × ProofBook
  unfolding ensure_block
  proof_for_block = ensure_block

  -- The loop of `SaveJSONL` over the blocks from `i` on: the lines that it writes, and the book.
  unfoldable pub save_from : ℕ → ℕ → ProofBook → List ProofLine × ProofBook
  unfolding ensure_block
  save_from i zero b = ([], b)
  save_from i (suc n) b =
      let (p, b') = ensure_block (i % 2 ^ 32) b in
      let (lines, b'') = save_from (i + 1) n b' in
      (record { block_index = i % 2 ^ 32; proof_hex = hex_encode p } ∷ lines, b'')

  -- `SaveJSONL`
  unfoldable pub save_jsonl : ℕ → ProofBook → List ProofLine × ProofBook
  unfolding save_from
  save_jsonl = save_from 0
