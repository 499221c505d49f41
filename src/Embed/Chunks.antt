-- ===== src/Embed/Chunks.antt =====
-- chunkOne and ChunkTexts of atheros-search/internal/embed/tokens.go. The tokenizer is the backend's,
-- so its two endpoints are parameters, and so is the test that strings.TrimSpace leaves nothing. The
-- goroutines write their results by index; of several errors, the one returned here is the first.
pub mod Cover
pub mod Budget
use integration_console.Prelude.{
  ℕ, zero, suc, ◌+◌, ◌-◌, ◌*◌, ◌/◌, Bool, true, false, ◌&&◌, Option, none, some, String, List, [],
  ◌∷◌, ℤ, pos, negsuc, ltb, if◌then◌else◌, Result, ok, err, ◌>>=◌, length, take, drop,
}
use integration_console.Embed.Errors.{
  Error, sentinel, plain, wrapped, oversized_input, chunk_budget, is_error,
}

abbrev pub chunk_token_limit : ℕ
chunk_token_limit = 480

-- TokenChunk.
pub record Chunk : Type 0 where
  pub text : String
  pub token_count : ℕ

unfoldable pub chunk_count : ℕ → ℕ
chunk_count n = (n + chunk_token_limit - 1) / chunk_token_limit

-- tokens[start:end] of the chunk at an index.
unfoldable pub piece {ℓ} : {T : Type ℓ} → List T → ℕ → List T
piece tokens i =
    let start = i * chunk_token_limit in
    let end =
      if ltb (length tokens) (start + chunk_token_limit)
      then length tokens
      else start + chunk_token_limit in
    take (end - start) (drop start tokens)

-- The pieces at `n` indices from `i` on.
unfoldable pub pieces_from {ℓ} : {T : Type ℓ} → List T → ℕ → ℕ → List (List T)
unfolding piece
pieces_from tokens i zero = []
pieces_from tokens i (suc n) = piece tokens i ∷ pieces_from tokens (i + 1) n

unfoldable pub pieces {ℓ} : {T : Type ℓ} → List T → List (List T)
unfolding pieces_from chunk_count
pieces tokens = pieces_from tokens 0 (chunk_count (length tokens))

-- `maxChunks > 0 && chunkCount > maxChunks`
abbrev pub over_budget : ℤ → ℕ → Bool
over_budget (pos max) n = ltb 0 max && ltb max n
over_budget (negsuc max) n = false

abbrev is_none {ℓ} : {T : Type ℓ} → List T → Bool
is_none [] = true
is_none (t ∷ ts) = false

module _ {ℓ} {T : Type ℓ} (tokenize : String → Result Error (List T))
    (detokenize : List T → Result Error String) (is_blank : String → Bool) where
  unfoldable pub rebuild : List (List T) → Result Error (List Chunk)
  rebuild [] = ok []
  rebuild (p ∷ ps) = elim (detokenize p) [
    | err e ↦ err (wrapped "detokenize embedding source tokens" e)
    | ok text ↦ rebuild ps >>= λ rest. ok (record { text = text; token_count = length p } ∷ rest)
  ]

  unfoldable pub chunk_tokens : ℤ → String → List T → Result Error (List Chunk)
  unfolding rebuild pieces
  chunk_tokens max_chunks text tokens =
      if is_none tokens
      then (if is_blank text
          then ok (record { text = text; token_count = 0 } ∷ [])
          else err (plain "tokenize embedding source: no tokens for non-empty text"))
      else if over_budget max_chunks (chunk_count (length tokens))
      then err (wrapped "source chunk budget" (sentinel chunk_budget))
      else rebuild (pieces tokens)

  -- chunkOne.
  unfoldable pub chunk_one : ℤ → String → Result Error (List Chunk)
  unfolding chunk_tokens
  chunk_one max_chunks text = elim (tokenize text) [
    | err e ↦ err (wrapped "tokenize embedding source" e)
    | ok tokens ↦ chunk_tokens max_chunks text tokens
  ]

  -- What ChunkTexts makes of an error for the source at an index.
  unfoldable pub blame : ℕ → Error → Error
  blame i e = if is_error e chunk_budget then oversized_input (pos i) e else e

  unfoldable pub chunk_texts_from : ℤ → ℕ → List String → Result Error (List (List Chunk))
  unfolding chunk_one blame
  chunk_texts_from max_chunks i [] = ok []
  chunk_texts_from max_chunks i (text ∷ texts) = elim (chunk_one max_chunks text) [
    | err e ↦ err (blame i e)
    | ok chunks ↦ chunk_texts_from max_chunks (i + 1) texts >>= λ rest. ok (chunks ∷ rest)
  ]

  -- ChunkTexts.
  unfoldable pub chunk_texts : ℤ → List String → Result Error (List (List Chunk))
  unfolding chunk_texts_from
  chunk_texts max_chunks texts = chunk_texts_from max_chunks 0 texts
