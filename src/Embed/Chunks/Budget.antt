-- ===== src/Embed/Chunks/Budget.antt =====
-- What ChunkTexts of tokens.go says of a source above the chunk budget.
use integration_console.Prelude.{
  ℕ, ◌+◌, ◌≡◌, refl, Bool, true, String, List, [], ◌∷◌, ◌++◌, ℤ, pos, some, arith, Result, ok, err,
  length, All,
}
use integration_console.Embed.Errors.{
  Error, sentinel, wrapped, oversized_input, chunk_budget, is_error, same, oversized_index,
}
use integration_console.Embed.Chunks.{
  Chunk, chunk_count, over_budget, chunk_tokens, chunk_one, blame, chunk_texts_from, chunk_texts,
}

module _ {ℓ} {T : Type ℓ} (tokenize : String → Result Error (List T))
    (detokenize : List T → Result Error String) (is_blank : String → Bool) where
  abbrev pub IsChunked : ℤ → String → Type 0
  IsChunked max_chunks text =
      (chunks : List Chunk) × (chunk_one tokenize detokenize is_blank max_chunks text ≡ ok chunks)

  chunk_one_over :
      (max_chunks : ℤ) (text : String) (tokens : List T)
      → tokenize text ≡ ok tokens
      → over_budget max_chunks (chunk_count (length tokens)) ≡ true
      → chunk_one tokenize detokenize is_blank max_chunks text
        ≡ err (wrapped "source chunk budget" (sentinel chunk_budget))
  unfolding chunk_one chunk_tokens chunk_count
  chunk_one_over max_chunks text [] made over = rw (chunk_one, made) (ground (arith, over))
  chunk_one_over max_chunks text (t ∷ ts) made over = rw (chunk_one, made, over) refl

  blamed :
      (max_chunks : ℤ) (i : ℕ) (before : List String) (text : String) (after : List String)
      → All (IsChunked max_chunks) before
      → chunk_one tokenize detokenize is_blank max_chunks text
        ≡ err (wrapped "source chunk budget" (sentinel chunk_budget))
      → chunk_texts_from tokenize detokenize is_blank max_chunks i (before ++ text ∷ after)
        ≡ err (
            oversized_input
              (pos (i + length before))
              (wrapped "source chunk budget" (sentinel chunk_budget)))
  unfolding chunk_texts_from blame is_error same
  blamed max_chunks i [] text after fine over = rw (chunk_texts_from, over) (ground arith)
  blamed max_chunks i (b ∷ bs) text after ((chunks, made), fine) over =
      rw (made, chunk_texts_from)
        (ground (arith, blamed max_chunks (i + 1) bs text after fine over))

  -- Where the sources before it are chunked, a source whose tokens fill more chunks than the budget
  -- ends the call with an error that names its own index, whatever stands behind it.
  pub chunk_texts-over_budget :
      (max_chunks : ℤ) (before : List String) (text : String) (after : List String)
      (tokens : List T)
      → All (IsChunked max_chunks) before
      → tokenize text ≡ ok tokens
      → over_budget max_chunks (chunk_count (length tokens)) ≡ true
      → (e : Error) × (chunk_texts tokenize detokenize is_blank max_chunks (before ++ text ∷ after)
          ≡ err e)
        × (oversized_index e ≡ some (pos (length before)))
  unfolding chunk_texts oversized_index
  chunk_texts-over_budget max_chunks before text after tokens fine made over = (
    oversized_input (pos (0 + length before))
        (wrapped "source chunk budget" (sentinel chunk_budget)),
    blamed max_chunks 0 before text after fine (chunk_one_over max_chunks text tokens made over),
    ground arith,
  )
