-- ===== src/Embed/Chunks/Cover.antt =====
-- That the chunks of a source are its tokens, each within the limit.
use integration_console.Prelude.{
  ℕ, zero, suc, ◌+◌, ◌-◌, ◌*◌, ◌≤◌, ◌<◌, ◌≡◌, refl, sym, ◌∙◌, ap, List, [], ◌∷◌, ◌++◌, arith, ltb,
  length, take, drop, All, length-take, length-drop, Bool-cases, ◌⊎◌, inl, inr, ltb→lt,
}
use integration_console.Embed.Chunks.{chunk_token_limit, chunk_count, piece, pieces_from, pieces}

abbrev pub flatten {ℓ} : {T : Type ℓ} → List (List T) → List T
flatten [] = []
flatten (p ∷ ps) = p ++ flatten ps

module _ {ℓ} {T : Type ℓ} where
  take_all : (n : ℕ) (xs : List T) → length xs ≤ n → take n xs ≡ xs
  take_all zero [] h = refl
  take_all zero (x ∷ xs) h = ground arith
  take_all (suc n) [] h = refl
  take_all (suc n) (x ∷ xs) h = rw (take_all n xs (omega (arith, h))) refl

  drop_nil : (n : ℕ) → drop {A = T} n [] ≡ []
  drop_nil zero = refl
  drop_nil (suc n) = refl

  take_nil : (n : ℕ) → take {A = T} n [] ≡ []
  take_nil zero = refl
  take_nil (suc n) = refl

  drop_sum : (a b : ℕ) (xs : List T) → drop b (drop a xs) ≡ drop (a + b) xs
  drop_sum zero b xs = ap (λ n. drop n xs) (omega arith)
  drop_sum (suc a) b [] = drop_nil b ∙ sym (drop_nil (suc a + b))
  drop_sum (suc a) b (x ∷ xs) =
      drop_sum a b xs
      ∙ ap (λ n. drop n (x ∷ xs)) (let e : suc (a + b) ≡ suc a + b = omega arith in e)

  take_sum : (a b : ℕ) (xs : List T) → take a xs ++ take b (drop a xs) ≡ take (a + b) xs
  take_sum zero b xs = ap (λ n. take n xs) (omega arith)
  take_sum (suc a) b [] = take_nil b ∙ sym (take_nil (suc a + b))
  take_sum (suc a) b (x ∷ xs) =
      ap (λ ys. x ∷ ys) (take_sum a b xs)
      ∙ ap (λ n. take n (x ∷ xs)) (let e : suc (a + b) ≡ suc a + b = omega arith in e)

  -- The end of a slice is the end of the tokens, or the limit past the start.
  piece_lem :
      (tokens : List T) (i : ℕ)
      → piece tokens i ≡ take chunk_token_limit (drop (i * chunk_token_limit) tokens)
  unfolding piece
  piece_lem tokens i =
      let start = i * chunk_token_limit in
      elim (Bool-cases (ltb (length tokens) (start + chunk_token_limit))) [
        | inl short ↦ rw short (
            take_all (length tokens - start) (drop start tokens)
              (omega (arith, length-drop start tokens))
            ∙ sym (
                take_all chunk_token_limit (drop start tokens)
                  (omega (arith, length-drop start tokens, ltb→lt _ _ short))))
        | inr long ↦ rw long (
            ap (λ n. take n (drop start tokens))
              (let e : start + chunk_token_limit - start ≡ chunk_token_limit = omega arith in e))
      ]

  pieces_from_lem :
      (tokens : List T) (i n : ℕ)
      → flatten (pieces_from tokens i n)
        ≡ take (n * chunk_token_limit) (drop (i * chunk_token_limit) tokens)
  unfolding pieces_from
  pieces_from_lem tokens i zero =
      ap (λ n. take n (drop (i * chunk_token_limit) tokens))
        (let e : 0 ≡ 0 * chunk_token_limit = omega arith in e)
  pieces_from_lem tokens i (suc n) =
      let rest = drop (i * chunk_token_limit) tokens in
      let next : drop ((i + 1) * chunk_token_limit) tokens ≡ drop chunk_token_limit rest =
        ap (λ k. drop k tokens)
          (let e : (i + 1) * chunk_token_limit ≡ i * chunk_token_limit + chunk_token_limit =
              omega arith in
            e)
        ∙ sym (drop_sum (i * chunk_token_limit) chunk_token_limit tokens) in
      rw (piece_lem tokens i, pieces_from_lem tokens (i + 1) n, next)
        (take_sum chunk_token_limit (n * chunk_token_limit) rest
          ∙ ap (λ k. take k rest)
              (let e : chunk_token_limit + n * chunk_token_limit ≡ suc n * chunk_token_limit =
                  omega arith in
                e))

  -- A piece that a slice of a chunk may be.
  abbrev pub IsPiece : List T → Type 0
  IsPiece p = (0 < length p) × (length p ≤ chunk_token_limit)

  pieces_from-IsPiece :
      (tokens : List T) (i n : ℕ)
      → (n ≡ 0) ⊎ ((i + n - 1) * chunk_token_limit < length tokens)
      → All IsPiece (pieces_from tokens i n)
  unfolding pieces_from
  pieces_from-IsPiece tokens i zero h = tt
  pieces_from-IsPiece tokens i (suc n) h = (
    rw (piece_lem tokens i) (
      omega (
        arith,
        h,
        length-take chunk_token_limit (drop (i * chunk_token_limit) tokens),
        length-drop (i * chunk_token_limit) tokens,
      ),
      omega (arith, length-take chunk_token_limit (drop (i * chunk_token_limit) tokens)),
    ),
    pieces_from-IsPiece tokens (i + 1) n (ground (arith, h)),
  )

  -- The chunks of a source are its tokens, in order and each exactly once; none is empty, and none is
  -- longer than the limit.
  pub pieces-IsPiece :
      (tokens : List T) → (flatten (pieces tokens) ≡ tokens) × All IsPiece (pieces tokens)
  unfolding pieces chunk_count
  pieces-IsPiece tokens = (
    pieces_from_lem tokens 0 (chunk_count (length tokens))
        ∙ take_all (chunk_count (length tokens) * chunk_token_limit) tokens (omega arith),
    pieces_from-IsPiece tokens 0 (chunk_count (length tokens)) (ground arith),
  )
