-- ===== src/Embed/Requests/Packing.antt =====
-- How embedInputs of client.go cuts the inputs into batches.
use integration_console.Prelude.{
  ℕ, ◌+◌, ◌≤◌, ◌<◌, ◌≡◌, ◌≢◌, refl, ap, ◌∙◌, ◌⊎◌, inl, inr, true, false, ◌||◌, not, List, [], ◌∷◌,
  ◌++◌, ltb, Result, ok, err, arith, length, sum_of, sum_of-append, All, Bool-cases,
}
use integration_console.Embed.Errors.{Error}
use integration_console.Embed.Chunks.{Chunk}
use integration_console.Embed.Chunks.Cover.{flatten}
use integration_console.Embed.Requests.{request_token_limit, is_first, close, pack_from, pack}

abbrev pub tokens_of : List Chunk → ℕ
tokens_of b = sum_of (λ c. c.token_count) b

-- A batch that embedInputs may send.
pub record IsBatch (limit : ℕ) (b : List Chunk) : Type 0 where
  pub some_input : 0 < length b
  pub fits : (length b ≡ 1) ⊎ (tokens_of b ≤ limit)

abbrev pub IsShort : Chunk → Type 0
IsShort c = c.token_count ≤ request_token_limit

-- What a packing of `inputs` that follows a batch so far has to be.
abbrev pub IsPacked : ℕ → List Chunk → List Chunk → Result Error (List (List Chunk)) → Type 0
IsPacked limit batch inputs (ok bs) =
    (flatten bs ≡ batch ++ inputs) × All (IsBatch limit) bs × All IsShort inputs
IsPacked limit batch inputs (err e) = All IsShort inputs → ⊥

append_assoc : (xs ys zs : List Chunk) → (xs ++ ys) ++ zs ≡ xs ++ (ys ++ zs)
append_assoc [] ys zs = refl
append_assoc (x ∷ xs) ys zs = ap (λ t. x ∷ t) (append_assoc xs ys zs)

nil_append : (xs : List Chunk) (x : Chunk) → xs ++ x ∷ [] ≢ []
nil_append [] x e = cc
nil_append (y ∷ xs) x e = cc

close-IsPacked :
    (limit : ℕ) (batch : List Chunk) (x : Chunk) (xs : List Chunk)
    (m : Result Error (List (List Chunk)))
    → IsShort x
    → IsBatch limit batch
    → IsPacked limit (x ∷ []) xs m
    → IsPacked limit batch (x ∷ xs) (close false batch m)
close-IsPacked limit batch x xs (ok bs) s b (flat, fine, rest) =
    (ap (λ t. batch ++ t) flat, (b, fine), (s, rest))
close-IsPacked limit batch x xs (err e) s b lost = λ h. lost h.1

join-IsPacked :
    (limit : ℕ) (batch : List Chunk) (x : Chunk) (xs : List Chunk)
    (m : Result Error (List (List Chunk)))
    → IsShort x
    → IsPacked limit (batch ++ x ∷ []) xs m
    → IsPacked limit batch (x ∷ xs) (close true batch m)
join-IsPacked limit batch x xs (ok bs) s (flat, fine, rest) =
    (flat ∙ append_assoc batch (x ∷ []) xs, fine, (s, rest))
join-IsPacked limit batch x xs (err e) s lost = λ h. lost h.1

one-IsBatch : (limit : ℕ) (x : Chunk) → IsBatch limit (x ∷ [])
one-IsBatch limit x = record { some_input = omega arith; fits = inl refl }

-- The batch so far: empty before the first input only, and within the limit with its count.
pub record IsOpen (limit : ℕ) (batch : List Chunk) (count : ℕ) : Type 0 where
  pub counted : count ≡ tokens_of batch
  pub room : (batch ≡ []) ⊎ IsBatch limit batch

grow-IsOpen :
    (limit : ℕ) (batch : List Chunk) (count : ℕ) (x : Chunk)
    → IsOpen limit batch count
    → (is_first batch || not (ltb limit (count + x.token_count))) ≡ true
    → IsOpen limit (batch ++ x ∷ []) (count + x.token_count)
grow-IsOpen limit [] count x v h = record {
  counted = omega (arith, v.counted);
  room = inr (one-IsBatch limit x);
}
grow-IsOpen limit (b ∷ bs) count x v h =
    let sum = sum_of-append (λ c. c.token_count) (b ∷ bs) (x ∷ []) in
    record {
      counted = omega (arith, v.counted, sum);
      room =
          inr
            (record { some_input = omega (arith); fits = inr (ground (arith, h, v.counted, sum)) });
    }

one-IsOpen : (limit : ℕ) (x : Chunk) → IsOpen limit (x ∷ []) x.token_count
one-IsOpen limit x = record { counted = omega arith; room = inr (one-IsBatch limit x) }

grown-IsBatch :
    (limit : ℕ) (batch : List Chunk) (count : ℕ) (x : Chunk)
    → IsOpen limit (batch ++ x ∷ []) count
    → IsBatch limit (batch ++ x ∷ [])
grown-IsBatch limit batch count x v = elim v.room [
  | inl e ↦ absurd (nil_append batch x e)
  | inr b ↦ b
]

full-IsBatch :
    (limit : ℕ) (batch : List Chunk) (count : ℕ) (x : Chunk)
    → IsOpen limit batch count
    → (is_first batch || not (ltb limit (count + x.token_count))) ≡ false
    → IsBatch limit batch
full-IsBatch limit batch count x v h = elim v.room [
  | inl e ↦ absurd (ground (arith, e, h))
  | inr b ↦ b
]

last-IsPacked :
    (limit : ℕ) (batch : List Chunk)
    → IsBatch limit batch
    → IsPacked limit batch [] (ok (batch ∷ []))
last-IsPacked limit batch b = (refl, (b, tt), tt)

pack_from-IsPacked :
    (limit : ℕ) (batch : List Chunk) (count : ℕ) (xs : List Chunk)
    → IsOpen limit batch count
    → (xs ≢ []) ⊎ IsBatch limit batch
    → IsPacked limit batch xs (pack_from limit batch count xs)
unfolding pack_from
pack_from-IsPacked limit batch count [] v (inl more) = absurd (more refl)
pack_from-IsPacked limit batch count [] v (inr b) = last-IsPacked limit batch b
pack_from-IsPacked limit batch count (x ∷ xs) v more =
    elim (Bool-cases (ltb request_token_limit x.token_count)) [
      | inl long ↦ rw (pack_from, long) (λ h. ground (arith, h.0, long))
      | inr short ↦ elim (Bool-cases (is_first batch || not (ltb limit (count + x.token_count)))) [
        | inl fits ↦
            (let grown = grow-IsOpen limit batch count x v fits in
              rw (pack_from, short, fits)
                (join-IsPacked limit batch x xs
                  (pack_from limit (batch ++ x ∷ []) (count + x.token_count) xs)
                  (ground (arith, short))
                  (pack_from-IsPacked limit (batch ++ x ∷ []) (count + x.token_count) xs grown
                    (inr (grown-IsBatch limit batch (count + x.token_count) x grown)))))
        | inr full ↦
            rw (pack_from, short, full)
              (close-IsPacked limit batch x xs (pack_from limit (x ∷ []) x.token_count xs)
                (ground (arith, short)) (full-IsBatch limit batch count x v full)
                (pack_from-IsPacked limit (x ∷ []) x.token_count xs (one-IsOpen limit x)
                  (inr (one-IsBatch limit x))))
      ]
    ]

pub pack-IsPacked : (limit : ℕ) (inputs : List Chunk) → IsPacked limit [] inputs (pack limit inputs)
unfolding pack
pack-IsPacked limit [] = (refl, tt, tt)
pack-IsPacked limit (x ∷ xs) =
    pack_from-IsPacked limit [] 0 (x ∷ xs) (record { counted = refl; room = inl refl })
      (inl (λ e. cc))

-- Where no input is above the request limit, the inputs are cut into batches: put together again they
-- are the inputs in order, and each batch has an input and, unless it is a single one, stays within the
-- packing limit.
pub pack-IsBatch :
    (limit : ℕ) (inputs : List Chunk)
    → All IsShort inputs
    → (bs : List (List Chunk)) × (pack limit inputs ≡ ok bs)
      × (flatten bs ≡ inputs)
      × All (IsBatch limit) bs
pack-IsBatch limit inputs short = packed (pack limit inputs) (pack-IsPacked limit inputs)
  where
    packed :
        (m : Result Error (List (List Chunk)))
        → IsPacked limit [] inputs m
        → (bs : List (List Chunk)) × (m ≡ ok bs) × (flatten bs ≡ inputs) × All (IsBatch limit) bs
    packed (ok bs) (flat, fine, rest) = (bs, refl, flat, fine)
    packed (err e) lost = absurd (lost short)
