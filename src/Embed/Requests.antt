-- ===== src/Embed/Requests.antt =====
-- embedInputs and embedOnce of atheros-search/internal/embed/client.go. The HTTP exchange and the slot
-- that each batch waits for are one parameter. The goroutines write their results by index; of several
-- errors, the one returned here is the first.
pub mod Packing
pub mod Placement
use integration_console.Prelude.{
  ℕ, zero, suc, ◌+◌, Bool, true, false, ◌||◌, not, Option, none, some, List, [], ◌∷◌, ◌++◌, ℤ, pos,
  negsuc, ltb, ◌==◌, if◌then◌else◌, Result, ok, err, ◌>>=◌, length, get_elem?, set,
}
use integration_console.Embed.Errors.{
  Error, sentinel, wrapped, bare_unavailable, unavailable, invalid_response, invalid_request,
}
use integration_console.Embed.Chunks.{Chunk}

abbrev pub request_token_limit : ℕ
request_token_limit = 4096

abbrev pub request_pack_token_limit : ℕ
request_pack_token_limit = 512

-- packTokenLimit.
unfoldable pub pack_token_limit : ℤ → ℕ
pack_token_limit (pos n) = if ltb 0 n then n else request_pack_token_limit
pack_token_limit (negsuc n) = request_pack_token_limit

abbrev pub too_long : Error
too_long = wrapped "embedding chunk" (sentinel invalid_request)

abbrev pub is_first : List Chunk → Bool
is_first [] = true
is_first (c ∷ cs) = false

abbrev pub close {ℓ} : {B : Type ℓ} → Bool → B → Result Error (List B) → Result Error (List B)
close fits batch (err e) = err e
close true batch (ok rest) = ok rest
close false batch (ok rest) = ok (batch ∷ rest)

-- The two loops that cut the inputs into batches: the batch so far, its count, the inputs left. An
-- input joins the batch, or closes it and begins the next.
unfoldable pub pack_from : ℕ → List Chunk → ℕ → List Chunk → Result Error (List (List Chunk))
pack_from limit batch count [] = ok (batch ∷ [])
pack_from limit batch count (x ∷ xs) =
    if ltb request_token_limit x.token_count
    then err too_long
    else (let fits = is_first batch || not (ltb limit (count + x.token_count)) in
        close fits batch (
          pack_from limit (if fits then batch ++ x ∷ [] else x ∷ [])
            (if fits then count + x.token_count else x.token_count) xs))

unfoldable pub pack : ℕ → List Chunk → Result Error (List (List Chunk))
unfolding pack_from
pack limit [] = ok []
pack limit (x ∷ xs) = pack_from limit [] 0 (x ∷ xs)

-- One entry of a response's data.
pub record Item (V : Type 0) : Type 0 where
  pub index : Option ℤ
  pub vector : V

abbrev pub bad_response : Error
bad_response = bare_unavailable 0

abbrev pub invalid : Error
invalid = unavailable 0 (wrapped "embedding" (sentinel invalid_response))

abbrev pub has_index : {V : Type 0} → Item V → Bool
has_index item = elim item.index [ none ↦ false | some i ↦ true ]

-- `index`: the entry's own, or its position.
abbrev pub slot_of : {V : Type 0} → Bool → ℕ → Item V → Option ℕ
slot_of false i item = some i
slot_of true i item = elim item.index [
  | none ↦ none
  | some (negsuc k) ↦ none
  | some (pos k) ↦ some k
]

abbrev same_bool : Bool → Bool → Bool
same_bool true b = b
same_bool false b = not b

abbrev pub agrees : {V : Type 0} → Bool → Item V → Bool
agrees indexed item = same_bool (has_index item) indexed

-- A place that is in range and not yet taken.
abbrev pub is_free : {V : Type 0} → Option (Option V) → Bool
is_free none = false
is_free (some none) = true
is_free (some (some v)) = false

unfoldable pub put_vector :
    {V : Type 0} → Option ℕ → V → List (Option V) → Result Error (List (Option V))
put_vector none v slots = err invalid
put_vector (some k) v slots =
    if is_free (get_elem? slots k) then ok (set slots k (some v)) else err invalid

-- The loop over the data, from position `i` on. A place that is not yet taken is `none`.
unfoldable pub place :
    {V : Type 0} → Bool → ℕ → List (Option V) → List (Item V) → Result Error (List (Option V))
unfolding put_vector
place indexed i slots [] = ok slots
place indexed i slots (item ∷ items) =
    if not (agrees indexed item)
    then err invalid
    else put_vector (slot_of indexed i item) item.vector slots >>= λ slots'.
        place indexed (i + 1) slots' items

abbrev pub empty_slots : {V : Type 0} → List (Item V) → List (Option V)
empty_slots [] = []
empty_slots (item ∷ items) = none ∷ empty_slots items

abbrev pub starts_indexed : {V : Type 0} → List (Item V) → Bool
starts_indexed [] = false
starts_indexed (item ∷ items) = has_index item

-- A response: the vectors in order, or the entries of its data.
pub record Response (V : Type 0) : Type 0 where
  pub embeddings : List V
  pub data_items : List (Item V)

abbrev pub all_some : {V : Type 0} → List V → List (Option V)
all_some [] = []
all_some (v ∷ vs) = some v ∷ all_some vs

unfoldable pub vectors_of : {V : Type 0} → Response V → Result Error (List (Option V))
unfolding place
vectors_of r = elim r.embeddings [
  | v ∷ vs ↦ ok (all_some (v ∷ vs))
  | [] ↦ place (starts_indexed r.data_items) 0 (empty_slots r.data_items) r.data_items
]

-- ValidateVector fails on a vector that was never written.
unfoldable pub validate : {V : Type 0} → (V → Bool) → List (Option V) → Result Error (List V)
validate valid [] = ok []
validate valid (none ∷ slots) = err invalid
validate valid (some v ∷ slots) =
    if valid v then (validate valid slots >>= λ vs. ok (v ∷ vs)) else err invalid

-- embedOnce, from the response on.
unfoldable pub embed_once : {V : Type 0} → (V → Bool) → ℕ → Response V → Result Error (List V)
unfolding vectors_of validate
embed_once valid inputs r =
    vectors_of r >>= λ slots. if length slots == inputs then validate valid slots else err invalid

-- embedInputs: each batch is sent, and the vectors are concatenated in the order of the batches.
module _ {V : Type 0} (valid : V → Bool) (post : ℕ → List Chunk → Result Error (Response V)) where
  unfoldable pub embed_batches : ℕ → List (List Chunk) → Result Error (List V)
  embed_batches i [] = ok []
  embed_batches i (b ∷ bs) = do
    r ← post i b
    vs ← embed_once valid (length b) r
    rest ← embed_batches (i + 1) bs
    ok (vs ++ rest)

  unfoldable pub embed_inputs : ℕ → List Chunk → Result Error (List V)
  unfolding embed_batches pack
  embed_inputs limit inputs = pack limit inputs >>= embed_batches 0
