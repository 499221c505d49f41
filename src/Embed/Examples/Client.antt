-- ===== src/Embed/Examples/Client.antt =====
-- Runs of the theorems on what the client of internal/embed does with texts and vectors.
use integration_console.Prelude.{
  Text, codes, same_text, same_text_refl, same_text→≡, ℕ, ◌≡◌, refl, true, false, none, some, List,
  [], ◌∷◌, pos, length, ok, arith, ltb,
}
use integration_console.Embed.Errors.{Error}
use integration_console.Prelude.{zero, suc, Result, Bool, All}
use integration_console.Embed.Chunks.{Chunk, pieces}
use integration_console.Embed.Chunks.Cover.{flatten, IsPiece, pieces-IsPiece}
use integration_console.Embed.Requests.{
  Response, pack, starts_indexed, all_some, embed_once, vectors_of, place, put_vector, validate,
}
use integration_console.Embed.Requests.Packing.{IsBatch, pack-IsBatch}
use integration_console.Embed.Requests.Placement.{IsPlaced, embed_once-IsPlaced}
use integration_console.Embed.Cache as Cache
use integration_console.Embed.Cache.{
  cache_key, QueryCache, Op as CacheOp, gets, puts, invalidates, new_query_cache, get, put,
  invalidate_kind,
}
use integration_console.Embed.Cache.Invalidation.{get-invalidate_kind}
use integration_console.Embed.Cache.Recency.{get-put}

-- `repeat n`: n tokens.
abbrev repeat : ℕ → List ℕ
repeat zero = []
repeat (suc n) = 1 ∷ repeat n

pieces-IsPiece_example :
    (flatten (pieces (repeat 500)) ≡ repeat 500) × All IsPiece (pieces (repeat 500))
pieces-IsPiece_example = pieces-IsPiece (repeat 500)

abbrev chunk : ℕ → Chunk
chunk n = record { text = "part"; token_count = n }

pack-IsBatch_example :
    (bs : List (List Chunk)) × (pack 512 (chunk 300 ∷ chunk 200 ∷ chunk 480 ∷ []) ≡ ok bs)
    × (flatten bs ≡ chunk 300 ∷ chunk 200 ∷ chunk 480 ∷ [])
    × All (IsBatch 512) bs
pack-IsBatch_example =
    pack-IsBatch 512 (chunk 300 ∷ chunk 200 ∷ chunk 480 ∷ [])
      (ground arith, (ground arith, (ground arith, tt)))

-- Two vectors, in the other order.
abbrev swapped : Response ℕ
swapped = record {
  embeddings = [];
  data_items =
      record { index = some (pos 1); vector = 8 }
      ∷ record { index = some (pos 0); vector = 7 }
      ∷ [];
}

embed_once-IsPlaced_example :
    (length {A = ℕ} (7 ∷ 8 ∷ []) ≡ 2)
    × All (λ v. ltb 0 v ≡ true) (7 ∷ 8 ∷ [])
    × IsPlaced (starts_indexed swapped.data_items) (all_some (7 ∷ 8 ∷ [])) 0 swapped.data_items
unfolding embed_once vectors_of place put_vector validate
embed_once-IsPlaced_example = embed_once-IsPlaced (λ v. ltb 0 v) 2 swapped (7 ∷ 8 ∷ []) refl refl

abbrev post : ℕ → List Chunk → Result Error (Response ℕ)
post i batch = ok swapped

abbrev checks : List (ℕ × Bool)
checks = (10, false) ∷ (20, true) ∷ []

-- A digest that keeps the text itself.
abbrev digest : Text → Text
digest s = s

abbrev cache : QueryCache Text ℕ
cache = record {
  capacity = pos 1;
  ttl = 60;
  order =
      record {
        key = cache_key digest (codes "q0") (codes "event") 0;
        vector = 5;
        expires_at = 70;
        kind = codes "event";
      }
      ∷ [];
  generations = [];
}

get-put_example :
    let (c', found) =
      get same_text digest 30
        (codes "q1")
        (codes "event")
        (put same_text digest 20 (codes "q1") (codes "event") 9 cache) in
    (found ≡ some 9) × ((get same_text digest 80 (codes "q1") (codes "event") c').1 ≡ some 9)
get-put_example =
    get-put same_text digest 20 30 80 (codes "q1") (codes "event") 9 cache 1 same_text_refl refl
      (ground arith) (ground arith) (ground arith)

abbrev uses : List (CacheOp ℕ)
uses =
    puts 1 (codes "q1") (codes "event") 5
    ∷ gets 2 (codes "q1") (codes "event")
    ∷ invalidates (codes "event")
    ∷ puts 3 (codes "q2") (codes "event") 6
    ∷ []

get-invalidate_kind_example :
    (get same_text digest 5 (codes "q1") (codes "event") (
      invalidate_kind same_text digest
        (codes "event")
        (Cache.run same_text digest (new_query_cache (pos 1) 60) uses))).1
    ≡ none
get-invalidate_kind_example =
    get-invalidate_kind same_text digest (pos 1) 60 uses 5 (codes "q1") (codes "event")
      (λ s t h. same_text→≡ s t h) (ground arith) (ground arith) (ground arith)
