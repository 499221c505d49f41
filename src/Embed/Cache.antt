-- ===== src/Embed/Cache.antt =====
-- QueryCache and CachedClient of atheros-search/internal/embed/cache.go. Every method that inserts or
-- removes does so in the map and in the list together, so the list is the state, front first, and a
-- look-up by key is a search through it. A key is what `digest`, SHA-256 in hexadecimal, makes of the text
-- that CacheKey joins from a text, a kind and a generation: keys are of any type with a test of equality.
pub mod Keys
pub mod Recency
pub mod Invalidation
use integration_console.Prelude.{
  ℕ, zero, suc, ◌+◌, ◌/◌, ◌%◌, ◌++◌, Text, same_text, ◌^◌, Bool, true, false, ◌||◌, not, Option,
  none, some, List, [], ◌∷◌, ℤ, pos, negsuc, ltb, ◌==◌, if◌then◌else◌, Result, ok, err, length,
}
use integration_console.Embed.Errors.{Error}
use integration_console.Embed.Lanes.{Lane, is_worker}

-- cachedVector.
pub record Entry (K V : Type 0) : Type 0 where
  pub key : K
  pub vector : V
  pub expires_at : ℕ
  pub kind : Text

pub record QueryCache (K V : Type 0) : Type 0 where
  pub capacity : ℤ
  pub ttl : ℕ
  pub order : List (Entry K V)
  pub generations : List (Text × ℕ)

-- NewQueryCache.
unfoldable pub new_query_cache : {K V : Type 0} → ℤ → ℕ → QueryCache K V
new_query_cache capacity ttl = record {
  capacity = capacity;
  ttl = ttl;
  order = [];
  generations = [];
}

-- A missing kind has generation 0.
unfoldable pub generation_of : Text → List (Text × ℕ) → ℕ
generation_of kind [] = 0
generation_of kind ((k, g) ∷ gs) = if same_text k kind then g else generation_of kind gs

-- A uint64 wraps.
unfoldable pub bump : Text → List (Text × ℕ) → List (Text × ℕ)
bump kind [] = (kind, 1) ∷ []
bump kind ((k, g) ∷ gs) =
    if same_text k kind then (k, (g + 1) % 2 ^ 64) ∷ gs else (k, g) ∷ bump kind gs

abbrev pub exceeds : ℕ → ℤ → Bool
exceeds n (pos capacity) = ltb capacity n
exceeds n (negsuc capacity) = true

-- order.Remove(order.Back())
unfoldable pub drop_last {ℓ} : {A : Type ℓ} → List A → List A
drop_last [] = []
drop_last (x ∷ []) = []
drop_last (x ∷ y ∷ ys) = x ∷ drop_last (y ∷ ys)

-- The eviction loop. An empty list ends it, so there are at most as many rounds as entries.
unfoldable pub evict {ℓ} : {A : Type ℓ} → ℕ → ℤ → List A → List A
unfolding drop_last
evict zero capacity xs = xs
evict (suc rounds) capacity xs =
    let fewer = evict rounds capacity (drop_last xs) in
    if exceeds (length xs) capacity then fewer else xs

-- strconv.FormatUint(n, 10), with fuel for the digits: a uint64 has at most 20.
unfoldable pub decimal : ℕ → ℕ → Text
decimal zero n = []
decimal (suc fuel) n =
    let rest = decimal fuel (n / 10) in
    if ltb n 10 then (48 + n) ∷ [] else rest ++ ((48 + n % 10) ∷ [])

-- What CacheKey hashes.
unfoldable pub key_text : Text → Text → ℕ → Text
unfolding decimal
key_text text kind generation = (text ++ (0 ∷ kind)) ++ (0 ∷ decimal 20 generation)

-- CacheKey
unfoldable pub cache_key : {K : Type 0} → (Text → K) → Text → Text → ℕ → K
unfolding key_text
cache_key digest text kind generation = digest (key_text text kind generation)

module _ {K V : Type 0} (same_key : K → K → Bool) (digest : Text → K) where
  unfoldable pub find : K → List (Entry K V) → Option (Entry K V)
  find key [] = none
  find key (e ∷ es) = if same_key e.key key then some e else find key es

  unfoldable pub remove : K → List (Entry K V) → List (Entry K V)
  remove key [] = []
  remove key (e ∷ es) = if same_key e.key key then es else e ∷ remove key es

  abbrev pub key_in : Text → Text → QueryCache K V → K
  key_in text kind c = cache_key digest text kind (generation_of kind c.generations)

  -- Get: an expired entry is dropped, any other comes to the front.
  unfoldable pub get : ℕ → Text → Text → QueryCache K V → QueryCache K V × Option V
  unfolding find remove
  get now text kind c =
      let key = key_in text kind c in
      elim (find key c.order) [
        | none ↦ (c, none)
        | some e ↦
            if ltb e.expires_at now
            then (record c { order = remove key c.order }, none)
            else (record c { order = e ∷ remove key c.order }, some e.vector)
      ]

  abbrev pub is_found : Option (Entry K V) → Bool
  is_found none = false
  is_found (some e) = true

  abbrev pub fresh_entry : K → ℕ → Text → V → QueryCache K V → Entry K V
  fresh_entry key now kind v c = record {
    key = key;
    vector = v;
    expires_at = now + c.ttl;
    kind = kind;
  }

  -- Put: the entry is new or replaced, and stands at the front; a new one may evict others.
  unfoldable pub put : ℕ → Text → Text → V → QueryCache K V → QueryCache K V
  unfolding find remove evict
  put now text kind v c =
      let key = key_in text kind c in
      let e = fresh_entry key now kind v c in
      if is_found (find key c.order)
      then record c { order = e ∷ remove key c.order }
      else record c { order = evict (suc (length c.order)) c.capacity (e ∷ c.order) }

  -- InvalidateKind.
  unfoldable pub invalidate_kind : Text → QueryCache K V → QueryCache K V
  unfolding bump
  invalidate_kind kind c = record c { generations = bump kind c.generations }

  -- What follows a miss: an answer of exactly one vector is put.
  unfoldable pub keep_answer :
      ℕ
      → Text
      → Text
      → Result Error (List V)
      → QueryCache K V
      → (QueryCache K V × Bool) × Result Error (List V)
  unfolding put
  keep_answer later text kind (ok (v ∷ [])) c = ((put later text kind v c, true), ok (v ∷ []))
  keep_answer later text kind answer c = ((c, true), answer)

  unfoldable pub after_get :
      ℕ
      → Text
      → Text
      → Result Error (List V)
      → QueryCache K V × Option V
      → (QueryCache K V × Bool) × Result Error (List V)
  unfolding keep_answer
  after_get later text kind answer (c, some v) = ((c, false), ok (v ∷ []))
  after_get later text kind answer (c, none) = keep_answer later text kind answer c

  -- CachedClient.Embed, over the backend's answer, with no other call in between. A call for the worker
  -- lane, or for other than one text, goes by the cache. The second result tells whether the backend
  -- was asked.
  unfoldable pub cached_embed :
      ℕ
      → ℕ
      → Lane
      → (Text → Text)
      → List Text
      → Text
      → Result Error (List V)
      → QueryCache K V
      → (QueryCache K V × Bool) × Result Error (List V)
  unfolding get after_get
  cached_embed now later lane namespaced (text ∷ []) kind answer c =
      if is_worker lane
      then ((c, true), answer)
      else after_get later (namespaced text) kind answer (get now (namespaced text) kind c)
  cached_embed now later lane namespaced texts kind answer c = ((c, true), answer)

-- The methods of the cache, each under its mutex.
pub data Op (V : Type 0) : Type 0 where
  gets : ℕ → Text → Text → Op V
  puts : ℕ → Text → Text → V → Op V
  invalidates : Text → Op V

module _ {K V : Type 0} (same_key : K → K → Bool) (digest : Text → K) where
  unfoldable pub step : QueryCache K V → Op V → QueryCache K V
  step c (gets now text kind) = (get same_key digest now text kind c).0
  step c (puts now text kind v) = put same_key digest now text kind v c
  step c (invalidates kind) = invalidate_kind same_key digest kind c

  unfoldable pub run : QueryCache K V → List (Op V) → QueryCache K V
  unfolding step
  run c [] = c
  run c (o ∷ os) = run (step c o) os
