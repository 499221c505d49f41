-- ===== src/Embed/Cache/Recency.antt =====
-- What the cache of cache.go keeps, and for how long.
use integration_console.Prelude.{
  ℕ, zero, suc, ◌+◌, ◌-◌, ◌≤◌, ◌<◌, ◌≡◌, refl, sym, ap, subst, inl, inr, Bool, true, false, some,
  Text, List, [], ◌∷◌, pos, ltb, arith, length, Bool-cases, Option-cases,
}
use integration_console.Embed.Cache.{
  cache_key, Entry, QueryCache, new_query_cache, generation_of, drop_last, evict, find, remove, get,
  is_found, put, invalidate_kind, Op, gets, puts, invalidates, step, run,
}

module _ {ℓ} {A : Type ℓ} where
  length-drop_last : (xs : List A) → length (drop_last xs) ≡ length xs - 1
  unfolding drop_last
  length-drop_last [] = omega arith
  length-drop_last (x ∷ []) = omega arith
  length-drop_last (x ∷ y ∷ ys) = omega (arith, length-drop_last (y ∷ ys))

  length-evict :
      (n capacity : ℕ) (xs : List A)
      → length xs ≤ n + capacity
      → length (evict n (pos capacity) xs) ≤ capacity
  unfolding evict
  length-evict zero capacity xs h = omega (arith, h)
  length-evict (suc n) capacity xs h =
      ground (arith, length-evict n capacity (drop_last xs), length-drop_last xs)

  -- The front of the list outlives an eviction where there is room for one entry.
  evict-front :
      (n capacity : ℕ) (x : A) (xs : List A)
      → 0 < capacity
      → (ys : List A) × (evict n (pos capacity) (x ∷ xs) ≡ x ∷ ys)
  unfolding evict drop_last
  evict-front zero capacity x xs h = (xs, refl)
  evict-front (suc n) capacity x [] h = ([], ground arith)
  evict-front (suc n) capacity x (y ∷ ys) h =
      elim (Bool-cases (ltb capacity (length (x ∷ y ∷ ys)))) [
        | inl full ↦ rw full (evict-front n capacity x (drop_last (y ∷ ys)) h)
        | inr room ↦ rw room (y ∷ ys, refl)
      ]

module _ {K V : Type 0} (same_key : K → K → Bool) (digest : Text → K) where
  find-front :
      (e : Entry K V) (es : List (Entry K V))
      → same_key e.key e.key ≡ true
      → find same_key digest e.key (e ∷ es) ≡ some e
  unfolding find
  find-front e es h = rw h refl

  length-remove :
      (key : K) (es : List (Entry K V))
      → is_found same_key digest (find same_key digest key es) ≡ true
      → suc (length (remove same_key digest key es)) ≡ length es
  unfolding find remove
  length-remove key [] h = cc
  length-remove key (e ∷ es) h = elim (Bool-cases (same_key e.key key)) [
    | inl same ↦ rw same refl
    | inr other ↦ rw other (ap (λ n. suc n) (length-remove key es (rw other at h)))
  ]

  put-front :
      (now : ℕ) (text kind : Text) (v : V) (c : QueryCache K V) (capacity : ℕ)
      → c.capacity ≡ pos capacity
      → 0 < capacity
      → (ys : List (Entry K V)) × ((put same_key digest now text kind v c).order
          ≡ record {
            key = cache_key digest text kind (generation_of kind c.generations);
            vector = v;
            expires_at = now + c.ttl;
            kind = kind;
          }
            ∷ ys)
        × ((put same_key digest now text kind v c).generations ≡ c.generations)
  unfolding put
  put-front now text kind v c capacity e h =
      let key = cache_key digest text kind (generation_of kind c.generations) in
      elim (Bool-cases (is_found same_key digest (find same_key digest key c.order))) [
        | inl found ↦ rw found (remove same_key digest key c.order, refl, refl)
        | inr new ↦
            (let (ys, at) =
                evict-front (suc (length c.order)) capacity
                  (record { key = key; vector = v; expires_at = now + c.ttl; kind = kind }) c.order
                  h in
              rw (new, e) (ys, at, refl))
      ]

  get-front :
      (later : ℕ) (text kind : Text) (c : QueryCache K V) (e : Entry K V) (ys : List (Entry K V))
      → c.order ≡ e ∷ ys
      → e.key ≡ cache_key digest text kind (generation_of kind c.generations)
      → same_key e.key e.key ≡ true
      → later ≤ e.expires_at
      → (get same_key digest later text kind c ≡ (record c { order = e ∷ ys }, some e.vector))
  unfolding get find remove
  get-front later text kind c e ys order key same h =
      let live : ltb e.expires_at later ≡ false = ground (arith, h) in
      let hit : same_key e.key (cache_key digest text kind (generation_of kind c.generations))
          ≡ true =
        subst (λ k. same_key e.key k ≡ true) key same in
      rw (get, order, hit, live)
        (let gone : remove same_key digest
                (cache_key digest text kind (generation_of kind c.generations)) c.order
              ≡ ys =
            rw (order, hit) refl in
          ap (λ z. (record c { order = e ∷ z }, some e.vector)) gone)

  -- Where a key equals itself, and the cache has room for one entry, what was put is found until
  -- its time is over, at once and after another look-up of it.
  pub get-put :
      (now later last : ℕ) (text kind : Text) (v : V) (c : QueryCache K V) (capacity : ℕ)
      → ((key : K) → same_key key key ≡ true)
      → c.capacity ≡ pos capacity
      → 0 < capacity
      → later ≤ now + c.ttl
      → last ≤ now + c.ttl
      → let (c', found) =
          get same_key digest later text kind (put same_key digest now text kind v c) in
        (found ≡ some v) × ((get same_key digest last text kind c').1 ≡ some v)
  get-put now later last text kind v c capacity same room some_room h k =
      let (ys, order, generations) = put-front now text kind v c capacity room some_room in
      let key = cache_key digest text kind (generation_of kind c.generations) in
      let kept = put same_key digest now text kind v c in
      let e : Entry K V = record { key = key; vector = v; expires_at = now + c.ttl; kind = kind } in
      let current : key ≡ cache_key digest text kind (generation_of kind kept.generations) =
        sym (ap (λ g. cache_key digest text kind (generation_of kind g)) generations) in
      let first = get-front later text kind kept e ys order current (same key) h in
      let second =
        get-front last text kind (record kept { order = e ∷ ys }) e ys refl current (same key) k in
      (
        ap (λ r. r.1) first,
        subst (λ r. (get same_key digest last text kind r.0).1 ≡ some v) (sym first)
            (ap (λ r. r.1) second),
      )

  abbrev IsWithin : QueryCache K V → ℕ → Type 0
  IsWithin c capacity = (c.capacity ≡ pos capacity) × (length c.order ≤ capacity)

  get-IsWithin :
      (now : ℕ) (text kind : Text) (c : QueryCache K V) (capacity : ℕ)
      → IsWithin c capacity
      → IsWithin (get same_key digest now text kind c).0 capacity
  unfolding get
  get-IsWithin now text kind c capacity h =
      let key = cache_key digest text kind (generation_of kind c.generations) in
      elim (Option-cases (find same_key digest key c.order)) [
        | inl missing ↦ rw (get, missing) h
        | inr (e, found) ↦
            (let shorter = length-remove key c.order (rw found refl) in
              elim (Bool-cases (ltb e.expires_at now)) [
                | inl late ↦ rw (get, found, late) (h.0, omega (arith, h.1, shorter))
                | inr live ↦ rw (get, found, live) (h.0, omega (arith, h.1, shorter))
              ])
      ]

  put-IsWithin :
      (now : ℕ) (text kind : Text) (v : V) (c : QueryCache K V) (capacity : ℕ)
      → IsWithin c capacity
      → IsWithin (put same_key digest now text kind v c) capacity
  unfolding put
  put-IsWithin now text kind v c capacity h =
      let key = cache_key digest text kind (generation_of kind c.generations) in
      elim (Bool-cases (is_found same_key digest (find same_key digest key c.order))) [
        | inl found ↦ rw found (h.0, omega (arith, h.1, length-remove key c.order found))
        | inr new ↦
            rw (new, h.0)
              (
                refl,
                length-evict (suc (length c.order)) capacity
                    (record { key = key; vector = v; expires_at = now + c.ttl; kind = kind }
                      ∷ c.order)
                    (omega (arith, h.1)),
              )
      ]

  step-IsWithin :
      (c : QueryCache K V) (o : Op V) (capacity : ℕ)
      → IsWithin c capacity
      → IsWithin (step same_key digest c o) capacity
  unfolding step invalidate_kind
  step-IsWithin c (gets now text kind) capacity h = get-IsWithin now text kind c capacity h
  step-IsWithin c (puts now text kind v) capacity h = put-IsWithin now text kind v c capacity h
  step-IsWithin c (invalidates kind) capacity h = h

  run-IsWithin :
      (c : QueryCache K V) (os : List (Op V)) (capacity : ℕ)
      → IsWithin c capacity
      → IsWithin (run same_key digest c os) capacity
  unfolding run
  run-IsWithin c [] capacity h = h
  run-IsWithin c (o ∷ os) capacity h =
      run-IsWithin (step same_key digest c o) os capacity (step-IsWithin c o capacity h)

  -- A new cache with a capacity that is not negative never holds more entries than that, after any
  -- sequence of its methods.
  pub length-run :
      (capacity ttl : ℕ) (os : List (Op V))
      → length (run same_key digest (new_query_cache (pos capacity) ttl) os).order ≤ capacity
  unfolding new_query_cache
  length-run capacity ttl os =
      (run-IsWithin (new_query_cache (pos capacity) ttl) os capacity (refl, omega arith)).1
