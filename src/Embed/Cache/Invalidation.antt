-- ===== src/Embed/Cache/Invalidation.antt =====
-- What InvalidateKind of cache.go is for: after it, no vector of the kind is found that was put before.
use integration_console.Prelude.{
  ℕ, zero, suc, ◌+◌, ◌^◌, ◌≤◌, ◌<◌, ◌≡◌, refl, subst, inl, inr, Bool, true, false, none, some, Text,
  same_text, same_text_iff, List, [], ◌∷◌, ℤ, ltb, if◌then◌else◌, arith, length, Bool-cases,
  Option-cases, All,
}
use integration_console.Embed.Cache.Keys.{IsPlain, key_text-inj}
use integration_console.Embed.Cache.{
  cache_key, key_text, Entry, QueryCache, new_query_cache, generation_of, bump, exceeds, drop_last,
  evict, find, remove, get, is_found, put, fresh_entry, invalidate_kind, Op, gets, puts,
  invalidates, step, run,
}

All-drop_last : {A : Type 0} (P : A → Type 0) (xs : List A) → All P xs → All P (drop_last xs)
unfolding drop_last
All-drop_last P [] h = tt
All-drop_last P (x ∷ []) h = tt
All-drop_last P (x ∷ y ∷ ys) h = (h.0, All-drop_last P (y ∷ ys) h.1)

All-evict :
    {A : Type 0} (P : A → Type 0) (n : ℕ) (capacity : ℤ) (xs : List A)
    → All P xs
    → All P (evict n capacity xs)
unfolding evict
All-evict P zero capacity xs h = h
All-evict P (suc n) capacity xs h = elim (Bool-cases (exceeds (length xs) capacity)) [
  | inl full ↦ rw full (All-evict P n capacity (drop_last xs) (All-drop_last P xs h))
  | inr room ↦ rw room h
]

All-map :
    {A : Type 0} (P Q : A → Type 0) (xs : List A) → ((x : A) → P x → Q x) → All P xs → All Q xs
All-map P Q [] f h = tt
All-map P Q (x ∷ xs) f h = (f x h.0, All-map P Q xs f h.1)

-- The counter of a kind goes up by one, and the others stay.
generation_of-bump :
    (kind k : Text) (gs : List (Text × ℕ))
    → generation_of kind gs + 1 < 2 ^ 64
    → generation_of k (bump kind gs)
      ≡ (if same_text kind k then generation_of kind gs + 1 else generation_of k gs)
unfolding generation_of bump
generation_of-bump kind k [] h = ground arith
generation_of-bump kind k ((l, g) ∷ gs) h = ground (
  arith,
  h,
  same_text_iff l kind,
  same_text_iff l k,
  same_text_iff kind k,
  generation_of-bump kind k gs,
)

-- The kinds that a method puts under have no NUL.
abbrev pub IsPlainOp : {V : Type 0} → Op V → Type 0
IsPlainOp (gets now text kind) = Unit
IsPlainOp (puts now text kind v) = IsPlain kind
IsPlainOp (invalidates kind) = Unit

-- Texts with equal keys are equal, which SHA-256 is relied on for.
abbrev pub IsCollisionFree : {K : Type 0} → (K → K → Bool) → (Text → K) → Type 0
IsCollisionFree same_key digest = (s t : Text) → same_key (digest s) (digest t) ≡ true → s ≡ t

module _ {K V : Type 0} (same_key : K → K → Bool) (digest : Text → K) where
  -- An entry was put under a generation of its kind that is not later than the current one.
  abbrev IsMade : List (Text × ℕ) → Entry K V → Type 0
  IsMade gs e =
      (text : Text) × (g : ℕ) × (e.key ≡ cache_key digest text e.kind g)
      × (g ≤ generation_of e.kind gs)
      × IsPlain e.kind

  record IsAged (n : ℕ) (c : QueryCache K V) : Type 0 where
    made : All (IsMade c.generations) c.order
    young : (kind : Text) → generation_of kind c.generations ≤ n

  All-remove :
      (P : Entry K V → Type 0) (key : K) (es : List (Entry K V))
      → All P es
      → All P (remove same_key digest key es)
  unfolding remove
  All-remove P key [] h = tt
  All-remove P key (e ∷ es) h = elim (Bool-cases (same_key e.key key)) [
    | inl same ↦ rw same h.1
    | inr other ↦ rw other (h.0, All-remove P key es h.1)
  ]

  All-find :
      (P : Entry K V → Type 0) (key : K) (es : List (Entry K V)) (e : Entry K V)
      → find same_key digest key es ≡ some e
      → All P es
      → P e
  unfolding find
  All-find P key [] e found h = cc
  All-find P key (x ∷ xs) e found h = elim (Bool-cases (same_key x.key key)) [
    | inl same ↦ (let it : x ≡ e = ground (arith, found, same) in subst P it h.0)
    | inr other ↦ All-find P key xs e (rw other at found) h.1
  ]

  get-IsAged :
      (n now : ℕ) (text kind : Text) (c : QueryCache K V)
      → IsAged n c
      → IsAged n (get same_key digest now text kind c).0
  unfolding get
  get-IsAged n now text kind c v =
      let key = cache_key digest text kind (generation_of kind c.generations) in
      let rest = All-remove (IsMade c.generations) key c.order v.made in
      elim (Option-cases (find same_key digest key c.order)) [
        | inl missing ↦ rw (get, missing) v
        | inr (e, found) ↦ elim (Bool-cases (ltb e.expires_at now)) [
          | inl late ↦ rw (get, found, late) (record { made = rest; young = v.young })
          | inr live ↦
              rw (get, found, live)
                (record {
                  made = (All-find (IsMade c.generations) key c.order e found v.made, rest);
                  young = v.young;
                })
        ]
      ]

  put-IsAged :
      (n now : ℕ) (text kind : Text) (u : V) (c : QueryCache K V)
      → IsPlain kind
      → IsAged n c
      → IsAged n (put same_key digest now text kind u c)
  unfolding put
  put-IsAged n now text kind u c plain v =
      let g = generation_of kind c.generations in
      let key = cache_key digest text kind g in
      let new : IsMade c.generations (fresh_entry same_key digest key now kind u c) =
        (text, g, refl, omega arith, plain) in
      elim (Bool-cases (is_found same_key digest (find same_key digest key c.order))) [
        | inl found ↦ rw found (record {
          made = (new, All-remove (IsMade c.generations) key c.order v.made);
          young = v.young;
        })
        | inr fresh ↦ rw fresh (record {
          made =
              All-evict (IsMade c.generations) (suc (length c.order)) c.capacity
                (fresh_entry same_key digest key now kind u c ∷ c.order) (new, v.made);
          young = v.young;
        })
      ]

  invalidate_kind-IsAged :
      (n : ℕ) (kind : Text) (c : QueryCache K V)
      → n + 1 < 2 ^ 64
      → IsAged n c
      → IsAged (n + 1) (invalidate_kind same_key digest kind c)
  unfolding invalidate_kind
  invalidate_kind-IsAged n kind c h v =
      let fits : generation_of kind c.generations + 1 < 2 ^ 64 = omega (arith, h, v.young kind) in
      record {
        made =
            All-map (IsMade c.generations) (IsMade (bump kind c.generations)) c.order
              (λ e m.
                let (text, g, key, le, plain) = m in
                (
                  text,
                  g,
                  key,
                  ground (
                    arith,
                    le,
                    same_text_iff kind e.kind,
                    generation_of-bump kind e.kind c.generations fits,
                  ),
                  plain,
                ))
              v.made;
        young = λ k.
            ground (arith, v.young k, v.young kind, generation_of-bump kind k c.generations fits);
      }

  older : (n : ℕ) (c : QueryCache K V) → IsAged n c → IsAged (n + 1) c
  older n c v = record { made = v.made; young = λ k. omega (arith, v.young k) }

  step-IsAged :
      (n : ℕ) (c : QueryCache K V) (o : Op V)
      → n + 1 < 2 ^ 64
      → IsPlainOp o
      → IsAged n c
      → IsAged (n + 1) (step same_key digest c o)
  unfolding step
  step-IsAged n c (gets now text kind) h q v = older n _ (get-IsAged n now text kind c v)
  step-IsAged n c (puts now text kind u) h q v = older n _ (put-IsAged n now text kind u c q v)
  step-IsAged n c (invalidates kind) h q v = invalidate_kind-IsAged n kind c h v

  run-IsAged :
      (n : ℕ) (c : QueryCache K V) (os : List (Op V))
      → n + length os < 2 ^ 64
      → All IsPlainOp os
      → IsAged n c
      → IsAged (n + length os) (run same_key digest c os)
  unfolding run step
  run-IsAged n c [] h q v = subst (λ m. IsAged m c) (let e : n ≡ n + 0 = omega arith in e) v
  run-IsAged n c (o ∷ os) h q v =
      let e : n + 1 + length os ≡ n + suc (length os) = omega arith in
      subst (λ m. IsAged m (run same_key digest (step same_key digest c o) os)) e
        (run-IsAged (n + 1) (step same_key digest c o) os (omega (arith, h)) q.1
          (step-IsAged n c o (omega (arith, h)) q.0 v))

  find-none :
      (key : K) (es : List (Entry K V))
      → All (λ e. same_key e.key key ≡ false) es
      → find same_key digest key es ≡ none
  unfolding find
  find-none key [] h = refl
  find-none key (e ∷ es) h = rw h.0 (find-none key es h.1)

  get-none :
      (now : ℕ) (text kind : Text) (c : QueryCache K V)
      → find same_key digest (cache_key digest text kind (generation_of kind c.generations)) c.order
        ≡ none
      → (get same_key digest now text kind c).1 ≡ none
  unfolding get
  get-none now text kind c missing = rw (get, missing) refl

  new-IsAged : (capacity : ℤ) (ttl : ℕ) → IsAged 0 (new_query_cache capacity ttl)
  unfolding new_query_cache generation_of
  new-IsAged capacity ttl = record { made = tt; young = λ k. omega arith }

  -- An entry of an earlier generation has another key.
  stale :
      (text kind : Text) (gs gs' : List (Text × ℕ)) (e : Entry K V)
      → IsCollisionFree same_key digest
      → IsPlain kind
      → generation_of kind gs' < 2 ^ 64
      → ((k : Text) → generation_of k gs < 2 ^ 64)
      → generation_of kind gs' ≡ generation_of kind gs + 1
      → IsMade gs e
      → same_key e.key (cache_key digest text kind (generation_of kind gs')) ≡ false
  unfolding cache_key
  stale text kind gs gs' e free plain small young up (t, g, key, le, plain_e) =
      let new = cache_key digest text kind (generation_of kind gs') in
      elim (Bool-cases (same_key e.key new)) [
        | inr other ↦ other
        | inl hit ↦
            (let hashed : key_text t e.kind g ≡ key_text text kind (generation_of kind gs') =
                free (key_text t e.kind g) (key_text text kind (generation_of kind gs'))
                  (subst (λ k. same_key k new ≡ true) key hit) in
              let both =
                key_text-inj t text e.kind kind g (generation_of kind gs') plain_e plain
                  (omega (arith, le, young e.kind)) small hashed in
              let le' = subst (λ k. g ≤ generation_of k gs) both.0 le in
              absurd (omega (arith, le', both.1, up)))
      ]

  -- Where the hash is free of collisions, the kinds have no NUL, and fewer than 2 ^ 64 methods have run on a
  -- new cache: right after a kind is invalidated, no text of that kind is found.
  pub get-invalidate_kind :
      (capacity : ℤ) (ttl : ℕ) (os : List (Op V)) (now : ℕ) (text kind : Text)
      → IsCollisionFree same_key digest
      → All IsPlainOp os
      → IsPlain kind
      → length os + 1 < 2 ^ 64
      → (get same_key digest now text kind (
          invalidate_kind same_key digest kind
            (run same_key digest (new_query_cache capacity ttl) os))).1
        ≡ none
  unfolding invalidate_kind
  get-invalidate_kind capacity ttl os now text kind free puts_plain plain h =
      let c = run same_key digest (new_query_cache capacity ttl) os in
      let aged : IsAged (0 + length os) c =
        run-IsAged 0 (new_query_cache capacity ttl) os (omega (arith, h)) puts_plain
          (new-IsAged capacity ttl) in
      let fits : generation_of kind c.generations + 1 < 2 ^ 64 =
        omega (arith, h, aged.young kind) in
      let gs = bump kind c.generations in
      let up : generation_of kind gs ≡ generation_of kind c.generations + 1 =
        ground (arith, generation_of-bump kind kind c.generations fits, same_text_iff kind kind) in
      get-none now text kind (record c { generations = gs })
        (find-none (cache_key digest text kind (generation_of kind gs)) c.order (
          All-map (IsMade c.generations) _ c.order
            (λ e m.
              stale text kind c.generations gs e free plain (omega (arith, up, fits))
                (λ k. omega (arith, h, aged.young k)) up m)
            aged.made))
