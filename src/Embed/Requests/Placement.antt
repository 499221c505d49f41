-- ===== src/Embed/Requests/Placement.antt =====
-- Where embedOnce of client.go puts the vectors of a response.
use integration_console.Prelude.{
  pos, false, none, ℕ, zero, suc, ◌+◌, ◌≡◌, refl, ap, subst, ◌∙◌, inl, inr, Bool, true, Option,
  none, some, List, [], ◌∷◌, ◌++◌, ◌==◌, Result, ok, >>=-eq-ok, arith, length, length-append,
  get_elem?, set, All, Bool-cases,
}
use integration_console.Embed.Errors.{Error}
use integration_console.Embed.Chunks.{Chunk}
use integration_console.Embed.Requests.{
  Item, Response, agrees, slot_of, is_free, put_vector, place, empty_slots, starts_indexed,
  all_some, vectors_of, validate, embed_once, embed_batches, embed_inputs, pack,
}
use integration_console.Embed.Requests.Packing.{IsPacked, pack-IsPacked}
use integration_console.Embed.Chunks.Cover.{flatten}

module _ {V : Type 0} where
  length-set : (xs : List (Option V)) (k : ℕ) (x : Option V) → length (set xs k x) ≡ length xs
  length-set [] k x = refl
  length-set (y ∷ xs) zero x = refl
  length-set (y ∷ xs) (suc k) x = ap (λ n. suc n) (length-set xs k x)

  -- A write to a free place puts the value there, and keeps every value that is already placed.
  get_elem?-set :
      (xs : List (Option V)) (k : ℕ) (v : V)
      → is_free (get_elem? xs k) ≡ true
      → get_elem? (set xs k (some v)) k ≡ some (some v)
  get_elem?-set [] k v h = cc
  get_elem?-set (y ∷ xs) zero v h = refl
  get_elem?-set (y ∷ xs) (suc k) v h = get_elem?-set xs k v h

  set_keeps :
      (xs : List (Option V)) (k l : ℕ) (v u : V)
      → is_free (get_elem? xs k) ≡ true
      → get_elem? xs l ≡ some (some u)
      → get_elem? (set xs k (some v)) l ≡ some (some u)
  set_keeps [] k l v u h e = e
  set_keeps (y ∷ xs) zero zero v u h e = absurd (ground (arith, h, e))
  set_keeps (y ∷ xs) zero (suc l) v u h e = e
  set_keeps (y ∷ xs) (suc k) zero v u h e = e
  set_keeps (y ∷ xs) (suc k) (suc l) v u h e = set_keeps xs k l v u h e

  -- Nothing that is placed moves, and no place appears or goes away.
  pub record Extends (xs ys : List (Option V)) : Type 0 where
    pub same_length : length ys ≡ length xs
    pub keeps : (l : ℕ) (u : V) → get_elem? xs l ≡ some (some u) → get_elem? ys l ≡ some (some u)

  Extends-trans : (xs ys zs : List (Option V)) → Extends xs ys → Extends ys zs → Extends xs zs
  Extends-trans xs ys zs a b = record {
    same_length = b.same_length ∙ a.same_length;
    keeps = λ l u e. b.keeps l u (a.keeps l u e);
  }

  put_vector-Extends :
      (o : Option ℕ) (v : V) (xs ys : List (Option V))
      → put_vector o v xs ≡ ok ys
      → Extends xs ys × ((k : ℕ) × (o ≡ some k) × (get_elem? ys k ≡ some (some v)))
  unfolding put_vector
  put_vector-Extends none v xs ys h = cc
  put_vector-Extends (some k) v xs ys h = elim (Bool-cases (is_free (get_elem? xs k))) [
    | inl free ↦
        (let same : set xs k (some v) ≡ ys = ground (arith, h, free) in
          subst
            (λ z. Extends xs z × ((l : ℕ) × (some k ≡ some l) × (get_elem? z l ≡ some (some v))))
            same
            (
              record {
                same_length = length-set xs k (some v);
                keeps = λ l u e. set_keeps xs k l v u free e;
              },
              (k, refl, get_elem?-set xs k v free),
            ))
    | inr taken ↦ absurd (ground (arith, h, taken))
  ]

  -- The place that an entry stands for: the one it names, or its position where no entry names one.
  abbrev pub Names : Bool → ℕ → Item V → ℕ → Type 0
  Names true i item k = item.index ≡ some (pos k)
  Names false i item k = (item.index ≡ none) × (k ≡ i)

  slot_of-Names :
      (indexed : Bool) (i : ℕ) (item : Item V) (k : ℕ)
      → agrees indexed item ≡ true
      → slot_of indexed i item ≡ some k
      → Names indexed i item k
  slot_of-Names true i item k fine at = ground (arith, fine, at)
  slot_of-Names false i item k fine at = ground (arith, fine, at)

  -- An entry's vector is at the entry's place.
  abbrev pub IsPlaced : Bool → List (Option V) → ℕ → List (Item V) → Type 0
  IsPlaced indexed slots i [] = Unit {0}
  IsPlaced indexed slots i (item ∷ items) =
      ((k : ℕ) × Names indexed i item k × (get_elem? slots k ≡ some (some item.vector)))
      × IsPlaced indexed slots (i + 1) items

  place-IsPlaced :
      (indexed : Bool) (i : ℕ) (xs : List (Option V)) (items : List (Item V)) (ys : List (Option V))
      → place indexed i xs items ≡ ok ys
      → Extends xs ys × IsPlaced indexed ys i items
  unfolding place
  place-IsPlaced indexed i xs [] ys h =
      let same : xs ≡ ys = ground (arith, h) in
      subst (λ z. Extends xs z × Unit {0}) same
        (record { same_length = refl; keeps = λ l u e. e }, tt)
  place-IsPlaced indexed i xs (item ∷ items) ys h = elim (Bool-cases (agrees indexed item)) [
    | inr mixed ↦ absurd (ground (arith, h, mixed))
    | inl fine ↦
        (let (m, one, rest) =
            >>=-eq-ok (put_vector (slot_of indexed i item) item.vector xs)
              (λ slots. place indexed (i + 1) slots items) (rw fine at h) in
          let (grown, (k, at, found)) =
            put_vector-Extends (slot_of indexed i item) item.vector xs m one in
          let (more, placed) = place-IsPlaced indexed (i + 1) m items ys rest in
          (
            Extends-trans xs m ys grown more,
            ((k, slot_of-Names indexed i item k fine at, more.keeps k item.vector found), placed),
          ))
  ]

  validate_lem :
      (valid : V → Bool) (slots : List (Option V)) (vs : List V)
      → validate valid slots ≡ ok vs
      → (slots ≡ all_some vs) × All (λ v. valid v ≡ true) vs
  unfolding validate
  validate_lem valid [] vs h =
      let same : [] ≡ vs = ground (arith, h) in
      subst (λ z. ([] ≡ all_some z) × All (λ v. valid v ≡ true) z) same (refl, tt)
  validate_lem valid (none ∷ slots) vs h = cc
  validate_lem valid (some v ∷ slots) vs h = elim (Bool-cases (valid v)) [
    | inr bad ↦ absurd (ground (arith, h, bad))
    | inl good ↦
        (let (rest, made, done) =
            >>=-eq-ok (validate valid slots) (λ r. ok (v ∷ r)) (rw good at h) in
          let same : v ∷ rest ≡ vs = ground (arith, done) in
          let (below, all) = validate_lem valid slots rest made in
          subst (λ z. (some v ∷ slots ≡ all_some z) × All (λ v. valid v ≡ true) z) same
            (ap (λ t. some v ∷ t) below, (good, all)))
  ]

  length-all_some : (vs : List V) → length (all_some vs) ≡ length vs
  length-all_some [] = refl
  length-all_some (v ∷ vs) = ap (λ n. suc n) (length-all_some vs)

  vectors_of_data :
      (r : Response V) (slots : List (Option V))
      → r.embeddings ≡ []
      → vectors_of r ≡ ok slots
      → IsPlaced (starts_indexed r.data_items) slots 0 r.data_items
  unfolding vectors_of
  vectors_of_data r slots none_given h =
      (place-IsPlaced (starts_indexed r.data_items) 0 (empty_slots r.data_items) r.data_items slots
        (rw none_given at h)).1

  embed_once_lem :
      (valid : V → Bool) (inputs : ℕ) (r : Response V) (vs : List V)
      → embed_once valid inputs r ≡ ok vs
      → (vectors_of r ≡ ok (all_some vs)) × (length vs ≡ inputs) × All (λ v. valid v ≡ true) vs
  unfolding embed_once
  embed_once_lem valid inputs r vs h =
      let (slots, made, rest) = >>=-eq-ok (vectors_of r) _ h in
      elim (Bool-cases (length slots == inputs)) [
        | inr other ↦ absurd (ground (arith, rest, other))
        | inl fits ↦
            (let (same, all) = validate_lem valid slots vs (rw fits at rest) in
              (
                made ∙ ap (λ z. ok z) same,
                ground (arith, fits, length-all_some vs, ap (λ z. length z) same),
                all,
              ))
      ]

  -- A response whose vectors come as data and pass: there is one valid vector for each input, and the
  -- vector of every entry is at the index that the entry names, or at its position where none names
  -- any.
  pub embed_once-IsPlaced :
      (valid : V → Bool) (inputs : ℕ) (r : Response V) (vs : List V)
      → r.embeddings ≡ []
      → embed_once valid inputs r ≡ ok vs
      → (length vs ≡ inputs)
        × All (λ v. valid v ≡ true) vs
        × IsPlaced (starts_indexed r.data_items) (all_some vs) 0 r.data_items
  embed_once-IsPlaced valid inputs r vs none_given h =
      let (made, fits, all) = embed_once_lem valid inputs r vs h in
      (fits, all, vectors_of_data r (all_some vs) none_given made)

module _ {V : Type 0} (valid : V → Bool) (post : ℕ → List Chunk → Result Error (Response V)) where
  length-embed_batches :
      (i : ℕ) (bs : List (List Chunk)) (vs : List V)
      → embed_batches valid post i bs ≡ ok vs
      → length vs ≡ length (flatten bs)
  unfolding embed_batches
  length-embed_batches i [] vs h = ground (arith, h)
  length-embed_batches i (b ∷ bs) vs h =
      let (r, sent, h1) = >>=-eq-ok (post i b) _ h in
      let (us, made, h2) = >>=-eq-ok (embed_once valid (length b) r) _ h1 in
      let (rest, others, done) = >>=-eq-ok (embed_batches valid post (i + 1) bs) _ h2 in
      let same : us ++ rest ≡ vs = ground (arith, done) in
      let facts = embed_once_lem valid (length b) r us made in
      subst (λ z. length z ≡ length (b ++ flatten bs)) same
        (omega (
          arith,
          length-append us rest,
          length-append b (flatten bs),
          facts.1,
          length-embed_batches (i + 1) bs rest others,
        ))

  -- A call that succeeds has one vector for each input, however the inputs were cut into batches.
  pub length-embed_inputs :
      (limit : ℕ) (inputs : List Chunk) (vs : List V)
      → embed_inputs valid post limit inputs ≡ ok vs
      → length vs ≡ length inputs
  unfolding embed_inputs
  length-embed_inputs limit inputs vs h =
      let (bs, packed, sent) = >>=-eq-ok (pack limit inputs) (embed_batches valid post 0) h in
      let fine = subst (IsPacked limit [] inputs) packed (pack-IsPacked limit inputs) in
      length-embed_batches 0 bs vs sent ∙ ap (λ z. length z) fine.0
