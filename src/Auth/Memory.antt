-- ===== src/Auth/Memory.antt =====
-- The cache of keys of auth.go does not grow with the tokens that callers send.
use integration_console.Prelude.{
  get_entry, set_entry, delete_entry, ℕ, suc, ◌≤◌, ◌<◌, ◌≡◌, refl, ap, inl, inr, Bool, true, Option,
  none, some, List, [], ◌∷◌, ltb, leb, Text, same_text, same_text_refl, length, keep, keep_yes,
  keep_no, All, arith, Bool-cases,
}
use integration_console.Auth.Keys.{
  Jwk, RsaKey, Verifier, new_verifier, is_recent, oldest_from, without_oldest, record_missing_key,
  fetched, install, refresh, Op, refreshes, records, step, run, max_missing_keys,
}

module _ {A : Type 0} where
  length-keep : (p : A → Bool) (xs : List A) → length (keep p xs) ≤ length xs
  length-keep p [] = omega arith
  length-keep p (x ∷ xs) = elim (Bool-cases (p x)) [
    | inl stays ↦ rw (keep_yes p x xs stays) (omega (arith, length-keep p xs))
    | inr goes ↦ rw (keep_no p x xs goes) (omega (arith, length-keep p xs))
  ]

length-set_entry :
    (id : Text) (t : ℕ) (es : List (Text × ℕ)) → length (set_entry id t es) ≤ suc (length es)
unfolding set_entry
length-set_entry id t [] = omega arith
length-set_entry id t ((k, u) ∷ es) = elim (Bool-cases (same_text k id)) [
  | inl same ↦ rw same (omega arith)
  | inr other ↦ rw other (omega (arith, length-set_entry id t es))
]

length-delete_entry :
    (id : Text) (t : ℕ) (es : List (Text × ℕ))
    → get_entry id es ≡ some t
    → suc (length (delete_entry id es)) ≡ length es
unfolding get_entry delete_entry
length-delete_entry id t [] h = cc
length-delete_entry id t ((k, u) ∷ es) h = elim (Bool-cases (same_text k id)) [
  | inl same ↦ rw same refl
  | inr other ↦ rw other (ap (λ n. suc n) (length-delete_entry id t es (rw other at h)))
]

-- The entry that is found as the oldest is one of the list.
abbrev IsIn : List (Text × ℕ) → Option (Text × ℕ) → Type 0
IsIn es none = ⊥
IsIn es (some (id, t)) = (u : ℕ) × (get_entry id es ≡ some u)

oldest_from-IsIn :
    (all es : List (Text × ℕ)) (best : Option (Text × ℕ))
    → IsIn all best
    → All (λ e. IsIn all (some e)) es
    → IsIn all (oldest_from best es)
unfolding oldest_from
oldest_from-IsIn all [] best h k = h
oldest_from-IsIn all ((id, t) ∷ es) none h k = absurd h
oldest_from-IsIn all ((id, t) ∷ es) (some (l, u)) h k = elim (Bool-cases (ltb t u)) [
  | inl first ↦ rw first (oldest_from-IsIn all es (some (id, t)) k.0 k.1)
  | inr later ↦ rw later (oldest_from-IsIn all es (some (l, u)) h k.1)
]

IsIn-tail : (x e : Text × ℕ) (es : List (Text × ℕ)) → IsIn es (some e) → IsIn (x ∷ es) (some e)
unfolding get_entry
IsIn-tail (k, w) (id, t) es (u, h) = elim (Bool-cases (same_text k id)) [
  | inl same ↦ (w, rw same refl)
  | inr other ↦ (u, rw other h)
]

all-IsIn_tail :
    (x : Text × ℕ) (es xs : List (Text × ℕ))
    → All (λ e. IsIn es (some e)) xs
    → All (λ e. IsIn (x ∷ es) (some e)) xs
all-IsIn_tail x es [] h = tt
all-IsIn_tail x es (e ∷ xs) h = (IsIn-tail x e es h.0, all-IsIn_tail x es xs h.1)

IsIn-head : (id : Text) (t : ℕ) (es : List (Text × ℕ)) → IsIn ((id, t) ∷ es) (some (id, t))
unfolding get_entry
IsIn-head id t es = (t, rw (same_text_refl id) refl)

all-IsIn : (es : List (Text × ℕ)) → All (λ e. IsIn es (some e)) es
all-IsIn [] = tt
all-IsIn ((id, t) ∷ es) = (IsIn-head id t es, all-IsIn_tail (id, t) es es (all-IsIn es))

deleted :
    (es : List (Text × ℕ)) (best : Option (Text × ℕ))
    → length es ≤ max_missing_keys
    → IsIn es best
    → length (without_oldest best es) < max_missing_keys
deleted es none h found = absurd found
deleted es (some (id, t)) h (u, found) = omega (arith, h, length-delete_entry id u es found)

-- A list with an entry is shorter without its oldest.
length-without_oldest :
    (es : List (Text × ℕ))
    → length es ≤ max_missing_keys
    → leb max_missing_keys (length es) ≡ true
    → length (without_oldest (oldest_from none es) es) < max_missing_keys
unfolding oldest_from
length-without_oldest [] h full = ground arith
length-without_oldest ((id, t) ∷ es) h full =
    let all = all-IsIn ((id, t) ∷ es) in
    let found = oldest_from-IsIn ((id, t) ∷ es) es (some (id, t)) (IsIn-head id t es) all.1 in
    deleted ((id, t) ∷ es) (oldest_from (some (id, t)) es) h found

length-record_missing_key :
    (id : Text) (now : ℕ) (v : Verifier)
    → length v.missing_keys ≤ max_missing_keys
    → length (record_missing_key id now v).missing_keys ≤ max_missing_keys
unfolding record_missing_key
length-record_missing_key id now v h =
    let recent : Text × ℕ → Bool = λ entry. is_recent now entry.1 in
    let kept = keep recent v.missing_keys in
    let fewer = length-keep recent v.missing_keys in
    elim (Bool-cases (leb max_missing_keys (length kept))) [
      | inl full ↦
          (let room = length-without_oldest kept (omega (arith, h, fewer)) full in
            let set = length-set_entry id now (without_oldest (oldest_from none kept) kept) in
            rw full (omega (arith, room, set)))
      | inr fits ↦
          (let few : length kept < max_missing_keys = ground (arith, fits) in
            let set = length-set_entry id now kept in rw fits (omega (arith, few, set)))
    ]

length-refresh :
    (decode : Text → Option Text) (asked first second : ℕ) (document : Option (List Jwk))
    (v : Verifier)
    → (refresh decode asked first second document v).0.missing_keys ≡ v.missing_keys
unfolding refresh
length-refresh decode asked first second document v =
    elim (Bool-cases (is_recent asked v.last_refresh)) [
      | inl recent ↦ rw (refresh, recent) refl
      | inr due ↦ rw (refresh, due) (installed (fetched decode document))
    ]
  where
    installed :
        (keys : List (Text × RsaKey))
        → (install decode first second v keys).0.missing_keys ≡ v.missing_keys
    installed [] = refl
    installed (entry ∷ rest) = refl

step-bounded :
    (decode : Text → Option Text) (v : Verifier) (o : Op decode)
    → length v.missing_keys ≤ max_missing_keys
    → length (step decode v o).missing_keys ≤ max_missing_keys
unfolding step
step-bounded decode v (refreshes asked first second document) h =
    rw (length-refresh decode asked first second document v) h
step-bounded decode v (records id now) h = length-record_missing_key id now v h

run-bounded :
    (decode : Text → Option Text) (v : Verifier) (os : List (Op decode))
    → length v.missing_keys ≤ max_missing_keys
    → length (run decode v os).missing_keys ≤ max_missing_keys
unfolding run
run-bounded decode v [] h = h
run-bounded decode v (o ∷ os) h =
    run-bounded decode (step decode v o) os (step-bounded decode v o h)

-- Whatever tokens callers send, a new cache never remembers more than 1024 unknown key identifiers.
pub missing_keys_bounded :
    (decode : Text → Option Text) (os : List (Op decode))
    → length (run decode new_verifier os).missing_keys ≤ 1024
missing_keys_bounded decode os = run-bounded decode new_verifier os (omega arith)
