-- ===== src/Auth/Freshness.antt =====
-- The keys that the cache of auth.go answers with are recent.
use integration_console.Prelude.{
  get_entry, ℕ, ◌+◌, ◌≤◌, ◌<◌, ◌≡◌, refl, ap, ◌∙◌, subst, ◌⊎◌, inl, inr, Bool, true, false, Option,
  none, some, List, [], ◌∷◌, ltb, Text, arith, Bool-cases, Option-cases, All,
}
use integration_console.Auth.Keys.{
  Jwk, RsaKey, Verifier, refresh_cooldown, key_lifetime, new_verifier, is_recent,
  record_missing_key, read_key, read_found, read_absent, Reading, cached, unknown, unknown_recorded,
  outdated, missed_recently, fetched, install, refresh, reread, answer, key, Op, refreshes, records,
  step, run,
}

module _ (decode : Text → Option Text) where
  -- The clock goes forward within a refresh, by less than 270 seconds between its two last readings.
  abbrev pub IsTimed : Op decode → Type 0
  IsTimed (refreshes asked first second document) =
      (asked ≤ first) × (first ≤ second) × (second ≤ first + 270000000000)
  IsTimed (records id now) = Unit

  cached-inj : {a b : RsaKey} → cached a ≡ cached b → a ≡ b
  cached-inj h = cc

  -- The keys outlive the cooldown, and not by more than they may.
  record IsRecent (v : Verifier) : Type 0 where
    long : (v.keys ≡ []) ⊎ (v.last_refresh + refresh_cooldown ≤ v.expiry)
    short : v.expiry ≤ v.last_refresh + key_lifetime

  install-IsRecent :
      (first second : ℕ) (v : Verifier) (keys : List (Text × RsaKey))
      → first ≤ second
      → second ≤ first + 270000000000
      → IsRecent v
      → IsRecent (install decode first second v keys).0
  install-IsRecent first second v [] h k r = r
  install-IsRecent first second v (entry ∷ rest) h k r = record {
    long = inr (omega arith);
    short = omega arith;
  }

  refresh-IsRecent :
      (asked first second : ℕ) (document : Option (List Jwk)) (v : Verifier)
      → first ≤ second
      → second ≤ first + 270000000000
      → IsRecent v
      → IsRecent (refresh decode asked first second document v).0
  unfolding refresh
  refresh-IsRecent asked first second document v h k r =
      elim (Bool-cases (is_recent asked v.last_refresh)) [
        | inl recent ↦ rw (refresh, recent) r
        | inr due ↦
            rw (refresh, due) (install-IsRecent first second v (fetched decode document) h k r)
      ]

  run-IsRecent :
      (v : Verifier) (os : List (Op decode))
      → All IsTimed os
      → IsRecent v
      → IsRecent (run decode v os)
  unfolding run step record_missing_key
  run-IsRecent v [] t r = r
  run-IsRecent v (refreshes asked first second document ∷ os) t r =
      run-IsRecent (refresh decode asked first second document v).0 os t.1
        (refresh-IsRecent asked first second document v t.0.1 t.0.2 r)
  run-IsRecent v (records id now ∷ os) t r =
      run-IsRecent (record_missing_key id now v) os t.1 (record { long = r.long; short = r.short })

  -- A key that is answered is one of those fetched last, less than five minutes ago.
  abbrev pub IsFresh : Text → ℕ → Verifier → RsaKey → Type 0
  IsFresh id now v k =
      (get_entry id v.keys ≡ some k) × (now < v.expiry) × (v.expiry ≤ v.last_refresh + 300000000000)

  present : (id : Text) (v : Verifier) (k : RsaKey) → get_entry id v.keys ≡ some k → v.keys ≡ [] → ⊥
  unfolding get_entry
  present id v k h empty = let gone : get_entry id v.keys ≡ none = ap (get_entry id) empty in cc

  recent-IsFresh :
      (id : Text) (now : ℕ) (v : Verifier) (k : RsaKey)
      → IsRecent v
      → get_entry id v.keys ≡ some k
      → now < v.last_refresh + refresh_cooldown
      → IsFresh id now v k
  recent-IsFresh id now v k r h soon = elim r.long [
    | inl gone ↦ absurd (present id v k h gone)
    | inr long ↦ (h, omega (arith, soon, long), r.short)
  ]

  read_found-cached :
      (now : ℕ) (v : Verifier) (key k : RsaKey)
      → read_found now v key ≡ cached k
      → (key ≡ k) × ((now < v.expiry) ⊎ (now < v.last_refresh + refresh_cooldown))
  unfolding read_found
  read_found-cached now v key k h = elim (Bool-cases (ltb now v.expiry)) [
    | inl live ↦ (cached-inj (rw live at h), inl (ground (arith, live)))
    | inr late ↦ elim (Bool-cases (is_recent now v.last_refresh)) [
      | inl soon ↦ (cached-inj (rw (late, soon) at h), inr (ground (arith, soon)))
      | inr due ↦ (let never : outdated ≡ cached k = rw (late, due) at h in cc)
    ]
  ]

  read_absent-cached :
      (id : Text) (now : ℕ) (v : Verifier) (k : RsaKey) → read_absent id now v ≡ cached k → ⊥
  unfolding read_absent
  read_absent-cached id now v k h =
      elim (Bool-cases (missed_recently now (get_entry id v.missing_keys))) [
        | inl missed ↦ (let never : unknown ≡ cached k = rw missed at h in cc)
        | inr new ↦ elim (Bool-cases (is_recent now v.last_refresh)) [
          | inl soon ↦ (let never : unknown_recorded ≡ cached k = rw (new, soon) at h in cc)
          | inr due ↦ (let never : outdated ≡ cached k = rw (new, due) at h in cc)
        ]
      ]

  -- The cached key, found in the first locked section.
  read_key-cached :
      (id : Text) (now : ℕ) (v : Verifier) (k : RsaKey)
      → IsRecent v
      → read_key id now v ≡ cached k
      → IsFresh id now v k
  unfolding read_key
  read_key-cached id now v k r h = elim (Option-cases (get_entry id v.keys)) [
    | inl absent ↦ absurd (read_absent-cached id now v k (rw absent at h))
    | inr (held, found) ↦
        (let (same, soon) = read_found-cached now v held k (rw found at h) in
          let here : get_entry id v.keys ≡ some k = found ∙ ap some same in
          elim soon [
            | inl live ↦ (here, live, r.short)
            | inr recent ↦ recent-IsFresh id now v k r here recent
          ])
  ]

  -- After a refresh that returns no error, the keys outlive the time before it.
  refresh-live :
      (now asked first second : ℕ) (document : Option (List Jwk)) (v v' : Verifier)
      → now ≤ asked
      → asked ≤ first
      → IsRecent v
      → refresh decode asked first second document v ≡ (v', true)
      → (v'.keys ≡ []) ⊎ (now < v'.expiry)
  unfolding refresh
  refresh-live now asked first second document v v' h k r e =
      elim (Bool-cases (is_recent asked v.last_refresh)) [
        | inl recent ↦
            (let same : v ≡ v' = ap (λ p. p.0) (rw recent at e) in
              let soon : asked < v.last_refresh + refresh_cooldown = ground (arith, recent) in
              subst (λ v. (v.keys ≡ []) ⊎ (now < v.expiry)) same
                (elim r.long [
                  | inl gone ↦ inl gone
                  | inr long ↦ inr (omega (arith, soon, long, h))
                ]))
        | inr due ↦ installed (fetched decode document) (rw due at e)
      ]
    where
      installed :
          (keys : List (Text × RsaKey))
          → install decode first second v keys ≡ (v', true)
          → (v'.keys ≡ []) ⊎ (now < v'.expiry)
      installed [] e = (let never : false ≡ true = ap (λ p. p.1) e in cc)
      installed (entry ∷ rest) e =
          (let until : first + key_lifetime ≡ v'.expiry = ap (λ p. p.0.expiry) e in
            inr (omega (arith, until, h, k)))

  reread-IsFresh :
      (id : Text) (now : ℕ) (v v' : Verifier) (k : RsaKey)
      → IsRecent v
      → (v.keys ≡ []) ⊎ (now < v.expiry)
      → reread decode id now (v, true) ≡ (v', some k)
      → IsFresh id now v' k
  reread-IsFresh id now v v' k r live h = elim (Option-cases (get_entry id v.keys)) [
    | inl absent ↦ (let never : none ≡ some k = ap (λ p. p.1) (rw absent at h) in cc)
    | inr (held, found) ↦
        (let same : v ≡ v' = ap (λ p. p.0) (rw found at h) in
          let key_is : some held ≡ some k = ap (λ p. p.1) (rw found at h) in
          let here : get_entry id v.keys ≡ some k = found ∙ key_is in
          subst (λ v. IsFresh id now v k) same
            (elim live [
              | inl gone ↦ absurd (present id v k here gone)
              | inr until ↦ (here, until, r.short)
            ]))
  ]

  after_refresh-IsFresh :
      (id : Text) (now asked first second : ℕ) (document : Option (List Jwk)) (v v' : Verifier)
      (k : RsaKey) (refreshed : Verifier × Bool)
      → IsRecent v
      → now ≤ asked
      → IsTimed (refreshes asked first second document)
      → refresh decode asked first second document v ≡ refreshed
      → reread decode id now refreshed ≡ (v', some k)
      → IsFresh id now v' k
  after_refresh-IsFresh id now asked first second document v v' k (w, false) r h t done e =
      let never : none ≡ some k = ap (λ p. p.1) e in cc
  after_refresh-IsFresh id now asked first second document v v' k (w, true) r h t done e =
      let recent : IsRecent w =
        subst IsRecent (ap (λ p. p.0) done)
          (refresh-IsRecent asked first second document v t.1 t.2 r) in
      reread-IsFresh id now w v' k recent
        (refresh-live now asked first second document v w h t.0 r done) e

  answer-IsFresh :
      (id : Text) (now asked first second : ℕ) (document : Option (List Jwk)) (v v' : Verifier)
      (k : RsaKey) (reading : Reading)
      → IsRecent v
      → now ≤ asked
      → IsTimed (refreshes asked first second document)
      → read_key id now v ≡ reading
      → answer decode id now asked first second document v reading ≡ (v', some k)
      → IsFresh id now v' k
  answer-IsFresh id now asked first second document v v' k (cached held) r h t found e =
      let same : v ≡ v' = ap (λ p. p.0) e in
      let key_is : some held ≡ some k = ap (λ p. p.1) e in
      let it : held ≡ k = cc in
      subst (λ v. IsFresh id now v k) same (read_key-cached id now v k r (found ∙ ap cached it))
  answer-IsFresh id now asked first second document v v' k unknown r h t found e =
      let never : none ≡ some k = ap (λ p. p.1) e in cc
  answer-IsFresh id now asked first second document v v' k unknown_recorded r h t found e =
      let never : none ≡ some k = ap (λ p. p.1) e in cc
  answer-IsFresh id now asked first second document v v' k outdated r h t found e =
      after_refresh-IsFresh id now asked first second document v v' k
        (refresh decode asked first second document v) r h t refl e

  -- After any locked sections of the cache, in any order, a call that is given a key has one of the keys
  -- fetched last, whose lifetime has not ended at the start of the call and is at most five minutes. The
  -- clock goes forward within a refresh and within the call, by less than 270 seconds between its
  -- two last readings in a refresh.
  pub key-IsFresh :
      (os : List (Op decode)) (id : Text) (now asked first second : ℕ)
      (document : Option (List Jwk)) (v' : Verifier) (k : RsaKey)
      → All IsTimed os
      → now ≤ asked
      → IsTimed (refreshes asked first second document)
      → key decode id now asked first second document (run decode new_verifier os) ≡ (v', some k)
      → IsFresh id now v' k
  unfolding key
  key-IsFresh os id now asked first second document v' k timed h t e =
      let v = run decode new_verifier os in
      let fresh : IsRecent new_verifier = record { long = inl refl; short = omega arith } in
      answer-IsFresh id now asked first second document v v' k (read_key id now v)
        (run-IsRecent new_verifier os timed fresh) h t refl e
