-- ===== src/SavedViews/Invariant.antt =====
-- What every table of saved views keeps, whatever the service of savedviews.go is asked.
use integration_console.Prelude.{
  ℕ, ◌+◌, ◌≤◌, ◌<◌, ◌≡◌, refl, ap, sym, ◌∙◌, subst, inl, inr, Bool, true, false, not, ◌&&◌, List,
  [], ◌∷◌, Text, same_text, same_text→≡, trim_space, some, keep, keep_yes, keep_no, sum_of, All,
  arith, Bool-cases, Result-cases, ℤ,
}
use integration_console.SavedViews.{Row}
use integration_console.SavedViews.Store.{
  Folding, weight, is_owned, is_view, find_view, owned_count, replace_view, Op, creates, updates,
  deletes, step, run, create_saved_view, update_saved_view, delete_saved_view, plan_create,
  plan_update, plan_delete,
}
use integration_console.SavedViews.Plans.{
  IsName, IsCreate, IsUpdate, plan_create-IsCreate, plan_update-IsUpdate, plan_create-name,
  plan_update-name,
}
use integration_console.SavedViews.Counts.{
  identified, named, has_id-none, is_name_taken-none, sum_of-keep, sum_of-replace,
  is_name_taken-but,
}

-- A text of ASCII characters.
abbrev pub IsAscii : Text → Type 0
IsAscii s = All (λ c. c < 128) s

abbrev pub IsRow : Row → Type 0
IsRow row = (1 ≤ row.revision) × IsName row.name × IsAscii row.name

-- The names that a call stores are ASCII.
abbrev pub IsAsciiOp : Op → Type 0
IsAsciiOp (creates owner name state id now verdict) = IsAscii (trim_space name)
IsAsciiOp (updates owner id name state expected now verdict) = IsAscii (trim_space name)
IsAsciiOp (deletes owner id verdict) = Unit

-- On ASCII names, what EqualFold takes for equal has one lower().
abbrev pub IsAgreed : Folding → Type 0
IsAgreed folding =
    (s t : Text)
    → IsAscii s
    → IsAscii t
    → folding.equal_fold s t ≡ true
    → folding.lower s ≡ folding.lower t

All-find_view :
    (P : Row → Type 0) (owner id : Text) (rows : List Row) (row : Row)
    → find_view owner id rows ≡ some row
    → All P rows
    → P row
unfolding find_view
All-find_view P owner id [] row h a = cc
All-find_view P owner id (r ∷ rows) row h a = elim (Bool-cases (is_view owner id r)) [
  | inl it ↦ (let same : r ≡ row = ground (arith, h, it) in subst P same a.0)
  | inr other ↦ All-find_view P owner id rows row (rw other at h) a.1
]

module _ (folding : Folding) where
  pub record IsStore (rows : List Row) : Type 0 where
    pub limit : (owner : Text) → owned_count owner rows ≤ 20
    pub ids : (id : Text) → sum_of (identified id) rows ≤ 1
    pub names : (owner key : Text) → sum_of (named folding owner key) rows ≤ 1
    pub each : All IsRow rows

All-keep : (P : Row → Type 0) (p : Row → Bool) (rows : List Row) → All P rows → All P (keep p rows)
All-keep P p [] h = tt
All-keep P p (row ∷ rows) h = elim (Bool-cases (p row)) [
  | inl stays ↦ rw (keep_yes p row rows stays) (h.0, All-keep P p rows h.1)
  | inr goes ↦ rw (keep_no p row rows goes) (All-keep P p rows h.1)
]

All-replace :
    (P : Row → Type 0) (new : Row) (rows : List Row)
    → P new
    → All P rows
    → All P (replace_view new rows)
unfolding replace_view
All-replace P new [] n h = tt
All-replace P new (row ∷ rows) n h = elim (Bool-cases (is_view new.owner new.id row)) [
  | inl it ↦ rw it (n, All-replace P new rows n h.1)
  | inr other ↦ rw other (h.0, All-replace P new rows n h.1)
]

module _ (folding : Folding) where
  named_keys :
      (owner key : Text) (row : Row)
      → (is_owned owner row && same_text (folding.lower row.name) key) ≡ true
      → (row.owner ≡ owner) × (folding.lower row.name ≡ key)
  named_keys owner key row h =
      let both : (is_owned owner row ≡ true) × (same_text (folding.lower row.name) key ≡ true) =
        ground (arith, h) in
      (same_text→≡ row.owner owner both.0, same_text→≡ (folding.lower row.name) key both.1)

  named_same :
      (owner key : Text) (a b : Row)
      → a.owner ≡ b.owner
      → folding.lower a.name ≡ folding.lower b.name
      → named folding owner key a ≡ named folding owner key b
  named_same owner key a b o n =
      ap (λ x. weight (same_text x owner && same_text (folding.lower a.name) key)) o
      ∙ ap (λ x. weight (same_text b.owner owner && same_text x key)) n

room_for : (b : Bool) (n bound : ℕ) → n ≤ bound → (b ≡ true → n < bound) → weight b + n ≤ bound
room_for true n bound h room = let r = room refl in omega arith
room_for false n bound h room = omega arith

module _ (folding : Folding) where
  create-IsStore :
      (owner id : Text) (rows : List Row) (row : Row)
      → IsAscii row.name
      → IsStore folding rows
      → IsCreate folding owner id rows row
      → IsStore folding (row ∷ rows)
  unfolding owned_count
  create-IsStore owner id rows row ascii v c = record {
    limit = λ o. room_for (is_owned o row) _ 20 (v.limit o) (λ it.
        let same : owner ≡ o = sym c.owner_is ∙ same_text→≡ row.owner o it in
        subst (λ o. owned_count o rows < 20) same c.room);
    ids = λ i. room_for (same_text row.id i) _ 1 (v.ids i) (λ it.
        let same : id ≡ i = sym c.id_is ∙ same_text→≡ row.id i it in
        let absent =
          subst (λ i. sum_of (identified i) rows ≡ 0) same (has_id-none id rows c.new_id) in
        omega (arith, absent));
    names = λ o key.
        room_for (is_owned o row && same_text (folding.lower row.name) key) _ 1 (v.names o key)
          (λ it.
            let (same_owner, same_key) = named_keys folding o key row it in
            let free = is_name_taken-none folding owner row.name rows c.free in
            let absent : sum_of (named folding o key) rows ≡ 0 =
              subst (λ k. sum_of (named folding o k) rows ≡ 0) same_key
                (subst (λ o. sum_of (named folding o (folding.lower row.name)) rows ≡ 0)
                  (sym c.owner_is ∙ same_owner) free) in
            omega (arith, absent));
    each = ((ground (arith, c.first), c.named, ascii), v.each);
  }

  update-IsStore :
      (expected : ℤ) (rows : List Row) (old row : Row)
      → IsAgreed folding
      → IsAscii row.name
      → IsStore folding rows
      → IsUpdate folding expected rows old row
      → IsStore folding (replace_view row rows)
  unfolding owned_count
  update-IsStore expected rows old row agree ascii v u =
      let moved = λ (w : Row → ℕ). sum_of-replace w old row rows u.found (v.ids row.id) in
      record {
        limit = λ o.
            (let kept = ap (λ x. weight (same_text x o)) u.owner_kept in
              omega (arith, v.limit o, moved (λ row. weight (is_owned o row)), kept));
        ids = λ i.
            (let kept = ap (λ x. weight (same_text x i)) u.id_kept in
              omega (arith, v.ids i, moved (identified i), kept));
        names = λ o key. elim u.free [
          | inl folds ↦
              (let kept : named folding o key row ≡ named folding o key old =
                  named_same folding o key row old u.owner_kept (
                    sym (
                      agree old.name row.name
                        (All-find_view IsRow row.owner row.id rows old u.found v.each).2 ascii
                        folds)) in
                omega (arith, v.names o key, moved (named folding o key), kept))
          | inr free ↦
              elim (Bool-cases (is_owned o row && same_text (folding.lower row.name) key)) [
                | inl it ↦
                    (let (same_owner, same_key) = named_keys folding o key row it in
                      let only =
                        is_name_taken-but folding row.owner row.id row.name old rows u.found
                          (v.ids row.id) free in
                      let here : sum_of (named folding o key) rows ≡ named folding o key old =
                        subst (λ k. sum_of (named folding o k) rows ≡ named folding o k old)
                          same_key
                          (subst
                            (λ o.
                              sum_of (named folding o (folding.lower row.name)) rows
                              ≡ named folding o (folding.lower row.name) old)
                            same_owner only) in
                      omega (arith, moved (named folding o key), here, ap weight it))
                | inr other ↦
                    omega (arith, moved (named folding o key), v.names o key, ap weight other)
              ]
        ];
        each = All-replace IsRow row rows (ground (arith, u.next), u.named, ascii) v.each;
      }

  keep-IsStore :
      (p : Row → Bool) (rows : List Row) → IsStore folding rows → IsStore folding (keep p rows)
  unfolding owned_count
  keep-IsStore p rows v = record {
    limit = λ o. omega (arith, v.limit o, sum_of-keep (λ row. weight (is_owned o row)) p rows);
    ids = λ i. omega (arith, v.ids i, sum_of-keep (identified i) p rows);
    names = λ o key. omega (arith, v.names o key, sum_of-keep (named folding o key) p rows);
    each = All-keep IsRow p rows v.each;
  }

  step-IsStore :
      (rows : List Row) (o : Op)
      → IsAgreed folding
      → IsAsciiOp o
      → IsStore folding rows
      → IsStore folding (step folding rows o).0
  unfolding step create_saved_view update_saved_view delete_saved_view
  step-IsStore rows (creates owner name state id now verdict) agree plain v =
      elim (Result-cases (plan_create folding owner name state id now verdict rows)) [
        | inl (e, failed) ↦ rw failed v
        | inr (row, done) ↦
            (let named_so =
                plan_create-name folding owner name state id now verdict rows row done in
              rw done (
                create-IsStore owner id rows row (subst IsAscii (sym named_so) plain) v
                  (plan_create-IsCreate folding owner name state id now verdict rows row done)))
      ]
  step-IsStore rows (updates owner id name state expected now verdict) agree plain v =
      elim (Result-cases (plan_update folding owner id name state expected now verdict rows)) [
        | inl (e, failed) ↦ rw failed v
        | inr (row, done) ↦
            (let (old, u, _, _) =
                plan_update-IsUpdate folding owner id name state expected now verdict rows row
                  done in
              let named_so =
                plan_update-name folding owner id name state expected now verdict rows row done in
              rw done (
                update-IsStore expected rows old row agree (subst IsAscii (sym named_so) plain) v
                  u))
      ]
  step-IsStore rows (deletes owner id verdict) agree plain v =
      elim (Result-cases (plan_delete owner id verdict rows)) [
        | inl (e, failed) ↦ rw failed v
        | inr (row, done) ↦ rw done (keep-IsStore (λ r. not (is_view row.owner row.id r)) rows v)
      ]

  run-keeps_IsStore :
      (rows : List Row) (os : List Op)
      → IsAgreed folding
      → All IsAsciiOp os
      → IsStore folding rows
      → IsStore folding (run folding rows os).0
  unfolding run
  run-keeps_IsStore rows [] agree plain v = v
  run-keeps_IsStore rows (o ∷ os) agree plain v =
      run-keeps_IsStore (step folding rows o).0 os agree plain.1
        (step-IsStore rows o agree plain.0 v)

  -- After any sequence of operations on an empty table that store ASCII names, where ASCII names that
  -- strings.EqualFold takes for equal have one lower(): no owner has more than 20 views, no two rows share
  -- an identifier, no owner has two views whose names are equal under lower(), every revision is at
  -- least 1, and every name has 1 to 80 characters.
  pub run-IsStore :
      (os : List Op) → IsAgreed folding → All IsAsciiOp os → IsStore folding (run folding [] os).0
  unfolding owned_count
  run-IsStore os agree plain = run-keeps_IsStore [] os agree plain (record {
    limit = λ o. omega arith;
    ids = λ i. omega arith;
    names = λ o key. omega arith;
    each = tt;
  })
