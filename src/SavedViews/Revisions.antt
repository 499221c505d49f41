-- ===== src/SavedViews/Revisions.antt =====
-- Optimistic revisions of savedviews.go: no update overwrites one that its caller has not read.
use integration_console.Prelude.{
  ℕ, ◌<◌, ◌≡◌, ◌≢◌, ap, sym, ◌∙◌, subst, inl, inr, true, false, none, some, List, [], ◌∷◌, ℤ, pos,
  Text, same_text, All, arith, Bool-cases, Result, Result-cases, ok, err, if◌then◌else◌,
}
use integration_console.SavedViews.{Row, ViewState, ViewError}
use integration_console.SavedViews.Store.{
  Folding, is_view, find_view, has_id, Verdict, Op, creates, updates, deletes, step, run,
  create_saved_view, update_saved_view, delete_saved_view, replace_view, commit_update, plan_create,
  plan_update, plan_delete,
}
use integration_console.SavedViews.Plans.{
  is_view→≡, IsUpdate, IsCreate, plan_create-IsCreate, plan_update-IsUpdate, plan_delete-found,
}
use integration_console.SavedViews.Refinement.{is_view_self, find_view-replace, find_view-keep}

err-ok : {e : ViewError} {row : Row} → err e ≡ ok row → ⊥
err-ok h = cc

some-inj : {a b : Row} → some a ≡ some b → a ≡ b
some-inj h = cc

find_view_at :
    (row : Row) (owner id : Text) (rows : List Row)
    → row.owner ≡ owner
    → row.id ≡ id
    → find_view row.owner row.id rows ≡ find_view owner id rows
find_view_at row owner id rows same_owner same_id =
    ap (λ o. find_view o row.id rows) same_owner ∙ ap (λ i. find_view owner i rows) same_id

-- The owner's view has a later revision.
record HasPast (past : ℕ) (owner id : Text) (rows : List Row) : Type 0 where
  row : Row
  found : find_view owner id rows ≡ some row
  later : past < row.revision

-- A call that removes no view of the owner.
abbrev pub IsNoDelete : Text → Op → Type 0
IsNoDelete owner (deletes by id verdict) = same_text by owner ≡ false
IsNoDelete owner (creates by name state id now verdict) = Unit
IsNoDelete owner (updates by id name state expected now verdict) = Unit

has_id-found :
    (owner id : Text) (rows : List Row) (row : Row)
    → find_view owner id rows ≡ some row
    → has_id id rows ≡ true
unfolding find_view has_id
has_id-found owner id [] row h = cc
has_id-found owner id (r ∷ rows) row h = elim (Bool-cases (is_view owner id r)) [
  | inl it ↦ ground (arith, it)
  | inr other ↦ (let rest = has_id-found owner id rows row (rw other at h) in ground (arith, rest))
]

module _ (folding : Folding) where
  create-HasPast :
      (past : ℕ) (owner id by new : Text) (rows : List Row) (row : Row)
      → IsCreate folding by new rows row
      → HasPast past owner id rows
      → HasPast past owner id (row ∷ rows)
  unfolding find_view
  create-HasPast past owner id by new rows row c p = elim (Bool-cases (is_view owner id row)) [
    | inl it ↦
        (let same : id ≡ new = sym (is_view→≡ row owner id it).1 ∙ c.id_is in
          let taken = has_id-found owner id rows p.row p.found in
          let free = subst (λ i. has_id i rows ≡ false) (sym same) c.new_id in cc)
    | inr other ↦ record { row = p.row; found = rw other p.found; later = p.later }
  ]

  update-HasPast :
      (past : ℕ) (owner id : Text) (expected : ℤ) (rows : List Row) (old row : Row)
      → IsUpdate folding expected rows old row
      → HasPast past owner id rows
      → HasPast past owner id (replace_view row rows)
  update-HasPast past owner id expected rows old row u p =
      let after = find_view-replace old row owner id rows u.found in
      elim (Bool-cases (is_view owner id row)) [
        | inl it ↦
            (let (same_owner, same_id) = is_view→≡ row owner id it in
              let before = find_view_at row owner id rows same_owner same_id in
              let same : p.row ≡ old = some-inj (sym p.found ∙ sym before ∙ u.found) in
              let grew : p.row.revision ≡ old.revision = ap (λ r. r.revision) same in
              record {
                row = row;
                found = after ∙ ap (λ b. if b then some row else find_view owner id rows) it;
                later = omega (arith, p.later, u.next, grew);
              })
        | inr other ↦ record {
          row = p.row;
          found = after ∙ ap (λ b. if b then some row else find_view owner id rows) other ∙ p.found;
          later = p.later;
        }
      ]

  step-HasPast :
      (past : ℕ) (owner id : Text) (rows : List Row) (o : Op)
      → IsNoDelete owner o
      → HasPast past owner id rows
      → HasPast past owner id (step folding rows o).0
  unfolding step create_saved_view update_saved_view delete_saved_view
  step-HasPast past owner id rows (creates by name state new now verdict) keeps p =
      elim (Result-cases (plan_create folding by name state new now verdict rows)) [
        | inl (e, failed) ↦ rw failed p
        | inr (row, done) ↦ rw done (
            create-HasPast past owner id by new rows row
              (plan_create-IsCreate folding by name state new now verdict rows row done) p)
      ]
  step-HasPast past owner id rows (updates by key name state expected now verdict) keeps p =
      elim (Result-cases (plan_update folding by key name state expected now verdict rows)) [
        | inl (e, failed) ↦ rw failed p
        | inr (row, done) ↦
            (let (old, u, _, _) =
                plan_update-IsUpdate folding by key name state expected now verdict rows row done in
              rw done (update-HasPast past owner id expected rows old row u p))
      ]
  step-HasPast past owner id rows (deletes by key verdict) keeps p =
      elim (Result-cases (plan_delete by key verdict rows)) [
        | inl (e, failed) ↦ rw failed p
        | inr (row, done) ↦
            (let mine = (plan_delete-found by key verdict rows row done).1 in
              let apart : is_view owner id row ≡ false =
                ground (arith, ap (λ x. same_text x owner) mine ∙ keeps) in
              rw done (record {
                row = p.row;
                found =
                    find_view-keep row owner id rows
                    ∙ ap (λ b. if b then none else find_view owner id rows) apart
                    ∙ p.found;
                later = p.later;
              }))
      ]

  run-HasPast :
      (past : ℕ) (owner id : Text) (rows : List Row) (os : List Op)
      → All (IsNoDelete owner) os
      → HasPast past owner id rows
      → HasPast past owner id (run folding rows os).0
  unfolding run
  run-HasPast past owner id rows [] h p = p
  run-HasPast past owner id rows (o ∷ os) h p =
      run-HasPast past owner id (step folding rows o).0 os h.1
        (step-HasPast past owner id rows o h.0 p)

ok-inj : {A : Type 0} {a b : A} → ◌≡◌ {A = Result ViewError A} (ok a) (ok b) → a ≡ b
ok-inj h = cc

pos-inj : {m n : ℕ} → pos m ≡ pos n → m ≡ n
pos-inj h = cc

module _ (folding : Folding) where
  update-ok :
      (owner id name : Text) (state : ViewState) (expected : ℤ) (now : ℕ) (verdict : Verdict)
      (rows : List Row) (row : Row)
      → (update_saved_view folding owner id name state expected now verdict rows).1 ≡ ok row
      → (plan_update folding owner id name state expected now verdict rows ≡ ok row)
        × ((update_saved_view folding owner id name state expected now verdict rows).0
            ≡ replace_view row rows)
  unfolding update_saved_view
  update-ok owner id name state expected now verdict rows row h =
      elim (Result-cases (plan_update folding owner id name state expected now verdict rows)) [
        | inl (e, failed) ↦ absurd (err-ok (rw failed at h))
        | inr (new, done) ↦
            (let same : ◌≡◌ {A = Result ViewError Row} (ok new) (ok row) = rw done at h in
              (done ∙ same, ap (λ r. (commit_update rows r).0) (done ∙ same)))
      ]

  updated-HasPast :
      (expected : ℤ) (rows : List Row) (old row : Row)
      → IsUpdate folding expected rows old row
      → HasPast old.revision row.owner row.id (replace_view row rows)
  updated-HasPast expected rows old row u = record {
    row = row;
    found =
        find_view-replace old row row.owner row.id rows u.found
        ∙ ap (λ b. if b then some row else find_view row.owner row.id rows) (is_view_self row);
    later = omega (arith, u.next);
  }

  -- After an update that succeeded, another update of the same view that expects the same revision fails, also
  -- after any further operations among which the owner deletes nothing: of the callers that have
  -- read one revision, one at most writes.
  pub update-stale :
      (owner id name₁ name₂ : Text) (state₁ state₂ : ViewState) (expected : ℤ) (now₁ now₂ : ℕ)
      (verdict₁ verdict₂ : Verdict) (rows : List Row) (row₁ row₂ : Row) (os : List Op)
      → (update_saved_view folding owner id name₁ state₁ expected now₁ verdict₁ rows).1 ≡ ok row₁
      → All (IsNoDelete owner) os
      → let rows' =
          (update_saved_view folding owner id name₁ state₁ expected now₁ verdict₁ rows).0 in
        (update_saved_view folding owner id name₂ state₂ expected now₂ verdict₂
          (run folding rows' os).0).1
        ≢ ok row₂
  unfolding update_saved_view
  update-stale owner id name₁ name₂ state₁ state₂ expected now₁ now₂ verdict₁ verdict₂ rows row₁
        row₂ os first keeps second =
      let (plan₁, table) = update-ok owner id name₁ state₁ expected now₁ verdict₁ rows row₁ first in
      let (old₁, u₁, mine₁, at₁) =
        plan_update-IsUpdate folding owner id name₁ state₁ expected now₁ verdict₁ rows row₁ plan₁ in
      let past = updated-HasPast expected rows old₁ row₁ u₁ in
      let rows' = (update_saved_view folding owner id name₁ state₁ expected now₁ verdict₁ rows).0 in
      let there : HasPast old₁.revision owner row₁.id rows' =
        subst (λ rs. HasPast old₁.revision owner row₁.id rs) (sym table)
          (subst (λ o. HasPast old₁.revision o row₁.id (replace_view row₁ rows)) mine₁ past) in
      let last = run-HasPast folding old₁.revision owner row₁.id rows' os keeps there in
      let (plan₂, _) =
        update-ok owner id name₂ state₂ expected now₂ verdict₂ (run folding rows' os).0 row₂
          second in
      let (old₂, u₂, mine₂, at₂) =
        plan_update-IsUpdate folding owner id name₂ state₂ expected now₂ verdict₂
          (run folding rows' os).0 row₂ plan₂ in
      let same_id : row₂.id ≡ row₁.id = ok-inj (sym at₂ ∙ at₁) in
      let same : last.row ≡ old₂ = some-inj (
        sym last.found
        ∙ sym (find_view_at row₂ owner row₁.id (run folding rows' os).0 mine₂ same_id)
        ∙ u₂.found) in
      let grew : last.row.revision ≡ old₂.revision = ap (λ r. r.revision) same in
      let equal : old₂.revision ≡ old₁.revision = pos-inj (sym u₂.expected_is ∙ u₁.expected_is) in
      omega (arith, last.later, grew, equal)
