-- ===== src/SavedViews/Refinement.antt =====
-- What the table of savedviews.go means: one map from identifiers to views for each owner.
use integration_console.Prelude.{
  ◌≡◌, refl, ap, sym, ◌∙◌, Result-cases, inl, inr, Bool, true, false, not, Option, none, some, List,
  [], ◌∷◌, if◌then◌else◌, Result, ok, err, Text, same_text, same_text_iff, same_text_refl, keep,
  keep_yes, keep_no, arith, Bool-cases,
}
use integration_console.SavedViews.Plans.{is_view→≡, plan_update-IsUpdate}
use integration_console.SavedViews.{Row, ViewError}
use integration_console.SavedViews.Store.{
  Folding, is_view, find_view, replace_view, create_saved_view, update_saved_view,
  delete_saved_view, Op, creates, updates, deletes, step, run, plan_create, plan_update,
  plan_delete,
}

-- The specification: each owner's map from identifiers to views.
abbrev pub Views : Type 0
Views = Text → Text → Option Row

abbrev pub assign : Row → Option Row → Views → Views
assign row value f owner id = if is_view owner id row then value else f owner id

-- What an operation that succeeds does to the maps. One that fails does nothing.
abbrev pub applied : Op → Result ViewError Row → Views → Views
applied (creates owner name state id now verdict) (ok row) f = assign row (some row) f
applied (updates owner id name state expected now verdict) (ok row) f = assign row (some row) f
applied (deletes owner id verdict) (ok row) f = assign row none f
applied o (err e) f = f

unfoldable pub replay : List Op → List (Result ViewError Row) → Views → Views
replay [] answers f = f
replay (o ∷ os) [] f = f
replay (o ∷ os) (answer ∷ answers) f = replay os answers (applied o answer f)

-- Two rows under one key are selected by the same statements.
is_view_agree :
    (new row : Row) (owner id : Text)
    → is_view new.owner new.id row ≡ true
    → is_view owner id row ≡ is_view owner id new
is_view_agree new row owner id h =
    let (of_id, of_owner) = same_text_iff row.id new.id in
    let same_owner = same_text_iff row.owner new.owner in
    let both : (same_text row.id new.id ≡ true) × (same_text row.owner new.owner ≡ true) =
      ground (arith, h) in
    rw (of_id both.0, same_owner.0 both.1) refl

pub find_view-replace_other :
    (new : Row) (owner id : Text) (rows : List Row)
    → is_view owner id new ≡ false
    → find_view owner id (replace_view new rows) ≡ find_view owner id rows
unfolding find_view replace_view
find_view-replace_other new owner id [] h = refl
find_view-replace_other new owner id (row ∷ rows) h =
    elim (Bool-cases (is_view new.owner new.id row)) [
      | inl it ↦
          (let same = is_view_agree new row owner id it in
            rw (it, h, same ∙ h) (find_view-replace_other new owner id rows h))
      | inr other ↦ rw other (
          ap (λ z. if is_view owner id row then some row else z)
            (find_view-replace_other new owner id rows h))
    ]

find_view-replace_same :
    (old new : Row) (rows : List Row)
    → find_view new.owner new.id rows ≡ some old
    → is_view new.owner new.id new ≡ true
    → find_view new.owner new.id (replace_view new rows) ≡ some new
unfolding find_view replace_view
find_view-replace_same old new [] h self = cc
find_view-replace_same old new (row ∷ rows) h self =
    elim (Bool-cases (is_view new.owner new.id row)) [
      | inl it ↦ rw (it, self) refl
      | inr other ↦ rw (other, other) (find_view-replace_same old new rows (rw other at h) self)
    ]

pub is_view_self : (row : Row) → is_view row.owner row.id row ≡ true
is_view_self row = rw (same_text_refl row.id) (same_text_refl row.owner)

pub find_view-replace :
    (old new : Row) (owner id : Text) (rows : List Row)
    → find_view new.owner new.id rows ≡ some old
    → find_view owner id (replace_view new rows)
      ≡ (if is_view owner id new then some new else find_view owner id rows)
find_view-replace old new owner id rows h = elim (Bool-cases (is_view owner id new)) [
  | inl it ↦
      (let keys = is_view→≡ new owner id it in
        rw (it, sym keys.0, sym keys.1) (find_view-replace_same old new rows h (is_view_self new)))
  | inr other ↦ rw other (find_view-replace_other new owner id rows other)
]

view_apart :
    (gone row : Row) (owner id : Text)
    → is_view owner id row ≡ true
    → is_view gone.owner gone.id row ≡ false
    → is_view owner id gone ≡ false
view_apart gone row owner id here other = elim (Bool-cases (is_view owner id gone)) [
  | inl it ↦
      (let (same_owner, same_id) = is_view→≡ gone owner id it in
        let both : is_view gone.owner gone.id row ≡ true = rw (same_owner, same_id) here in cc)
  | inr apart ↦ apart
]

pub find_view-keep :
    (gone : Row) (owner id : Text) (rows : List Row)
    → find_view owner id (keep (λ row. not (is_view gone.owner gone.id row)) rows)
      ≡ (if is_view owner id gone then none else find_view owner id rows)
unfolding find_view
find_view-keep gone owner id [] = ground arith
find_view-keep gone owner id (row ∷ rows) =
    let stays : Row → Bool = λ row. not (is_view gone.owner gone.id row) in
    let before = find_view-keep gone owner id rows in
    elim (Bool-cases (is_view gone.owner gone.id row)) [
      | inl it ↦
          (let same = is_view_agree gone row owner id it in
            let out = ap (find_view owner id) (keep_no stays row rows (ap not it)) in
            ground (arith, before, out, same))
      | inr other ↦
          (let out = ap (find_view owner id) (keep_yes stays row rows (ap not other)) in
            out ∙ (elim (Bool-cases (is_view owner id row)) [
              | inl here ↦
                  (let apart : is_view owner id gone ≡ false =
                      view_apart gone row owner id here other in
                    rw (here, apart) refl)
              | inr there ↦ rw there before
            ]))
    ]

module _ (folding : Folding) where
  step-refines :
      (rows : List Row) (o : Op) (owner id : Text)
      → find_view owner id (step folding rows o).0
        ≡ applied o (step folding rows o).1 (λ o i. find_view o i rows) owner id
  unfolding step create_saved_view update_saved_view delete_saved_view find_view
  step-refines rows (creates by name state new now verdict) owner id =
      elim (Result-cases (plan_create folding by name state new now verdict rows)) [
        | inl (e, failed) ↦ rw failed refl
        | inr (row, done) ↦ rw done refl
      ]
  step-refines rows (updates by key name state expected now verdict) owner id =
      elim (Result-cases (plan_update folding by key name state expected now verdict rows)) [
        | inl (e, failed) ↦ rw failed refl
        | inr (row, done) ↦
            (let (old, it, _, _) =
                plan_update-IsUpdate folding by key name state expected now verdict rows row done in
              rw done (find_view-replace old row owner id rows it.found))
      ]
  step-refines rows (deletes by key verdict) owner id =
      elim (Result-cases (plan_delete by key verdict rows)) [
        | inl (e, failed) ↦ rw failed refl
        | inr (row, done) ↦ rw done (find_view-keep row owner id rows)
      ]

applied-cong :
    (o : Op) (answer : Result ViewError Row) (f g : Views)
    → ((owner id : Text) → f owner id ≡ g owner id)
    → (owner id : Text) → applied o answer f owner id ≡ applied o answer g owner id
applied-cong (creates by name state new now verdict) (ok row) f g h owner id =
    ap (λ z. if is_view owner id row then some row else z) (h owner id)
applied-cong (updates by key name state expected now verdict) (ok row) f g h owner id =
    ap (λ z. if is_view owner id row then some row else z) (h owner id)
applied-cong (deletes by key verdict) (ok row) f g h owner id =
    ap (λ z. if is_view owner id row then none else z) (h owner id)
applied-cong (creates by name state new now verdict) (err e) f g h owner id = h owner id
applied-cong (updates by key name state expected now verdict) (err e) f g h owner id = h owner id
applied-cong (deletes by key verdict) (err e) f g h owner id = h owner id

replay-cong :
    (os : List Op) (answers : List (Result ViewError Row)) (f g : Views)
    → ((owner id : Text) → f owner id ≡ g owner id)
    → (owner id : Text) → replay os answers f owner id ≡ replay os answers g owner id
unfolding replay
replay-cong [] answers f g h owner id = h owner id
replay-cong (o ∷ os) [] f g h owner id = h owner id
replay-cong (o ∷ os) (a ∷ answers) f g h owner id =
    replay-cong os answers (applied o a f) (applied o a g) (applied-cong o a f g h) owner id

module _ (folding : Folding) where
  -- After any sequence of operations, the view that each owner has under each identifier is the one that the
  -- specification reaches from the views before by the operations that succeeded: a create or an
  -- update assigns the view that it answers, a delete removes it, and one that fails changes nothing.
  pub run_refines :
      (rows : List Row) (os : List Op) (owner id : Text)
      → find_view owner id (run folding rows os).0
        ≡ replay os (run folding rows os).1 (λ o i. find_view o i rows) owner id
  unfolding run replay
  run_refines rows [] owner id = refl
  run_refines rows (o ∷ os) owner id =
      run_refines (step folding rows o).0 os owner id
      ∙ replay-cong os (run folding (step folding rows o).0 os).1 _ _ (step-refines folding rows o)
          owner id
