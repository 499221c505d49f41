-- ===== src/SavedViews/Isolation.antt =====
-- No owner of savedviews.go sees what another one does.
use integration_console.Prelude.{
  ◌≡◌, refl, ap, sym, ◌∙◌, inl, inr, Bool, false, not, List, [], ◌∷◌, Text, same_text, keep,
  keep_yes, keep_no, All, Bool-cases, Result-cases, ok, ◌>>=◌,
}
use integration_console.SavedViews.{Row, require_owner, normalize_surface}
use integration_console.SavedViews.Store.{
  Folding, is_owned, is_view, replace_view, Op, creates, updates, deletes, owner_of, step, run,
  create_saved_view, update_saved_view, delete_saved_view, plan_create, plan_update, plan_delete,
  list_saved_views,
}
use integration_console.SavedViews.Plans.{
  is_view→≡, plan_create-IsCreate, plan_update-IsUpdate, plan_delete-found,
}

abbrev pub IsByOthers : Text → Op → Type 0
IsByOthers owner o = same_text (owner_of o) owner ≡ false

keep-cong :
    (p : Row → Bool) (row : Row) (xs ys : List Row)
    → keep p xs ≡ keep p ys
    → keep p (row ∷ xs) ≡ keep p (row ∷ ys)
keep-cong p row xs ys h = elim (Bool-cases (p row)) [
  | inl stays ↦ keep_yes p row xs stays ∙ ap (λ rs. row ∷ rs) h ∙ sym (keep_yes p row ys stays)
  | inr goes ↦ keep_no p row xs goes ∙ h ∙ sym (keep_no p row ys goes)
]

keep-replace :
    (owner : Text) (new : Row) (rows : List Row)
    → is_owned owner new ≡ false
    → keep (is_owned owner) (replace_view new rows) ≡ keep (is_owned owner) rows
unfolding replace_view
keep-replace owner new [] h = refl
keep-replace owner new (row ∷ rows) h = elim (Bool-cases (is_view new.owner new.id row)) [
  | inl it ↦
      (let same = (is_view→≡ row new.owner new.id it).0 in
        let foreign : is_owned owner row ≡ false = ap (λ x. same_text x owner) same ∙ h in
        rw it (
          keep_no (is_owned owner) new (replace_view new rows) h
          ∙ keep-replace owner new rows h
          ∙ sym (keep_no (is_owned owner) row rows foreign)))
  | inr other ↦
      rw other (
        keep-cong (is_owned owner) row (replace_view new rows) rows (keep-replace owner new rows h))
]

keep-delete :
    (owner : Text) (gone : Row) (rows : List Row)
    → is_owned owner gone ≡ false
    → keep (is_owned owner) (keep (λ row. not (is_view gone.owner gone.id row)) rows)
      ≡ keep (is_owned owner) rows
keep-delete owner gone [] h = refl
keep-delete owner gone (row ∷ rows) h =
    let stays : Row → Bool = λ row. not (is_view gone.owner gone.id row) in
    elim (Bool-cases (is_view gone.owner gone.id row)) [
      | inl it ↦
          (let same = (is_view→≡ row gone.owner gone.id it).0 in
            let foreign : is_owned owner row ≡ false = ap (λ x. same_text x owner) same ∙ h in
            ap (keep (is_owned owner)) (keep_no stays row rows (ap not it))
            ∙ keep-delete owner gone rows h
            ∙ sym (keep_no (is_owned owner) row rows foreign))
      | inr other ↦
          ap (keep (is_owned owner)) (keep_yes stays row rows (ap not other))
          ∙ keep-cong (is_owned owner) row (keep stays rows) rows (keep-delete owner gone rows h)
    ]

foreign :
    (owner by : Text) (row : Row)
    → row.owner ≡ by
    → same_text by owner ≡ false
    → is_owned owner row ≡ false
foreign owner by row e h = ap (λ x. same_text x owner) e ∙ h

module _ (folding : Folding) where
  keep-step :
      (owner : Text) (rows : List Row) (o : Op)
      → IsByOthers owner o
      → keep (is_owned owner) (step folding rows o).0 ≡ keep (is_owned owner) rows
  unfolding step create_saved_view update_saved_view delete_saved_view
  keep-step owner rows (creates by name state id now verdict) h =
      elim (Result-cases (plan_create folding by name state id now verdict rows)) [
        | inl (e, failed) ↦ rw failed refl
        | inr (row, done) ↦
            (let c = plan_create-IsCreate folding by name state id now verdict rows row done in
              rw done (keep_no (is_owned owner) row rows (foreign owner by row c.owner_is h)))
      ]
  keep-step owner rows (updates by id name state expected now verdict) h =
      elim (Result-cases (plan_update folding by id name state expected now verdict rows)) [
        | inl (e, failed) ↦ rw failed refl
        | inr (row, done) ↦
            (let (_, _, mine, _) =
                plan_update-IsUpdate folding by id name state expected now verdict rows row done in
              rw done (keep-replace owner row rows (foreign owner by row mine h)))
      ]
  keep-step owner rows (deletes by id verdict) h =
      elim (Result-cases (plan_delete by id verdict rows)) [
        | inl (e, failed) ↦ rw failed refl
        | inr (row, done) ↦
            (let mine = (plan_delete-found by id verdict rows row done).1 in
              rw done (keep-delete owner row rows (foreign owner by row mine h)))
      ]

  keep-run :
      (owner : Text) (rows : List Row) (os : List Op)
      → All (IsByOthers owner) os
      → keep (is_owned owner) (run folding rows os).0 ≡ keep (is_owned owner) rows
  unfolding run
  keep-run owner rows [] h = refl
  keep-run owner rows (o ∷ os) h =
      keep-run owner (step folding rows o).0 os h.1 ∙ keep-step owner rows o h.0

  -- Whatever other owners ask of the service, in any sequence, the list of an owner's views stays as it
  -- is.
  pub list-run :
      (owner surface : Text) (rows : List Row) (os : List Op)
      → All (IsByOthers owner) os
      → list_saved_views owner surface (run folding rows os).0 ≡ list_saved_views owner surface rows
  unfolding list_saved_views
  list-run owner surface rows os h =
      ap (λ views. require_owner owner >>= λ _. normalize_surface surface >>= λ _. ok views)
        (keep-run owner rows os h)
