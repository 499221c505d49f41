-- ===== src/SavedViews/Plans.antt =====
-- What a transaction of savedviews.go that succeeds has checked.
use integration_console.Prelude.{
  ℕ, ◌+◌, ◌≤◌, ◌<◌, ◌≡◌, ◌⊎◌, subst, [], ◌∷◌, same_text→≡, Bool-cases, refl, ap, sym, ◌∙◌, inl, inr,
  Bool, true, false, not, ◌&&◌, ◌||◌, Option, none, some, List, ltb, leb, ◌==◌, ok, >>=-eq-ok,
  >>=-fail_if, fail_if-ok, Text, same_text, is_empty, trim_space, ℤ, pos, negsuc, length, arith,
}
use integration_console.SavedViews.{
  Row, ViewState, max_per_user, max_name_length, invalid_name, invalid_revision, require_owner,
  normalize_name, normalize_state,
}
use integration_console.SavedViews.Store.{
  Folding, is_view, find_view, is_name_taken, has_id, owned_count, view_id, Verdict, is_violation,
  is_failure, found_or_error, require_revision, plan_create, plan_update, plan_delete,
}

-- A row's name is trimmed text of 1 to 80 characters.
abbrev pub IsName : Text → Type 0
IsName name = (1 ≤ length name) × (length name ≤ 80)

fits : (name : Text) → (is_empty name || ltb max_name_length (length name)) ≡ false → IsName name
fits [] h = cc
fits (c ∷ s) h = ground arith

normalize_name-ok :
    (raw name : Text) → normalize_name raw ≡ ok name → (name ≡ trim_space raw) × IsName name
unfolding normalize_name
normalize_name-ok raw name h =
    let (short, it) =
      fail_if-ok (is_empty (trim_space raw) || ltb max_name_length (length (trim_space raw)))
        invalid_name (trim_space raw) name h in
    (sym it, subst IsName it (fits (trim_space raw) short))

module _ (folding : Folding) where
  pub record IsCreate (owner id : Text) (rows : List Row) (row : Row) : Type 0 where
    pub owner_is : row.owner ≡ owner
    pub id_is : row.id ≡ id
    pub first : row.revision ≡ 1
    pub named : IsName row.name
    pub room : owned_count owner rows < 20
    pub free : is_name_taken folding owner row.name none rows ≡ false
    pub new_id : has_id id rows ≡ false

  pub plan_create-IsCreate :
      (owner raw_name : Text) (raw_state : ViewState) (id : Text) (now : ℕ) (verdict : Verdict)
      (rows : List Row) (row : Row)
      → plan_create folding owner raw_name raw_state id now verdict rows ≡ ok row
      → IsCreate owner id rows row
  unfolding plan_create require_owner
  plan_create-IsCreate owner raw_name raw_state id now verdict rows row h =
      let (some_owner, h₁) = >>=-fail_if (is_empty (trim_space owner)) _ owner _ h in
      let (name, normal, h₂) = >>=-eq-ok (normalize_name raw_name) _ h₁ in
      let (state, valid, h₃) = >>=-eq-ok (normalize_state raw_state) _ h₂ in
      let (runs, h₄) = >>=-fail_if (is_failure verdict) _ owner _ h₃ in
      let (room, h₅) = >>=-fail_if (leb max_per_user (owned_count owner rows)) _ owner _ h₄ in
      let (free, h₆) = >>=-fail_if (is_name_taken folding owner name none rows) _ name _ h₅ in
      let (new, it) = fail_if-ok (has_id id rows || is_violation verdict) _ _ row h₆ in
      let named = normalize_name-ok raw_name name normal in
      subst (IsCreate owner id rows) it (record {
        owner_is = refl;
        id_is = refl;
        first = refl;
        named = named.1;
        room = ground (arith, room);
        free = free;
        new_id = ground (arith, new);
      })

  -- The row `old` becomes `row`.
  pub record IsUpdate (expected : ℤ) (rows : List Row) (old row : Row) : Type 0 where
    pub found : find_view row.owner row.id rows ≡ some old
    pub owner_kept : row.owner ≡ old.owner
    pub id_kept : row.id ≡ old.id
    pub expected_is : expected ≡ pos old.revision
    pub next : row.revision ≡ old.revision + 1
    pub named : IsName row.name
    pub free :
        (folding.equal_fold old.name row.name ≡ true)
        ⊎ (is_name_taken folding row.owner row.name (some row.id) rows ≡ false)

require_revision-ok : (expected : ℤ) (n : ℕ) → require_revision expected ≡ ok n → expected ≡ pos n
require_revision-ok (pos k) n h = ap pos (fail_if-ok (leb k 0) invalid_revision k n h).1
require_revision-ok (negsuc k) n h = cc

found_or_error-ok : (o : Option Row) (row : Row) → found_or_error o ≡ ok row → o ≡ some row
found_or_error-ok none row h = cc
found_or_error-ok (some r) row h = cc

pub is_view→≡ :
    (row : Row) (owner id : Text)
    → is_view owner id row ≡ true
    → (row.owner ≡ owner) × (row.id ≡ id)
is_view→≡ row owner id h =
    let both : (same_text row.id id ≡ true) × (same_text row.owner owner ≡ true) =
      ground (arith, h) in
    (same_text→≡ row.owner owner both.1, same_text→≡ row.id id both.0)

find_view-key :
    (owner id : Text) (rows : List Row) (row : Row)
    → find_view owner id rows ≡ some row
    → (row.owner ≡ owner) × (row.id ≡ id)
unfolding find_view
find_view-key owner id [] row h = cc
find_view-key owner id (r ∷ rows) row h = elim (Bool-cases (is_view owner id r)) [
  | inl it ↦
      (let same : r ≡ row = ground (arith, h, it) in
        subst (λ r. (r.owner ≡ owner) × (r.id ≡ id)) same (is_view→≡ r owner id it))
  | inr other ↦ find_view-key owner id rows row (rw other at h)
]

find_view_self :
    (owner id : Text) (rows : List Row) (row : Row)
    → find_view owner id rows ≡ some row
    → find_view row.owner row.id rows ≡ some row
find_view_self owner id rows row h =
    let (same_owner, same_id) = find_view-key owner id rows row h in
    ap (λ o. find_view o row.id rows) same_owner ∙ ap (λ i. find_view owner i rows) same_id ∙ h

same_number : (a b : ℕ) → not (a == b) ≡ false → a ≡ b
same_number a b h = ground arith

either_free : (a b : Bool) → (not a && b) ≡ false → (a ≡ true) ⊎ (b ≡ false)
either_free true b h = inl refl
either_free false b h = inr h

module _ (folding : Folding) where
  pub plan_update-IsUpdate :
      (owner raw_id raw_name : Text) (raw_state : ViewState) (expected : ℤ) (now : ℕ)
      (verdict : Verdict) (rows : List Row) (row : Row)
      → plan_update folding owner raw_id raw_name raw_state expected now verdict rows ≡ ok row
      → (old : Row) × IsUpdate folding expected rows old row
        × (row.owner ≡ owner)
        × (view_id raw_id ≡ ok row.id)
  unfolding plan_update require_owner
  plan_update-IsUpdate owner raw_id raw_name raw_state expected now verdict rows row h =
      let (some_owner, h₁) = >>=-fail_if (is_empty (trim_space owner)) _ owner _ h in
      let (id, valid_id, h₂) = >>=-eq-ok (view_id raw_id) _ h₁ in
      let (name, normal, h₃) = >>=-eq-ok (normalize_name raw_name) _ h₂ in
      let (revision, wanted, h₄) = >>=-eq-ok (require_revision expected) _ h₃ in
      let (state, valid, h₅) = >>=-eq-ok (normalize_state raw_state) _ h₄ in
      let (runs, h₆) = >>=-fail_if (is_failure verdict) _ owner _ h₅ in
      let (old, there, h₇) = >>=-eq-ok (found_or_error (find_view owner id rows)) _ h₆ in
      let (fresh, h₈) = >>=-fail_if (not (old.revision == revision)) _ old _ h₇ in
      let (free, h₉) =
        >>=-fail_if
          (not (folding.equal_fold old.name name)
            && is_name_taken folding owner name (some id) rows)
          _ name _ h₈ in
      let (kept, it) = fail_if-ok (is_violation verdict) _ _ row h₉ in
      let found = found_or_error-ok (find_view owner id rows) old there in
      let (same_owner, same_id) = find_view-key owner id rows old found in
      let current = same_number old.revision revision fresh in
      (
        old,
        subst (IsUpdate folding expected rows old) it (record {
          found = find_view_self owner id rows old found;
          owner_kept = refl;
          id_kept = refl;
          expected_is = require_revision-ok expected revision wanted ∙ ap pos (sym current);
          next = refl;
          named = (normalize_name-ok raw_name name normal).1;
          free = rw (same_owner, same_id) (either_free _ _ free);
        }),
        sym (ap (λ r. r.owner) it) ∙ same_owner,
        valid_id ∙ ap ok (sym same_id ∙ ap (λ r. r.id) it),
      )

pub plan_delete-found :
    (owner raw_id : Text) (verdict : Verdict) (rows : List Row) (row : Row)
    → plan_delete owner raw_id verdict rows ≡ ok row
    → (find_view row.owner row.id rows ≡ some row) × (row.owner ≡ owner)
unfolding plan_delete require_owner
plan_delete-found owner raw_id verdict rows row h =
    let (some_owner, h₁) = >>=-fail_if (is_empty (trim_space owner)) _ owner _ h in
    let (id, valid_id, h₂) = >>=-eq-ok (view_id raw_id) _ h₁ in
    let (runs, h₃) = >>=-fail_if (is_failure verdict) _ owner _ h₂ in
    let found = found_or_error-ok (find_view owner id rows) row h₃ in
    (find_view_self owner id rows row found, (find_view-key owner id rows row found).0)

module _ (folding : Folding) where
  pub plan_create-name :
      (owner raw_name : Text) (raw_state : ViewState) (id : Text) (now : ℕ) (verdict : Verdict)
      (rows : List Row) (row : Row)
      → plan_create folding owner raw_name raw_state id now verdict rows ≡ ok row
      → row.name ≡ trim_space raw_name
  unfolding plan_create require_owner
  plan_create-name owner raw_name raw_state id now verdict rows row h =
      let (_, h₁) = >>=-fail_if (is_empty (trim_space owner)) _ owner _ h in
      let (name, normal, h₂) = >>=-eq-ok (normalize_name raw_name) _ h₁ in
      let (state, _, h₃) = >>=-eq-ok (normalize_state raw_state) _ h₂ in
      let (_, h₄) = >>=-fail_if (is_failure verdict) _ owner _ h₃ in
      let (_, h₅) = >>=-fail_if (leb max_per_user (owned_count owner rows)) _ owner _ h₄ in
      let (_, h₆) = >>=-fail_if (is_name_taken folding owner name none rows) _ name _ h₅ in
      let (_, it) = fail_if-ok (has_id id rows || is_violation verdict) _ _ row h₆ in
      sym (ap (λ r. r.name) it) ∙ (normalize_name-ok raw_name name normal).0

  pub plan_update-name :
      (owner raw_id raw_name : Text) (raw_state : ViewState) (expected : ℤ) (now : ℕ)
      (verdict : Verdict) (rows : List Row) (row : Row)
      → plan_update folding owner raw_id raw_name raw_state expected now verdict rows ≡ ok row
      → row.name ≡ trim_space raw_name
  unfolding plan_update require_owner
  plan_update-name owner raw_id raw_name raw_state expected now verdict rows row h =
      let (_, h₁) = >>=-fail_if (is_empty (trim_space owner)) _ owner _ h in
      let (id, _, h₂) = >>=-eq-ok (view_id raw_id) _ h₁ in
      let (name, normal, h₃) = >>=-eq-ok (normalize_name raw_name) _ h₂ in
      let (revision, _, h₄) = >>=-eq-ok (require_revision expected) _ h₃ in
      let (state, _, h₅) = >>=-eq-ok (normalize_state raw_state) _ h₄ in
      let (_, h₆) = >>=-fail_if (is_failure verdict) _ owner _ h₅ in
      let (old, _, h₇) = >>=-eq-ok (found_or_error (find_view owner id rows)) _ h₆ in
      let (_, h₈) = >>=-fail_if (not (old.revision == revision)) _ old _ h₇ in
      let (_, h₉) =
        >>=-fail_if
          (not (folding.equal_fold old.name name)
            && is_name_taken folding owner name (some id) rows)
          _ name _ h₈ in
      let (_, it) = fail_if-ok (is_violation verdict) _ _ row h₉ in
      sym (ap (λ r. r.name) it) ∙ (normalize_name-ok raw_name name normal).0
