-- ===== src/SavedViews/Store.antt =====
-- The service of saved views of atheros-search/internal/savedviews/savedviews.go: the table as a list of
-- rows, and each operation as one transaction on it that runs alone. Creates are serial by an advisory
-- lock, and an update locks its row. The identifier of a new row, the clock and what the database
-- answers of itself are arguments, and so are the two ways to compare names.
use integration_console.Prelude.{
  ℕ, ◌+◌, Bool, true, false, not, ◌&&◌, ◌||◌, Option, none, some, List, [], ◌∷◌, leb, ◌==◌,
  if◌then◌else◌, Result, ok, err, ◌>>=◌, fail_if, Text, same_text, trim_space, to_lower, keep, ℤ,
  pos, negsuc, sum_of,
}
use integration_console.SavedViews.{
  Row, ViewState, ViewError, not_found, duplicate_name, stale_revision, limit_reached,
  database_error, invalid_revision, max_per_user, require_owner, normalize_surface, normalize_name,
  normalize_state,
}

-- Two ways to compare names without case: strings.EqualFold of Go, and lower() of the database.
pub record Folding : Type 0 where
  pub equal_fold : Text → Text → Bool
  pub lower : Text → Text

abbrev pub is_hex : ℕ → Bool
is_hex c = (leb 48 c && leb c 57) || (leb 65 c && leb c 70) || (leb 97 c && leb c 102)

-- The shape of an identifier: hexadecimal digits at `true`, dashes at `false`.
abbrev pub has_shape : List Bool → Text → Bool
has_shape [] [] = true
has_shape [] (c ∷ s) = false
has_shape (b ∷ bs) [] = false
has_shape (true ∷ bs) (c ∷ s) = is_hex c && has_shape bs s
has_shape (false ∷ bs) (c ∷ s) = (c == 45) && has_shape bs s

abbrev pub id_shape : List Bool
id_shape =
    true ∷ true ∷ true ∷ true ∷ true ∷ true ∷ true ∷ true ∷ false ∷ true ∷ true ∷ true ∷ true
    ∷ false ∷ true ∷ true ∷ true ∷ true ∷ false ∷ true ∷ true ∷ true ∷ true ∷ false ∷ true ∷ true
    ∷ true ∷ true ∷ true ∷ true ∷ true ∷ true ∷ true ∷ true ∷ true ∷ true ∷ []

-- savedViewIDPattern
unfoldable pub is_view_id : Text → Bool
is_view_id id = has_shape id_shape id

-- The identifier that the statements use.
unfoldable pub view_id : Text → Result ViewError Text
unfolding is_view_id trim_space to_lower
view_id id = fail_if (not (is_view_id (trim_space id))) not_found (to_lower (trim_space id))

abbrev pub is_owned : Text → Row → Bool
is_owned owner row = same_text row.owner owner

abbrev pub is_view : Text → Text → Row → Bool
is_view owner id row = same_text row.id id && same_text row.owner owner

-- The row that a statement with `id=$1 AND owner_subject=$2` selects.
unfoldable pub find_view : Text → Text → List Row → Option Row
find_view owner id [] = none
find_view owner id (row ∷ rows) = if is_view owner id row then some row else find_view owner id rows

abbrev pub is_other : Option Text → Row → Bool
is_other none row = true
is_other (some id) row = not (same_text row.id id)

module _ (folding : Folding) where
  abbrev pub has_name : Text → Text → Option Text → Row → Bool
  has_name owner name exclude row =
      is_owned owner row
      && same_text (folding.lower row.name) (folding.lower name)
      && is_other exclude row

  -- requireSavedViewNameFree
  unfoldable pub is_name_taken : Text → Text → Option Text → List Row → Bool
  is_name_taken owner name exclude [] = false
  is_name_taken owner name exclude (row ∷ rows) =
      has_name owner name exclude row || is_name_taken owner name exclude rows

-- The primary key.
unfoldable pub has_id : Text → List Row → Bool
has_id id [] = false
has_id id (row ∷ rows) = same_text row.id id || has_id id rows

-- A row that passes a test counts 1.
abbrev pub weight : Bool → ℕ
weight test = if test then 1 else 0

unfoldable pub owned_count : Text → List Row → ℕ
owned_count owner rows = sum_of (λ row. weight (is_owned owner row)) rows

-- What the database does of itself in a transaction: it carries it out, the unique index of the names
-- refuses the row, or a statement or the commit fails.
pub data Verdict : Type 0 where
  accepts : Verdict
  violates_unique : Verdict
  fails : Verdict

abbrev pub is_failure : Verdict → Bool
is_failure fails = true
is_failure accepts = false
is_failure violates_unique = false

abbrev pub is_violation : Verdict → Bool
is_violation violates_unique = true
is_violation accepts = false
is_violation fails = false

module _ (folding : Folding) where
  -- The row that CreateSavedView inserts.
  unfoldable pub plan_create :
      Text → Text → ViewState → Text → ℕ → Verdict → List Row → Result ViewError Row
  unfolding require_owner normalize_name normalize_state owned_count is_name_taken has_id
  plan_create owner raw_name raw_state id now verdict rows = require_owner owner >>= λ owner.
      normalize_name raw_name >>= λ name. normalize_state raw_state >>= λ state.
      fail_if (is_failure verdict) database_error owner >>= λ owner.
      fail_if (leb max_per_user (owned_count owner rows)) limit_reached owner >>= λ owner.
      fail_if (is_name_taken folding owner name none rows) duplicate_name name >>= λ name.
      fail_if (has_id id rows || is_violation verdict) duplicate_name (record {
        id = id;
        owner = owner;
        name = name;
        revision = 1;
        state = state;
        created_at = now;
        updated_at = now;
      })

abbrev pub commit_create : List Row → Result ViewError Row → List Row × Result ViewError Row
commit_create rows (err e) = (rows, err e)
commit_create rows (ok row) = (row ∷ rows, ok row)

module _ (folding : Folding) where
  -- CreateSavedView
  unfoldable pub create_saved_view :
      Text → Text → ViewState → Text → ℕ → Verdict → List Row → List Row × Result ViewError Row
  unfolding plan_create
  create_saved_view owner raw_name raw_state id now verdict rows =
      commit_create rows (plan_create folding owner raw_name raw_state id now verdict rows)

abbrev pub found_or_error : Option Row → Result ViewError Row
found_or_error none = err not_found
found_or_error (some row) = ok row

-- `ExpectedRevision < 1`
abbrev pub require_revision : ℤ → Result ViewError ℕ
require_revision (pos n) = fail_if (leb n 0) invalid_revision n
require_revision (negsuc n) = err invalid_revision

module _ (folding : Folding) where
  -- The row that UpdateSavedView writes.
  unfoldable pub plan_update :
      Text → Text → Text → ViewState → ℤ → ℕ → Verdict → List Row → Result ViewError Row
  unfolding require_owner view_id normalize_name normalize_state find_view is_name_taken
  plan_update owner raw_id raw_name raw_state expected now verdict rows =
      require_owner owner >>= λ owner. view_id raw_id >>= λ id. normalize_name raw_name >>= λ name.
      require_revision expected >>= λ revision. normalize_state raw_state >>= λ state.
      fail_if (is_failure verdict) database_error owner >>= λ owner.
      found_or_error (find_view owner id rows) >>= λ row.
      fail_if (not (row.revision == revision)) stale_revision row >>= λ row.
      fail_if
        (not (folding.equal_fold row.name name) && is_name_taken folding owner name (some id) rows)
        duplicate_name name
      >>= λ name.
          fail_if (is_violation verdict) duplicate_name (record row {
            name = name;
            state = state;
            revision = row.revision + 1;
            updated_at = now;
          })

unfoldable pub replace_view : Row → List Row → List Row
replace_view new [] = []
replace_view new (row ∷ rows) =
    (if is_view new.owner new.id row then new else row) ∷ replace_view new rows

abbrev pub commit_update : List Row → Result ViewError Row → List Row × Result ViewError Row
commit_update rows (err e) = (rows, err e)
commit_update rows (ok row) = (replace_view row rows, ok row)

module _ (folding : Folding) where
  -- UpdateSavedView
  unfoldable pub update_saved_view :
      Text → Text → Text → ViewState → ℤ → ℕ → Verdict → List Row → List Row × Result ViewError Row
  unfolding plan_update replace_view
  update_saved_view owner raw_id raw_name raw_state expected now verdict rows =
      commit_update rows
        (plan_update folding owner raw_id raw_name raw_state expected now verdict rows)

-- The row that DeleteSavedView removes.
unfoldable pub plan_delete : Text → Text → Verdict → List Row → Result ViewError Row
unfolding require_owner view_id find_view
plan_delete owner raw_id verdict rows = require_owner owner >>= λ owner. view_id raw_id >>= λ id.
    fail_if (is_failure verdict) database_error owner >>= λ owner.
    found_or_error (find_view owner id rows)

abbrev pub commit_delete : List Row → Result ViewError Row → List Row × Result ViewError Row
commit_delete rows (err e) = (rows, err e)
commit_delete rows (ok gone) = (keep (λ row. not (is_view gone.owner gone.id row)) rows, ok gone)

-- DeleteSavedView
unfoldable pub delete_saved_view :
    Text → Text → Verdict → List Row → List Row × Result ViewError Row
unfolding plan_delete
delete_saved_view owner raw_id verdict rows =
    commit_delete rows (plan_delete owner raw_id verdict rows)

-- ListSavedViews, before the database orders the rows.
unfoldable pub list_saved_views : Text → Text → List Row → Result ViewError (List Row)
unfolding require_owner normalize_surface
list_saved_views owner surface rows =
    require_owner owner >>= λ _. normalize_surface surface >>= λ _. ok (keep (is_owned owner) rows)

-- The operations that write, each with what it is called with and what the database adds.
pub data Op : Type 0 where
  creates : Text → Text → ViewState → Text → ℕ → Verdict → Op
  updates : Text → Text → Text → ViewState → ℤ → ℕ → Verdict → Op
  deletes : Text → Text → Verdict → Op

abbrev pub owner_of : Op → Text
owner_of (creates owner name state id now verdict) = owner
owner_of (updates owner id name state expected now verdict) = owner
owner_of (deletes owner id verdict) = owner

module _ (folding : Folding) where
  unfoldable pub step : List Row → Op → List Row × Result ViewError Row
  unfolding create_saved_view update_saved_view delete_saved_view
  step rows (creates owner name state id now verdict) =
      create_saved_view folding owner name state id now verdict rows
  step rows (updates owner id name state expected now verdict) =
      update_saved_view folding owner id name state expected now verdict rows
  step rows (deletes owner id verdict) = delete_saved_view owner id verdict rows

  -- A sequence of operations, with their answers.
  unfoldable pub run : List Row → List Op → List Row × List (Result ViewError Row)
  unfolding step
  run rows [] = (rows, [])
  run rows (o ∷ os) =
      let (after, answer) = step rows o in
      let (last, answers) = run after os in (last, answer ∷ answers)
