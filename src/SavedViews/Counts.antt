-- ===== src/SavedViews/Counts.antt =====
-- Counts of the rows of savedviews.go by identifier, owner and name, and how the statements move them.
use integration_console.Prelude.{
  ℕ, ◌+◌, ◌≤◌, ◌≡◌, refl, ap, inl, inr, Bool, false, ◌&&◌, none, some, List, [], ◌∷◌, Text,
  same_text, keep, keep_yes, keep_no, sum_of, arith, Bool-cases,
}
use integration_console.SavedViews.{Row}
use integration_console.SavedViews.Store.{
  Folding, weight, is_owned, is_view, has_name, find_view, is_name_taken, has_id, replace_view,
}

-- A row with the identifier counts 1.
abbrev pub identified : Text → Row → ℕ
identified id row = weight (same_text row.id id)

module _ (folding : Folding) where
  -- A view of the owner whose name in lower case is the key counts 1.
  abbrev pub named : Text → Text → Row → ℕ
  named owner key row = weight (is_owned owner row && same_text (folding.lower row.name) key)

pub has_id-none :
    (id : Text) (rows : List Row) → has_id id rows ≡ false → sum_of (identified id) rows ≡ 0
unfolding has_id
has_id-none id [] h = refl
has_id-none id (row ∷ rows) h =
    let (here, there) : (same_text row.id id ≡ false) × (has_id id rows ≡ false) =
      ground (arith, h) in
    ground (arith, here, has_id-none id rows there)

module _ (folding : Folding) where
  pub is_name_taken-none :
      (owner name : Text) (rows : List Row)
      → is_name_taken folding owner name none rows ≡ false
      → sum_of (named folding owner (folding.lower name)) rows ≡ 0
  unfolding is_name_taken
  is_name_taken-none owner name [] h = refl
  is_name_taken-none owner name (row ∷ rows) h =
      let (here, there) : (has_name folding owner name none row ≡ false)
          × (is_name_taken folding owner name none rows ≡ false) =
        ground (arith, h) in
      ground (arith, here, is_name_taken-none owner name rows there)

pub sum_of-keep :
    (w : Row → ℕ) (p : Row → Bool) (rows : List Row) → sum_of w (keep p rows) ≤ sum_of w rows
sum_of-keep w p [] = omega arith
sum_of-keep w p (row ∷ rows) = elim (Bool-cases (p row)) [
  | inl stays ↦ rw (keep_yes p row rows stays) (omega (arith, sum_of-keep w p rows))
  | inr goes ↦ rw (keep_no p row rows goes) (omega (arith, sum_of-keep w p rows))
]

-- Where no row has the identifier, the update writes none.
replace_absent :
    (new : Row) (rows : List Row)
    → sum_of (identified new.id) rows ≡ 0
    → replace_view new rows ≡ rows
unfolding replace_view
replace_absent new [] h = refl
replace_absent new (row ∷ rows) h =
    let (here, there) : (same_text row.id new.id ≡ false) × (sum_of (identified new.id) rows ≡ 0) =
      ground (arith, h) in
    rw here (ap (λ rs. row ∷ rs) (replace_absent new rows there))

-- What an update changes of a sum, where identifiers are unique.
pub sum_of-replace :
    (w : Row → ℕ) (old new : Row) (rows : List Row)
    → find_view new.owner new.id rows ≡ some old
    → sum_of (identified new.id) rows ≤ 1
    → sum_of w (replace_view new rows) + w old ≡ sum_of w rows + w new
unfolding find_view replace_view
sum_of-replace w old new [] found one = cc
sum_of-replace w old new (row ∷ rows) found one = elim (Bool-cases (is_view new.owner new.id row)) [
  | inl it ↦
      (let same : row ≡ old = ground (arith, found, it) in
        let none_left : sum_of (identified new.id) rows ≡ 0 = ground (arith, one, it) in
        rw (it, replace_absent new rows none_left, same) (omega arith))
  | inr other ↦
      (let fewer : sum_of (identified new.id) rows ≤ 1 = ground (arith, one) in
        let rest = sum_of-replace w old new rows (rw other at found) fewer in
        rw other (omega (arith, rest)))
]

module _ (folding : Folding) where
  named_apart :
      (owner id name : Text) (row : Row)
      → has_name folding owner name (some id) row ≡ false
      → is_view owner id row ≡ false
      → named folding owner (folding.lower name) row ≡ 0
  named_apart owner id name row h other = ground (arith, h, other)

  is_name_taken-absent :
      (owner id name : Text) (rows : List Row)
      → sum_of (identified id) rows ≡ 0
      → is_name_taken folding owner name (some id) rows ≡ false
      → sum_of (named folding owner (folding.lower name)) rows ≡ 0
  unfolding is_name_taken
  is_name_taken-absent owner id name [] absent free = refl
  is_name_taken-absent owner id name (row ∷ rows) absent free =
      let (here, there) : (has_name folding owner name (some id) row ≡ false)
          × (is_name_taken folding owner name (some id) rows ≡ false) =
        ground (arith, free) in
      let (apart, left) : (is_view owner id row ≡ false) × (sum_of (identified id) rows ≡ 0) =
        ground (arith, absent) in
      omega (
        arith,
        named_apart owner id name row here apart,
        is_name_taken-absent owner id name rows left there,
      )

  -- A name that is free but for one view is free where that view has another name.
  pub is_name_taken-but :
      (owner id name : Text) (old : Row) (rows : List Row)
      → find_view owner id rows ≡ some old
      → sum_of (identified id) rows ≤ 1
      → is_name_taken folding owner name (some id) rows ≡ false
      → sum_of (named folding owner (folding.lower name)) rows
        ≡ named folding owner (folding.lower name) old
  unfolding find_view is_name_taken
  is_name_taken-but owner id name old [] found one free = cc
  is_name_taken-but owner id name old (row ∷ rows) found one free =
      let key = folding.lower name in
      let (here, there) : (has_name folding owner name (some id) row ≡ false)
          × (is_name_taken folding owner name (some id) rows ≡ false) =
        ground (arith, free) in
      elim (Bool-cases (is_view owner id row)) [
        | inl it ↦
            (let same : row ≡ old = ground (arith, found, it) in
              let left : sum_of (identified id) rows ≡ 0 = ground (arith, one, it) in
              let rest = is_name_taken-absent owner id name rows left there in
              rw same (omega (arith, rest)))
        | inr other ↦
            (let fewer : sum_of (identified id) rows ≤ 1 = ground (arith, one) in
              let rest = is_name_taken-but owner id name old rows (rw other at found) fewer there in
              let unnamed = named_apart owner id name row here other in
              omega (arith, rest, unnamed))
      ]
