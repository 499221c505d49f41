-- ===== src/Worker/Protocol/Keys.antt =====
-- job_id is the key of the table, so a statement that selects by id changes what it meant to.
use integration_console.Prelude.{
  subst, ℕ, zero, suc, ◌≡◌, refl, Bool, true, false, String, str_eq_iff, List, [], ◌∷◌, All, arith,
  keep, take, not, ◌&&◌,
}
use integration_console.Worker.Jobs.{Row, update_where}
use integration_console.Worker.Claim.{Outside, contains, ids, insert_by, sort_by, select_ids}

abbrev pub DistinctIds : List String → Type 0
DistinctIds [] = Unit
DistinctIds (s ∷ rest) = (contains s rest ≡ false) × DistinctIds rest

abbrev pub Distinct : List Row → Type 0
Distinct rs = DistinctIds (ids rs)

pub All-mono : {P Q : Row → Type 0} (rs : List Row) → ((r : Row) → P r → Q r) → All P rs → All Q rs
All-mono [] f h = tt
All-mono (r ∷ rs) f h = (f r h.0, All-mono rs f h.1)

All-mono_both :
    {P Q R : Row → Type 0} (rs : List Row)
    → ((r : Row) → P r → Q r → R r)
    → All P rs
    → All Q rs
    → All R rs
All-mono_both [] f h k = tt
All-mono_both (r ∷ rs) f h k = (f r h.0 k.0, All-mono_both rs f h.1 k.1)

contains_self : (rs : List Row) → All (λ r. contains r.job_id (ids rs) ≡ true) rs
unfolding contains
contains_self [] = tt
contains_self (x ∷ rs) = (
  ground (arith, str_eq_iff x.job_id x.job_id),
  All-mono rs (λ r h. ground arith) (contains_self rs),
)

contains-insert_by :
    (before : Row → Row → Bool) (s : String) (x : Row) (rs : List Row)
    → contains s (ids (insert_by before x rs)) ≡ contains s (ids (x ∷ rs))
unfolding contains insert_by
contains-insert_by before s x [] = refl
contains-insert_by before s x (y ∷ ys) = ground (arith, contains-insert_by before s x ys)

contains-sort_by :
    (before : Row → Row → Bool) (s : String) (rs : List Row)
    → contains s (ids (sort_by before rs)) ≡ contains s (ids rs)
unfolding contains sort_by
contains-sort_by before s [] = refl
contains-sort_by before s (r ∷ rs) =
    ground (arith, contains-insert_by before s r (sort_by before rs), contains-sort_by before s rs)

contains-take :
    (s : String) (n : ℕ) (rs : List Row)
    → contains s (ids (take n rs)) ≡ true
    → contains s (ids rs) ≡ true
unfolding contains
contains-take s zero rs h = cc
contains-take s (suc n) [] h = cc
contains-take s (suc n) (r ∷ rs) h = ground (arith, contains-take s n rs)

contains-keep :
    (s : String) (p : Row → Bool) (rs : List Row)
    → contains s (ids (keep p rs)) ≡ true
    → contains s (ids rs) ≡ true
unfolding contains
contains-keep s p [] h = h
contains-keep s p (r ∷ rs) h = ground (arith, contains-keep s p rs)

keep_sound :
    (p : Row → Bool) (rs : List Row)
    → Distinct rs
    → All (λ r. contains r.job_id (ids (keep p rs)) ≡ true → p r ≡ true) rs
unfolding contains
keep_sound p [] d = tt
keep_sound p (x ∷ rs) d = (
  (λ h. ground (arith, contains-keep x.job_id p rs)),
  All-mono_both rs (λ r own ih h. ground (arith, str_eq_iff x.job_id r.job_id, ih, own))
      (contains_self rs) (keep_sound p rs d.1),
)

-- A row whose id a statement has selected passed that statement's own test.
pub select_ids_sound :
    (o : Outside) (p : Row → Bool) (before : Row → Row → Bool) (limit : ℕ) (rs : List Row)
    → Distinct rs
    → All (λ r. contains r.job_id (select_ids o p before limit rs) ≡ true → p r ≡ true) rs
unfolding select_ids
select_ids_sound o p before limit rs d =
    let q : Row → Bool = λ r. p r && not (o.is_locked r) in
    All-mono rs
      (λ r sound h. ground (
        arith,
        sound (
            subst (λ b. b ≡ true) (contains-sort_by before r.job_id (keep q rs))
              (contains-take r.job_id limit (sort_by before (keep q rs)) h)),
      ))
      (keep_sound q rs d)

-- The ids stay as they are under an update that keeps them.
pub ids-update_where :
    (p : Row → Bool) (f : Row → Row) (rs : List Row)
    → ((r : Row) → (f r).job_id ≡ r.job_id)
    → ids (update_where p f rs) ≡ ids rs
unfolding update_where
ids-update_where p f [] h = refl
ids-update_where p f (r ∷ rs) h = ground (arith, h r, ids-update_where p f rs h)
