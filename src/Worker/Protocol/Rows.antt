-- ===== src/Worker/Protocol/Rows.antt =====
-- What a step of the lease protocol can do to one row.
use integration_console.Prelude.{
  ℕ, ◌≤◌, ◌<◌, ◌≡◌, ◌⊎◌, inl, inr, Bool, true, false, Option, none, some, String, List, [], ◌∷◌,
  All, arith, Bool-cases,
}
use integration_console.Worker.Jobs.{
  Row, Times, Status, completed, failed, cancelled, is_pending, is_leased, update_where,
  cancelled_row, completed_row, failed_row, dead_row, deferred_row, renewed_row, recovered_row,
}
use integration_console.Worker.Claim.{Outside, claimed_row}

abbrev pub is_some {ℓ} : {A : Type ℓ} → Option A → Bool
is_some none = false
is_some (some a) = true

-- A status that no statement of the worker leaves.
abbrev pub is_terminal : Status → Bool
is_terminal completed = true
is_terminal failed = true
is_terminal cancelled = true
is_terminal _ = false

-- A row carries a lease exactly while it is leased, and has not used more attempts than it may.
pub record IsSound (r : Row) : Type 0 where
  pub attempts : r.attempt_count ≤ r.max_attempts
  pub token : is_some r.lease_token ≡ is_leased r.status
  pub owner : is_some r.owner_id ≡ is_leased r.status
  pub expiry : is_some r.lease_expires_at ≡ is_leased r.status

-- How a row may change: its identity, document, kind, model, input and priority never; its fence only up; not at all once its status
-- is terminal; and if it is leased afterwards, then either under a larger fence, or it was leased
-- before and the token is still the same.
pub record Evolves (r r' : Row) : Type 0 where
  pub same_id : r'.job_id ≡ r.job_id
  pub same_document : r'.document_id ≡ r.document_id
  pub same_kind : r'.embedding_kind ≡ r.embedding_kind
  pub same_model : r'.embedding_model ≡ r.embedding_model
  pub same_content : r'.content_sha256 ≡ r.content_sha256
  pub same_revision : r'.input_revision ≡ r.input_revision
  pub same_priority : r'.priority ≡ r.priority
  pub same_limit : r'.max_attempts ≡ r.max_attempts
  pub fence_up : r.lease_fence ≤ r'.lease_fence
  pub frozen : is_terminal r.status ≡ true → r' ≡ r
  pub fenced :
      is_leased r'.status ≡ true
      → (r.lease_fence < r'.lease_fence)
        ⊎ ((is_leased r.status ≡ true) × (r'.lease_token ≡ r.lease_token))

pub Evolves-refl : (r : Row) → Evolves r r
Evolves-refl r = ground arith

pub Evolves-trans : {a b c : Row} → Evolves a b → Evolves b c → Evolves a c
Evolves-trans {a} {b} {c} h k = ground arith

-- The statements on one lease, at a row that they select.
module _ (message : String) (at : ℕ) (t : Times) (r : Row) (h : is_leased r.status ≡ true) where
  pub ending-Evolves :
      Evolves r (cancelled_row message t r)
      × Evolves r (completed_row t r)
      × Evolves r (failed_row message t r)
      × Evolves r (dead_row message t r)
      × Evolves r (deferred_row at t r)
      × Evolves r (renewed_row at t r)
      × Evolves r (recovered_row t r)
  unfolding cancelled_row completed_row failed_row dead_row deferred_row renewed_row recovered_row
  ending-Evolves = ground arith

  pub ending-IsSound :
      IsSound r
      → IsSound (cancelled_row message t r)
        × IsSound (completed_row t r)
        × IsSound (failed_row message t r)
        × IsSound (dead_row message t r)
        × IsSound (deferred_row at t r)
        × IsSound (renewed_row at t r)
        × IsSound (recovered_row t r)
  unfolding cancelled_row completed_row failed_row dead_row deferred_row renewed_row recovered_row
  ending-IsSound v = ground arith

pub claimed_row-Evolves :
    (o : Outside) (owner : String) (at : ℕ) (t : Times) (r : Row)
    → is_pending r.status ≡ true
    → Evolves r (claimed_row o owner at t r)
unfolding claimed_row
claimed_row-Evolves o owner at t r h = ground arith

pub claimed_row-IsSound :
    (o : Outside) (owner : String) (at : ℕ) (t : Times) (r : Row)
    → r.attempt_count < r.max_attempts
    → IsSound r
    → IsSound (claimed_row o owner at t r)
unfolding claimed_row
claimed_row-IsSound o owner at t r h v = ground arith

-- Two tables row by row.
abbrev pub Pairs : (Row → Row → Type 0) → List Row → List Row → Type 0
Pairs R [] [] = Unit
Pairs R [] (y ∷ ys) = ⊥
Pairs R (x ∷ xs) [] = ⊥
Pairs R (x ∷ xs) (y ∷ ys) = R x y × Pairs R xs ys

pub Pairs-refl : (rs : List Row) → Pairs Evolves rs rs
Pairs-refl [] = tt
Pairs-refl (r ∷ rs) = (Evolves-refl r, Pairs-refl rs)

pub Pairs-trans :
    (xs ys zs : List Row) → Pairs Evolves xs ys → Pairs Evolves ys zs → Pairs Evolves xs zs
Pairs-trans [] [] zs h k = k
Pairs-trans [] (y ∷ ys) zs h k = absurd h
Pairs-trans (x ∷ xs) [] zs h k = absurd h
Pairs-trans (x ∷ xs) (y ∷ ys) [] h k = absurd k
Pairs-trans (x ∷ xs) (y ∷ ys) (z ∷ zs) h k = (Evolves-trans h.0 k.0, Pairs-trans xs ys zs h.1 k.1)

-- An update whose selected rows evolve.
pub update_where-Pairs :
    (p : Row → Bool) (f : Row → Row) (rs : List Row)
    → All (λ r. p r ≡ true → Evolves r (f r)) rs
    → Pairs Evolves rs (update_where p f rs)
unfolding update_where
update_where-Pairs p f [] h = tt
update_where-Pairs p f (r ∷ rs) h = elim (Bool-cases (p r)) [
  | inl hit ↦ rw hit (h.0 hit, update_where-Pairs p f rs h.1)
  | inr miss ↦ rw miss (Evolves-refl r, update_where-Pairs p f rs h.1)
]

pub update_where-All :
    (p : Row → Bool) (f : Row → Row) (rs : List Row)
    → All (λ r. p r ≡ true → IsSound r → IsSound (f r)) rs
    → All IsSound rs
    → All IsSound (update_where p f rs)
unfolding update_where
update_where-All p f [] h v = tt
update_where-All p f (r ∷ rs) h v = elim (Bool-cases (p r)) [
  | inl hit ↦ rw hit (h.0 hit v.0, update_where-All p f rs h.1 v.1)
  | inr miss ↦ rw miss (v.0, update_where-All p f rs h.1 v.1)
]
