-- ===== src/Worker/Protocol/Steps.antt =====
-- Every statement of the lease protocol, on the whole table.
use integration_console.Prelude.{
  ℕ, ◌<◌, ◌≡◌, refl, sym, ◌∙◌, subst, ◌⊎◌, inl, inr, Bool, true, String, List, [], ◌∷◌, All, Result,
  ok, err, ◌==◌, arith, Bool-cases, Option-cases,
}
use integration_console.Worker.Jobs.{
  Row, Job, Times, Failure, is_leased, is_pending, owns, update_where, update_owned, affected,
  cancelled_row, completed_row, failed_row, dead_row, deferred_row, renewed_row, recovered_row,
  cancel_job, complete_job, fail_job, fail_job_permanently, defer_job, renew_job_lease,
}
use integration_console.Worker.Claim.{
  Document, JobScope, Outside, ClaimRequest, Claimed, ids, is_selected, claim_rows, claimable,
  claims_before, claimed_row, jobs_of, refusal, find_document, screen, claim_jobs, recoverable,
  map_ok, add_ready, add_cancelled, is_recovered, expires_before, recover_expired_leases, with_text,
}
use integration_console.Worker.Protocol.{
  Op, claims, cancels, completes, fails, fails_permanently, defers, renews, recovers, or_keep,
  claimed_or_keep, step, run,
}
use integration_console.Worker.Protocol.Rows.{
  IsSound, Evolves, Pairs, Pairs-refl, Pairs-trans, update_where-Pairs, update_where-All,
  ending-Evolves, ending-IsSound, claimed_row-Evolves, claimed_row-IsSound,
}
use integration_console.Worker.Protocol.Keys.{
  Distinct, DistinctIds, All-mono, select_ids_sound, ids-update_where,
}

-- What a statement does to the table: each row evolves, the keys stay, sound rows stay sound.
pub record Keeps (rs rs' : List Row) : Type 0 where
  pub rows : Pairs Evolves rs rs'
  pub keys : ids rs' ≡ ids rs
  pub sound : All IsSound rs → All IsSound rs'

pub Keeps-refl : (rs : List Row) → Keeps rs rs
Keeps-refl rs = record { rows = Pairs-refl rs; keys = refl; sound = λ v. v }

pub Keeps-trans : (xs ys zs : List Row) → Keeps xs ys → Keeps ys zs → Keeps xs zs
Keeps-trans xs ys zs h k = record {
  rows = Pairs-trans xs ys zs h.rows k.rows;
  keys = k.keys ∙ h.keys;
  sound = λ v. k.sound (h.sound v);
}

-- What a change of a row has to satisfy on the rows that a test selects.
pub record IsFit (p : Row → Bool) (f : Row → Row) (r : Row) : Type 0 where
  pub evolves : p r ≡ true → Evolves r (f r)
  pub keeps_sound : p r ≡ true → IsSound r → IsSound (f r)

update_where-Keeps :
    (p : Row → Bool) (f : Row → Row) (rs : List Row)
    → ((r : Row) → (f r).job_id ≡ r.job_id)
    → All (IsFit p f) rs
    → Keeps rs (update_where p f rs)
update_where-Keeps p f rs e h = record {
  rows = update_where-Pairs p f rs (All-mono rs (λ r fit. fit.evolves) h);
  keys = ids-update_where p f rs e;
  sound = update_where-All p f rs (All-mono rs (λ r fit. fit.keeps_sound) h);
}

All-every : {P : Row → Type 0} → ((r : Row) → P r) → (rs : List Row) → All P rs
All-every f [] = tt
All-every f (r ∷ rs) = (f r, All-every f rs)

-- A change that is allowed on every leased row.
pub record IsEnding (f : Row → Row) : Type 0 where
  pub evolves : (r : Row) → is_leased r.status ≡ true → Evolves r (f r)
  pub keeps_sound : (r : Row) → is_leased r.status ≡ true → IsSound r → IsSound (f r)
  pub same_id : (r : Row) → (f r).job_id ≡ r.job_id

owns-leased : (j : Job) (clock : ℕ) (r : Row) → owns j clock r ≡ true → is_leased r.status ≡ true
unfolding owns
owns-leased j clock r h = ground arith

owned-Keeps :
    (j : Job) (clock : ℕ) (f : Row → Row) (rs : List Row)
    → IsEnding f
    → Keeps rs (update_where (owns j clock) f rs)
owned-Keeps j clock f rs e = update_where-Keeps (owns j clock) f rs e.same_id (
    All-every
      (λ r. record {
        evolves = λ h. e.evolves r (owns-leased j clock r h);
        keeps_sound = λ h. e.keeps_sound r (owns-leased j clock r h);
      })
      rs)

pub update_owned-Keeps :
    (j : Job) (t : Times) (f : Row → Row) (rs : List Row)
    → IsEnding f
    → Keeps rs (or_keep rs (update_owned j t f rs))
unfolding update_owned
update_owned-Keeps j t f rs e = elim (Bool-cases (affected (owns j t.clock) rs == 0)) [
  | inl none_hit ↦ rw none_hit (Keeps-refl rs)
  | inr hit ↦ rw hit (owned-Keeps j t.clock f rs e)
]

module _ (message : String) (at : ℕ) (t : Times) where
  cancelled-IsEnding : IsEnding (cancelled_row message t)
  unfolding cancelled_row
  cancelled-IsEnding = record {
    evolves = λ r h. (ending-Evolves message at t r h).0;
    keeps_sound = λ r h v. (ending-IsSound message at t r h v).0;
    same_id = λ r. refl;
  }

  completed-IsEnding : IsEnding (completed_row t)
  unfolding completed_row
  completed-IsEnding = record {
    evolves = λ r h. (ending-Evolves message at t r h).1;
    keeps_sound = λ r h v. (ending-IsSound message at t r h v).1;
    same_id = λ r. refl;
  }

  failed-IsEnding : IsEnding (failed_row message t)
  unfolding failed_row
  failed-IsEnding = record {
    evolves = λ r h. (ending-Evolves message at t r h).2;
    keeps_sound = λ r h v. (ending-IsSound message at t r h v).2;
    same_id = λ r. refl;
  }

  dead-IsEnding : IsEnding (dead_row message t)
  unfolding dead_row
  dead-IsEnding = record {
    evolves = λ r h. (ending-Evolves message at t r h).3;
    keeps_sound = λ r h v. (ending-IsSound message at t r h v).3;
    same_id = λ r. refl;
  }

  deferred-IsEnding : IsEnding (deferred_row at t)
  unfolding deferred_row
  deferred-IsEnding = record {
    evolves = λ r h. (ending-Evolves message at t r h).4;
    keeps_sound = λ r h v. (ending-IsSound message at t r h v).4;
    same_id = λ r. refl;
  }

  renewed-IsEnding : IsEnding (renewed_row at t)
  unfolding renewed_row
  renewed-IsEnding = record {
    evolves = λ r h. (ending-Evolves message at t r h).5;
    keeps_sound = λ r h v. (ending-IsSound message at t r h v).5;
    same_id = λ r. refl;
  }

  recovered-IsEnding : IsEnding (recovered_row t)
  unfolding recovered_row
  recovered-IsEnding = record {
    evolves = λ r h. (ending-Evolves message at t r h).6;
    keeps_sound = λ r h v. (ending-IsSound message at t r h v).6;
    same_id = λ r. refl;
  }

claimable_facts :
    (q : ClaimRequest) (t : Times) (r : Row)
    → claimable q.scope q.documents t r ≡ true
    → (is_pending r.status ≡ true) × (r.attempt_count < r.max_attempts)
unfolding claimable
claimable_facts q t r h = ground arith

claim_rows-Keeps :
    (o : Outside) (q : ClaimRequest) (t : Times) (rs : List Row)
    → Distinct rs
    → Keeps rs (claim_rows o q t rs)
unfolding claim_rows
claim_rows-Keeps o q t rs d =
    update_where-Keeps (is_selected o q t rs) (claimed_row o q.owner q.expires_at t) rs
      (λ r. unfold claimed_row in refl)
      (All-mono rs
        (λ r sound. record {
          evolves = λ h.
              claimed_row-Evolves o q.owner q.expires_at t r (claimable_facts q t r (sound h)).0;
          keeps_sound = λ h.
              claimed_row-IsSound o q.owner q.expires_at t r (claimable_facts q t r (sound h)).1;
        })
        (select_ids_sound o (claimable q.scope q.documents t) (claims_before o) q.limit rs d))

recoverable-leased :
    (s : JobScope) (ds : List Document) (t : Times) (r : Row)
    → recoverable s ds t r ≡ true
    → is_leased r.status ≡ true
unfolding recoverable
recoverable-leased s ds t r h = ground arith

recover-Keeps :
    (o : Outside) (s : JobScope) (ds : List Document) (limit : ℕ) (t : Times) (rs : List Row)
    → Distinct rs
    → Keeps rs (recover_expired_leases o s ds limit t rs)
unfolding recover_expired_leases
recover-Keeps o s ds limit t rs d =
    let e = recovered-IsEnding "" 0 t in
    update_where-Keeps (is_recovered o s ds limit t rs) (recovered_row t) rs e.same_id (
      All-mono rs
        (λ r sound. record {
          evolves = λ h. e.evolves r (recoverable-leased s ds t r (sound h));
          keeps_sound = λ h. e.keeps_sound r (recoverable-leased s ds t r (sound h));
        })
        (select_ids_sound o (recoverable s ds t) (expires_before o) limit rs d))

cancel_job-Keeps :
    (message : String) (t : Times) (j : Job) (rs : List Row)
    → Keeps rs (or_keep rs (cancel_job message t j rs))
unfolding cancel_job
cancel_job-Keeps message t j rs = update_owned-Keeps j t _ rs (cancelled-IsEnding message 0 t)

map_ok-rows :
    (f : Claimed → Claimed) (m : Result Failure Claimed) (c : Claimed)
    → ((c : Claimed) → (f c).rows ≡ c.rows)
    → map_ok f m ≡ ok c
    → (c' : Claimed) × (m ≡ ok c') × (c'.rows ≡ c.rows)
map_ok-rows f (ok c') c same h = (c', refl, ground (arith, same c'))
map_ok-rows f (err e) c same h = cc

Result-cases :
    (m : Result Failure (List Row))
    → ((rs : List Row) × (m ≡ ok rs)) ⊎ ((e : Failure) × (m ≡ err e))
Result-cases (ok rs) = inl (rs, refl)
Result-cases (err e) = inr (e, refl)

screen-Keeps :
    (o : Outside) (ds : List Document) (t : Times) (js : List Job) (rs : List Row) (c : Claimed)
    → screen o ds t js rs ≡ ok c
    → Keeps rs c.rows
unfolding screen
screen-Keeps o ds t [] rs c h = subst (Keeps rs) (ground arith) (Keeps-refl rs)
screen-Keeps o ds t (j ∷ js) rs c h =
    let doc = find_document j.document_id ds in
    elim (Option-cases (refusal o doc j)) [
      | inl fine ↦
          let (c', e, same) =
            map_ok-rows (add_ready (with_text doc j)) (screen o ds t js rs) c
              (λ x. unfold add_ready in refl) (rw (fine, screen) at h) in
          subst (Keeps rs) same (screen-Keeps o ds t js rs c' e)
      | inr (message, bad) ↦ elim (Result-cases (cancel_job message t j rs)) [
        | inl (rs', done) ↦
            let (c', e, same) =
              map_ok-rows add_cancelled (screen o ds t js rs') c (λ x. unfold add_cancelled in refl)
                (rw (bad, done, screen) at h) in
            let first : Keeps rs rs' = rw done at (cancel_job-Keeps message t j rs) in
            subst (Keeps rs) same
              (Keeps-trans rs rs' c'.rows first (screen-Keeps o ds t js rs' c' e))
        | inr (e, lost) ↦ absurd (ground (arith, bad, lost))
      ]
    ]

claim_jobs-Keeps :
    (o : Outside) (q : ClaimRequest) (t : Times) (rs : List Row)
    → Distinct rs
    → Keeps rs (claimed_or_keep rs (claim_jobs o q t rs))
unfolding claim_jobs
claim_jobs-Keeps o q t rs d =
    go (screen o q.documents t (jobs_of o (is_selected o q t rs) rs) (claim_rows o q t rs)) refl
  where
    go :
        (m : Result Failure Claimed)
        → screen o q.documents t (jobs_of o (is_selected o q t rs) rs) (claim_rows o q t rs) ≡ m
        → Keeps rs (claimed_or_keep rs m)
    go (ok c) e =
        Keeps-trans rs (claim_rows o q t rs) c.rows (claim_rows-Keeps o q t rs d)
          (screen-Keeps o q.documents t _ (claim_rows o q t rs) c e)
    go (err e) h = Keeps-refl rs

-- Every transaction of the worker, by whichever holder of whichever lease, changes each row of the
-- table only as a row may change, keeps the keys, and keeps every sound row sound.
pub step-Keeps : (o : Outside) (rs : List Row) (p : Op) → Distinct rs → Keeps rs (step o rs p)
unfolding step
step-Keeps o rs (claims q t) d = claim_jobs-Keeps o q t rs d
step-Keeps o rs (cancels message t j) d = cancel_job-Keeps message t j rs
step-Keeps o rs (completes t j) d =
    unfold complete_job in update_owned-Keeps j t _ rs (completed-IsEnding "" 0 t)
step-Keeps o rs (fails message t j) d =
    unfold fail_job in update_owned-Keeps j t _ rs (failed-IsEnding message 0 t)
step-Keeps o rs (fails_permanently message t j) d =
    unfold fail_job_permanently in update_owned-Keeps j t _ rs (dead-IsEnding message 0 t)
step-Keeps o rs (defers at t j) d =
    unfold defer_job in update_owned-Keeps j t _ rs (deferred-IsEnding "" at t)
step-Keeps o rs (renews at t j) d =
    unfold renew_job_lease in owned-Keeps j t.clock _ rs (renewed-IsEnding "" at t)
step-Keeps o rs (recovers s ds limit t) d = recover-Keeps o s ds limit t rs d

-- Where job_id is a key, any sequence of transactions of the lease protocol changes each row only
-- as the protocol allows: its identifier, document, kind, model, checksum, input revision, priority
-- and limit of attempts never, its fence only up, a terminal row not at
-- all, and a row that carries a lease afterwards has it under a larger fence or held it before.
-- The keys stay, and rows that carry a lease exactly while leased and keep to their attempts go on
-- doing so.
pub run-Keeps : (o : Outside) (rs : List Row) (ps : List Op) → Distinct rs → Keeps rs (run o rs ps)
unfolding run
run-Keeps o rs [] d = Keeps-refl rs
run-Keeps o rs (p ∷ ps) d =
    let first = step-Keeps o rs p d in
    Keeps-trans rs (step o rs p) (run o (step o rs p) ps) first
      (run-Keeps o (step o rs p) ps (subst DistinctIds (sym first.keys) d))
