-- ===== src/Worker/Batch/Deferral.antt =====
-- What becomes of the rows of jobs that worker.go defers, where no other worker is at work.
use integration_console.Prelude.{
  ℕ, zero, suc, ◌+◌, ◌-◌, ◌≡◌, refl, ap, ◌∙◌, inl, inr, Bool, true, false, none, some, str_eq, List,
  [], ◌∷◌, ◌++◌, All, get_elem?, Result, ok, err, ◌==◌, if◌then◌else◌, arith, Bool-cases,
}
use integration_console.Embed.Errors.{Error, retry_time, oversized_index}
use integration_console.Worker.Jobs.{
  Row, Job, Times, Failure, pending, owns, update_owned, affected, defer_job, deferred_row,
}
use integration_console.Worker.Protocol.{or_keep, run}
use integration_console.Worker.Protocol.Fencing.{update_where-at}
use integration_console.Worker.Groups.{JobGroup, remaining_jobs}
use integration_console.Worker.Store.{Store}
use integration_console.Worker.Batch.{
  Env, World, Fate, commits, seen, settle, transact, with_rows, texts, oversized_job, retry_or_poll,
  defer_claimed_job, defer_claimed_jobs, process_groups,
}
use integration_console.Worker.Batch.Rounds.{process_groups_unavailable}

affected-at :
    (p : Row → Bool) (rs : List Row) (i : ℕ) (r : Row)
    → get_elem? rs i ≡ some r
    → p r ≡ true
    → (affected p rs == 0) ≡ false
unfolding affected
affected-at p [] i r e h = cc
affected-at p (x ∷ xs) zero r e h =
    (let same : x ≡ r = cc in let hit = ap p same ∙ h in ground (arith, hit))
affected-at p (x ∷ xs) (suc i) r e h = ground (arith, affected-at p xs i r e h)

-- A job of another row.
abbrev pub IsApart : Row → Job → Type 0
IsApart r j = str_eq r.job_id j.job_id ≡ false

deferred_other :
    (at : ℕ) (t : Times) (j : Job) (rs : List Row) (i : ℕ) (r : Row)
    → get_elem? rs i ≡ some r
    → IsApart r j
    → get_elem? (or_keep rs (defer_job at t j rs)) i ≡ some r
unfolding defer_job update_owned owns
deferred_other at t j rs i r e apart = elim (Bool-cases (affected (owns j t.clock) rs == 0)) [
  | inl none_hit ↦ rw none_hit e
  | inr hit ↦
      (let free : owns j t.clock r ≡ false = rw apart refl in
        rw hit (
          update_where-at (owns j t.clock) (deferred_row at t) rs i r e
          ∙ ap (λ b. some (if b then deferred_row at t r else r)) free))
]

deferred_own :
    (at : ℕ) (t : Times) (j : Job) (rs : List Row) (i : ℕ) (r : Row)
    → get_elem? rs i ≡ some r
    → owns j t.clock r ≡ true
    → get_elem? (or_keep rs (defer_job at t j rs)) i ≡ some (deferred_row at t r)
unfolding defer_job update_owned
deferred_own at t j rs i r e own =
    let hit = affected-at (owns j t.clock) rs i r e own in
    rw hit (
      update_where-at (owns j t.clock) (deferred_row at t) rs i r e
      ∙ ap (λ b. some (if b then deferred_row at t r else r)) own)

module _ {V : Type 0} (env : Env V) where
  -- No other worker is at work, and the database carries everything out.
  abbrev pub IsQuiet : Type 0
  IsQuiet = (n : ℕ) → (env.others n ≡ []) × (env.fate n ≡ commits)

  seen-quiet : (w : World V) → IsQuiet → seen env w ≡ w.store
  unfolding seen run
  seen-quiet w q = rw (q w.transactions).0 refl

  defer-rows :
      (at : ℕ) (j : Job) (w : World V)
      → IsQuiet
      → (defer_claimed_job env at j w).store.rows
        ≡ or_keep w.store.rows (defer_job at (env.times w.transactions) j w.store.rows)
  unfolding defer_claimed_job transact settle
  defer-rows at j w q =
      let t = env.times w.transactions in
      let after : Fate → Store V → List Row =
        λ fate s. (settle env fate s (with_rows env s (defer_job at t j s.rows))).0.rows in
      ap (λ fate. after fate (seen env w)) (q w.transactions).1
      ∙ ap (after commits) (seen-quiet w q)
      ∙ settled (defer_job at t j w.store.rows)
    where
      settled :
          (m : Result Failure (List Row))
          → (settle env commits w.store (with_rows env w.store m)).0.rows ≡ or_keep w.store.rows m
      settled (ok rows) = refl
      settled (err x) = refl

  defer_all-other :
      (at : ℕ) (js : List Job) (w : World V) (i : ℕ) (r : Row)
      → IsQuiet
      → All (IsApart r) js
      → get_elem? w.store.rows i ≡ some r
      → get_elem? (defer_claimed_jobs env at js w).store.rows i ≡ some r
  unfolding defer_claimed_jobs
  defer_all-other at [] w i r q h e = e
  defer_all-other at (j ∷ js) w i r q h e =
      defer_all-other at js (defer_claimed_job env at j w) i r q h.1 (
        ap (λ rs. get_elem? rs i) (defer-rows at j w q)
        ∙ deferred_other at (env.times w.transactions) j w.store.rows i r e h.0)

  defer_all-own :
      (at : ℕ) (earlier later : List Job) (j : Job) (w : World V) (i : ℕ) (r : Row)
      → IsQuiet
      → All (IsApart r) earlier
      → All (IsApart r) later
      → ((n : ℕ) → owns j (env.times n).clock r ≡ true)
      → get_elem? w.store.rows i ≡ some r
      → (n : ℕ) × (get_elem? (defer_claimed_jobs env at (earlier ++ (j ∷ later)) w).store.rows i
          ≡ some (deferred_row at (env.times n) r))
  unfolding defer_claimed_jobs
  defer_all-own at [] later j w i r q h k own e =
      let t = env.times w.transactions in
      let done =
        ap (λ rs. get_elem? rs i) (defer-rows at j w q)
        ∙ deferred_own at t j w.store.rows i r e (own w.transactions) in
      (
        w.transactions,
        defer_all-other at later (defer_claimed_job env at j w) i (deferred_row at t r) q
            (unfold deferred_row in k) done,
      )
  defer_all-own at (x ∷ earlier) later j w i r q h k own e =
      defer_all-own at earlier later j (defer_claimed_job env at x w) i r q h.1 k own (
        ap (λ rs. get_elem? rs i) (defer-rows at x w q)
        ∙ deferred_other at (env.times w.transactions) x w.store.rows i r e h.0)

  -- What the row of a deferred job looks like.
  abbrev pub IsDeferred : ℕ → Row → Row → Type 0
  IsDeferred at before after =
      (after.status ≡ pending)
      × (after.next_attempt_at ≡ at)
      × (after.lease_token ≡ none)
      × (after.lease_fence ≡ before.lease_fence)
      × (after.attempt_count ≡ before.attempt_count - 1)

  -- Where no other worker is at work and the database carries everything out: when a backend answers the
  -- first group of a round with a retry time, and with no oversized job, the row of every job of the round,
  -- held by its lease and of no other job of the round, is pending again until that time, or until the poll
  -- interval is over where the time is zero, without a lease and with the attempt given back.
  pub process_groups-IsDeferred :
      (g : JobGroup) (gs : List JobGroup) (w : World V) (e : Error) (at : ℕ)
      (earlier later : List Job) (j : Job) (i : ℕ) (r : Row)
      → IsQuiet
      → env.embed w.asked g.kind (texts g.jobs) ≡ err e
      → retry_time e ≡ some at
      → oversized_job (oversized_index e) g.jobs ≡ none
      → remaining_jobs gs ++ g.jobs ≡ earlier ++ (j ∷ later)
      → All (IsApart r) earlier
      → All (IsApart r) later
      → ((n : ℕ) → owns j (env.times n).clock r ≡ true)
      → get_elem? w.store.rows i ≡ some r
      → (after : Row) × (get_elem? (process_groups env (g ∷ gs) w).store.rows i ≡ some after)
        × IsDeferred (retry_or_poll env at) r after
  process_groups-IsDeferred g gs w e at earlier later j i r q asked known named split h k own
        there =
      let asking = record w { asked = w.asked + 1 } in
      let whole =
        process_groups_unavailable env g gs w e at asked known named
        ∙ ap (λ js. defer_claimed_jobs env (retry_or_poll env at) js asking) split in
      let (n, done) =
        defer_all-own (retry_or_poll env at) earlier later j asking i r q h k own there in
      (
        deferred_row (retry_or_poll env at) (env.times n) r,
        ap (λ x. get_elem? x.store.rows i) whole ∙ done,
        unfold deferred_row in (refl, refl, refl, refl, refl),
      )
