-- ===== src/Worker/Protocol/Fencing.antt =====
-- What fencing promises: a lease that has ended, or a row that is done, is out of reach for good.
use integration_console.Prelude.{
  ℕ, zero, suc, ◌+◌, ◌≤◌, ◌<◌, ◌≡◌, refl, sym, subst, inl, inr, Bool, true, false, none, some,
  String, str_eq, str_eq_iff, List, [], ◌∷◌, All, get_elem?, ok, err, ◌==◌, if◌then◌else◌, arith,
  Bool-cases,
}
use integration_console.Worker.Jobs.{
  Row, Job, Times, lease_lost, completed, pending, is_leased, owns, update_where, update_owned,
  affected, complete_job, completed_row, cancel_job, fail_job, fail_job_permanently, defer_job,
  renew_job_lease, deferred_row,
}
use integration_console.Worker.Claim.{Outside, claimed_row, job_of}
use integration_console.Worker.Protocol.{Op, completes, or_keep, step, run}
use integration_console.Worker.Protocol.Rows.{Evolves, Pairs, is_terminal}
use integration_console.Worker.Protocol.Keys.{Distinct, DistinctIds}
use integration_console.Worker.Protocol.Steps.{run-Keeps, step-Keeps, Keeps}

-- The row that a row at an index has become.
pub Pairs-at :
    (rs rs' : List Row) (i : ℕ) (r : Row)
    → Pairs Evolves rs rs'
    → get_elem? rs i ≡ some r
    → (r' : Row) × (get_elem? rs' i ≡ some r') × Evolves r r'
Pairs-at [] rs' i r h e = cc
Pairs-at (x ∷ xs) [] i r h e = absurd h
Pairs-at (x ∷ xs) (y ∷ ys) zero r h e = (y, refl, subst (λ z. Evolves z y) (ground arith) h.0)
Pairs-at (x ∷ xs) (y ∷ ys) (suc i) r h e = Pairs-at xs ys i r h.1 e

-- Where job_id is a key, the row of a completed, failed or cancelled job stays exactly as it is,
-- whatever transactions follow.
pub terminal_stays :
    (o : Outside) (rs : List Row) (ps : List Op) (i : ℕ) (r : Row)
    → Distinct rs
    → get_elem? rs i ≡ some r
    → is_terminal r.status ≡ true
    → get_elem? (run o rs ps) i ≡ some r
terminal_stays o rs ps i r d e h =
    let (r', at, evolved) = Pairs-at rs (run o rs ps) i r (run-Keeps o rs ps d).rows e in
    ground (arith, at, evolved.frozen h)

-- The lease that a job holds on a row is over: the row is free under the same fence or a larger one,
-- or leased under a larger one.
abbrev pub Ended : Job → Row → Type 0
Ended j r =
    r.job_id ≡ j.job_id
    → (j.lease_fence ≤ r.lease_fence)
      × ((is_leased r.status ≡ true) → j.lease_fence < r.lease_fence)

Ended-Evolves : (j : Job) (r r' : Row) → Evolves r r' → Ended j r → Ended j r'
Ended-Evolves j r r' v h e = ground (arith, h (ground (arith, v.same_id)), v.fenced)

Pairs-Ended :
    (j : Job) (rs rs' : List Row) → Pairs Evolves rs rs' → All (Ended j) rs → All (Ended j) rs'
Pairs-Ended j [] [] h a = tt
Pairs-Ended j [] (y ∷ ys) h a = absurd h
Pairs-Ended j (x ∷ xs) [] h a = absurd h
Pairs-Ended j (x ∷ xs) (y ∷ ys) h a = (Ended-Evolves j x y h.0 a.0, Pairs-Ended j xs ys h.1 a.1)

owns-Ended : (j : Job) (clock : ℕ) (r : Row) → Ended j r → owns j clock r ≡ false
unfolding owns
owns-Ended j clock r h = elim (Bool-cases (str_eq r.job_id j.job_id)) [
  | inl same ↦ ground (arith, h ((str_eq_iff r.job_id j.job_id).0 same))
  | inr other ↦ rw other refl
]

affected-Ended :
    (j : Job) (clock : ℕ) (rs : List Row) → All (Ended j) rs → affected (owns j clock) rs ≡ 0
unfolding affected
affected-Ended j clock [] h = refl
affected-Ended j clock (r ∷ rs) h =
    ground (arith, owns-Ended j clock r h.0, affected-Ended j clock rs h.1)

-- Where job_id is a key, a lease that is over stays over: whatever statements of lease.go follow, by this
-- worker or others, every statement of its holder finds the lease lost, and a renewal renews nothing.
pub run-Ended :
    (o : Outside) (j : Job) (rs : List Row) (ps : List Op) (message : String) (at : ℕ) (t : Times)
    → Distinct rs
    → All (Ended j) rs
    → let now = run o rs ps in
      (complete_job t j now ≡ err lease_lost)
      × (fail_job message t j now ≡ err lease_lost)
      × (fail_job_permanently message t j now ≡ err lease_lost)
      × (defer_job at t j now ≡ err lease_lost)
      × (cancel_job message t j now ≡ err lease_lost)
      × ((renew_job_lease at t j now).1 ≡ false)
unfolding complete_job fail_job fail_job_permanently defer_job cancel_job renew_job_lease
run-Ended o j rs ps message at t d h =
    let now = run o rs ps in
    let none_hit =
      affected-Ended j t.clock now (Pairs-Ended j rs now (run-Keeps o rs ps d).rows h) in
    (rw none_hit, rw none_hit, rw none_hit, rw none_hit, rw none_hit, rw none_hit)

pub update_where-at :
    (p : Row → Bool) (f : Row → Row) (rs : List Row) (i : ℕ) (r : Row)
    → get_elem? rs i ≡ some r
    → get_elem? (update_where p f rs) i ≡ some (if p r then f r else r)
unfolding update_where
update_where-at p f [] i r e = cc
update_where-at p f (x ∷ xs) zero r e = ground arith
update_where-at p f (x ∷ xs) (suc i) r e = update_where-at p f xs i r e

update_owned-eq-ok :
    (j : Job) (t : Times) (f : Row → Row) (rs rs' : List Row)
    → update_owned j t f rs ≡ ok rs'
    → update_where (owns j t.clock) f rs ≡ rs'
unfolding update_owned
update_owned-eq-ok j t f rs rs' h = elim (Bool-cases (affected (owns j t.clock) rs == 0)) [
  | inl none_hit ↦ absurd (ground (arith, none_hit))
  | inr hit ↦ ground (arith, hit)
]

owns-fence : (j : Job) (clock : ℕ) (r : Row) → owns j clock r ≡ true → r.lease_fence ≡ j.lease_fence
unfolding owns
owns-fence j clock r h = ground arith

-- Completion is final. Where job_id is a key and the holder of a lease completes its job, the row is
-- completed, without a lease, under the holder's fence, and after any further statements of lease.go
-- it is still exactly the row that the completion wrote.
pub complete_job_final :
    (o : Outside) (j : Job) (rs rs' : List Row) (ps : List Op) (i : ℕ) (r : Row) (t : Times)
    → Distinct rs
    → get_elem? rs i ≡ some r
    → owns j t.clock r ≡ true
    → complete_job t j rs ≡ ok rs'
    → (get_elem? (run o rs' ps) i ≡ some (completed_row t r))
      × ((completed_row t r).status ≡ completed)
      × ((completed_row t r).completed_at ≡ some t.current)
      × ((completed_row t r).lease_token ≡ none)
      × ((completed_row t r).owner_id ≡ none)
      × ((completed_row t r).lease_expires_at ≡ none)
      × ((completed_row t r).lease_fence ≡ j.lease_fence)
unfolding complete_job step
complete_job_final o j rs rs' ps i r t d e own done =
    let row = completed_row t r in
    let updated : update_where (owns j t.clock) (completed_row t) rs ≡ rs' =
      update_owned-eq-ok j t (completed_row t) rs rs' (unfold complete_job in done) in
    let stored : get_elem? rs' i ≡ some row =
      subst (λ x. get_elem? x i ≡ some row) updated
        (rw own at (update_where-at (owns j t.clock) (completed_row t) rs i r e)) in
    let kept : Keeps rs rs' =
      subst (λ m. Keeps rs (or_keep rs m)) done (step-Keeps o rs (completes t j) d) in
    (
      terminal_stays o rs' ps i row (subst DistinctIds (sym kept.keys) d) stored
          (unfold completed_row in refl),
      unfold completed_row in refl,
      unfold completed_row in refl,
      unfold completed_row in refl,
      unfold completed_row in refl,
      unfold completed_row in refl,
      unfold completed_row in owns-fence j t.clock r own,
    )

-- Claiming is bookkeeping: a claim and then a deferral by its holder leave a pending row with the
-- attempts that it had, whose fence is one larger, and no statement of that holder selects it again.
pub claim_then_defer :
    (o : Outside) (owner : String) (expires_at retry_at clock : ℕ) (s t : Times) (r : Row)
    → let back = deferred_row retry_at t (claimed_row o owner expires_at s r) in
      (back.attempt_count ≡ r.attempt_count)
      × (back.status ≡ pending)
      × (back.next_attempt_at ≡ retry_at)
      × (back.lease_fence ≡ r.lease_fence + 1)
      × (owns (job_of o r) clock back ≡ false)
unfolding deferred_row claimed_row owns
claim_then_defer o owner expires_at retry_at clock s t r = ground arith
