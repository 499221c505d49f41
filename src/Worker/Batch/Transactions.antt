-- ===== src/Worker/Batch/Transactions.antt =====
-- The transactions of worker.go, each with what the other workers have committed before it, and the
-- statements on one lease that they run.
use integration_console.Prelude.{
  ℕ, ◌≡◌, refl, sym, subst, Bool, true, false, String, List, [], ◌∷◌, Result, ok, err,
  if◌then◌else◌, arith,
}
use integration_console.Embed.Errors.{Error}
use integration_console.Worker.Jobs.{
  Row, Job, Times, Failure, complete_job, fail_job, fail_job_permanently, defer_job,
}
use integration_console.Worker.Protocol.{
  Op, completes, fails, fails_permanently, defers, or_keep, step,
}
use integration_console.Worker.Protocol.Keys.{Distinct, DistinctIds}
use integration_console.Worker.Protocol.Steps.{
  Keeps, Keeps-refl, Keeps-trans, step-Keeps, run-Keeps,
}
use integration_console.Worker.Store.{Store}
use integration_console.Worker.Batch.{
  Env, World, Fate, commits, begin_fails, commit_fails, seen, settle, transact, with_rows,
  fail_oversized_job, fail_claimed_job, defer_claimed_job, fail_claimed_jobs, defer_claimed_jobs,
  go_on,
}

-- The table after is what the table before may become, where job_id is a key.
abbrev pub Leads : {V : Type 0} → Store V → Store V → Type 0
Leads s s' = Distinct s.rows → Keeps s.rows s'.rows

pub Leads-refl : {V : Type 0} (s : Store V) → Leads s s
Leads-refl s d = Keeps-refl s.rows

pub Leads-trans : {V : Type 0} (a b c : Store V) → Leads a b → Leads b c → Leads a c
Leads-trans a b c h k d =
    let first = h d in
    Keeps-trans a.rows b.rows c.rows first (k (subst DistinctIds (sym first.keys) d))

pub go_on-Leads :
    {A V : Type 0} (s : Store V) (r : World V × Result Failure A) (f : A → World V → World V)
    (g : Failure → World V → World V)
    → Leads s (r.0).store
    → ((a : A) (w : World V) → Leads w.store (f a w).store)
    → ((e : Failure) (w : World V) → Leads w.store (g e w).store)
    → Leads s (go_on r f g).store
unfolding go_on
go_on-Leads s (w, ok a) f g h k l = Leads-trans s w.store (f a w).store h (k a w)
go_on-Leads s (w, err e) f g h k l = Leads-trans s w.store (g e w).store h (l e w)

pub if-Leads :
    {V : Type 0} (b : Bool) (s : Store V) (x y : World V)
    → Leads s x.store
    → Leads s y.store
    → Leads s (if b then x else y).store
if-Leads true s x y h k = h
if-Leads false s x y h k = k

module _ {V : Type 0} (env : Env V) where
  -- What a transaction's statements may do.
  abbrev pub IsFine : {A : Type 0} → (Times → Store V → Result Failure (Store V × A)) → Type 0
  IsFine {A} body = (t : Times) (s s' : Store V) (a : A) → body t s ≡ ok (s', a) → Leads s s'

  pub settle-Leads :
      {A : Type 0} (f : Fate) (s : Store V) (m : Result Failure (Store V × A))
      → ((s' : Store V) (a : A) → m ≡ ok (s', a) → Leads s s')
      → Leads s (settle env f s m).0
  unfolding settle
  settle-Leads begin_fails s m h = Leads-refl s
  settle-Leads commits s (err e) h = Leads-refl s
  settle-Leads commit_fails s (err e) h = Leads-refl s
  settle-Leads commits s (ok (s', a)) h = h s' a refl
  settle-Leads commit_fails s (ok (s', a)) h = Leads-refl s

  pub seen-Leads : (w : World V) → Leads w.store (seen env w)
  unfolding seen
  seen-Leads w d = run-Keeps env.outside w.store.rows (env.others w.transactions) d

  pub transact-Leads :
      {A : Type 0} (body : Times → Store V → Result Failure (Store V × A)) (w : World V)
      → IsFine body
      → Leads w.store (transact env body w).0.store
  unfolding transact
  transact-Leads body w h =
      let t = env.times w.transactions in
      let s = seen env w in
      Leads-trans w.store s (settle env (env.fate w.transactions) s (body t s)).0 (seen-Leads w)
        (settle-Leads (env.fate w.transactions) s (body t s) (λ s' a e. h t s s' a e))

  -- A statement on one lease, committed by itself.
  pub rows-IsFine :
      (f : Times → List Row → Result Failure (List Row)) (p : Times → Op)
      → ((t : Times) (rs : List Row) → step env.outside rs (p t) ≡ or_keep rs (f t rs))
      → IsFine (λ t s. with_rows env s (f t s.rows))
  rows-IsFine f p same t s s' u e d = go (f t s.rows) refl e
    where
      go :
          (m : Result Failure (List Row))
          → f t s.rows ≡ m
          → with_rows env s m ≡ ok (s', u)
          → Keeps s.rows s'.rows
      go (ok rows) made done = subst (Keeps s.rows) (ground (arith, done)) (
          subst (λ m. Keeps s.rows (or_keep s.rows m)) made
            (subst (Keeps s.rows) (same t s.rows) (step-Keeps env.outside s.rows (p t) d)))
      go (err x) made done = absurd (ground (arith, done))

  pub fail_oversized_job-Leads :
      (j : Job) (e : Error) (w : World V) → Leads w.store (fail_oversized_job env j e w).store
  unfolding fail_oversized_job
  fail_oversized_job-Leads j e w = transact-Leads _ w (
      rows-IsFine (λ t rs. fail_job_permanently (env.error_text e) t j rs)
        (λ t. fails_permanently (env.error_text e) t j) (λ t rs. unfold step in refl))

  pub fail_claimed_job-Leads :
      (j : Job) (message : String) (w : World V)
      → Leads w.store (fail_claimed_job env j message w).store
  unfolding fail_claimed_job
  fail_claimed_job-Leads j message w = transact-Leads _ w (
      rows-IsFine (λ t rs. fail_job message t j rs) (λ t. fails message t j)
        (λ t rs. unfold step in refl))

  pub defer_claimed_job-Leads :
      (at : ℕ) (j : Job) (w : World V) → Leads w.store (defer_claimed_job env at j w).store
  unfolding defer_claimed_job
  defer_claimed_job-Leads at j w =
      transact-Leads _ w (
        rows-IsFine (λ t rs. defer_job at t j rs) (λ t. defers at t j)
          (λ t rs. unfold step in refl))

  pub fail_claimed_jobs-Leads :
      (js : List Job) (message : String) (w : World V)
      → Leads w.store (fail_claimed_jobs env js message w).store
  unfolding fail_claimed_jobs
  fail_claimed_jobs-Leads [] message w = Leads-refl w.store
  fail_claimed_jobs-Leads (j ∷ js) message w =
      let w' = fail_claimed_job env j message w in
      Leads-trans w.store w'.store (fail_claimed_jobs env js message w').store
        (fail_claimed_job-Leads j message w) (fail_claimed_jobs-Leads js message w')

  pub defer_claimed_jobs-Leads :
      (at : ℕ) (js : List Job) (w : World V) → Leads w.store (defer_claimed_jobs env at js w).store
  unfolding defer_claimed_jobs
  defer_claimed_jobs-Leads at [] w = Leads-refl w.store
  defer_claimed_jobs-Leads at (j ∷ js) w =
      let w' = defer_claimed_job env at j w in
      Leads-trans w.store w'.store (defer_claimed_jobs env at js w').store
        (defer_claimed_job-Leads at j w) (defer_claimed_jobs-Leads at js w')

  pub complete-Leads :
      (t : Times) (j : Job) (s s' : Store V) → complete_job t j s.rows ≡ ok s'.rows → Leads s s'
  complete-Leads t j s s' e d =
      subst (λ m. Keeps s.rows (or_keep s.rows m)) e
        (unfold step in step-Keeps env.outside s.rows (completes t j) d)
