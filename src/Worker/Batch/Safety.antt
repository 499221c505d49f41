-- ===== src/Worker/Batch/Safety.antt =====
-- A whole round of worker.go on the table of jobs, between whatever the other workers commit.
use integration_console.Prelude.{
  ℕ, zero, suc, ◌+◌, ◌≡◌, refl, subst, inl, inr, not, Option, none, some, String, List, [], ◌∷◌,
  ◌++◌, Result, ok, err, ◌>>=◌, >>=-eq-ok, arith, length, ◌==◌, Bool-cases, Option-cases,
}
use integration_console.Embed.Errors.{Error, retry_time, oversized_index}
use integration_console.Worker.Jobs.{Job, Times, Failure, count_mismatch}
use integration_console.Worker.Claim.{Claimed, claim_jobs}
use integration_console.Worker.Protocol.{claims, claimed_or_keep, step}
use integration_console.Worker.Protocol.Keys.{Distinct}
use integration_console.Worker.Protocol.Steps.{Keeps, step-Keeps}
use integration_console.Worker.Groups.{JobGroup, ordered_job_groups, remaining_jobs}
use integration_console.Worker.Store.{
  Store, store_one, store_each, store_completion, store_completions,
}
use integration_console.Worker.Store.Completion.{store_one_iff, store_completion-IsStored}
use integration_console.Worker.Batch.{
  Env, World, GroupAnswer, embedded, refused, out_of_fuel, transact, fail_oversized_job,
  fail_claimed_jobs, texts, remove_at, oversized_job, is_nil, embed_group, embed_rounds,
  store_or_fail, store_singly, store_group, keep_vectors, retry_or_poll, process_groups,
  claim_request, claimed_store, process_batch, handle, claim_and_process, drop_oversized,
  read_answer,
}
use integration_console.Worker.Batch.Transactions.{
  IsFine, Leads, Leads-refl, Leads-trans, complete-Leads, defer_claimed_jobs-Leads,
  fail_claimed_job-Leads, fail_claimed_jobs-Leads, fail_oversized_job-Leads, go_on-Leads, if-Leads,
  transact-Leads,
}

module _ {V : Type 0} (env : Env V) where
  store_completion-Leads :
      (t : Times) (j : Job) (v : V) (s s' : Store V)
      → store_completion env.valid env.outside t j v s ≡ ok s'
      → Leads s s'
  store_completion-Leads t j v s s' e =
      complete-Leads env t j s s'
        (store_completion-IsStored env.valid env.outside t j v s s' e).row_done

  store_each-Leads :
      (t : Times) (js : List Job) (vs : List V) (s s' : Store V)
      → store_each env.valid env.outside t js vs s ≡ ok s'
      → Leads s s'
  unfolding store_each
  store_each-Leads t [] vs s s' e =
      let same : s ≡ s' = ground arith in subst (Leads s) same (Leads-refl s)
  store_each-Leads t (j ∷ js) [] s s' e =
      let same : s ≡ s' = ground arith in subst (Leads s) same (Leads-refl s)
  store_each-Leads t (j ∷ js) (v ∷ vs) s s' e =
      let (m, one, rest) = >>=-eq-ok (store_one env.valid env.outside t j v s) _ e in
      Leads-trans s m s'
        (store_completion-Leads t j v s m ((store_one_iff env.valid env.outside t j v s m).0 one))
        (store_each-Leads t js vs m s' rest)

  store_completions-Leads :
      (t : Times) (js : List Job) (vs : List V) (s s' : Store V)
      → store_completions env.valid env.outside t js vs s ≡ ok s'
      → Leads s s'
  unfolding store_completions
  store_completions-Leads t js vs s s' e = store_each-Leads t js vs s s' (ground arith)

  -- The body of a transaction that returns the store alone.
  alone-IsFine :
      (f : Times → Store V → Result Failure (Store V))
      → ((t : Times) (s s' : Store V) → f t s ≡ ok s' → Leads s s')
      → IsFine env (λ t s. f t s >>= λ s'. ok (s', tt))
  alone-IsFine f fine t s s' u e =
      let (m, made, done) = >>=-eq-ok (f t s) _ e in
      let same : m ≡ s' = ground (arith, done) in subst (Leads s) same (fine t s m made)

  store_or_fail-Leads :
      (j : Job) (v : V) (w : World V) → Leads w.store (store_or_fail env j v w).store
  unfolding store_or_fail
  store_or_fail-Leads j v w =
      go_on-Leads w.store _ _ _
        (transact-Leads env _ w (
          alone-IsFine (λ t s. store_completion env.valid env.outside t j v s)
            (λ t s s' e. store_completion-Leads t j v s s' e)))
        (λ u w'. Leads-refl w'.store) (λ e w'. fail_claimed_job-Leads env j (env.failure_text e) w')

  store_singly-Leads :
      (js : List Job) (vs : List V) (w : World V) → Leads w.store (store_singly env js vs w).store
  unfolding store_singly
  store_singly-Leads [] vs w = Leads-refl w.store
  store_singly-Leads (j ∷ js) [] w = Leads-refl w.store
  store_singly-Leads (j ∷ js) (v ∷ vs) w =
      let w' = store_or_fail env j v w in
      Leads-trans w.store w'.store (store_singly env js vs w').store (store_or_fail-Leads j v w)
        (store_singly-Leads js vs w')

  store_group-Leads :
      (js : List Job) (vs : List V) (w : World V) → Leads w.store (store_group env js vs w).store
  unfolding store_group
  store_group-Leads js vs w =
      go_on-Leads w.store _ _ _
        (transact-Leads env _ w (
          alone-IsFine (λ t s. store_completions env.valid env.outside t js vs s)
            (λ t s s' e. store_completions-Leads t js vs s s' e)))
        (λ u w'. Leads-refl w'.store) (λ e w'. store_singly-Leads js vs w')

  keep_vectors-Leads :
      (js : List Job) (vs : List V) (w : World V) → Leads w.store (keep_vectors env js vs w).store
  unfolding keep_vectors
  keep_vectors-Leads js vs w = elim (Bool-cases (is_nil js)) [
    | inl empty ↦ rw empty (Leads-refl w.store)
    | inr full ↦ rw full (elim (Bool-cases (length vs == length js)) [
      | inl same ↦ rw same (store_group-Leads js vs w)
      | inr other ↦ rw other (fail_claimed_jobs-Leads env js (env.failure_text count_mismatch) w)
    ])
  ]

  drop_oversized-Leads :
      (again : List Job → List String → World V → World V × GroupAnswer V) (js : List Job)
      (ts : List String) (e : Error) (w : World V) (o : Option (ℕ × Job))
      → ((js : List Job) (ts : List String) (w : World V) → Leads w.store (again js ts w).0.store)
      → Leads w.store (drop_oversized env again js ts e w o).0.store
  unfolding drop_oversized
  drop_oversized-Leads again js ts e w none h = Leads-refl w.store
  drop_oversized-Leads again js ts e w (some (i, j)) h =
      elim (Bool-cases (is_nil (remove_at i js))) [
        | inl last ↦ rw last (fail_oversized_job-Leads env j e w)
        | inr more ↦
            (let w' = fail_oversized_job env j e w in
              rw more (
                Leads-trans w.store w'.store ((again (remove_at i js) (remove_at i ts) w').0).store
                  (fail_oversized_job-Leads env j e w) (h (remove_at i js) (remove_at i ts) w')))
      ]

  read_answer-Leads :
      (again : List Job → List String → World V → World V × GroupAnswer V) (js : List Job)
      (ts : List String) (w : World V) (m : Result Error (List V))
      → ((js : List Job) (ts : List String) (w : World V) → Leads w.store (again js ts w).0.store)
      → Leads w.store (read_answer env again js ts w m).0.store
  unfolding read_answer
  read_answer-Leads again js ts w (ok vs) h = Leads-refl w.store
  read_answer-Leads again js ts w (err e) h =
      drop_oversized-Leads again js ts e w (oversized_job (oversized_index e) js) h

  embed_rounds-Leads :
      (fuel : ℕ) (kind : String) (js : List Job) (ts : List String) (w : World V)
      → Leads w.store (embed_rounds env fuel kind js ts w).0.store
  unfolding embed_rounds
  embed_rounds-Leads zero kind js ts w = Leads-refl w.store
  embed_rounds-Leads (suc fuel) kind js ts w =
      read_answer-Leads (embed_rounds env fuel kind) js ts (record w { asked = w.asked + 1 })
        (env.embed w.asked kind ts) (embed_rounds-Leads fuel kind)

  embed_group-Leads :
      (fuel : ℕ) (kind : String) (js : List Job) (w : World V)
      → Leads w.store (embed_group env fuel kind js w).0.store
  unfolding embed_group
  embed_group-Leads fuel kind js w = embed_rounds-Leads fuel kind js (texts js) w

  handle-Leads :
      (others : World V → World V) (gs : List JobGroup) (r : World V × GroupAnswer V)
      → ((w : World V) → Leads w.store (others w).store)
      → Leads (r.0).store (handle env others gs r).store
  unfolding handle
  handle-Leads others gs (w, out_of_fuel) h = Leads-refl w.store
  handle-Leads others gs (w, embedded js vs) h =
      let w' = keep_vectors env js vs w in
      Leads-trans w.store w'.store (others w').store (keep_vectors-Leads js vs w) (h w')
  handle-Leads others gs (w, refused js e) h = elim (Option-cases (retry_time e)) [
    | inl no_time ↦
        (let w' = fail_claimed_jobs env js (env.error_text e) w in
          rw (no_time, handle)
            (Leads-trans w.store w'.store (others w').store
              (fail_claimed_jobs-Leads env js (env.error_text e) w) (h w')))
    | inr (at, known) ↦
        rw (known, handle)
          (defer_claimed_jobs-Leads env (retry_or_poll env at) (remaining_jobs gs ++ js) w)
  ]

  process_groups-Leads :
      (gs : List JobGroup) (w : World V) → Leads w.store (process_groups env gs w).store
  unfolding process_groups
  process_groups-Leads [] w = Leads-refl w.store
  process_groups-Leads (g ∷ gs) w =
      let r = embed_group env (suc (length g.jobs)) g.kind g.jobs w in
      Leads-trans w.store (r.0).store (handle env (process_groups env gs) gs r).store
        (embed_group-Leads (suc (length g.jobs)) g.kind g.jobs w)
        (handle-Leads (process_groups env gs) gs r (process_groups-Leads gs))

  claimed_store-IsFine :
      IsFine env (λ t s.
        claimed_store env s (claim_jobs env.outside (claim_request env s.documents) t s.rows))
  claimed_store-IsFine t s s' js e d =
      go (claim_jobs env.outside (claim_request env s.documents) t s.rows) refl e
    where
      go :
          (m : Result Failure Claimed)
          → claim_jobs env.outside (claim_request env s.documents) t s.rows ≡ m
          → claimed_store env s m ≡ ok (s', js)
          → Keeps s.rows s'.rows
      go (ok c) made done =
          let same : c.rows ≡ s'.rows = ground (arith, done) in
          subst (Keeps s.rows) same (
            subst (λ m. Keeps s.rows (claimed_or_keep s.rows m)) made
              (unfold step in
                step-Keeps env.outside s.rows (claims (claim_request env s.documents) t) d))
      go (err x) made done = absurd (ground (arith, done))

  claim_and_process-Leads : (w : World V) → Leads w.store (claim_and_process env w).store
  unfolding claim_and_process
  claim_and_process-Leads w =
      go_on-Leads w.store
        (transact env
          (λ t s.
            claimed_store env s (claim_jobs env.outside (claim_request env s.documents) t s.rows))
          w)
        (λ js w'. process_groups env (ordered_job_groups js) w') (λ e w'. w')
        (transact-Leads env _ w claimed_store-IsFine)
        (λ js w'. process_groups-Leads (ordered_job_groups js) w') (λ e w'. Leads-refl w'.store)

  -- A whole round of a worker, from its claim to its last completion, with the transactions of the
  -- others in between, whatever the backend answers and whichever transactions fail: where job_id is
  -- a key, every row of the table changes only as the protocol allows.
  pub process_batch-Keeps :
      (w : World V) → Distinct w.store.rows → Keeps w.store.rows (process_batch env w).store.rows
  unfolding process_batch
  process_batch-Keeps w d =
      if-Leads (not env.gate_ready) w.store w (claim_and_process env w) (Leads-refl w.store)
        (claim_and_process-Leads w) d
