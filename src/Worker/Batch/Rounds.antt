-- ===== src/Worker/Batch/Rounds.antt =====
-- What embedGroup and processBatch of worker.go end with.
use integration_console.Prelude.{
  ℕ, zero, suc, ◌+◌, ◌<◌, ◌≡◌, refl, ap, sym, ◌∙◌, ◌⊎◌, inl, inr, Option, none, some, String, List,
  [], ◌∷◌, ◌++◌, Result, ok, err, arith, length, subst, Bool-cases, ℤ, pos, negsuc, get_elem?,
  Option-cases,
}
use integration_console.Embed.Errors.{Error, retry_time, oversized_index}
use integration_console.Worker.Jobs.{Job}
use integration_console.Worker.Groups.{JobGroup, remaining_jobs}
use integration_console.Worker.Batch.{
  Env, World, GroupAnswer, embedded, refused, out_of_fuel, fail_oversized_job, defer_claimed_jobs,
  texts, remove_at, oversized_job, is_nil, embed_group, embed_rounds, drop_oversized, read_answer,
  retry_or_poll, process_groups, handle,
}

-- An answer of the backend to exactly the jobs left: no position has moved against its text.
abbrev pub IsAnswer : {V : Type 0} → Env V → String → GroupAnswer V → Type 0
IsAnswer env kind out_of_fuel = ⊥
IsAnswer env kind (embedded js vs) =
    ((js ≡ []) × (vs ≡ [])) ⊎ ((n : ℕ) × (env.embed n kind (texts js) ≡ ok vs))
IsAnswer env kind (refused js e) =
    (n : ℕ) × (env.embed n kind (texts js) ≡ err e) × (oversized_job (oversized_index e) js ≡ none)

texts-remove_at : (i : ℕ) (js : List Job) → remove_at i (texts js) ≡ texts (remove_at i js)
texts-remove_at i [] = refl
texts-remove_at zero (j ∷ js) = refl
texts-remove_at (suc i) (j ∷ js) = ap (λ ts. j.normalized_text ∷ ts) (texts-remove_at i js)

length-remove_at :
    (i : ℕ) (js : List Job) (j : Job)
    → get_elem? js i ≡ some j
    → suc (length (remove_at i js)) ≡ length js
length-remove_at i [] j h = cc
length-remove_at zero (x ∷ js) j h = omega arith
length-remove_at (suc i) (x ∷ js) j h = omega (arith, length-remove_at i js j h)

length-oversized_job :
    (o : Option ℤ) (js : List Job) (i : ℕ) (j : Job)
    → oversized_job o js ≡ some (i, j)
    → suc (length (remove_at i js)) ≡ length js
unfolding oversized_job
length-oversized_job none js i j h = cc
length-oversized_job (some (negsuc n)) js i j h = cc
length-oversized_job (some (pos n)) js i j h = elim (Option-cases (get_elem? js n)) [
  | inl lost ↦ absurd (ground (arith, lost))
  | inr (x, found) ↦
      (let same : n ≡ i = ground (arith, found) in
        subst (λ m. suc (length (remove_at m js)) ≡ length js) same (length-remove_at n js x found))
]

module _ {V : Type 0} (env : Env V) where
  drop_oversized-IsAnswer :
      (fuel n : ℕ) (kind : String) (js : List Job) (ts : List String) (e : Error) (w : World V)
      (o : Option (ℕ × Job))
      → length js < suc fuel
      → ts ≡ texts js
      → env.embed n kind ts ≡ err e
      → oversized_job (oversized_index e) js ≡ o
      → ((js : List Job) (ts : List String) (w : World V)
          → length js < fuel
          → ts ≡ texts js
          → IsAnswer env kind (embed_rounds env fuel kind js ts w).1)
      → IsAnswer env kind (drop_oversized env (embed_rounds env fuel kind) js ts e w o).1
  unfolding drop_oversized
  drop_oversized-IsAnswer fuel n kind js ts e w none h same asked named again =
      (n, ap (env.embed n kind) (sym same) ∙ asked, named)
  drop_oversized-IsAnswer fuel n kind js ts e w (some (i, j)) h same asked named again =
      elim (Bool-cases (is_nil (remove_at i js))) [
        | inl last ↦ rw last (inl (refl, refl))
        | inr more ↦ rw more (
            again (remove_at i js) (remove_at i ts) (fail_oversized_job env j e w)
              (omega (arith, h, length-oversized_job (oversized_index e) js i j named))
              (ap (remove_at i) same ∙ texts-remove_at i js))
      ]

  read_answer-IsAnswer :
      (fuel n : ℕ) (kind : String) (js : List Job) (ts : List String) (w : World V)
      (m : Result Error (List V))
      → length js < suc fuel
      → ts ≡ texts js
      → env.embed n kind ts ≡ m
      → ((js : List Job) (ts : List String) (w : World V)
          → length js < fuel
          → ts ≡ texts js
          → IsAnswer env kind (embed_rounds env fuel kind js ts w).1)
      → IsAnswer env kind (read_answer env (embed_rounds env fuel kind) js ts w m).1
  unfolding read_answer
  read_answer-IsAnswer fuel n kind js ts w (ok vs) h same asked again =
      inr (n, ap (env.embed n kind) (sym same) ∙ asked)
  read_answer-IsAnswer fuel n kind js ts w (err e) h same asked again =
      drop_oversized-IsAnswer fuel n kind js ts e w (oversized_job (oversized_index e) js) h same
        asked refl again

  embed_rounds-IsAnswer :
      (fuel : ℕ) (kind : String) (js : List Job) (ts : List String) (w : World V)
      → length js < fuel
      → ts ≡ texts js
      → IsAnswer env kind (embed_rounds env fuel kind js ts w).1
  unfolding embed_rounds
  embed_rounds-IsAnswer zero kind js ts w h same = ground arith
  embed_rounds-IsAnswer (suc fuel) kind js ts w h same =
      read_answer-IsAnswer fuel w.asked kind js ts (record w { asked = w.asked + 1 })
        (env.embed w.asked kind ts) h same refl (embed_rounds-IsAnswer fuel kind)

  -- embedGroup always returns: with more rounds than there are jobs it does not run out, since
  -- each round that does not return removes one. What it returns is the backend's answer to the
  -- texts of the jobs left, so the vectors stand at the positions of their jobs; or no job is
  -- left. An error comes back only where it names no job of the group as oversized.
  pub embed_group-IsAnswer :
      (fuel : ℕ) (kind : String) (js : List Job) (w : World V)
      → length js < fuel
      → IsAnswer env kind (embed_group env fuel kind js w).1
  unfolding embed_group
  embed_group-IsAnswer fuel kind js w h = embed_rounds-IsAnswer fuel kind js (texts js) w h refl

  embed_group-refused :
      (fuel : ℕ) (kind : String) (js : List Job) (w : World V) (e : Error)
      → env.embed w.asked kind (texts js) ≡ err e
      → oversized_job (oversized_index e) js ≡ none
      → embed_group env (suc fuel) kind js w ≡ (record w { asked = w.asked + 1 }, refused js e)
  unfolding embed_group embed_rounds read_answer drop_oversized
  embed_group-refused fuel kind js w e asked named = rw (asked, named) refl

  handle-refused :
      (others : World V → World V) (gs : List JobGroup) (js : List Job) (w : World V) (e : Error)
      (at : ℕ)
      → retry_time e ≡ some at
      → handle env others gs (w, refused js e)
        ≡ defer_claimed_jobs env (retry_or_poll env at) (remaining_jobs gs ++ js) w
  unfolding handle
  handle-refused others gs js w e at known = rw (handle, known) refl

  -- A backend that answers the first group with a retry time, and with no oversized job, ends the
  -- round: it is asked once, and the jobs of the remaining groups and of the first, each in its own
  -- transaction, are deferred to that time, or by the poll interval where the time is zero.
  pub process_groups_unavailable :
      (g : JobGroup) (gs : List JobGroup) (w : World V) (e : Error) (at : ℕ)
      → env.embed w.asked g.kind (texts g.jobs) ≡ err e
      → retry_time e ≡ some at
      → oversized_job (oversized_index e) g.jobs ≡ none
      → process_groups env (g ∷ gs) w
        ≡ defer_claimed_jobs env
            (retry_or_poll env at)
            (remaining_jobs gs ++ g.jobs)
            (record w { asked = w.asked + 1 })
  unfolding process_groups
  process_groups_unavailable g gs w e at asked known named =
      rw (embed_group-refused (length g.jobs) g.kind g.jobs w e asked named) (
        handle-refused (process_groups env gs) gs g.jobs (record w { asked = w.asked + 1 }) e at
          known)
