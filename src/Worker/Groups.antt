-- ===== src/Worker/Groups.antt =====
-- orderedJobGroups and remainingJobs of atheros-search/internal/worker/worker.go. The map of
-- positions has exactly the kinds of the groups so far, so a lookup in it is a search through them.
use integration_console.Prelude.{
  ℕ, ◌+◌, ◌≡◌, ◌≢◌, refl, sym, inl, inr, false, String, str_eq, str_eq_iff, List, [], ◌∷◌, ◌++◌,
  if◌then◌else◌, keep, sum_of, sum_of-append, All, All-append, arith, Bool-cases,
}
use integration_console.Worker.Jobs.{Job}

pub record JobGroup : Type 0 where
  pub kind : String
  pub jobs : List Job

-- The job joins the group of its kind, or begins the next group.
unfoldable pub add_job : Job → List JobGroup → List JobGroup
add_job j [] = record { kind = j.embedding_kind; jobs = j ∷ [] } ∷ []
add_job j (g ∷ gs) =
    if str_eq g.kind j.embedding_kind
    then record g { jobs = g.jobs ++ j ∷ [] } ∷ gs
    else g ∷ add_job j gs

unfoldable pub group_from : List JobGroup → List Job → List JobGroup
unfolding add_job
group_from gs [] = gs
group_from gs (j ∷ js) = group_from (add_job j gs) js

unfoldable pub ordered_job_groups : List Job → List JobGroup
unfolding group_from
ordered_job_groups js = group_from [] js

unfoldable pub remaining_jobs : List JobGroup → List Job
remaining_jobs [] = []
remaining_jobs (g ∷ gs) = g.jobs ++ remaining_jobs gs

-- The jobs of one kind, in order, as an independent description of what a group has to hold.
abbrev of_kind : String → List Job → List Job
of_kind k js = keep (λ j. str_eq j.embedding_kind k) js

pub jobs_in : String → List JobGroup → List Job
jobs_in k [] = []
jobs_in k (g ∷ gs) = if str_eq g.kind k then g.jobs else jobs_in k gs

append_nil : (js : List Job) → js ++ [] ≡ js
append_nil [] = refl
append_nil (j ∷ js) = ground (arith, append_nil js)

append_assoc : (xs ys zs : List Job) → (xs ++ ys) ++ zs ≡ xs ++ (ys ++ zs)
append_assoc [] ys zs = refl
append_assoc (x ∷ xs) ys zs = ground (arith, append_assoc xs ys zs)

jobs_in-add_job :
    (k : String) (j : Job) (gs : List JobGroup)
    → jobs_in k (add_job j gs) ≡ jobs_in k gs ++ of_kind k (j ∷ [])
unfolding jobs_in add_job
jobs_in-add_job k j [] = ground arith
jobs_in-add_job k j (g ∷ gs) = ground (
  arith,
  str_eq_iff g.kind j.embedding_kind,
  str_eq_iff g.kind k,
  str_eq_iff j.embedding_kind k,
  append_nil g.jobs,
  append_nil (jobs_in k gs),
  jobs_in-add_job k j gs,
)

jobs_in-group_from :
    (k : String) (gs : List JobGroup) (js : List Job)
    → jobs_in k (group_from gs js) ≡ jobs_in k gs ++ of_kind k js
unfolding group_from
jobs_in-group_from k gs [] = ground (arith, append_nil (jobs_in k gs))
jobs_in-group_from k gs (j ∷ js) = ground (
  arith,
  jobs_in-group_from k (add_job j gs) js,
  jobs_in-add_job k j gs,
  append_assoc (jobs_in k gs) (of_kind k (j ∷ [])) (of_kind k js),
  append_nil (jobs_in k gs),
)

-- The group of a kind holds exactly the jobs of that kind, in the order in which they were claimed.
pub jobs_in-ordered_job_groups :
    (k : String) (js : List Job)
    → jobs_in k (ordered_job_groups js) ≡ keep (λ j. str_eq j.embedding_kind k) js
unfolding ordered_job_groups jobs_in
jobs_in-ordered_job_groups k js = jobs_in-group_from k [] js

-- A group has a job, only jobs of its own kind, and no later group has that kind.
pub record IsGroup (rest : List JobGroup) (g : JobGroup) : Type 0 where
  pub some_job : g.jobs ≢ []
  pub own_kind : All (λ j. j.embedding_kind ≡ g.kind) g.jobs
  pub only : jobs_in g.kind rest ≡ []

abbrev pub AreGroups : List JobGroup → Type 0
AreGroups [] = Unit
AreGroups (g ∷ gs) = IsGroup gs g × AreGroups gs

sum_of-remaining-add_job :
    (w : Job → ℕ) (j : Job) (gs : List JobGroup)
    → sum_of w (remaining_jobs (add_job j gs)) ≡ w j + sum_of w (remaining_jobs gs)
unfolding remaining_jobs add_job
sum_of-remaining-add_job w j [] = omega arith
sum_of-remaining-add_job w j (g ∷ gs) = ground (
  arith,
  sum_of-append w (g.jobs ++ j ∷ []) (remaining_jobs gs),
  sum_of-append w g.jobs (j ∷ []),
  sum_of-append w g.jobs (remaining_jobs gs),
  sum_of-append w g.jobs (remaining_jobs (add_job j gs)),
  sum_of-remaining-add_job w j gs,
)

sum_of-group_from :
    (w : Job → ℕ) (gs : List JobGroup) (js : List Job)
    → sum_of w (remaining_jobs (group_from gs js)) ≡ sum_of w (remaining_jobs gs) + sum_of w js
unfolding group_from
sum_of-group_from w gs [] = omega arith
sum_of-group_from w gs (j ∷ js) =
    omega (arith, sum_of-group_from w (add_job j gs) js, sum_of-remaining-add_job w j gs)

not-nil : (js : List Job) (j : Job) → js ++ j ∷ [] ≢ []
not-nil [] j e = cc
not-nil (x ∷ js) j e = cc

grow-IsGroup :
    (j : Job) (g : JobGroup) (gs : List JobGroup)
    → j.embedding_kind ≡ g.kind
    → IsGroup gs g
    → IsGroup gs (record g { jobs = g.jobs ++ j ∷ [] })
grow-IsGroup j g gs e v = record {
  some_job = not-nil g.jobs j;
  own_kind = All-append (λ x. x.embedding_kind ≡ g.kind) g.jobs (j ∷ []) v.own_kind (e, tt);
  only = v.only;
}

keep-IsGroup :
    (j : Job) (g : JobGroup) (gs : List JobGroup)
    → str_eq g.kind j.embedding_kind ≡ false
    → IsGroup gs g
    → IsGroup (add_job j gs) g
keep-IsGroup j g gs other v = record {
  some_job = v.some_job;
  own_kind = v.own_kind;
  only = ground (
    arith,
    other,
    str_eq_iff g.kind j.embedding_kind,
    str_eq_iff j.embedding_kind g.kind,
    jobs_in-add_job g.kind j gs,
    v.only,
  );
}

AreGroups-add_job : (j : Job) (gs : List JobGroup) → AreGroups gs → AreGroups (add_job j gs)
unfolding add_job jobs_in
AreGroups-add_job j [] v = (record { some_job = λ e. cc; own_kind = (refl, tt); only = refl }, tt)
AreGroups-add_job j (g ∷ gs) v = elim (Bool-cases (str_eq g.kind j.embedding_kind)) [
  | inl same ↦
      rw same (grow-IsGroup j g gs (sym ((str_eq_iff g.kind j.embedding_kind).0 same)) v.0, v.1)
  | inr other ↦ rw other (keep-IsGroup j g gs other v.0, AreGroups-add_job j gs v.1)
]

AreGroups-group_from :
    (gs : List JobGroup) (js : List Job) → AreGroups gs → AreGroups (group_from gs js)
unfolding group_from
AreGroups-group_from gs [] v = v
AreGroups-group_from gs (j ∷ js) v =
    AreGroups-group_from (add_job j gs) js (AreGroups-add_job j gs v)

-- Grouping loses no job and makes none up, whatever is counted of a job; and the groups are never
-- empty, each of one kind, with no two of the same kind.
pub ordered_job_groups-AreGroups :
    (js : List Job) (w : Job → ℕ)
    → AreGroups (ordered_job_groups js)
      × (sum_of w (remaining_jobs (ordered_job_groups js)) ≡ sum_of w js)
unfolding ordered_job_groups remaining_jobs
ordered_job_groups-AreGroups js w =
    (AreGroups-group_from [] js tt, omega (arith, sum_of-group_from w [] js))
