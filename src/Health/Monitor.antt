-- ===== src/Health/Monitor.antt =====
-- HealthMonitor of health.go: Snapshot and refresh. Each locked section and each wait on a channel is one
-- step, and the steps of callers and of refreshes interleave freely. A channel is the number of the
-- refresh that it was made for.
use integration_console.Prelude.{
  ℕ, zero, suc, ◌-◌, Bool, true, false, not, ◌&&◌, ◌||◌, Option, none, some, List, [], ◌∷◌, ◌++◌,
  leb, ◌==◌, if◌then◌else◌, Result, ok, err, get_elem?, set,
}
use integration_console.Health.{snapshot_cache_ttl}

-- Why Snapshot returns an error.
pub data Failure : Type 0 where
  refresh_failed : Failure
  cancelled : Failure

-- Where a call of Snapshot stands. It waits on a channel, as the one that started the refresh or not.
pub data Caller (S : Type 0) : Type 0 where
  asks : Caller S
  waits : ℕ → Bool → Caller S
  returned : Result Failure S → Caller S

-- HealthMonitor, with the callers, the refreshes that have not yet stored their answer, those that have not
-- yet ended, and the channels closed, the last one first.
pub record Monitor (S : Type 0) : Type 0 where
  pub cached : Option S
  pub last_err : Bool
  pub refreshing : Bool
  pub refresh_done : ℕ
  pub storing : ℕ
  pub ending : ℕ
  pub closed : List ℕ
  pub callers : List (Caller S)

abbrev pub new_monitor : {S : Type 0} → Monitor S
new_monitor = record {
  cached = none;
  last_err = false;
  refreshing = false;
  refresh_done = 0;
  storing = 0;
  ending = 0;
  closed = [];
  callers = [];
}

unfoldable pub is_closed : ℕ → List ℕ → Bool
is_closed channel [] = false
is_closed channel (c ∷ cs) = (c == channel) || is_closed channel cs

pub data Event (S : Type 0) : Type 0 where
  arrives : Event S
  enters : ℕ → ℕ → Event S
  wakes : ℕ → Event S
  gives_up : ℕ → Event S
  stores : Option S → Event S
  ends : Event S

module _ {S : Type 0} (measured_at : S → ℕ) where
  -- startRefreshLocked
  unfoldable pub start_refresh : Monitor S → Monitor S
  start_refresh m = record m {
    refreshing = true;
    refresh_done = suc m.refresh_done;
    storing = suc m.storing;
  }

  abbrev pub move : ℕ → Caller S → Monitor S → Monitor S
  move i caller m = record m { callers = set m.callers i caller }

  abbrev pub is_expired : ℕ → S → Bool
  is_expired now s = leb snapshot_cache_ttl (now - measured_at s)

  -- The locked section of Snapshot.
  abbrev pub ask : ℕ → ℕ → Option S → Monitor S → Monitor S
  ask i now (some s) m =
      move i (returned (ok s)) (if is_expired now s && not m.refreshing then start_refresh m else m)
  ask i now none m =
      if m.refreshing
      then move i (waits m.refresh_done false) m
      else move i (waits (suc m.refresh_done) true) (start_refresh m)

  abbrev pub enter : ℕ → ℕ → Option (Caller S) → Monitor S → Monitor S
  enter i now (some asks) m = ask i now m.cached m
  enter i now (some (waits c starter)) m = m
  enter i now (some (returned r)) m = m
  enter i now none m = m

  -- `case <-done`
  abbrev pub wake : ℕ → Option (Caller S) → Monitor S → Monitor S
  wake i (some (waits c starter)) m =
      if is_closed c m.closed
      then move i (if starter && m.last_err then returned (err refresh_failed) else asks) m
      else m
  wake i (some asks) m = m
  wake i (some (returned r)) m = m
  wake i none m = m

  -- `case <-ctx.Done()`
  abbrev pub give_up : ℕ → Option (Caller S) → Monitor S → Monitor S
  give_up i (some (waits c starter)) m = move i (returned (err cancelled)) m
  give_up i (some asks) m = m
  give_up i (some (returned r)) m = m
  give_up i none m = m

  -- The first locked section of refresh, with the snapshot or `none` for an error.
  abbrev pub store : Option S → ℕ → Monitor S → Monitor S
  store outcome zero m = m
  store none (suc n) m = record m { last_err = true; storing = n; ending = suc m.ending }
  store (some s) (suc n) m = record m {
    cached = some s;
    last_err = false;
    storing = n;
    ending = suc m.ending;
  }

  -- The last locked section of refresh.
  abbrev pub end : ℕ → Monitor S → Monitor S
  end zero m = m
  end (suc n) m = record m { refreshing = false; ending = n; closed = m.refresh_done ∷ m.closed }

  unfoldable pub step : Monitor S → Event S → Monitor S
  unfolding start_refresh is_closed
  step m arrives = record m { callers = m.callers ++ asks ∷ [] }
  step m (enters i now) = enter i now (get_elem? m.callers i) m
  step m (wakes i) = wake i (get_elem? m.callers i) m
  step m (gives_up i) = give_up i (get_elem? m.callers i) m
  step m (stores outcome) = store outcome m.storing m
  step m ends = end m.ending m

  unfoldable pub run : Monitor S → List (Event S) → Monitor S
  unfolding step
  run m [] = m
  run m (e ∷ es) = run (step m e) es
