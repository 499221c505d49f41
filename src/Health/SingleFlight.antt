-- ===== src/Health/SingleFlight.antt =====
-- One refresh of health.go at a time, whose end every caller that waits for it is told.
use integration_console.Prelude.{
  ℕ, zero, suc, ◌+◌, ◌-◌, ◌≤◌, ◌<◌, ◌≡◌, refl, ap, ◌∙◌, subst, ◌⊎◌, inl, inr, Bool, true, false,
  not, ◌&&◌, Option, none, some, List, [], ◌∷◌, ◌==◌, if◌then◌else◌, ok, err, get_elem?, set, All,
  All-append, arith, Bool-cases,
}
use integration_console.Health.Monitor.{
  Caller, asks, waits, returned, Monitor, new_monitor, is_closed, Event, arrives, enters,
  refresh_failed, cancelled, wakes, gives_up, stores, ends, start_refresh, move, is_expired, ask,
  enter, wake, give_up, store, end, step, run,
}

-- The numbers from n down to 1.
abbrev pub down_from : ℕ → List ℕ
down_from zero = []
down_from (suc n) = suc n ∷ down_from n

abbrev in_flight : Bool → ℕ
in_flight true = 1
in_flight false = 0

is_closed-down_from : (c n : ℕ) → 1 ≤ c → c ≤ n → is_closed c (down_from n) ≡ true
unfolding is_closed
is_closed-down_from c zero h k = absurd (omega (arith, h, k))
is_closed-down_from c (suc n) h k = elim (Bool-cases (suc n == c)) [
  | inl same ↦ ground (arith, same)
  | inr other ↦
      (let rest = is_closed-down_from c n h (ground (arith, other, k)) in ground (arith, rest))
]

is_closed_below :
    (c : ℕ) (closed : List ℕ) (n : ℕ)
    → closed ≡ down_from n
    → 1 ≤ c
    → c ≤ n
    → is_closed c closed ≡ true
is_closed_below c closed n e h k = ap (is_closed c) e ∙ is_closed-down_from c n h k

module _ {S : Type 0} where
  abbrev IsWaitingUpTo : ℕ → Caller S → Type 0
  IsWaitingUpTo n (waits c starter) = (1 ≤ c) × (c ≤ n)
  IsWaitingUpTo n asks = Unit
  IsWaitingUpTo n (returned r) = Unit

  pub record IsSingle (m : Monitor S) : Type 0 where
    pub flight : m.storing + m.ending ≡ in_flight m.refreshing
    pub started : in_flight m.refreshing ≤ m.refresh_done
    pub closed : m.closed ≡ down_from (m.refresh_done - in_flight m.refreshing)
    pub waiting : All (IsWaitingUpTo m.refresh_done) m.callers

  All-set :
      (P : Caller S → Type 0) (cs : List (Caller S)) (i : ℕ) (c : Caller S)
      → P c
      → All P cs
      → All P (set cs i c)
  All-set P [] i c p h = tt
  All-set P (x ∷ cs) zero c p h = (p, h.1)
  All-set P (x ∷ cs) (suc i) c p h = (h.0, All-set P cs i c p h.1)

  All-get :
      (P : Caller S → Type 0) (cs : List (Caller S)) (i : ℕ) (c : Caller S)
      → get_elem? cs i ≡ some c
      → All P cs
      → P c
  All-get P [] i c e h = cc
  All-get P (x ∷ cs) zero c e h = let same : x ≡ c = cc in subst P same h.0
  All-get P (x ∷ cs) (suc i) c e h = All-get P cs i c e h.1

  later : (n : ℕ) (cs : List (Caller S)) → All (IsWaitingUpTo n) cs → All (IsWaitingUpTo (suc n)) cs
  later n [] h = tt
  later n (waits c starter ∷ cs) h = ((h.0.0, omega (arith, h.0.1)), later n cs h.1)
  later n (asks ∷ cs) h = (tt, later n cs h.1)
  later n (returned r ∷ cs) h = (tt, later n cs h.1)

  module _ (measured_at : S → ℕ) where
    start_refresh-IsSingle :
        (m : Monitor S) → m.refreshing ≡ false → IsSingle m → IsSingle (start_refresh measured_at m)
    unfolding start_refresh
    start_refresh-IsSingle m idle v =
        let none_out : in_flight m.refreshing ≡ 0 = ap in_flight idle in
        let same : m.refresh_done - in_flight m.refreshing ≡ suc m.refresh_done - 1 =
          omega (arith, none_out) in
        record {
          flight = omega (arith, v.flight, none_out);
          started = omega arith;
          closed = v.closed ∙ ap down_from same;
          waiting = later m.refresh_done m.callers v.waiting;
        }

    move-IsSingle :
        (i : ℕ) (c : Caller S) (m : Monitor S)
        → IsWaitingUpTo m.refresh_done c
        → IsSingle m
        → IsSingle (move measured_at i c m)
    move-IsSingle i c m h v = record {
      flight = v.flight;
      started = v.started;
      closed = v.closed;
      waiting = All-set (IsWaitingUpTo m.refresh_done) m.callers i c h v.waiting;
    }

    starter_waits :
        (m : Monitor S)
        → IsWaitingUpTo (start_refresh measured_at m).refresh_done (waits (suc m.refresh_done) true)
    unfolding start_refresh
    starter_waits m = (omega arith, omega arith)

    either :
        (b : Bool) (m n : Monitor S)
        → (b ≡ true → IsSingle m)
        → (b ≡ false → IsSingle n)
        → IsSingle (if b then m else n)
    either true m n h k = h refl
    either false m n h k = k refl

    ask-IsSingle :
        (i now : ℕ) (cached : Option S) (m : Monitor S)
        → IsSingle m
        → IsSingle (ask measured_at i now cached m)
    ask-IsSingle i now (some s) m v =
        elim (Bool-cases (is_expired measured_at now s && not m.refreshing)) [
          | inl due ↦
              (let idle : m.refreshing ≡ false = ground (arith, due) in
                rw due (
                  move-IsSingle i (returned (ok s)) (start_refresh measured_at m) tt
                    (start_refresh-IsSingle m idle v)))
          | inr served ↦ rw served (move-IsSingle i (returned (ok s)) m tt v)
        ]
    ask-IsSingle i now none m v =
        either m.refreshing (move measured_at i (waits m.refresh_done false) m)
          (move measured_at i (waits (suc m.refresh_done) true) (start_refresh measured_at m))
          (λ runs.
            let one : in_flight m.refreshing ≡ 1 = ap in_flight runs in
            move-IsSingle i (waits m.refresh_done false) m
              (omega (arith, v.started, one), omega arith) v)
          (λ idle.
            move-IsSingle i (waits (suc m.refresh_done) true) (start_refresh measured_at m)
              (starter_waits m) (start_refresh-IsSingle m idle v))

    enter-IsSingle :
        (i now : ℕ) (c : Option (Caller S)) (m : Monitor S)
        → IsSingle m
        → IsSingle (enter measured_at i now c m)
    enter-IsSingle i now (some asks) m v = ask-IsSingle i now m.cached m v
    enter-IsSingle i now (some (waits c starter)) m v = v
    enter-IsSingle i now (some (returned r)) m v = v
    enter-IsSingle i now none m v = v

    wake-IsSingle :
        (i : ℕ) (c : Option (Caller S)) (m : Monitor S)
        → IsSingle m
        → IsSingle (wake measured_at i c m)
    wake-IsSingle i (some (waits c starter)) m v = elim (Bool-cases (is_closed c m.closed)) [
      | inl over ↦ elim (Bool-cases (starter && m.last_err)) [
        | inl bad ↦ rw (over, bad) (move-IsSingle i (returned (err refresh_failed)) m tt v)
        | inr good ↦ rw (over, good) (move-IsSingle i asks m tt v)
      ]
      | inr still ↦ rw still v
    ]
    wake-IsSingle i (some asks) m v = v
    wake-IsSingle i (some (returned r)) m v = v
    wake-IsSingle i none m v = v

    give_up-IsSingle :
        (i : ℕ) (c : Option (Caller S)) (m : Monitor S)
        → IsSingle m
        → IsSingle (give_up measured_at i c m)
    give_up-IsSingle i (some (waits c starter)) m v =
        move-IsSingle i (returned (err cancelled)) m tt v
    give_up-IsSingle i (some asks) m v = v
    give_up-IsSingle i (some (returned r)) m v = v
    give_up-IsSingle i none m v = v

    store-IsSingle :
        (outcome : Option S) (n : ℕ) (m : Monitor S)
        → m.storing ≡ n
        → IsSingle m
        → IsSingle (store measured_at outcome n m)
    store-IsSingle outcome zero m e v = v
    store-IsSingle none (suc n) m e v = record {
      flight = omega (arith, v.flight, e);
      started = v.started;
      closed = v.closed;
      waiting = v.waiting;
    }
    store-IsSingle (some s) (suc n) m e v = record {
      flight = omega (arith, v.flight, e);
      started = v.started;
      closed = v.closed;
      waiting = v.waiting;
    }

    end-IsSingle :
        (n : ℕ) (m : Monitor S) → m.ending ≡ n → IsSingle m → IsSingle (end measured_at n m)
    end-IsSingle zero m e v = v
    end-IsSingle (suc n) m e v =
        let one : in_flight m.refreshing ≡ 1 =
          in_flight_one m.refreshing (omega (arith, v.flight, e)) in
        record {
          flight = omega (arith, v.flight, e, one);
          started = omega arith;
          closed =
              ap (λ cs. m.refresh_done ∷ cs)
                (v.closed ∙ ap (λ k. down_from (m.refresh_done - k)) one)
              ∙ down_from_pos m.refresh_done (omega (arith, v.started, one));
          waiting = v.waiting;
        }
      where
        in_flight_one : (b : Bool) → 0 < in_flight b → in_flight b ≡ 1
        in_flight_one true h = refl
        in_flight_one false h = omega (arith, h)

        down_from_pos : (n : ℕ) → 0 < n → (n ∷ down_from (n - 1)) ≡ down_from (n - 0)
        down_from_pos zero h = absurd (omega (arith, h))
        down_from_pos (suc n) h =
            let same : suc n - 1 ≡ n = omega arith in
            let all : suc n ≡ suc n - 0 = omega arith in
            ap (λ k. suc n ∷ down_from k) same ∙ ap down_from all

    step-IsSingle : (m : Monitor S) (e : Event S) → IsSingle m → IsSingle (step measured_at m e)
    unfolding step
    step-IsSingle m arrives v = record {
      flight = v.flight;
      started = v.started;
      closed = v.closed;
      waiting = All-append (IsWaitingUpTo m.refresh_done) m.callers (asks ∷ []) v.waiting (tt, tt);
    }
    step-IsSingle m (enters i now) v = enter-IsSingle i now (get_elem? m.callers i) m v
    step-IsSingle m (wakes i) v = wake-IsSingle i (get_elem? m.callers i) m v
    step-IsSingle m (gives_up i) v = give_up-IsSingle i (get_elem? m.callers i) m v
    step-IsSingle m (stores outcome) v = store-IsSingle outcome m.storing m refl v
    step-IsSingle m ends v = end-IsSingle m.ending m refl v

    run-keeps_IsSingle :
        (m : Monitor S) (es : List (Event S)) → IsSingle m → IsSingle (run measured_at m es)
    unfolding run
    run-keeps_IsSingle m [] v = v
    run-keeps_IsSingle m (e ∷ es) v =
        run-keeps_IsSingle (step measured_at m e) es (step-IsSingle m e v)

    -- However callers and refreshes interleave, a new monitor has a refresh in flight just when it is
    -- marked as refreshing, and never two; the channels closed are those of the refreshes that have
    -- ended, each closed once; and a caller waits only on the channel of a refresh that was started.
    pub run-IsSingle : (es : List (Event S)) → IsSingle (run measured_at new_monitor es)
    run-IsSingle es =
        run-keeps_IsSingle new_monitor es
          (record { flight = refl; started = omega arith; closed = refl; waiting = tt })

    -- A caller that waits can go on at once, or waits for the refresh in flight and can go on when that
    -- has ended.
    pub waiter_is_woken :
        (es : List (Event S)) (i c : ℕ) (starter : Bool)
        → let m = run measured_at new_monitor es in
          get_elem? m.callers i ≡ some (waits c starter)
          → (is_closed c m.closed ≡ true)
            ⊎ ((c ≡ m.refresh_done) × (m.refreshing ≡ true) × (m.storing + m.ending ≡ 1))
    waiter_is_woken es i c starter h =
        let m = run measured_at new_monitor es in
        let v = run-IsSingle es in
        let (low, high) =
          All-get (IsWaitingUpTo m.refresh_done) m.callers i (waits c starter) h v.waiting in
        elim (Bool-cases m.refreshing) [
          | inl runs ↦
              (let one : in_flight m.refreshing ≡ 1 = ap in_flight runs in
                elim (Bool-cases (c == m.refresh_done)) [
                  | inl last ↦ inr (ground (arith, last), runs, v.flight ∙ one)
                  | inr before ↦ inl (
                      is_closed_below c m.closed (m.refresh_done - in_flight m.refreshing) v.closed
                        low (ground (arith, before, high, one)))
                ])
          | inr idle ↦
              (let none_out : in_flight m.refreshing ≡ 0 = ap in_flight idle in
                inl (
                  is_closed_below c m.closed (m.refresh_done - in_flight m.refreshing) v.closed low
                    (omega (arith, high, none_out))))
        ]
