-- ===== src/Process/Quiet.antt =====
-- The transfers of a process to which no signal comes.
use ugoku.Base.{
  ℕ, zero, suc, ◌≡◌, refl, sym, ap, ◌∙◌, Bool, true, false, not, ◌&&◌, Option, none, some, List, [],
  ◌∷◌, arith, bound, if◌then◌else◌, All,
}
use mathlib.Core.Path.{subst}
use mathlib.Core.Option.{some-injective}
use ugoku.Dispatch.{Entry}
use ugoku.System.{Kind, System, Turn, turns, is_stopped, signals, stops_scanner, next_scan}
use ugoku.System
use ugoku.Process.{
  Member, waits, Process, Event, runs, scans_again, arrives, calls, goes_to_sleep, exits, ends,
  panics, makes, skips, stops_no_scanner, called, runs_on, first_made, skipped, with_system,
  goes_on, again, callback, slept, member, with_member, put_back, changed, exited, set_term, live,
  step, run, of_callback, is_scan,
}

-- No signal.
abbrev pub is_quiet : {A : Type 0} → Event A → Bool
is_quiet arrives = false
is_quiet e = true

abbrev pub all_quiet : {A : Type 0} → List (Event A) → Bool
all_quiet [] = true
all_quiet (e ∷ es) = is_quiet e && all_quiet es

module _ {A : Type 0} where
  -- What holds of a transfer whose handler has seen no signal, whatever the transfer does.
  pub record Lasts (P : Member A → Type 0) : Type 0 where
    pub waiting : (m : Member A) → P m → m.handler ≡ waits
    pub stays : (m : Member A) (s : System A) → P m → P (record m { system = s })
    pub has_scanner : (m : Member A) → P m → P (record m { made = true })

  pub step-live : (p q : Process A) (e : Event A) → step e p ≡ some q → live e p ≡ some q
  unfolding step
  step-live p q e h = of_over p.over h
    where
      of_over : (b : Bool) → (if b then none else live e p) ≡ some q → live e p ≡ some q
      of_over true h = absurd (ground arith)
      of_over false h = h

  module _ (P : Member A → Type 0) (law : Lasts P) where
    pub member-All :
        (ms : List (Member A)) (i : ℕ) (m : Member A) → member ms i ≡ some m → All P ms → P m
    unfolding member
    member-All [] i m at all = absurd (ground arith)
    member-All (x ∷ ms) zero m at all = subst P (some-injective x m at) all.0
    member-All (x ∷ ms) (suc i) m at all = member-All ms i m at all.1

    with_member-All :
        (ms : List (Member A)) (i : ℕ) (n : Member A) → P n → All P ms → All P (with_member ms i n)
    unfolding with_member
    with_member-All [] i n is all = tt
    with_member-All (x ∷ ms) zero n is all = (is, all.1)
    with_member-All (x ∷ ms) (suc i) n is all = (all.0, with_member-All ms i n is all.1)

    with_system-Lasts :
        (m n : Member A) (r : Option (System A)) → P m → with_system m r ≡ some n → P n
    with_system-Lasts m n none is h = absurd (ground arith)
    with_system-Lasts m n (some s) is h = subst P (some-injective _ n h) (law.stays m s is)

    goes_on-Lasts : (e : System.Event) (m n : Member A) → P m → goes_on e m ≡ some n → P n
    unfolding goes_on
    goes_on-Lasts e m n is h = with_system-Lasts m n _ is h

    again-Lasts : (entries : List (Entry A)) (m n : Member A) → P m → again entries m ≡ some n → P n
    again-Lasts entries m n is h = of_mode m.one_time h
      where
        of_mode :
            (b : Bool)
            → (if b then none else with_system m (next_scan entries m.system)) ≡ some n
            → P n
        of_mode true h = absurd (ground arith)
        of_mode false h = with_system-Lasts m n (next_scan entries m.system) is h

    runs_on-Lasts : (e : System.Event) (m n : Member A) → P m → runs_on e m ≡ some n → P n
    runs_on-Lasts e m n is h = of_test (is_scan e && not m.made) h
      where
        of_test : (b : Bool) → (if b then none else goes_on e m) ≡ some n → P n
        of_test true h = absurd (ground arith)
        of_test false h = goes_on-Lasts e m n is h

    first_made-Lasts : (m n : Member A) → P m → first_made m ≡ some n → P n
    first_made-Lasts m n is h = of_test m.made h
      where
        of_test : (b : Bool) → (if b then none else some (record m { made = true })) ≡ some n → P n
        of_test true h = absurd (ground arith)
        of_test false h = subst P (some-injective _ n h) (law.has_scanner m is)

    not_called : (e : System.Event) (m : Member A) → called e m waits ≡ none
    not_called (turns k e) m = of_turn e
      where
        of_turn : (e : Turn) → called (turns k e) m waits ≡ none
        of_turn is_stopped = refl
        of_turn e = refl
    not_called stops_scanner m = refl
    not_called e m = refl

    callback-Lasts : (e : System.Event) (m n : Member A) → P m → callback e m ≡ some n → P n
    callback-Lasts e m n is h =
        absurd (ground (arith, sym (not_called e m) ∙ ap (called e m) (sym (law.waiting m is)) ∙ h))

    skipped-Lasts : (m n : Member A) → P m → skipped m ≡ some n → P n
    skipped-Lasts m n is h = absurd (ground (arith, law.waiting m is))

    slept-Lasts : (m n : Member A) → P m → slept m ≡ some n → P n
    slept-Lasts m n is h = absurd (ground (arith, law.waiting m is))

    put_back-All :
        (p q : Process A) (i : ℕ) (r : Option (Member A))
        → ((n : Member A) → r ≡ some n → P n)
        → All P p.members
        → put_back p i r ≡ some q
        → All P q.members
    put_back-All p q i none is all h = absurd (ground arith)
    put_back-All p q i (some n) is all h =
        subst (λ (x : Process A). All P x.members) (some-injective _ q h)
          (with_member-All p.members i n (is n refl) all)

    changed-All :
        (p q : Process A) (i : ℕ) (f : Member A → Option (Member A)) (r : Option (Member A))
        → ((m n : Member A) → P m → f m ≡ some n → P n)
        → member p.members i ≡ r
        → All P p.members
        → changed p i f r ≡ some q
        → All P q.members
    changed-All p q i f none is at all h = absurd (ground arith)
    changed-All p q i f (some m) is at all h =
        put_back-All p q i (f m) (λ n g. is m n (member-All p.members i m at all) g) all h

    exited-All :
        (p q : Process A) (may : Member A → Bool) (r : Option (Member A))
        → All P p.members
        → exited p may r ≡ some q
        → All P q.members
    exited-All p q may none all h = absurd (ground arith)
    exited-All p q may (some m) all h = of_test (may m) h
      where
        of_test :
            (b : Bool)
            → (if b then some (record p { over = true }) else none) ≡ some q
            → All P q.members
        of_test true h = subst (λ (x : Process A). All P x.members) (some-injective _ q h) all
        of_test false h = absurd (ground arith)

    calls-All :
        (p q : Process A) (i : ℕ) (e : System.Event)
        → All P p.members
        → live (calls i e) p ≡ some q
        → All P q.members
    calls-All p q i signals all h = of_member (member p.members i) refl h
      where
        of_member :
            (r : Option (Member A))
            → member p.members i ≡ r
            → set_term p i r ≡ some q
            → All P q.members
        of_member none at h = absurd (ground arith)
        of_member (some m) at h =
            absurd (ground (arith, law.waiting m (member-All p.members i m at all)))
    calls-All p q i e all h =
        changed-All p q i (callback e) (member p.members i) (callback-Lasts e) refl all h

    -- Without a signal.
    live-All :
        (p q : Process A) (e : Event A)
        → is_quiet e ≡ true
        → All P p.members
        → live e p ≡ some q
        → All P q.members
    live-All p q (runs i e) quiet all h = of_kind (of_callback e) h
      where
        of_kind :
            (b : Bool)
            → (if b then none else changed p i (runs_on e) (member p.members i)) ≡ some q
            → All P q.members
        of_kind true h = absurd (ground arith)
        of_kind false h =
            changed-All p q i (runs_on e) (member p.members i) (runs_on-Lasts e) refl all h
    live-All p q (scans_again i entries) quiet all h =
        changed-All p q i (again entries) (member p.members i) (again-Lasts entries) refl all h
    live-All p q (makes i) quiet all h =
        changed-All p q i first_made (member p.members i) first_made-Lasts refl all h
    live-All p q arrives quiet all h = absurd (ground arith)
    live-All p q (calls i e) quiet all h = calls-All p q i e all h
    live-All p q (skips i) quiet all h =
        changed-All p q i skipped (member p.members i) skipped-Lasts refl all h
    live-All p q (stops_no_scanner i) quiet all h = exited-All p q _ (member p.members i) all h
    live-All p q (goes_to_sleep i) quiet all h =
        changed-All p q i slept (member p.members i) slept-Lasts refl all h
    live-All p q (exits i) quiet all h = exited-All p q _ (member p.members i) all h
    live-All p q (ends i) quiet all h = exited-All p q _ (member p.members i) all h
    live-All p q (panics i) quiet all h = exited-All p q _ (member p.members i) all h

    pub run-All :
        (es : List (Event A)) (p q : Process A)
        → all_quiet es ≡ true
        → All P p.members
        → run es p ≡ some q
        → All P q.members
    unfolding run
    run-All [] p q quiet all h =
        subst (λ (x : Process A). All P x.members) (some-injective p q h) all
    run-All (e ∷ es) p q quiet all h =
        let (u, first, rest) = bound (step e p) (run es) q h in
        run-All es u q (ground arith) (live-All p u e (ground arith) all (step-live p u e first))
          rest
