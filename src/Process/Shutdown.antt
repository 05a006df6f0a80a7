-- ===== src/Process/Shutdown.antt =====
-- How the process comes to its end: by the signal, or with a one-time transfer.
use ugoku.Base.{
  ℕ, zero, suc, ◌==◌, ◌≤◌, ◌≡◌, ap, Bool, true, false, ◌&&◌, some, List, [], ◌∷◌, length, arith,
  ==_iff, if◌then◌else◌,
}
use mathlib.Core.Option.{some-injective}
use ugoku.System.{System, Turn}
use ugoku.System
use ugoku.Process.{
  Member, Process, Event, arrives, calls, skips, stops_no_scanner, goes_to_sleep, exits, termed,
  member, run, go_package,
}

-- The events of the handler at an index, and the signal.
abbrev pub of_handler : {A : Type 0} → ℕ → Event A → Bool
of_handler i arrives = true
of_handler i (calls j e) = i == j
of_handler i (skips j) = i == j
of_handler i (stops_no_scanner j) = i == j
of_handler i (goes_to_sleep j) = i == j
of_handler i (exits j) = i == j
of_handler i e = false

abbrev pub all_of_handler : {A : Type 0} → ℕ → List (Event A) → Bool
all_of_handler i [] = true
all_of_handler i (e ∷ es) = of_handler i e && all_of_handler i es

module _ {A : Type 0} where
  -- Some events of a handler, at most so many, end the process.
  abbrev CanEnd : ℕ → ℕ → Process A → Type 0
  CanEnd i n p =
      (es : List (Event A)) × (all_of_handler i es ≡ true)
      × (length es ≤ n)
      × (q : Process A) × (run es p ≡ some q)
      × (q.over ≡ true)

  abbrev pub with_term : Member A → Member A
  with_term m = record m { system = record m.system { term = true } }

  pub member-termed :
      (ms : List (Member A)) (i : ℕ) (m : Member A)
      → member ms i ≡ some m
      → member (termed (go_package m.kind) ms) i ≡ some (with_term m)
  unfolding member termed
  member-termed [] i m at = absurd (ground arith)
  member-termed (x ∷ ms) zero m at =
      let same : x ≡ m = some-injective x m at in
      let matches =
        (==_iff (go_package x.kind) (go_package m.kind)).1
          (ap (λ (y : Member A). go_package y.kind) same) in
      rw matches (ap (λ (y : Member A). some (with_term y)) same)
  member-termed (x ∷ ms) (suc i) m at =
      of_test (go_package x.kind == go_package m.kind) (member-termed ms i m at)
    where
      of_test :
          (b : Bool)
          → member (termed (go_package m.kind) ms) i ≡ some (with_term m)
          → member
              (if b
                then with_term x ∷ termed (go_package m.kind) ms
                else x ∷ termed (go_package m.kind) ms)
              (suc i)
            ≡ some (with_term m)
      of_test true there = there
      of_test false there = there
