-- ===== src/Delivery.antt =====
-- The workers of a transfer with what they do to the files: the goroutine that Start of a worker runs
-- (downloader/downloader.go, uploader/uploader.go, syncer/server-syncer.go), with the download, the
-- upload or the round of each file that it takes from the channel. What a worker leaves running when its
-- call of download or upload returns goes on beside the rest.
pub mod Methods
pub mod Jobs
pub mod Follow
pub mod Steps
pub mod Runs
pub mod Complete
pub mod Progress
pub mod Downloads
pub mod Unblocked
pub mod Uploads
pub mod Rounds
pub mod Streams
pub mod LocalRounds
use ugoku.Base.{
  ℕ, zero, suc, ◌==◌, Bool, true, false, ◌&&◌, ◌||◌, Option, none, some, List, [], ◌∷◌,
  if◌then◌else◌,
}
use ugoku.Dispatch.{Entry}
use ugoku.System.{Kind, System, Turn, takes, works, breaks, turns, launch}
use ugoku.System

-- How the workers of a kind deal with a file: what they have in hand when they take it; the events of
-- their call and of the goroutine that it starts; those that are of the call itself; whether the call
-- has returned; and whether it has set `to_exit`.
pub record Method (A : Type 0) : Type 1 where
  pub State : Type 0
  pub Step : Type 0
  pub kind : Kind
  pub begin : A → State
  pub step : A → Step → State → Option State
  pub is_main : Step → Bool
  pub returned : State → Bool
  pub exits : State → Bool

-- The place of a worker in the list, and a file that it took.
pub record Job (A S : Type 0) : Type 0 where
  pub owner : ℕ
  pub file : A
  pub state : S

-- An event of the system; one of the call that the worker at an index is in; one that a call which has
-- returned left running.
pub data Event (E : Type 0) : Type 0 where
  systems : System.Event → Event E
  works_on : ℕ → E → Event E
  goes_on : ℕ → E → Event E

module _ {A : Type 0} (m : Method A) where
  abbrev pub JobOf : Type 0
  JobOf = Job A m.State

  -- `current` has the file that a worker is at, `past` those whose call has returned, the last one first.
  pub record Delivery : Type 0 where
    pub system : System A
    pub current : ℕ → Option JobOf
    pub past : List JobOf

  abbrev pub files : List JobOf → List A
  files [] = []
  files (job ∷ jobs) = job.file ∷ files jobs

  abbrev pub assign : (ℕ → Option JobOf) → ℕ → Option JobOf → ℕ → Option JobOf
  assign current k job j = if k == j then job else current j

  -- The file that comes first in the channel.
  abbrev pub begun : Delivery → ℕ → List A → System A → Option Delivery
  begun d k [] s = none
  begun d k (a ∷ rest) s = some (record d {
    system = s;
    current = assign d.current k (some (record { owner = k; file = a; state = m.begin a }));
  })

  abbrev pub closed : Delivery → ℕ → Option JobOf → System A → Option Delivery
  closed d k none s = none
  closed d k (some job) s =
      if m.returned job.state
      then some (record d { system = s; current = assign d.current k none; past = job ∷ d.past })
      else none

  abbrev pub any_exits : ℕ → List JobOf → Bool
  any_exits k [] = false
  any_exits k (job ∷ jobs) = job.owner == k && m.exits job.state || any_exits k jobs

  abbrev pub now_exits : Option JobOf → Bool
  now_exits none = false
  now_exits (some job) = m.exits job.state

  -- What the event of the system is for the files: a worker takes one; its call has returned; a call has
  -- set `to_exit`.
  abbrev pub follow : Delivery → System.Event → System A → Option Delivery
  follow d (turns k takes) s = begun d k d.system.scan.chan s
  follow d (turns k works) s = closed d k (d.current k) s
  follow d (turns k breaks) s =
      if now_exits (d.current k) || any_exits k d.past then some (record d { system = s }) else none
  follow d e s = some (record d { system = s })

  abbrev pub followed : Delivery → System.Event → Option (System A) → Option Delivery
  followed d e none = none
  followed d e (some s) = follow d e s

  abbrev pub stepped : JobOf → Option m.State → Option JobOf
  stepped job none = none
  stepped job (some s) = some (record job { state = s })

  abbrev pub worked_on : Delivery → ℕ → Option JobOf → Option Delivery
  worked_on d k none = none
  worked_on d k (some job) = some (record d { current = assign d.current k (some job) })

  abbrev pub at_hand : m.Step → Option JobOf → Option JobOf
  at_hand e none = none
  at_hand e (some job) = stepped job (m.step job.file e job.state)

  abbrev pub first_of : Option JobOf → List JobOf → Option (List JobOf)
  first_of none jobs = none
  first_of (some job) jobs = some (job ∷ jobs)

  abbrev pub behind : JobOf → Option (List JobOf) → Option (List JobOf)
  behind job none = none
  behind job (some jobs) = some (job ∷ jobs)

  -- The job at an index makes a step.
  unfoldable pub advance : ℕ → m.Step → List JobOf → Option (List JobOf)
  advance i e [] = none
  advance zero e (job ∷ jobs) = first_of (stepped job (m.step job.file e job.state)) jobs
  advance (suc i) e (job ∷ jobs) = behind job (advance i e jobs)

  abbrev pub gone_on : Delivery → Option (List JobOf) → Option Delivery
  gone_on d none = none
  gone_on d (some jobs) = some (record d { past = jobs })

  module _ (one_time : Bool) (cap : ℕ) where
    -- `none`: the event cannot happen now.
    unfoldable pub step : Event m.Step → Delivery → Option Delivery
    unfolding advance
    step (systems e) d = followed d e (System.step m.kind one_time cap e d.system)
    step (works_on k e) d = worked_on d k (at_hand e (d.current k))
    step (goes_on i e) d = if m.is_main e then none else gone_on d (advance i e d.past)

    unfoldable pub run : List (Event m.Step) → Delivery → Option Delivery
    run [] d = some d
    run (e ∷ es) d = elim (step e d) [ none ↦ none | some u ↦ run es u ]
