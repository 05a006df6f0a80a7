-- ===== src/Transfer.antt =====
-- `download` of downloader/downloader.go, and that of syncer/server-syncer.go, which differs in having
-- no stop channel: a goroutine that copies one file, beside the `select` that waits for it. Both, and
-- the deadline, are stepped by events, so that a list of events is one interleaving.
pub mod Safety
pub mod Ending
use ugoku.Base.{
  ℕ, zero, suc, ◌+◌, Text, Bool, true, false, not, ◌&&◌, Option, none, some, List, [], ◌∷◌, ◌++◌,
  take, drop, if◌then◌else◌,
}

-- Where the goroutine stands: before OpenFile; before the Create of doSftpDownload; in the copy; with
-- the result of DownloadToTemp, `true` for an error; at the second test of `cancelled`; before
-- RenameTempfile; before a send on `done`; at its end.
pub data Pc : Type 0 where
  opening creating copying : Pc
  copied : Bool → Pc
  checking renaming : Pc
  reporting : Bool → Pc
  ended : Pc

-- What `download` returned: nil, or one of its three errors.
pub data Ret : Type 0 where
  succeeded timed_out failed cancelled_by_stop : Ret

-- `temp` and `output` are the contents of the temporary file and of the output file, `rest` is what is
-- left to read of the remote file, `ctx_done` says that the context is done, and `done` is the buffer
-- of the channel, which holds one value. `source` says that the remote file is there.
pub record Session : Type 0 where
  pub pc : Pc
  pub rest : Text
  pub temp : Option Text
  pub output : Option Text
  pub ctx_done : Bool
  pub cancelled : Bool
  pub to_exit : Bool
  pub done : Option Bool
  pub ret : Option Ret
  pub source : Bool

-- Each call of the goroutine that can fail brings its outcome along; `reads k` gives k + 1 bytes, or
-- what is left. RenameTempfile is one event: `renames`, or `rename_fails` with whether its Remove of
-- the temporary file worked; `cleans` says the same of the Remove after a cancellation. `goes` is a step of the goroutine that calls nothing, or that sends on `done`.
pub data Event : Type 0 where
  opens creates rename_fails cleans : Bool → Event
  reads : ℕ → Event
  read_fails write_fails renames goes : Event
  expires sees_timeout sees_done sees_stop : Event
  removes : Bool → Event

abbrev pub begin : Text → Option Text → Session
begin content output = record {
  pc = opening;
  rest = content;
  temp = none;
  output = output;
  ctx_done = false;
  cancelled = false;
  to_exit = false;
  done = none;
  ret = none;
  source = true;
}

-- The reader of CopyWithCancel asks the context first.
abbrev chunk : Session → ℕ → Text → Option Text → Session
chunk s k [] temp = record s { pc = copied false }
chunk s k (c ∷ rest) none = record s { pc = copied true }
chunk s k (c ∷ rest) (some written) = record s {
  rest = drop (suc k) (c ∷ rest);
  temp = some (written ++ take (suc k) (c ∷ rest));
}

-- The lines of the goroutine, by where it stands and what its call gave.
unfoldable pub goroutine : Session → Pc → Event → Option Session
goroutine s opening (opens true) = some (record s { pc = creating })
goroutine s opening (opens false) = some (record s { pc = reporting false; to_exit = true })
goroutine s creating (creates true) = some (record s { pc = copying; temp = some [] })
goroutine s creating (creates false) = some (record s { pc = copied true })
goroutine s copying (reads k) =
    some (if s.ctx_done then record s { pc = copied true } else chunk s k s.rest s.temp)
goroutine s copying read_fails = some (record s { pc = copied true })
goroutine s copying write_fails = some (record s { pc = copied true })
goroutine s (copied error) goes = some (
    if error && not s.cancelled
    then record s { pc = reporting false; to_exit = true }
    else record s { pc = checking })
goroutine s checking goes = if s.cancelled then none else some (record s { pc = renaming })
goroutine s checking (cleans gone) =
    if s.cancelled
    then some (record s { pc = reporting false; temp = if gone then none else s.temp })
    else none
goroutine s renaming renames = some (record s { pc = reporting true; output = s.temp; temp = none })
goroutine s renaming (rename_fails gone) =
    some (record s { pc = reporting false; temp = if gone then none else s.temp })
goroutine s (reporting result) goes = elim s.done [
  | none ↦ some (record s { pc = ended; done = some result })
  | some b ↦ none
]
goroutine s pc e = none

-- A return of `download` also cancels the context, by the deferred call.
abbrev returns : Session → Ret → Session
returns s r = record s { ret = some r; ctx_done = true }

abbrev receive : Session → Option Bool → Option Session
receive s none = none
receive s (some true) = some (returns (record s { done = none }) succeeded)
receive s (some false) = some (returns (record s { done = none }) failed)

-- The `select`, while it waits.
unfoldable pub select : Bool → Session → Event → Option Session
select stoppable s sees_timeout =
    if s.ctx_done then some (returns (record s { cancelled = true }) timed_out) else none
select stoppable s sees_done = receive s s.done
select stoppable s sees_stop =
    if stoppable then some (returns (record s { to_exit = true }) cancelled_by_stop) else none
select stoppable s e = none

-- After the return: the worker removes the source if there was no error.
unfoldable pub after_return : Session → Ret → Event → Option Session
after_return s succeeded (removes gone) =
    some (record s { source = if gone then false else s.source })
after_return s r e = none

abbrev main_thread : Bool → Session → Option Ret → Event → Option Session
main_thread stoppable s none e = select stoppable s e
main_thread stoppable s (some r) e = after_return s r e

-- Whose event it is.
abbrev pub is_main : Event → Bool
is_main sees_timeout = true
is_main sees_done = true
is_main sees_stop = true
is_main (removes b) = true
is_main e = false

-- `none`: the event cannot happen now.
unfoldable pub step : Bool → Event → Session → Option Session
unfolding goroutine select after_return
step stoppable expires s = some (record s { ctx_done = true })
step stoppable e s = if is_main e then main_thread stoppable s s.ret e else goroutine s s.pc e

unfoldable pub run : Bool → List Event → Session → Option Session
run stoppable [] s = some s
run stoppable (e ∷ es) s = elim (step stoppable e s) [ none ↦ none | some t ↦ run stoppable es t ]
