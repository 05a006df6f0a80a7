-- ===== src/Upload.antt =====
-- `upload` of uploader/uploader.go: a goroutine that writes one file to the server, beside the
-- `select` that waits for it. A list of events is one interleaving, as in Transfer.
pub mod Safety
use ugoku.Base.{
  ℕ, suc, Text, Bool, true, false, not, ◌&&◌, Option, none, some, List, [], ◌∷◌, ◌++◌, take, drop,
  if◌then◌else◌,
}

-- Where the goroutine stands: before MkdirAll; before the OpenFile of the local file; before the
-- Create of the remote file; in the copy; with the result of the copy, `true` for an error; at the
-- second test of `cancelled`; before a send on `done`; at its end. `crashed` is the end of the
-- process by a panic.
pub data Pc : Type 0 where
  making_folder opening creating copying : Pc
  copied : Bool → Pc
  checking : Pc
  reporting : Bool → Pc
  ended crashed : Pc

pub data Ret : Type 0 where
  succeeded timed_out failed cancelled_by_stop : Ret

-- `target` is the content of the remote file, `rest` what is left to read of the local one, and
-- `source` says that the local file is there. No line of the source ever writes `cancelled`.
pub record Session : Type 0 where
  pub pc : Pc
  pub rest : Text
  pub target : Option Text
  pub ctx_done : Bool
  pub cancelled : Bool
  pub to_exit : Bool
  pub done : Option Bool
  pub ret : Option Ret
  pub source : Bool

pub data Event : Type 0 where
  makes_folder opens creates : Bool → Event
  reads : ℕ → Event
  read_fails write_fails goes : Event
  expires sees_timeout sees_done sees_stop : Event
  removes : Bool → Event

abbrev pub begin : Text → Option Text → Session
begin content target = record {
  pc = making_folder;
  rest = content;
  target = target;
  ctx_done = false;
  cancelled = false;
  to_exit = false;
  done = none;
  ret = none;
  source = true;
}

-- The reader of CopyWithCancel asks the context first.
abbrev chunk : Session → ℕ → Text → Option Text → Session
chunk s k [] target = record s { pc = copied false }
chunk s k (c ∷ rest) none = record s { pc = copied true }
chunk s k (c ∷ rest) (some written) = record s {
  rest = drop (suc k) (c ∷ rest);
  target = some (written ++ take (suc k) (c ∷ rest));
}

-- Every error sets `uploader_to_exit` and sends 0.
abbrev gives_up : Session → Session
gives_up s = record s { pc = reporting false; to_exit = true }

-- The error branch of Create logs `err.Error()` of the nil error of OpenFile, which panics.
unfoldable pub goroutine : Session → Pc → Event → Option Session
goroutine s making_folder (makes_folder true) = some (record s { pc = opening })
goroutine s making_folder (makes_folder false) = some (gives_up s)
goroutine s opening (opens true) = some (record s { pc = creating })
goroutine s opening (opens false) = some (gives_up s)
goroutine s creating (creates true) = some (record s { pc = copying; target = some [] })
goroutine s creating (creates false) = some (record s { pc = crashed })
goroutine s copying (reads k) =
    some (if s.ctx_done then record s { pc = copied true } else chunk s k s.rest s.target)
goroutine s copying read_fails = some (record s { pc = copied true })
goroutine s copying write_fails = some (record s { pc = copied true })
goroutine s (copied error) goes =
    some (if error && not s.cancelled then gives_up s else record s { pc = checking })
goroutine s checking goes =
    some
      (if s.cancelled then record s { pc = reporting false } else record s { pc = reporting true })
goroutine s (reporting result) goes = elim s.done [
  | none ↦ some (record s { pc = ended; done = some result })
  | some b ↦ none
]
goroutine s pc e = none

abbrev returns : Session → Ret → Session
returns s r = record s { ret = some r; ctx_done = true }

abbrev receive : Session → Option Bool → Option Session
receive s none = none
receive s (some true) = some (returns (record s { done = none }) succeeded)
receive s (some false) = some (returns (record s { done = none }) failed)

-- The `select`, while it waits. Unlike that of a download it leaves `cancelled` alone.
unfoldable pub select : Session → Event → Option Session
select s sees_timeout = if s.ctx_done then some (returns s timed_out) else none
select s sees_done = receive s s.done
select s sees_stop = some (returns (record s { to_exit = true }) cancelled_by_stop)
select s e = none

-- After the return: the worker removes the source if there was no error.
unfoldable pub after_return : Session → Ret → Event → Option Session
after_return s succeeded (removes gone) =
    some (record s { source = if gone then false else s.source })
after_return s r e = none

abbrev main_thread : Session → Option Ret → Event → Option Session
main_thread s none e = select s e
main_thread s (some r) e = after_return s r e

abbrev pub is_main : Event → Bool
is_main sees_timeout = true
is_main sees_done = true
is_main sees_stop = true
is_main (removes b) = true
is_main e = false

abbrev pub live : Session → Event → Option Session
live s expires = some (record s { ctx_done = true })
live s e = if is_main e then main_thread s s.ret e else goroutine s s.pc e

abbrev pub has_crashed : Pc → Bool
has_crashed crashed = true
has_crashed pc = false

-- `none`: the event cannot happen now, as nothing can after a panic.
unfoldable pub step : Event → Session → Option Session
unfolding goroutine select after_return
step e s = if has_crashed s.pc then none else live s e

unfoldable pub run : List Event → Session → Option Session
run [] s = some s
run (e ∷ es) s = elim (step e s) [ none ↦ none | some t ↦ run es t ]
