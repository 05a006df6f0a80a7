-- ===== src/Syncer/Server.antt =====
-- A round of the worker of syncer/server-syncer.go, for one file: the Stat of the local copy, the
-- download if the two differ, and the Chtimes after it. The goroutine of a download that ran out of
-- time goes on beside what follows.
pub mod Rounds
pub mod Ending
use ugoku.Base.{
  ℤ, pos, Text, Bool, true, false, not, ◌&&◌, ◌||◌, Option, none, some, List, [], ◌∷◌, length,
  if◌then◌else◌,
}
use ugoku.Services.{FileInfo}
use ugoku.Syncer.{differs}
use ugoku.Transfer.{Session, Ret, is_main, begin, renames, removes}
use ugoku.Transfer

-- Before `downloadable`; in `download`; before updateModTime; before `done <- 1`.
pub data Stage : Type 0 where
  deciding downloading updating over : Stage

-- The local copy is `output` of the session; `modified` is its modification time, if it exists.
pub record Round : Type 0 where
  pub stage : Stage
  pub session : Session
  pub modified : ℤ

-- Stat of the local copy gives an answer, or an error; a step of `download` or its goroutine, with the
-- modification time that a rename gives to the local copy; `download` has returned; Chtimes works, or
-- not.
pub data Event : Type 0 where
  stats : Bool → Event
  transfers : Transfer.Event → ℤ → Event
  returns : Event
  updates : Bool → Event

abbrev pub begin_round : Text → Option Text → ℤ → Round
begin_round content old modified = record {
  stage = deciding;
  session = begin content old;
  modified = modified;
}

abbrev pub info_of : Option Text → ℤ → Option FileInfo
info_of none modified = none
info_of (some x) modified =
    some (record { size = pos (length x); mod_time = modified; is_dir = false })

-- An error of Stat, of whatever kind, counts as a missing file.
unfoldable pub downloadable : FileInfo → Bool → Round → Bool
downloadable stat answers r =
    differs stat (if answers then info_of r.session.output r.modified else none)

abbrev pub decided : FileInfo → Bool → Round → Stage → Option Round
decided stat answers r deciding =
    some (record r { stage = if downloadable stat answers r then downloading else over })
decided stat answers r stage = none

-- The worker itself is in `download`, and never removes a source.
abbrev pub can_step : Transfer.Event → Stage → Bool
can_step (removes b) stage = false
can_step e deciding = false
can_step e downloading = true
can_step e stage = not (is_main e)

abbrev pub renamed_at : Transfer.Event → ℤ → ℤ → ℤ
renamed_at renames t modified = t
renamed_at e t modified = modified

abbrev pub transferred : Transfer.Event → ℤ → Round → Option Session → Option Round
transferred e t r none = none
transferred e t r (some session) =
    some (record r { session = session; modified = renamed_at e t r.modified })

abbrev pub returned : Round → Stage → Option Ret → Option Round
returned r downloading (some ret) = some (record r { stage = updating })
returned r stage ret = none

-- Chtimes fails if there is no local copy; an error is only logged.
abbrev pub updated : FileInfo → Bool → Round → Stage → Option Text → Option Round
updated stat true r updating (some x) = some (record r { stage = over; modified = stat.mod_time })
updated stat false r updating output = some (record r { stage = over })
updated stat works r stage output = none

-- `none`: the event cannot happen now. `stat` is that of the file on the server.
unfoldable pub step : FileInfo → Event → Round → Option Round
step stat (stats answers) r = decided stat answers r r.stage
step stat (transfers e t) r =
    if can_step e r.stage then transferred e t r (Transfer.step false e r.session) else none
step stat returns r = returned r r.stage r.session.ret
step stat (updates works) r = updated stat works r r.stage r.session.output

unfoldable pub run : FileInfo → List Event → Round → Option Round
run stat [] r = some r
run stat (e ∷ es) r = elim (step stat e r) [ none ↦ none | some u ↦ run stat es u ]
