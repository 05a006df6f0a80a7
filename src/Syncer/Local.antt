-- ===== src/Syncer/Local.antt =====
-- A round of the worker of syncer/local-syncer.go in steps, for one file: the Stat of the copy on the
-- server, the upload if the two differ, and the Chtimes after it.
use ugoku.Base.{ℤ, Text, Bool, true, false, Option, none, some, if◌then◌else◌}
use ugoku.Services.{FileInfo}
use ugoku.Syncer.{differs}
use ugoku.Syncer.Server.{info_of}
use ugoku.Copying.{Copy, Pc, begin, has_returned, creates, reads}
use ugoku.Copying

-- Before `uploadable`; in `upload`; before updateModTime; before `done <- 1`.
pub data Stage : Type 0 where
  deciding uploading updating over : Stage

-- The copy on the server is `target` of `copy`; `modified` is its modification time, if it exists.
pub record LocalRound : Type 0 where
  pub stage : Stage
  pub copy : Copy
  pub modified : ℤ

-- Stat of the copy on the server gives an answer, or an error; a step of `upload`, with the modification
-- time that a Create or a write gives to the copy; `upload` has returned; Chtimes works, or not.
pub data Event : Type 0 where
  stats : Bool → Event
  copies : Copying.Event → ℤ → Event
  returns : Event
  updates : Bool → Event

abbrev pub begin_local : Text → Option Text → ℤ → LocalRound
begin_local content old modified = record {
  stage = deciding;
  copy = begin content old;
  modified = modified;
}

abbrev pub answer : Bool → LocalRound → Option FileInfo
answer true r = info_of r.copy.target r.modified
answer false r = none

abbrev pub decide : FileInfo → Bool → LocalRound → Stage → Option LocalRound
decide stat answers r deciding =
    some (record r { stage = if differs stat (answer answers r) then uploading else over })
decide stat answers r stage = none

abbrev pub written_at : Copying.Event → ℤ → ℤ → ℤ
written_at (creates true) t modified = t
written_at (reads k) t modified = t
written_at e t modified = modified

abbrev pub copied : Copying.Event → ℤ → LocalRound → Option Copy → Option LocalRound
copied e t r none = none
copied e t r (some copy) = some (record r { copy = copy; modified = written_at e t r.modified })

abbrev pub in_upload : Stage → Bool
in_upload uploading = true
in_upload stage = false

abbrev pub back : LocalRound → Stage → Bool → Option LocalRound
back r uploading true = some (record r { stage = updating })
back r stage b = none

-- Chtimes fails if there is no copy; an error is only logged.
abbrev pub mark : FileInfo → Bool → LocalRound → Stage → Option Text → Option LocalRound
mark stat true r updating (some x) = some (record r { stage = over; modified = stat.mod_time })
mark stat false r updating target = some (record r { stage = over })
mark stat works r stage target = none

-- `none`: the event cannot happen now. `stat` is that of the local file.
unfoldable pub step : FileInfo → Event → LocalRound → Option LocalRound
step stat (stats answers) r = decide stat answers r r.stage
step stat (copies e t) r =
    if in_upload r.stage then copied e t r (Copying.step false e r.copy) else none
step stat returns r = back r r.stage (has_returned r.copy.pc)
step stat (updates works) r = mark stat works r r.stage r.copy.target
