-- ===== src/Copying.antt =====
-- `stream` of streamer/streamer.go and `upload` of syncer/local-syncer.go in steps, so that the calls of
-- several workers can interleave. Both copy one file with io.Copy and have no deadline; what they do as a
-- whole to a world of files is in Streamer and Syncer.
pub mod Safety
use ugoku.Base.{
  ℕ, suc, Text, Bool, true, false, ◌||◌, Option, none, some, List, [], ◌∷◌, ◌++◌, take, drop,
  if◌then◌else◌,
}

-- Before MkdirAll; before OpenFile; before Create; in io.Copy; returned, `true` if the file was copied;
-- ended by a panic.
pub data Pc : Type 0 where
  making_folder opening creating copying : Pc
  returned : Bool → Pc
  crashed : Pc

-- `target` is the content at the path of the copy, `rest` what is left to read, `source` says that the
-- source is there.
pub record Copy : Type 0 where
  pub pc : Pc
  pub rest : Text
  pub target : Option Text
  pub to_exit : Bool
  pub source : Bool

-- Each call that can fail brings its outcome along; `reads k` gives k + 1 bytes, or what is left;
-- `removes` says whether the Remove of the source worked.
pub data Event : Type 0 where
  makes_folder opens creates : Bool → Event
  reads : ℕ → Event
  fails : Event
  removes : Bool → Event

abbrev pub begin : Text → Option Text → Copy
begin content target = record {
  pc = making_folder;
  rest = content;
  target = target;
  to_exit = false;
  source = true;
}

-- After an error, which sets `to_exit` or not.
abbrev pub failed : Copy → Bool → Copy
failed s exits = record s { pc = returned false; to_exit = s.to_exit || exits }

abbrev pub chunk : Copy → ℕ → Text → Option Text → Copy
chunk s k [] target = record s { pc = returned true }
chunk s k (c ∷ rest) none = failed s true
chunk s k (c ∷ rest) (some written) = record s {
  rest = drop (suc k) (c ∷ rest);
  target = some (written ++ take (suc k) (c ∷ rest));
}

-- `moves` says that it is a streamer's, which removes a source that it copied, and which exits also when
-- the source cannot be opened. The error branch of Create logs `err.Error()` of the nil error of
-- OpenFile, which panics.
unfoldable pub at : Bool → Copy → Pc → Event → Option Copy
at moves s making_folder (makes_folder true) = some (record s { pc = opening })
at moves s making_folder (makes_folder false) = some (failed s true)
at moves s opening (opens true) = some (record s { pc = creating })
at moves s opening (opens false) = some (failed s moves)
at moves s creating (creates true) = some (record s { pc = copying; target = some [] })
at moves s creating (creates false) = some (record s { pc = crashed })
at moves s copying (reads k) = some (chunk s k s.rest s.target)
at moves s copying fails = some (failed s true)
at moves s (returned true) (removes gone) =
    if moves then some (record s { source = if gone then false else s.source }) else none
at moves s pc e = none

-- `none`: the event cannot happen now.
abbrev pub step : Bool → Event → Copy → Option Copy
step moves e s = at moves s s.pc e

abbrev pub has_returned : Pc → Bool
has_returned (returned b) = true
has_returned pc = false
