-- ===== src/FolderScanner.antt =====
-- The watching scan of uploader/folder-scanner.go: one round of its loop, with the map from names to
-- what was last seen. How the chosen files go through the channels is the module Dispatch.
pub mod Passes
pub mod Handed
pub mod Watch
use ugoku.Base.{
  ℤ, pos, ◌≡◌, eqb_ℤ, incr, wrap64, leb_ℤ, Text, same, Bool, true, false, not, ◌||◌, Option, none,
  some, List, [], ◌∷◌, ◌++◌, if◌then◌else◌,
}
use ugoku.Services.{FileInfo, unix}

pub record FileObj : Type 0 where
  pub path : Text
  pub stat : FileInfo

pub record FileLookupObj : Type 0 where
  pub pass : ℤ
  pub stat : FileInfo

-- `map[string]FileLookupObj`
abbrev pub FolderMap : Type 0
FolderMap = Text → Option FileLookupObj

unfoldable pub empty_map : FolderMap
empty_map file = none

unfoldable pub store : Text → FileLookupObj → FolderMap → FolderMap
store file fo lookup q = if same q file then some fo else lookup q

abbrev if_current : ℤ → Option FileLookupObj → Option FileLookupObj
if_current pass none = none
if_current pass (some fo) = if eqb_ℤ fo.pass pass then some fo else none

-- The loop that deletes the entries of other passes.
unfoldable pub delete_others : ℤ → FolderMap → FolderMap
delete_others pass lookup q = if_current pass (lookup q)

-- `current_pass + 1%10`, which is `current_pass + 1`.
abbrev pub next_pass : ℤ → ℤ
next_pass pass = wrap64 (incr pass)

-- A round of the loop over the listing comes to a name, or finds that Stop was called.
pub data Item : Type 0 where
  listed : Text → Item
  stops : Item

-- `can_dispatch`
unfoldable pub can_dispatch : Bool → Option FileLookupObj → FileInfo → Bool
can_dispatch false old stat = true
can_dispatch true none stat = true
can_dispatch true (some oldfile) stat =
    not (eqb_ℤ (unix oldfile.stat.mod_time) (unix stat.mod_time))

-- What a pass leaves: whether it came to the end of the listing, the map, and the files that it put
-- on the channel, in order.
pub record Passed : Type 0 where
  pub finished : Bool
  pub lookup : FolderMap
  pub sent : List FileObj

module _ (watch : Bool) (pass : ℤ) (stat : Text → Option FileInfo) where
  abbrev noted : Text → Option FileInfo → FolderMap → FolderMap
  noted file none lookup = lookup
  noted file (some info) lookup =
      if watch then store file (record { pass = pass; stat = info }) lookup else lookup

  abbrev offered : Text → Option FileInfo → FolderMap → List FileObj → List FileObj
  offered file none lookup rest = rest
  offered file (some info) lookup rest =
      if can_dispatch watch (lookup file) info
      then record { path = file; stat = info } ∷ rest
      else rest

  -- `for _, newfile := range filelist`. A file that cannot be stat-ed is passed over.
  unfoldable pub walk_list : List Item → FolderMap → Passed
  walk_list [] lookup = record { finished = true; lookup = lookup; sent = [] }
  walk_list (stops ∷ items) lookup = record { finished = false; lookup = lookup; sent = [] }
  walk_list (listed file ∷ items) lookup =
      let rest = walk_list items (noted file (stat file) lookup) in
      record rest { sent = offered file (stat file) lookup rest.sent }

-- One round of `scan` up to the wait for the workers; the listing is `none` where ReadFilelist fails,
-- which ends the scan as a stop does.
abbrev end_of_list : ℤ → Passed → Passed
end_of_list pass p = if p.finished then record p { lookup = delete_others pass p.lookup } else p

unfoldable pub scan_pass :
    Bool → ℤ → (Text → Option FileInfo) → Option (List Item) → FolderMap → Passed
scan_pass watch pass stat none lookup = record { finished = false; lookup = lookup; sent = [] }
scan_pass watch pass stat (some items) lookup =
    end_of_list pass (walk_list watch pass stat items lookup)

-- FolderScanner.init, for the sleep time.
unfoldable pub init_sleep_time : ℤ → ℤ
init_sleep_time default_sleep_time =
    if leb_ℤ default_sleep_time (pos 0) then pos 1 else default_sleep_time

-- What a round of the loop finds: the listing, as in `scan_pass`, and the stats.
pub record View : Type 0 where
  pub stat : Text → Option FileInfo
  pub listing : Option (List Item)

-- The loop of scan over what it finds in its rounds, from a pass number and a map on: what each round
-- puts on the channel. It ends with the rounds, where a stop comes between two of them, after a round
-- that was cut short, or after the first round in one-time mode.
unfoldable pub scan : Bool → Bool → List View → ℤ → FolderMap → List (List FileObj)
scan watch one_time [] pass lookup = []
scan watch one_time (v ∷ views) pass lookup =
    let p = scan_pass watch (next_pass pass) v.stat v.listing lookup in
    let rest = scan watch one_time views (next_pass pass) p.lookup in
    p.sent ∷ (if not p.finished || one_time then [] else rest)

-- Start and StartWithWatcher, for what they put on the channel.
unfoldable pub start : Bool → List View → List (List FileObj)
unfolding empty_map
start one_time views = scan false one_time views (pos 0) empty_map

unfoldable pub start_with_watcher : Bool → List View → List (List FileObj)
unfolding empty_map
start_with_watcher one_time views = scan true one_time views (pos 0) empty_map
