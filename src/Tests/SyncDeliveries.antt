-- ===== src/Tests/SyncDeliveries.antt =====
-- A syncer of either kind with one worker over two files: the first is missing on the other side, the
-- second is left alone.
use ugoku.Base.{
  ◌≡◌, refl, ℕ, pos, true, false, Option, none, some, List, [], ◌∷◌, ◌++◌, arith, All, incr, decr,
}
use ugoku.Dispatch.{Entry, file, returned}
use ugoku.Dispatch.Counts.{weight}
use ugoku.System.{turn, own_turn, get_elem?, set, new_workers, launch}
use ugoku.System
use ugoku.System.Complete.{held-new_workers}
use ugoku.Transfer
use ugoku.Syncer.{differs}
use ugoku.Syncer.Server.{stats, transfers, updates, downloadable}
use ugoku.Syncer.Server
use ugoku.Delivery.{Delivery, Event, works_on, files, run, step, advance}
use ugoku.Delivery.Methods.{Synced, rounds, local_rounds}
use ugoku.Delivery.Rounds.{Outcome, rounds_complete}
use ugoku.Delivery.LocalRounds.{local_rounds_complete}
use ugoku.Delivery.LocalRounds
use ugoku.Syncer.Local
use ugoku.Copying
use ugoku.Tests.Deliveries.{before, between, after}

abbrev missing : Synced
missing = record {
  stat = record { size = pos 2; mod_time = pos 7; is_dir = false };
  content = 1 ∷ 2 ∷ [];
  old = none;
  modified = pos 0;
}

abbrev unchanged : Synced
unchanged = record {
  stat = record { size = pos 1; mod_time = pos 8; is_dir = false };
  content = 3 ∷ [];
  old = some (3 ∷ []);
  modified = pos 8;
}

abbrev entries : List (Entry Synced)
entries = file missing ∷ file unchanged ∷ []

abbrev launched : Delivery rounds
launched = record { system = launch entries 1; current = λ k. none; past = [] }

abbrev syncing : List (Event Server.Event)
syncing =
    before
    ++ works_on 0 (stats false)
      ∷ works_on 0 (transfers (Transfer.opens true) (pos 0))
      ∷ works_on 0 (transfers (Transfer.creates true) (pos 0))
      ∷ works_on 0 (transfers (Transfer.reads 5) (pos 0))
      ∷ works_on 0 (transfers (Transfer.reads 0) (pos 0))
      ∷ works_on 0 (transfers Transfer.goes (pos 0))
      ∷ works_on 0 (transfers Transfer.goes (pos 0))
      ∷ works_on 0 (transfers Transfer.renames (pos 9))
      ∷ works_on 0 (transfers Transfer.goes (pos 0))
      ∷ works_on 0 (transfers Transfer.sees_done (pos 0))
      ∷ works_on 0 Server.returns
      ∷ works_on 0 (updates true)
      ∷ []
    ++ between
    ++ works_on 0 (stats true) ∷ []
    ++ after

abbrev result : Option (Delivery rounds) → Delivery rounds
result none = launched
result (some d) = d

abbrev synced : Delivery rounds
unfolding run step advance System.step turn own_turn get_elem? set new_workers incr decr Server.step
    downloadable differs Transfer.step Transfer.goroutine Transfer.select Transfer.after_return
synced = result (run rounds false 2 syncing launched)

all_synced : run rounds false 2 syncing launched ≡ some synced
unfolding run step advance System.step turn own_turn get_elem? set new_workers incr decr Server.step
    downloadable differs Transfer.step Transfer.goroutine Transfer.select Transfer.after_return
    synced
all_synced = refl

sync_ended : synced.system.scan.pc ≡ returned true
unfolding synced
sync_ended = refl

sync_not_stopped : synced.system.scan.started ≡ true
unfolding synced
sync_not_stopped = refl

rounds_complete_example :
    ((f : Synced → ℕ) → weight f (files rounds synced.past) ≡ weight f (missing ∷ unchanged ∷ []))
    × All Outcome synced.past
rounds_complete_example =
    rounds_complete false 1 entries syncing launched synced true (omega arith) refl
      (held-new_workers System.server_syncer 1 1) refl all_synced sync_ended sync_not_stopped

-- The same for a local syncer.
abbrev launched_local : Delivery local_rounds
launched_local = record { system = launch entries 1; current = λ k. none; past = [] }

abbrev syncing_local : List (Event Local.Event)
syncing_local =
    before
    ++ works_on 0 (Local.stats false)
      ∷ works_on 0 (Local.copies (Copying.makes_folder true) (pos 0))
      ∷ works_on 0 (Local.copies (Copying.opens true) (pos 0))
      ∷ works_on 0 (Local.copies (Copying.creates true) (pos 9))
      ∷ works_on 0 (Local.copies (Copying.reads 5) (pos 9))
      ∷ works_on 0 (Local.copies (Copying.reads 0) (pos 9))
      ∷ works_on 0 Local.returns
      ∷ works_on 0 (Local.updates true)
      ∷ []
    ++ between
    ++ works_on 0 (Local.stats true) ∷ []
    ++ after

abbrev result_local : Option (Delivery local_rounds) → Delivery local_rounds
result_local none = launched_local
result_local (some d) = d

abbrev synced_local : Delivery local_rounds
unfolding run step advance System.step turn own_turn get_elem? set new_workers incr decr Local.step
    differs Copying.at
synced_local = result_local (run local_rounds false 2 syncing_local launched_local)

all_synced_local : run local_rounds false 2 syncing_local launched_local ≡ some synced_local
unfolding run step advance System.step turn own_turn get_elem? set new_workers incr decr Local.step
    differs Copying.at synced_local
all_synced_local = refl

local_ended : synced_local.system.scan.pc ≡ returned true
unfolding synced_local
local_ended = refl

local_not_stopped : synced_local.system.scan.started ≡ true
unfolding synced_local
local_not_stopped = refl

local_rounds_complete_example :
    ((f : Synced → ℕ)
      → weight f (files local_rounds synced_local.past) ≡ weight f (missing ∷ unchanged ∷ []))
    × All LocalRounds.Outcome synced_local.past
local_rounds_complete_example =
    local_rounds_complete false 1 entries syncing_local launched_local synced_local true
      (omega arith) refl (held-new_workers System.local_syncer 1 1) refl all_synced_local
      local_ended local_not_stopped
