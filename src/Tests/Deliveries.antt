-- ===== src/Tests/Deliveries.antt =====
-- A downloader, an uploader and a streamer with one worker over two files, of which the second fails.
use ugoku.Base.{
  ◌≡◌, ◌≢◌, ◌⊎◌, refl, ℕ, true, false, Option, none, some, List, [], ◌∷◌, ◌++◌, arith, All, incr,
  decr,
}
use ugoku.Dispatch.{Entry, file, returned}
use ugoku.Dispatch.Counts.{weight}
use ugoku.System.{
  inits, connects, tests, takes, works, reports, decides, scans, turns, turn, own_turn, get_elem?,
  set, new_workers, launch,
}
use ugoku.System
use ugoku.System.Calm.{launch-IsCalm}
use ugoku.System.Complete.{held-new_workers}
use ugoku.Dispatch.Progress.{HasReturned}
use ugoku.Transfer
use ugoku.Upload
use ugoku.Copying
use ugoku.Delivery.{Method, Delivery, Event, systems, works_on, goes_on, files, run, step, advance}
use ugoku.Delivery.Methods.{Transferred, downloads, uploads, streams}
use ugoku.Delivery.Downloads.{downloads_complete}
use ugoku.Delivery.Downloads
use ugoku.Delivery.Progress.{moves}
use ugoku.Delivery.Unblocked.{progress, downloads_go_on}
use ugoku.Delivery.Uploads.{uploads_complete}
use ugoku.Delivery.Uploads
use ugoku.Delivery.Streams.{streams_complete}
use ugoku.Delivery.Streams

abbrev first : Transferred
first = record { content = 1 ∷ 2 ∷ []; old = none }

abbrev second : Transferred
second = record { content = 3 ∷ []; old = some (9 ∷ []) }

abbrev entries : List (Entry Transferred)
entries = file first ∷ file second ∷ []

abbrev launched : (m : Method Transferred) → Delivery m
launched m = record { system = launch entries 1; current = λ k. none; past = [] }

abbrev result : (m : Method Transferred) → Option (Delivery m) → Delivery m
result m none = launched m
result m (some d) = d

module _ {E : Type 0} where
  -- The worker connects and takes the first file.
  abbrev pub before : List (Event E)
  before =
      systems scans
      ∷ systems scans
      ∷ systems scans
      ∷ systems scans
      ∷ systems (turns 0 inits)
      ∷ systems (turns 0 (connects false))
      ∷ systems (turns 0 tests)
      ∷ systems (turns 0 takes)
      ∷ []

  -- It reports the first file and takes the second.
  abbrev pub between : List (Event E)
  between =
      systems (turns 0 works)
      ∷ systems (turns 0 reports)
      ∷ systems (turns 0 decides)
      ∷ systems (turns 0 tests)
      ∷ systems (turns 0 takes)
      ∷ []

  -- It reports the second file, and the scanner comes to its end.
  abbrev pub after : List (Event E)
  after =
      systems (turns 0 works)
      ∷ systems (turns 0 reports)
      ∷ systems scans
      ∷ systems scans
      ∷ systems scans
      ∷ []

-- The first download comes to its end; the deadline of the second passes, and its goroutine goes on.
abbrev downloading : List (Event Transfer.Event)
downloading =
    before
    ++ works_on 0 (Transfer.opens true)
      ∷ works_on 0 (Transfer.creates true)
      ∷ works_on 0 (Transfer.reads 5)
      ∷ works_on 0 (Transfer.reads 0)
      ∷ works_on 0 Transfer.goes
      ∷ works_on 0 Transfer.goes
      ∷ works_on 0 Transfer.renames
      ∷ works_on 0 Transfer.goes
      ∷ works_on 0 Transfer.sees_done
      ∷ works_on 0 (Transfer.removes true)
      ∷ []
    ++ between
    ++ works_on 0 Transfer.expires ∷ works_on 0 Transfer.sees_timeout ∷ []
    ++ after
    ++ goes_on 0 (Transfer.opens true) ∷ []

abbrev downloaded : Delivery downloads
unfolding run step advance System.step turn own_turn get_elem? set new_workers incr decr
    Transfer.step Transfer.goroutine Transfer.select Transfer.after_return
downloaded = result downloads (run downloads false 2 downloading (launched downloads))

all_downloaded : run downloads false 2 downloading (launched downloads) ≡ some downloaded
unfolding run step advance System.step turn own_turn get_elem? set new_workers incr decr
    Transfer.step Transfer.goroutine Transfer.select Transfer.after_return downloaded
all_downloaded = refl

download_ended : downloaded.system.scan.pc ≡ returned true
unfolding downloaded
download_ended = refl

download_not_stopped : downloaded.system.scan.started ≡ true
unfolding downloaded
download_not_stopped = refl

-- The second file comes last.
downloads_returned : files downloads downloaded.past ≡ second ∷ first ∷ []
unfolding downloaded
downloads_returned = refl

downloads_complete_example :
    ((f : Transferred → ℕ)
      → weight f (files downloads downloaded.past) ≡ weight f (first ∷ second ∷ []))
    × All Downloads.Outcome downloaded.past
downloads_complete_example =
    downloads_complete false 1 entries downloading (launched downloads) downloaded true
      (omega arith) refl (held-new_workers System.downloader 1 1) refl all_downloaded download_ended
      download_not_stopped

-- The worker is in the middle of the first download.
abbrev halfway : List (Event Transfer.Event)
halfway = before ++ works_on 0 (Transfer.opens true) ∷ works_on 0 (Transfer.creates true) ∷ []

abbrev in_download : Delivery downloads
unfolding run step advance System.step turn own_turn get_elem? set new_workers incr decr
    Transfer.step Transfer.goroutine Transfer.select Transfer.after_return
in_download = result downloads (run downloads false 2 halfway (launched downloads))

comes_halfway : run downloads false 2 halfway (launched downloads) ≡ some in_download
unfolding run step advance System.step turn own_turn get_elem? set new_workers incr decr
    Transfer.step Transfer.goroutine Transfer.select Transfer.after_return in_download
comes_halfway = refl

downloads_go_on_example :
    HasReturned in_download.system.scan.pc
    ⊎ ((e : Event Transfer.Event) × (moves progress e ≡ true)
        × (step downloads false 2 e in_download ≢ none))
unfolding new_workers
downloads_go_on_example =
    downloads_go_on false entries halfway (launched downloads) in_download (omega arith)
      (launch-IsCalm entries 1) refl (held-new_workers System.downloader 1 1) refl refl
      comes_halfway

-- The same for uploads.
abbrev uploading : List (Event Upload.Event)
uploading =
    before
    ++ works_on 0 (Upload.makes_folder true)
      ∷ works_on 0 (Upload.opens true)
      ∷ works_on 0 (Upload.creates true)
      ∷ works_on 0 (Upload.reads 5)
      ∷ works_on 0 (Upload.reads 0)
      ∷ works_on 0 Upload.goes
      ∷ works_on 0 Upload.goes
      ∷ works_on 0 Upload.goes
      ∷ works_on 0 Upload.sees_done
      ∷ works_on 0 (Upload.removes true)
      ∷ []
    ++ between
    ++ works_on 0 Upload.expires ∷ works_on 0 Upload.sees_timeout ∷ []
    ++ after
    ++ goes_on 0 (Upload.makes_folder true) ∷ []

abbrev uploaded : Delivery uploads
unfolding run step advance System.step turn own_turn get_elem? set new_workers incr decr Upload.step
    Upload.goroutine Upload.select Upload.after_return
uploaded = result uploads (run uploads false 2 uploading (launched uploads))

all_uploaded : run uploads false 2 uploading (launched uploads) ≡ some uploaded
unfolding run step advance System.step turn own_turn get_elem? set new_workers incr decr Upload.step
    Upload.goroutine Upload.select Upload.after_return uploaded
all_uploaded = refl

upload_ended : uploaded.system.scan.pc ≡ returned true
unfolding uploaded
upload_ended = refl

upload_not_stopped : uploaded.system.scan.started ≡ true
unfolding uploaded
upload_not_stopped = refl

uploads_complete_example :
    ((f : Transferred → ℕ)
      → weight f (files uploads uploaded.past) ≡ weight f (first ∷ second ∷ []))
    × All Uploads.Outcome uploaded.past
uploads_complete_example =
    uploads_complete false 1 entries uploading (launched uploads) uploaded true (omega arith) refl
      (held-new_workers System.uploader 1 1) refl all_uploaded upload_ended upload_not_stopped

-- For streams, of which the second cannot open its source.
abbrev streaming : List (Event Copying.Event)
streaming =
    before
    ++ works_on 0 (Copying.makes_folder true)
      ∷ works_on 0 (Copying.opens true)
      ∷ works_on 0 (Copying.creates true)
      ∷ works_on 0 (Copying.reads 0)
      ∷ works_on 0 (Copying.reads 0)
      ∷ works_on 0 (Copying.reads 0)
      ∷ works_on 0 (Copying.removes true)
      ∷ []
    ++ between
    ++ works_on 0 (Copying.makes_folder true) ∷ works_on 0 (Copying.opens false) ∷ []
    ++ after

abbrev stream_result : Delivery streams
unfolding run step advance System.step turn own_turn get_elem? set new_workers incr decr Copying.at
stream_result = result streams (run streams false 2 streaming (launched streams))

all_streamed : run streams false 2 streaming (launched streams) ≡ some stream_result
unfolding run step advance System.step turn own_turn get_elem? set new_workers incr decr Copying.at
    stream_result
all_streamed = refl

stream_ended : stream_result.system.scan.pc ≡ returned true
unfolding stream_result
stream_ended = refl

stream_not_stopped : stream_result.system.scan.started ≡ true
unfolding stream_result
stream_not_stopped = refl

streams_complete_example :
    ((f : Transferred → ℕ)
      → weight f (files streams stream_result.past) ≡ weight f (first ∷ second ∷ []))
    × All Streams.Outcome stream_result.past
streams_complete_example =
    streams_complete false 1 entries streaming (launched streams) stream_result true (omega arith)
      refl (held-new_workers System.streamer 1 1) refl all_streamed stream_ended stream_not_stopped
