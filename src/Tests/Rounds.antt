-- ===== src/Tests/Rounds.antt =====
-- Two rounds of a server syncer: one that downloads a file of three bytes, and one whose download fails.
use ugoku.Base.{◌≡◌, ◌≢◌, refl, pos, Text, true, false, none, some, List, [], ◌∷◌}
use ugoku.Services.{FileInfo}
use ugoku.Transfer.{
  Session, ended, succeeded, failed, opens, creates, reads, goes, renames, sees_done, goroutine,
  select, after_return,
}
use ugoku.Transfer
use ugoku.Syncer.Server.{
  Round, Event, stats, transfers, returns, updates, over, updating, begin_round, downloadable, step,
  run,
}
use ugoku.Syncer.Server.Rounds.{server_round_settles, same_size_masked}

abbrev content : Text
content = 1 ∷ 2 ∷ 3 ∷ []

abbrev other : Text
other = 7 ∷ 8 ∷ 9 ∷ []

abbrev stat : FileInfo
stat = record { size = pos 3; mod_time = pos 5000000000; is_dir = false }

abbrev at : Transfer.Event → Event
at e = transfers e (pos 9000000000)

abbrev whole_round : List Event
whole_round =
    stats true
    ∷ at (opens true)
    ∷ at (creates true)
    ∷ at (reads 1)
    ∷ at (reads 5)
    ∷ at (reads 0)
    ∷ at goes
    ∷ at goes
    ∷ at renames
    ∷ at goes
    ∷ at sees_done
    ∷ returns
    ∷ []

abbrev brought : Round
brought = record {
  stage = updating;
  session = record {
    pc = ended;
    rest = [];
    temp = none;
    output = some content;
    ctx_done = true;
    cancelled = false;
    to_exit = false;
    done = none;
    ret = some succeeded;
    source = true;
  };
  modified = pos 9000000000;
}

abbrev marked : Round → Round
marked r = record r { stage = over; modified = pos 5000000000 }

reaches : run stat whole_round (begin_round content (some other) (pos 0)) ≡ some brought
unfolding run step downloadable Transfer.step goroutine select after_return
reaches = refl

marks : step stat (updates true) brought ≡ some (marked brought)
unfolding step
marks = refl

server_round_settles_example :
    (brought.session.output ≡ some content) × (downloadable stat true (marked brought) ≡ false)
server_round_settles_example =
    server_round_settles content (some other) (pos 0) stat whole_round brought (marked brought) refl
      reaches refl marks

not_over : brought.stage ≢ over
not_over e = cc

-- The file on the server cannot be opened.
abbrev failed_round : List Event
failed_round = stats true ∷ at (opens false) ∷ at goes ∷ at sees_done ∷ returns ∷ []

abbrev not_brought : Round
not_brought = record {
  stage = updating;
  session = record {
    pc = ended;
    rest = content;
    temp = none;
    output = some other;
    ctx_done = true;
    cancelled = false;
    to_exit = true;
    done = none;
    ret = some failed;
    source = true;
  };
  modified = pos 0;
}

reaches_failed : run stat failed_round (begin_round content (some other) (pos 0)) ≡ some not_brought
unfolding run step downloadable Transfer.step goroutine select after_return
reaches_failed = refl

marks_failed : step stat (updates true) not_brought ≡ some (marked not_brought)
unfolding step
marks_failed = refl

same_size_masked_example : downloadable stat true (marked not_brought) ≡ false
same_size_masked_example =
    same_size_masked content other (pos 0) stat failed_round not_brought (marked not_brought) refl
      refl reaches_failed marks_failed
