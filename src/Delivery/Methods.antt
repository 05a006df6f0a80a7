-- ===== src/Delivery/Methods.antt =====
-- How the five kinds of worker deal with a file: the bodies of the loops in their Start.
use ugoku.Base.{Text, ℤ, Bool, true, false, Option, none, some}
use ugoku.Services.{FileInfo}
use ugoku.System
use ugoku.Transfer
use ugoku.Upload
use ugoku.Syncer.Server.{Round, Stage, deciding, downloading, updating, over, begin_round}
use ugoku.Syncer.Server
use ugoku.Syncer.Local.{LocalRound, begin_local}
use ugoku.Syncer.Local
use ugoku.Copying
use ugoku.Delivery.{Method}

-- A file of the source with its content, and what stands at the path where it is to go.
pub record Transferred : Type 0 where
  pub content : Text
  pub old : Option Text

-- A file with its stat, and the copy on the other side with its modification time.
pub record Synced : Type 0 where
  pub stat : FileInfo
  pub content : Text
  pub old : Option Text
  pub modified : ℤ

abbrev pub has_value : {A : Type 0} → Option A → Bool
has_value none = false
has_value (some x) = true

abbrev pub is_over : Stage → Bool
is_over over = true
is_over stage = false

-- `download` and the removal of the source after it.
abbrev pub downloads : Method Transferred
downloads = record {
  State = Transfer.Session;
  Step = Transfer.Event;
  kind = System.downloader;
  begin = λ a. Transfer.begin a.content a.old;
  step = λ a e s. Transfer.step true e s;
  is_main = Transfer.is_main;
  returned = λ s. has_value s.ret;
  exits = λ s. s.to_exit;
}

-- `upload` and the removal of the source after it.
abbrev pub uploads : Method Transferred
uploads = record {
  State = Upload.Session;
  Step = Upload.Event;
  kind = System.uploader;
  begin = λ a. Upload.begin a.content a.old;
  step = λ a e s. Upload.step e s;
  is_main = Upload.is_main;
  returned = λ s. has_value s.ret;
  exits = λ s. s.to_exit;
}

-- A round; what is not of its download is of the worker itself.
abbrev pub of_worker : Server.Event → Bool
of_worker (Server.transfers e t) = Transfer.is_main e
of_worker e = true

abbrev pub rounds : Method Synced
rounds = record {
  State = Round;
  Step = Server.Event;
  kind = System.server_syncer;
  begin = λ a. begin_round a.content a.old a.modified;
  step = λ a e r. Server.step a.stat e r;
  is_main = of_worker;
  returned = λ r. is_over r.stage;
  exits = λ r. r.session.to_exit;
}

-- `stream` and the removal of the source after it, all of the worker itself.
abbrev pub streams : Method Transferred
streams = record {
  State = Copying.Copy;
  Step = Copying.Event;
  kind = System.streamer;
  begin = λ a. Copying.begin a.content a.old;
  step = λ a e s. Copying.step true e s;
  is_main = λ e. true;
  returned = λ s. Copying.has_returned s.pc;
  exits = λ s. s.to_exit;
}

abbrev pub is_finished : Local.Stage → Bool
is_finished Local.over = true
is_finished stage = false

-- A round, all of the worker itself.
abbrev pub local_rounds : Method Synced
local_rounds = record {
  State = LocalRound;
  Step = Local.Event;
  kind = System.local_syncer;
  begin = λ a. begin_local a.content a.old a.modified;
  step = λ a e r. Local.step a.stat e r;
  is_main = λ e. true;
  returned = λ r. is_finished r.stage;
  exits = λ r. r.copy.to_exit;
}
