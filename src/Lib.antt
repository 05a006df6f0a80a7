-- ===== src/Lib.antt =====
-- ugoku moves files between folders and SFTP servers. A command (cmd/service/ugoku.go) starts
-- transfers of four kinds from a configuration file: downloaders, uploaders, streamers from one server
-- to another, and syncers. Each transfer has a scanner, which walks the source and puts files on a
-- channel, and workers, which take a file, transfer it, remove or mark the source, and put a value on
-- a second channel, which the scanner waits for.
--
-- Main           cmd/service/ugoku.go: init, the command and what it starts
-- Config         internal/config/config.go: the records and ReadConfig
-- Sleepytime     internal/sleepytime/sleepytime.go: Reset and GetNextSleep
-- Workers        downloader/downloader.go, uploader/uploader.go, streamer/streamer.go: the connection
--                loop of init, connectAndGetClients, Stop, removeSrc; the same in the syncers and the
--                scanner (Parts)
-- Sftplibs       sftplibs/sftplibs.go and sftplibs/io-copy-with-cancel.go: ConnectSftpServer (Connect),
--                CalculateTimeout (Timeout), DownloadToTemp and RenameTempfile (Tempfile)
-- Managers       NewDownloader, NewOneTimeDownloader, NewUploader, NewOneTimeUploader, NewStreamer,
--                NewOneTimeStreamer, startSyncServer, startSyncLocal: workers, channels and scanner of a
--                configuration
-- System         the goroutines that these start: Start of each kind of worker, the loops that make workers
--                and scanners again, the signal handlers (internal/sigintHandler/siginthandler.go)
-- Dispatch       scan_once of downloader/sftp-scanner.go, and the same loop in
--                uploader/folder-scanner.go, with the two channels and the workers
-- Scanner        downloader/sftp-scanner.go: the sleeps of scan
-- FolderScanner  uploader/folder-scanner.go: the passes of scan, with LocalFolderMap
-- Transfer       download of downloader/downloader.go and syncer/server-syncer.go
-- Upload         upload of uploader/uploader.go
-- Streamer       streamer/streamer.go: stream and the worker's round
-- Syncer         syncer/: the rounds of the two kinds of worker (Server for server-syncer.go; Local has those of
--                local-syncer.go in steps) and NewSyncer
-- Delivery       System with what its workers do to the files, for each of the five kinds of worker (Methods):
--                each file that a worker takes becomes a session of Transfer, Upload, Copying, Syncer.Server
--                or Syncer.Local, which may go on after its worker
-- Copying        stream of streamer/streamer.go and upload of syncer/local-syncer.go, in steps
-- Process        the transfers of one process beside each other, Handle of
--                internal/sigintHandler/siginthandler.go, and os.Exit
-- Services       what is called of the local disk (os), of an SFTP client and of io.Copy
-- Paths          the functions of strings and path/filepath that build the output paths
-- Base           shared helpers: 64-bit integers, strings, results, loops
-- Tests          concrete runs
--
-- Code outside the repository is a parameter: the operations of a file tree are a record FileTree
-- over an unknown world, the packages ssh and sftp a record Ssh, reading and decoding the configuration
-- two functions. What the theorems rely on of them are records of laws beside their use (Removes,
-- Streams, TwoServers, Attributes, Sized, Quiet, Creates, Renames); Tests has a world that satisfies them.
--
-- Goroutines are steps of one state: in Dispatch, Transfer and Upload an event says who goes on and what
-- its call gave, and a list of events is one interleaving; an event that cannot happen gives no state.
-- A channel is its buffer, with the capacity that the code gives it, twice the number of workers or
-- one. System has each worker with the place of its loop and of its manager; a worker whose manager has
-- replaced it stays in the list, since its loop may go on. Dispatch only counts the workers: one that exits
-- is made again at once in service mode, and is gone in one-time mode. System.Refine joins the two.
-- A step of a download or an upload inside a worker is the matter of Transfer, Upload, Streamer and
-- Syncer; System sees that it ends (works) and that it may set to_exit (breaks), at any time after the
-- worker has connected. Delivery joins the two: a worker's turn works happens once its call has
-- returned, and breaks once one of its sessions has set to_exit. Each session has its source, its
-- temporary file and its target to itself: two sessions over the same paths, of a file that a later scan
-- finds again while an earlier call still runs, do not meet in the model.
--
-- Loops of unknown length take fuel: io.Copy one unit for each read, for which more than the number of
-- bytes that are left is enough, since a read that is not the end gives at least one byte; the
-- connection loop one unit for each attempt, as it may go on for ever. Times are numbers that the
-- environment gives. A size or a time in seconds is an int64, with its wrap-around written out.
-- strings.ToLower is modelled on the letters A to Z. The paths are those of a system whose separator
-- is the slash.
--
-- Process has the panics that the code allows: the type assertion of a certificate, the nil error that is
-- logged after a failed Create, the division of CalculateTimeout, and Stop of a nil scanner in the
-- callback, where new_scanner is nil: before its first scanner is made, and once Start of a scanner has returned. A
-- panic of a goroutine ends the process with all its transfers. The callback makes its calls of Stop one
-- by one, for the scanner and for each slot of the workers; the slots are counted, not numbered, so
-- that it may stop any worker that is in one. An upload that a worker has left
-- running is not seen in System, so that an uploader may always panic.
--
-- Not modelled: logging and the usage text, make of a channel with more places than memory has, the
-- version, the unused package wraperr, and the vendored packages.
pub mod Base
pub mod Sleepytime
pub mod Config
pub mod Streamer
pub mod System
pub mod Managers
pub mod Upload
pub mod Transfer
pub mod Delivery
pub mod Copying
pub mod Process
pub mod Dispatch
pub mod Paths
pub mod Services
pub mod Sftplibs
pub mod FolderScanner
pub mod Syncer
pub mod Main
pub mod Workers
pub mod Scanner
pub mod Tests
