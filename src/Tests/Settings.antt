-- ===== src/Tests/Settings.antt =====
-- Time limits, sleeps, configurations and paths at concrete values.
use ugoku.Base.{
  wrap64, ◌≡◌, refl, ◌↔◌, ◌^◌, ◌%◌, pos, negsuc, Text, codes, Error, true, false, Option, none,
  some, List, [], ◌∷◌, All, arith,
}
use ugoku.Services.{FileInfo}
use ugoku.Sleepytime.{reset}
use ugoku.Sleepytime.Backoff.{sleep_at, backoff, sleep_at-backoff}
use ugoku.Config.{ServerConfig, SyncerConfig, MasterConfig, zero_server, zero_master}
use ugoku.Paths.Mirror.{IsPlain, slashes}
use ugoku.Sftplibs.Timeout.{calculate_timeout, calculate_timeout_panics}
use ugoku.Scanner.{Round, init_default}
use ugoku.Syncer.{server_file, local_file}
use ugoku.Syncer.Roundtrip.{NoBackslash, sync_paths_roundtrip}
use ugoku.Tests.Disk.{source, target}

-- 10 Mbps, a file of 500 MB.

-- A maximum of 30 seconds gives 60 seconds.
small_maximum : calculate_timeout (pos 10) (pos 1000) (pos 30) ≡ some (pos 60)
unfolding calculate_timeout wrap64
small_maximum = refl

calculate_timeout_panics_example :
    (calculate_timeout (pos 0) (pos 5) (pos 600) ≡ none) ↔ (0 % 2 ^ 61 ≡ 0)
calculate_timeout_panics_example = calculate_timeout_panics 0 (pos 5) (pos 600)

sleep_at-backoff_example : sleep_at 8 (reset (pos 2) (pos 600)) ≡ pos (backoff 2 600 8)
sleep_at-backoff_example = sleep_at-backoff 2 600 8 (omega arith)

abbrev named : Text → ServerConfig
named n = record zero_server { name = n }

abbrev servers : List ServerConfig
servers = named (codes "a") ∷ named (codes "b") ∷ []

abbrev syncer : SyncerConfig
syncer = record {
  name = codes "s";
  server = codes "b";
  server_path = codes "/in";
  local_path = codes "/out";
  mode = codes "TwoWay";
  enabled = true;
  sleep_interval = pos 0;
  worker = pos 0;
  max_timeout = pos 0;
  throughput = negsuc 3;
  sync_server = zero_server;
}

abbrev decoded : MasterConfig
decoded = record zero_master { servers = servers; syncers = syncer ∷ [] }

abbrev read_file : Text → Text × Option Error
read_file path = (codes "yaml", none)

abbrev unmarshal : Text → MasterConfig → MasterConfig × Option Error
unmarshal bytes config = (decoded, none)

abbrev info : FileInfo
info = record { size = pos 2; mod_time = pos 7000000000; is_dir = false }

IsPlain-in : All IsPlain (codes "in" ∷ [])
IsPlain-in = (((λ e. omega arith, (λ e. omega arith, tt)), λ e. cc, λ e. cc, λ e. cc), tt)

IsPlain-file : All IsPlain (codes "d" ∷ codes "f" ∷ [])
IsPlain-file = (
  ((λ e. omega arith, tt), λ e. cc, λ e. cc, λ e. cc),
  (((λ e. omega arith, tt), λ e. cc, λ e. cc, λ e. cc), tt),
)

abbrev rounds : List Round
rounds =
    record { started = true; files_found = false; still_started = true }
    ∷ record { started = true; files_found = true; still_started = true }
    ∷ []

default_is : init_default (pos 0) ≡ pos 1
unfolding init_default
default_is = refl

IsPlain-out : All IsPlain (codes "out" ∷ [])
IsPlain-out = (
  ((λ e. omega arith, (λ e. omega arith, (λ e. omega arith, tt))), λ e. cc, λ e. cc, λ e. cc),
  tt,
)

NoBackslash-file : NoBackslash (codes "/in/d/f")
NoBackslash-file = (
  λ e. omega arith,
  (
    λ e. omega arith,
    (
      λ e. omega arith,
      (λ e. omega arith, (λ e. omega arith, (λ e. omega arith, (λ e. omega arith, tt)))),
    ),
  ),
)

sync_paths_roundtrip_example :
    (server_file source target syncer 9 (codes "/out/d/f") ≡ codes "/in/d/f")
    × (local_file syncer (codes "/in/d/f") ≡ codes "/out/d/f")
unfolding slashes
sync_paths_roundtrip_example =
    sync_paths_roundtrip source target syncer 9 true true (codes "in") [] (codes "out") []
      (codes "d") (codes "f" ∷ []) refl refl IsPlain-in IsPlain-out IsPlain-file NoBackslash-file
