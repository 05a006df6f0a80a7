-- ===== src/Services.antt =====
-- What the program calls and does not implement: the operations of a file tree. The local disk (Go's
-- `os`) and the client of an SFTP server (the vendored package sftp) both have this interface, over
-- an unknown world W that every call may change. The laws are what a caller relies on.
pub mod Removal
pub mod Copy
pub mod Between
use ugoku.Base.{
  ℕ, ◌/◌, ◌≡◌, ◌≢◌, ℤ, pos, negsuc, Text, Error, Bool, true, false, Option, none, some, List,
}

-- The parts of `fs.FileInfo` that are read. Times are in nanoseconds since 1970.
pub record FileInfo : Type 0 where
  pub size : ℤ
  pub mod_time : ℤ
  pub is_dir : Bool

-- `Time.Unix()`: whole seconds, rounded down.
abbrev pub unix : ℤ → ℤ
unix (pos n) = pos (n / 1000000000)
unix (negsuc n) = negsuc (n / 1000000000)

-- The outcome of one `Read`.
pub data Chunk : Type 0 where
  bytes : Text → Chunk
  eof : Chunk
  broken : Error → Chunk

-- The outcome of `OpenFile` and `Create`: a handle, or an error.
pub data Opened : Type 0 where
  handle : ℕ → Opened
  refused : Error → Opened

-- An `Option Error` is `none` where Go's error is nil. The error of `Stat` is never read, so that
-- `stat` gives `none` in its place.
pub record FileTree (W : Type 0) : Type 0 where
  pub remove : Text → W → Option Error × W
  pub stat : Text → W → Option FileInfo × W
  pub mkdir_all : Text → W → Option Error × W
  pub chtimes : Text → ℤ → W → Option Error × W
  pub open_file : Text → W → Opened × W
  pub create : Text → W → Opened × W
  pub read : ℕ → W → Chunk × W
  pub write : ℕ → Text → W → Option Error × W

-- The content of each file of a tree, in a world.
abbrev pub Contents : Type 0 → Type 0
Contents W = W → Text → Option Text

-- A call that leaves every file as it was.
abbrev pub Keeps : {W : Type 0} → Contents W → (W → W) → Type 0
Keeps {W} files f = (w : W) (q : Text) → files (f w) q ≡ files w q

-- `Remove` deletes the named file or fails without an effect, and `Stat` changes no file.
pub record Removes {W : Type 0} (t : FileTree W) (files : Contents W) : Type 0 where
  pub remove_ok : (p : Text) (w : W) → (t.remove p w).0 ≡ none → files (t.remove p w).1 p ≡ none
  pub remove_err :
      (p : Text) (w : W) (e : Error)
      → (t.remove p w).0 ≡ some e
      → (q : Text) → files (t.remove p w).1 q ≡ files w q
  pub remove_other : (p q : Text) (w : W) → q ≢ p → files (t.remove p w).1 q ≡ files w q
  pub stat_keeps : (p : Text) → Keeps files (λ w. (t.stat p w).1)
