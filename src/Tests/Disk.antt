-- ===== src/Tests/Disk.antt =====
-- A world of two file trees that satisfies the laws of Services: one file is read and one is written
-- at a time.
use ugoku.Base.{
  ℕ, ◌≡◌, refl, sym, ◌∙◌, ap, ◌≢◌, ℤ, pos, Text, Error, codes, same, same_refl, same→eq, false,
  Bool-cases, inl, inr, Option, none, some, [], ◌∷◌, ◌++◌, length, if◌then◌else◌,
}
use ugoku.Services.{
  FileInfo, Chunk, bytes, eof, Opened, handle, refused, FileTree, Contents, Removes,
}
use ugoku.Services.Copy.{Streams}
use ugoku.Services.Between.Whole.{TwoServers}

abbrev pub Names : Type 0
Names = Text → Option Text

pub record World : Type 0 where
  pub sources : Names
  pub targets : Names
  pub times : Text → ℤ
  pub unread : Text
  pub writing : Text
  pub sent : Text

abbrev pub missing : Error
missing = codes "no such file"

unfoldable pub update {ℓ} : {A : Type ℓ} → Text → A → (Text → A) → Text → A
update p x f q = if same q p then x else f q

pub update-same {ℓ} : {A : Type ℓ} (p : Text) (x : A) (f : Text → A) → update p x f p ≡ x
unfolding update
update-same p x f = rw (same_refl p) refl

pub update-other {ℓ} :
    {A : Type ℓ} (p q : Text) (x : A) (f : Text → A) → q ≢ p → update p x f q ≡ f q
unfolding update
update-other p q x f ne = elim (Bool-cases (same q p)) [
  | inl e ↦ absurd (ne (same→eq q p e))
  | inr e ↦ rw e refl
]

abbrev pub info_of : ℤ → Option Text → Option FileInfo
info_of time none = none
info_of time (some x) = some (record { size = pos (length x); mod_time = time; is_dir = false })

abbrev pub removed : Option Text → World → World → Option Error × World
removed none w w' = (some missing, w)
removed (some x) w w' = (none, w')

abbrev pub opened : Option Text → World → Opened × World
opened none w = (refused missing, w)
opened (some x) w = (handle 0, record w { unread = x })

abbrev reads : Text → World → Chunk × World
reads [] w = (eof, w)
reads (c ∷ rest) w = (bytes (c ∷ []), record w { unread = rest })

abbrev pub writes : Text → World → Option Error × World
writes b w = (
  none,
  record w { targets = update w.writing (some (w.sent ++ b)) w.targets; sent = w.sent ++ b },
)

abbrev pub creates : Text → World → Opened × World
creates p w =
    (handle 0, record w { targets = update p (some []) w.targets; writing = p; sent = [] })

abbrev pub source : FileTree World
source = record {
  remove = λ p w. removed (w.sources p) w (record w { sources = update p none w.sources });
  stat = λ p w. (info_of (w.times p) (w.sources p), w);
  mkdir_all = λ p w. (none, w);
  chtimes = λ p t w. (none, record w { times = update p t w.times });
  open_file = λ p w. opened (w.sources p) w;
  create = λ p w. (refused missing, w);
  read = λ h w. reads w.unread w;
  write = λ h b w. (some missing, w);
}

abbrev pub target : FileTree World
target = record {
  remove = λ p w. removed (w.targets p) w (record w { targets = update p none w.targets });
  stat = λ p w. (info_of (w.times p) (w.targets p), w);
  mkdir_all = λ p w. (none, w);
  chtimes = λ p t w. (none, record w { times = update p t w.times });
  open_file = λ p w. opened (w.targets p) w;
  create = λ p w. creates p w;
  read = λ h w. reads w.unread w;
  write = λ h b w. writes b w;
}

abbrev pub source_files : Contents World
source_files w = w.sources

abbrev pub target_files : Contents World
target_files w = w.targets

abbrev pub infos : World → Text → Option FileInfo
infos w p = info_of (w.times p) (w.targets p)

abbrev pub pending : ℕ → World → Text
pending h w = w.unread

abbrev pub written : ℕ → World → Text
written h w = w.sent

abbrev pub Writing : ℕ → Text → World → Type 0
Writing h p w = (w.writing ≡ p) × (w.targets p ≡ some w.sent)

pub source-Removes : Removes source source_files
source-Removes = record {
  remove_ok = λ p w e. ok p w (w.sources p) refl e;
  remove_err = λ p w x e q. fails p w (w.sources p) x e q;
  remove_other = λ p q w ne. other p q w (w.sources p) ne;
  stat_keeps = λ p w q. refl;
}
  where
    ok :
        (p : Text) (w : World) (o : Option Text)
        → w.sources p ≡ o
        → (removed o w (record w { sources = update p none w.sources })).0 ≡ none
        → (removed o w (record w { sources = update p none w.sources })).1.sources p ≡ none
    ok p w none h e = h
    ok p w (some x) h e = update-same p none w.sources

    fails :
        (p : Text) (w : World) (o : Option Text) (x : Error)
        → (removed o w (record w { sources = update p none w.sources })).0 ≡ some x
        → (q : Text)
        → (removed o w (record w { sources = update p none w.sources })).1.sources q ≡ w.sources q
    fails p w none x e q = refl
    fails p w (some y) x e q = cc

    other :
        (p q : Text) (w : World) (o : Option Text)
        → q ≢ p
        → (removed o w (record w { sources = update p none w.sources })).1.sources q ≡ w.sources q
    other p q w none ne = refl
    other p q w (some x) ne = update-other p q none w.sources ne

pub streaming : (h k : ℕ) → Streams (source.read h) (target.write k) (pending h) (written k)
streaming h k = record {
  read_bytes = λ w w' b e. gives w w' b w.unread refl e;
  read_eof = λ w w' e. ends w w' w.unread refl e;
  write_ok = λ w w' b e. (
    ap (λ (r : Option Error × World). r.1.sent) (sym e),
    ap (λ (r : Option Error × World). r.1.unread) (sym e),
  );
}
  where
    gives :
        (w w' : World) (b t : Text)
        → w.unread ≡ t
        → reads t w ≡ (bytes b, w')
        → (w.unread ≡ b ++ w'.unread) × (b ≢ []) × (w'.sent ≡ w.sent)
    gives w w' b [] u e = cc
    gives w w' b (c ∷ rest) u e =
        let first : b ≡ c ∷ [] = cc in
        let left : w'.unread ≡ rest = ap (λ (r : Chunk × World). r.1.unread) (sym e) in
        (rw (first, left) u, λ z. cc, ap (λ (r : Chunk × World). r.1.sent) (sym e))

    ends :
        (w w' : World) (t : Text)
        → w.unread ≡ t
        → reads t w ≡ (eof, w')
        → (w.unread ≡ []) × (w'.sent ≡ w.sent)
    ends w w' [] u e = (u, ap (λ (r : Chunk × World). r.1.sent) (sym e))
    ends w w' (c ∷ rest) u e = cc

pub two_servers : TwoServers source target source_files target_files pending written Writing
two_servers = record {
  removal = source-Removes;
  remove_apart = λ p w q. apart p w q (w.sources p);
  stat_apart = λ p w q. refl;
  mkdir_keeps = λ p w q. refl;
  open_keeps = λ p w q. kept w q (w.sources p);
  create_keeps = λ p w q. refl;
  read_keeps = λ h w q. read_kept w q w.unread;
  write_keeps = λ k b w q. refl;
  open_ok = λ p w w' h e. got p w w' h (w.sources p) refl e;
  create_ok = λ p w w' h k e. made p w w' k e;
  streams = streaming;
  read_writes = λ h k p w law. still w p w.unread law;
  write_writes = λ k b p w law. more p b w law;
  writes_file = λ k p w law. law.1;
}
  where
    apart :
        (p : Text) (w : World) (q : Text) (o : Option Text)
        → (removed o w (record w { sources = update p none w.sources })).1.targets q ≡ w.targets q
    apart p w q none = refl
    apart p w q (some x) = refl

    kept : (w : World) (q : Text) (o : Option Text) → (opened o w).1.sources q ≡ w.sources q
    kept w q none = refl
    kept w q (some x) = refl

    read_kept : (w : World) (q t : Text) → (reads t w).1.sources q ≡ w.sources q
    read_kept w q [] = refl
    read_kept w q (c ∷ t) = refl

    got :
        (p : Text) (w w' : World) (h : ℕ) (o : Option Text)
        → w.sources p ≡ o
        → opened o w ≡ (handle h, w')
        → w.sources p ≡ some w'.unread
    got p w w' h none u e = cc
    got p w w' h (some x) u e = u ∙ ap (λ (r : Opened × World). some r.1.unread) e

    made :
        (p : Text) (w w' : World) (k : ℕ)
        → creates p w ≡ (handle k, w')
        → (w'.sent ≡ [])
          × (w'.unread ≡ w.unread)
          × ((w'.writing ≡ p) × (w'.targets p ≡ some w'.sent))
    made p w w' k e = (
      ap (λ (r : Opened × World). r.1.sent) (sym e),
      ap (λ (r : Opened × World). r.1.unread) (sym e),
      (
        ap (λ (r : Opened × World). r.1.writing) (sym e),
        ap (λ (r : Opened × World). r.1.targets p) (sym e)
            ∙ update-same p (some []) w.targets
            ∙ ap (λ (r : Opened × World). some r.1.sent) e,
      ),
    )

    still : (w : World) (p t : Text) → Writing 0 p w → Writing 0 p (reads t w).1
    still w p [] h = h
    still w p (c ∷ t) h = h

    more : (p b : Text) (w : World) → Writing 0 p w → Writing 0 p (writes b w).1
    more p b w (e, h) = (e, rw e (update-same p (some (w.sent ++ b)) w.targets))
