-- ===== src/Paths/Mirror.antt =====
-- Where the workers put the copy of a file: the Replace and the Join of their Start functions.
use ugoku.Base.{
  ℕ, ◌≡◌, refl, sym, ap, ◌∙◌, ◌≢◌, Text, codes, same, same→eq, Bool, true, false, some, List, [],
  ◌∷◌, ◌++◌, append-nil, append_assoc, All, arith, if◌then◌else◌,
}
use ugoku.Paths.{
  strip_prefix, cut_first, add_char, segments, keep, keep_all, joined, is_rooted, rendered, clean,
  path_join,
}

abbrev pub NoSlash : Text → Type 0
NoSlash = All (λ c. c ≢ b'/')

-- A segment that `filepath.Clean` keeps.
abbrev pub IsPlain : Text → Type 0
IsPlain seg = NoSlash seg × (seg ≢ []) × (seg ≢ codes ".") × (seg ≢ codes "..")

-- A path of segments from the left, and the same below the root folder.
unfoldable pub slashes : List Text → Text
slashes [] = []
slashes (seg ∷ []) = seg
slashes (seg ∷ seg' ∷ segs) = seg ++ b'/' ∷ slashes (seg' ∷ segs)

abbrev pub root : Bool → List Text → Text
root true segs = b'/' ∷ slashes segs
root false segs = slashes segs

segments-seg : (seg rest : Text) → NoSlash seg → segments (seg ++ b'/' ∷ rest) ≡ seg ∷ segments rest
unfolding segments add_char
segments-seg [] rest h = refl
segments-seg (c ∷ seg) rest h = ground (arith, segments-seg seg rest h.1)

segments-last : (seg : Text) → NoSlash seg → segments seg ≡ seg ∷ []
unfolding segments add_char
segments-last [] h = refl
segments-last (c ∷ seg) h = ground (arith, segments-last seg h.1)

-- A path of plain segments with a slash and more text behind it.
segments-slashes :
    (seg : Text) (segs : List Text) (rest : Text)
    → All IsPlain (seg ∷ segs)
    → segments (slashes (seg ∷ segs) ++ b'/' ∷ rest) ≡ (seg ∷ segs) ++ segments rest
unfolding slashes
segments-slashes seg [] rest h = segments-seg seg rest h.0.0
segments-slashes seg (seg' ∷ segs) rest h =
    rw (append_assoc seg (b'/' ∷ slashes (seg' ∷ segs)) (b'/' ∷ rest))
      (segments-seg seg _ h.0.0 ∙ ap (◌∷◌ seg) (segments-slashes seg' segs rest h.1))

segments-slashes_last :
    (seg : Text) (segs : List Text)
    → All IsPlain (seg ∷ segs)
    → segments (slashes (seg ∷ segs)) ≡ seg ∷ segs
unfolding slashes
segments-slashes_last seg [] h = segments-last seg h.0.0
segments-slashes_last seg (seg' ∷ segs) h =
    segments-seg seg _ h.0.0 ∙ ap (◌∷◌ seg) (segments-slashes_last seg' segs h.1)

-- Onto the segments kept so far, the last one first.
rev_onto : List Text → List Text → List Text
rev_onto kept [] = kept
rev_onto kept (seg ∷ segs) = rev_onto (seg ∷ kept) segs

keep_plain :
    (rooted : Bool) (kept : List Text) (seg : Text)
    → IsPlain seg
    → keep rooted kept seg ≡ seg ∷ kept
unfolding keep
keep_plain rooted kept seg h =
    ground (arith, same→eq seg [], same→eq seg (codes "."), same→eq seg (codes ".."))

keep_all-append :
    (rooted : Bool) (kept segs more : List Text)
    → All IsPlain segs
    → keep_all rooted kept (segs ++ more) ≡ keep_all rooted (rev_onto kept segs) more
unfolding keep_all rev_onto
keep_all-append rooted kept [] more h = refl
keep_all-append rooted kept (seg ∷ segs) more h =
    ap (λ (k : List Text). keep_all rooted k (segs ++ more)) (keep_plain rooted kept seg h.0)
    ∙ keep_all-append rooted (seg ∷ kept) segs more h.1

joined-rev_onto :
    (k : Text) (kept : List Text) (seg : Text) (segs : List Text)
    → joined (rev_onto (k ∷ kept) (seg ∷ segs)) ≡ joined (k ∷ kept) ++ b'/' ∷ slashes (seg ∷ segs)
unfolding joined rev_onto slashes
joined-rev_onto k kept seg [] = refl
joined-rev_onto k kept seg (seg' ∷ segs) =
    joined-rev_onto seg (k ∷ kept) seg' segs ∙ append_assoc (joined (k ∷ kept)) (b'/' ∷ seg) _

joined-rev_nil :
    (seg : Text) (segs : List Text) → joined (rev_onto [] (seg ∷ segs)) ≡ slashes (seg ∷ segs)
unfolding joined rev_onto slashes
joined-rev_nil seg [] = refl
joined-rev_nil seg (seg' ∷ segs) = joined-rev_onto seg [] seg' segs

rev_onto-append :
    (kept segs more : List Text) → rev_onto kept (segs ++ more) ≡ rev_onto (rev_onto kept segs) more
unfolding rev_onto
rev_onto-append kept [] more = refl
rev_onto-append kept (seg ∷ segs) more = rev_onto-append (seg ∷ kept) segs more

slashes-append :
    (seg : Text) (segs : List Text) (m : Text) (more : List Text)
    → slashes ((seg ∷ segs) ++ m ∷ more) ≡ slashes (seg ∷ segs) ++ b'/' ∷ slashes (m ∷ more)
unfolding slashes
slashes-append seg [] m more = refl
slashes-append seg (seg' ∷ segs) m more =
    rw (slashes-append seg' segs m more) (sym (append_assoc seg (b'/' ∷ slashes (seg' ∷ segs)) _))

-- What Join keeps of a plain folder, a doubled slash and a plain path.
kept-All :
    (rooted : Bool) (t : Text) (ts : List Text) (r : Text) (rs : List Text)
    → All IsPlain (t ∷ ts)
    → All IsPlain (r ∷ rs)
    → keep_all rooted [] (segments (slashes (t ∷ ts) ++ b'/' ∷ b'/' ∷ slashes (r ∷ rs)))
      ≡ rev_onto [] ((t ∷ ts) ++ r ∷ rs)
unfolding segments keep_all keep same
kept-All rooted t ts r rs h k =
    ap (keep_all rooted []) (segments-slashes t ts (b'/' ∷ slashes (r ∷ rs)) h)
    ∙ keep_all-append rooted [] (t ∷ ts) ([] ∷ segments (slashes (r ∷ rs))) h
    ∙ ap (keep_all rooted (rev_onto [] (t ∷ ts)))
        (segments-slashes_last r rs k ∙ sym (append-nil (r ∷ rs)))
    ∙ keep_all-append rooted (rev_onto [] (t ∷ ts)) (r ∷ rs) [] k
    ∙ sym (rev_onto-append [] (t ∷ ts) (r ∷ rs))

path_join_cons : (a b : Text) → a ≢ [] → path_join a b ≡ clean (a ++ b'/' ∷ b)
unfolding path_join
path_join_cons [] b h = absurd (h refl)
path_join_cons (c ∷ a) b h = refl

slashes-ne-nil : (t : Text) (ts : List Text) → t ≢ [] → slashes (t ∷ ts) ≢ []
unfolding slashes
slashes-ne-nil t [] h = h
slashes-ne-nil [] (t' ∷ ts) h = absurd (h refl)
slashes-ne-nil (c ∷ t) (t' ∷ ts) h = λ e. cc

rendered-rev :
    (rooted : Bool) (t : Text) (ts : List Text) (s : Text)
    → joined (rev_onto [] (t ∷ ts)) ≡ s
    → s ≢ []
    → rendered rooted (rev_onto [] (t ∷ ts)) ≡ (if rooted then b'/' ∷ s else s)
unfolding rendered joined
rendered-rev true t ts s e h = ap (◌∷◌ b'/') e
rendered-rev false t ts s e h = cases (rev_onto [] (t ∷ ts)) e
  where
    cases : (k : List Text) → joined k ≡ s → rendered false k ≡ s
    cases [] e' = absurd (h (sym e'))
    cases (x ∷ k) e' = e'

rooted_text :
    (t : Text) (ts : List Text) (rest : Text)
    → IsPlain t
    → is_rooted (slashes (t ∷ ts) ++ rest) ≡ false
unfolding slashes
rooted_text [] ts rest h = absurd (h.1 refl)
rooted_text (c ∷ t) [] rest h = ground (arith, h.0.0)
rooted_text (c ∷ t) (t' ∷ ts) rest h = ground (arith, h.0.0)

clean_joined :
    (rooted : Bool) (t : Text) (ts : List Text) (r : Text) (rs : List Text)
    → All IsPlain (t ∷ ts)
    → All IsPlain (r ∷ rs)
    → clean (root rooted (t ∷ ts) ++ b'/' ∷ b'/' ∷ slashes (r ∷ rs))
      ≡ root rooted ((t ∷ ts) ++ r ∷ rs)
unfolding clean
clean_joined true t ts r rs h k =
    ap (rendered true) (kept-All true t ts r rs h k)
    ∙ rendered-rev true t (ts ++ r ∷ rs) _ (joined-rev_nil t (ts ++ r ∷ rs))
        (slashes-ne-nil t (ts ++ r ∷ rs) h.0.1)
clean_joined false t ts r rs h k =
    ap
      (λ (b : Bool).
        rendered b (keep_all b [] (segments (slashes (t ∷ ts) ++ b'/' ∷ b'/' ∷ slashes (r ∷ rs)))))
      (rooted_text t ts _ h.0)
    ∙ ap (rendered false) (kept-All false t ts r rs h k)
    ∙ rendered-rev false t (ts ++ r ∷ rs) _ (joined-rev_nil t (ts ++ r ∷ rs))
        (slashes-ne-nil t (ts ++ r ∷ rs) h.0.1)

root-append :
    (rooted : Bool) (t : Text) (ts : List Text) (r : Text) (rs : List Text)
    → root rooted ((t ∷ ts) ++ r ∷ rs) ≡ root rooted (t ∷ ts) ++ b'/' ∷ slashes (r ∷ rs)
root-append true t ts r rs = ap (◌∷◌ b'/') (slashes-append t ts r rs)
root-append false t ts r rs = slashes-append t ts r rs

root-ne-nil : (rooted : Bool) (t : Text) (ts : List Text) → t ≢ [] → root rooted (t ∷ ts) ≢ []
root-ne-nil true t ts h = λ e. cc
root-ne-nil false t ts h = slashes-ne-nil t ts h

strip_prefix_self : (p s : Text) → strip_prefix p (p ++ s) ≡ some s
unfolding strip_prefix
strip_prefix_self [] s = refl
strip_prefix_self (c ∷ p) s = ground (arith, strip_prefix_self p s)

cut_first_prefix : (p : Text) (c : ℕ) (s : Text) → cut_first p (p ++ c ∷ s) ≡ c ∷ s
unfolding cut_first strip_prefix
cut_first_prefix [] c s = refl
cut_first_prefix (d ∷ p) c s = rw (strip_prefix_self (d ∷ p) (c ∷ s), cut_first)

-- A file at source/rel is copied to target/rel: Join, applied to a target folder made of plain
-- segments (rooted or not) and to the file's path with the source folder cut out, is the target
-- folder, a slash and rel. Here rel is any sequence of plain segments, and the source any text.
pub mirror_path :
    (source : Text) (rooted : Bool) (t : Text) (ts : List Text) (r : Text) (rs : List Text)
    → All IsPlain (t ∷ ts)
    → All IsPlain (r ∷ rs)
    → path_join (root rooted (t ∷ ts)) (cut_first source (source ++ b'/' ∷ slashes (r ∷ rs)))
      ≡ root rooted (t ∷ ts) ++ b'/' ∷ slashes (r ∷ rs)
mirror_path source rooted t ts r rs h k =
    ap (path_join (root rooted (t ∷ ts))) (cut_first_prefix source b'/' (slashes (r ∷ rs)))
    ∙ path_join_cons _ _ (root-ne-nil rooted t ts h.0.1)
    ∙ clean_joined rooted t ts r rs h k
    ∙ root-append rooted t ts r rs
