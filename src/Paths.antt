-- ===== src/Paths.antt =====
-- The parts of Go's `strings` and `path/filepath` (on Unix) by which the workers turn the path of a
-- source file into the path of its copy.
pub mod Mirror
use ugoku.Base.{
  ℕ, Text, codes, same, Bool, true, false, not, ◌&&◌, ◌||◌, Option, none, some, List, [], ◌∷◌, ◌++◌,
  ◌==◌, map, ◌≡◌, refl, if◌then◌else◌,
}

-- The rest of a text behind a prefix.
unfoldable pub strip_prefix : Text → Text → Option Text
strip_prefix [] s = some s
strip_prefix (p ∷ ps) [] = none
strip_prefix (p ∷ ps) (c ∷ s) = if p == c then strip_prefix ps s else none

-- `strings.Replace(s, old, "", 1)`: the first occurrence of `old` is cut out.
unfoldable pub cut_first : Text → Text → Text
cut_first old [] = []
cut_first old (c ∷ s) =
    let rest = c ∷ cut_first old s in
    elim (strip_prefix old (c ∷ s)) [ some tail ↦ tail | none ↦ rest ]

-- `strings.ReplaceAll(s, "\\", "/")`
abbrev pub slashed : ℕ → ℕ
slashed c = if c == 0x5c then b'/' else c

unfoldable pub to_slashes : Text → Text
to_slashes = map slashed

-- The segments between slashes, at least one.
add_char : ℕ → List Text → List Text
add_char c [] = (c ∷ []) ∷ []
add_char c (seg ∷ segs) = (c ∷ seg) ∷ segs

unfoldable pub segments : Text → List Text
unfolding add_char
segments [] = [] ∷ []
segments (c ∷ s) = if c == b'/' then [] ∷ segments s else add_char c (segments s)

-- One segment of `filepath.Clean`, over the segments kept so far, the last one first.
pop : Bool → List Text → List Text
pop rooted [] = if rooted then [] else codes ".." ∷ []
pop rooted (seg ∷ kept) = if same seg (codes "..") then codes ".." ∷ seg ∷ kept else kept

unfoldable pub keep : Bool → List Text → Text → List Text
unfolding pop
keep rooted kept seg =
    if same seg [] || same seg (codes ".")
    then kept
    else if same seg (codes "..")
    then pop rooted kept
    else seg ∷ kept

unfoldable pub keep_all : Bool → List Text → List Text → List Text
keep_all rooted kept [] = kept
keep_all rooted kept (seg ∷ segs) = keep_all rooted (keep rooted kept seg) segs

-- The segments, the last one first, with slashes between.
unfoldable pub joined : List Text → Text
joined [] = []
joined (seg ∷ []) = seg
joined (seg ∷ seg' ∷ kept) = joined (seg' ∷ kept) ++ b'/' ∷ seg

abbrev pub is_rooted : Text → Bool
is_rooted [] = false
is_rooted (c ∷ s) = c == b'/'

unfoldable pub rendered : Bool → List Text → Text
rendered true kept = b'/' ∷ joined kept
rendered false [] = codes "."
rendered false (seg ∷ kept) = joined (seg ∷ kept)

-- `filepath.Clean`
unfoldable pub clean : Text → Text
unfolding segments keep keep_all joined rendered same
clean s = rendered (is_rooted s) (keep_all (is_rooted s) [] (segments s))

-- `filepath.Join` of two elements: empty ones are left out.
unfoldable pub path_join : Text → Text → Text
unfolding clean
path_join [] [] = []
path_join [] (c ∷ b) = clean (c ∷ b)
path_join (c ∷ a) b = clean ((c ∷ a) ++ b'/' ∷ b)

-- The text up to and with its last slash, found by the rest of the text.
up_to_slash : Text → Text
up_to_slash [] = []
up_to_slash (c ∷ s) = elim (up_to_slash s) [
  | [] ↦ if c == b'/' then c ∷ [] else []
  | d ∷ rest ↦ c ∷ d ∷ rest
]

-- `filepath.Dir`
unfoldable pub path_dir : Text → Text
unfolding clean up_to_slash
path_dir s = clean (up_to_slash s)

path_runs :
    (path_join (codes "out") (codes "/a//b.txt") ≡ codes "out/a/b.txt")
    × (path_join (codes "/t/") (codes "../x/./y") ≡ codes "/x/y")
    × (path_dir (codes "/t/x/y") ≡ codes "/t/x")
    × (path_dir (codes "y") ≡ codes ".")
    × (cut_first (codes "in") (codes "in/a/in") ≡ codes "/a/in")
unfolding path_join path_dir cut_first strip_prefix
path_runs = (refl, refl, refl, refl, refl)
