-- ===== src/Copying/Safety.antt =====
-- What a copy of streamer/streamer.go or syncer/local-syncer.go leaves at both ends.
use ugoku.Base.{
  ℕ, ◌≡◌, refl, ap, ◌∙◌, Text, Bool, true, false, Option, none, some, [], ◌∷◌, ◌++◌, append-nil,
  append_assoc, take, drop, take-append-drop, arith,
}
use mathlib.Core.Path.{subst}
use mathlib.Core.Option.{some-injective}
use ugoku.Copying.{
  Pc, making_folder, opening, creating, copying, returned, Copy, Event, makes_folder, opens,
  creates, reads, fails, removes, begin, chunk, at, step,
}

-- By where the call stands.
abbrev pub Copied : Text → Copy → Pc → Type 0
Copied content s making_folder = (s.rest ≡ content) × (s.source ≡ true)
Copied content s opening = (s.rest ≡ content) × (s.source ≡ true)
Copied content s creating = (s.rest ≡ content) × (s.source ≡ true)
Copied content s copying =
    ((t : Text) × (s.target ≡ some t) × (t ++ s.rest ≡ content)) × (s.source ≡ true)
Copied content s (returned true) = s.target ≡ some content
Copied content s pc = s.source ≡ true

abbrev pub IsCopied : Text → Copy → Type 0
IsCopied content s = Copied content s s.pc

chunk-IsCopied :
    (content : Text) (s : Copy) (k : ℕ) (rest : Text) (target : Option Text) (written : Text)
    → s.pc ≡ copying
    → s.source ≡ true
    → s.rest ≡ rest
    → s.target ≡ target
    → s.target ≡ some written
    → written ++ s.rest ≡ content
    → IsCopied content (chunk s k rest target)
chunk-IsCopied content s k [] target written p there r t has e =
    ground (arith, append-nil written, ap (◌++◌ written) r)
chunk-IsCopied content s k (c ∷ rest) none written p there r t has e = there
chunk-IsCopied content s k (c ∷ rest) (some x) written p there r t has e = rw p (
  (
    x ++ c ∷ take k rest,
    refl,
    append_assoc x (c ∷ take k rest) (drop k rest)
        ∙ ap (λ (u : Text). x ++ c ∷ u) (take-append-drop k rest)
        ∙ ground arith,
  ),
  there,
)

at-IsCopied :
    (content : Text) (moves : Bool) (s t : Copy) (pc : Pc) (e : Event)
    → s.pc ≡ pc
    → Copied content s pc
    → at moves s pc e ≡ some t
    → IsCopied content t
unfolding at
at-IsCopied content moves s t making_folder (makes_folder true) p v h = ground arith
at-IsCopied content moves s t making_folder (makes_folder false) p v h = ground arith
at-IsCopied content moves s t opening (opens true) p v h = ground arith
at-IsCopied content moves s t opening (opens false) p v h = ground arith
at-IsCopied content moves s t creating (creates true) p (rest, there) h =
    subst (IsCopied content) (some-injective _ t h) (([], refl, rest), there)
at-IsCopied content moves s t creating (creates false) p v h = ground arith
at-IsCopied content moves s t copying (reads k) p ((x, has, e), there) h =
    subst (IsCopied content) (some-injective _ t h)
      (chunk-IsCopied content s k s.rest s.target x p there refl refl has e)
at-IsCopied content moves s t copying fails p v h = ground arith
at-IsCopied content moves s t (returned true) (removes gone) p v h = ground arith
at-IsCopied content moves s t pc e p v h = cc

pub begin-IsCopied : (content : Text) (old : Option Text) → IsCopied content (begin content old)
begin-IsCopied content old = (refl, refl)

-- At every step: once the file was copied the target is whole, and before that the source is there.
pub step-IsCopied :
    (content : Text) (moves : Bool) (s t : Copy) (e : Event)
    → IsCopied content s
    → step moves e s ≡ some t
    → IsCopied content t
step-IsCopied content moves s t e v h = at-IsCopied content moves s t s.pc e refl v h
