-- ===== src/Process/Told.antt =====
-- When term_signal of a package is set.
use ugoku.Base.{
  ℕ, zero, suc, ◌==◌, ◌≡◌, inl, inr, Bool-cases, sym, ◌∙◌, refl, ap, Bool, true, false, ◌&&◌, ◌||◌,
  some, List, [], ◌∷◌, arith, All, ==_iff,
}
use mathlib.Core.Path.{subst}
use mathlib.Core.Option.{some-injective}
use ugoku.Process.{
  Member, Handler, waits, notified, all_notified, termed, member, with_member, go_package,
}
use ugoku.Process.Shared.{told, any_told, Agrees, Alike}

told-notified : (h : Handler) → told (notified h) ≡ told h
told-notified waits = refl
told-notified h = refl

module _ {A : Type 0} where
  pub any_told-Alike :
      (p : ℕ) (ms : List (Member A)) (i : ℕ) (m n : Member A)
      → member ms i ≡ some m
      → Alike m n
      → any_told p (with_member ms i n) ≡ any_told p ms
  unfolding member with_member any_told
  any_told-Alike p [] i m n at alike = absurd (ground arith)
  any_told-Alike p (x ∷ ms) zero m n at (kind, _, same) =
      let is : x ≡ m = some-injective x m at in
      λ j.
        go_package ((kind ∙ ap (λ (y : Member A). y.kind) (sym is)) j) == p
          && (same ∙ ap (λ (y : Member A). told y.handler) (sym is)) j
        || any_told p ms
  any_told-Alike p (x ∷ ms) (suc i) m n at alike =
      ap (λ b. go_package x.kind == p && told x.handler || b) (any_told-Alike p ms i m n at alike)

  Agrees-by :
      (ms ns : List (Member A)) (m : Member A)
      → ((p : ℕ) → any_told p ns ≡ any_told p ms)
      → Agrees ms m
      → Agrees ns m
  Agrees-by ms ns m same agrees = agrees ∙ sym (same (go_package m.kind))

  pub All-Agrees-by :
      (ms ns xs : List (Member A))
      → ((p : ℕ) → any_told p ns ≡ any_told p ms)
      → All (Agrees ms) xs
      → All (Agrees ns) xs
  All-Agrees-by ms ns [] same all = tt
  All-Agrees-by ms ns (x ∷ xs) same (agrees, all) =
      (Agrees-by ms ns x same agrees, All-Agrees-by ms ns xs same all)

  pub Alike-Agrees : (ms : List (Member A)) (m n : Member A) → Alike m n → Agrees ms m → Agrees ms n
  Alike-Agrees ms m n (kind, term, _) agrees =
      term ∙ agrees ∙ ap (λ k. any_told (go_package k) ms) (sym kind)

  pub with_member-All :
      (P : Member A → Type 0) (ms : List (Member A)) (i : ℕ) (m n : Member A)
      → member ms i ≡ some m
      → (P m → P n)
      → All P ms
      → All P (with_member ms i n)
  unfolding member with_member
  with_member-All P [] i m n at is all = tt
  with_member-All P (x ∷ ms) zero m n at is all =
      (is (subst P (some-injective x m at) all.0), all.1)
  with_member-All P (x ∷ ms) (suc i) m n at is all = (all.0, with_member-All P ms i m n at is all.1)

  pub member-All :
      (P : Member A → Type 0) (ms : List (Member A)) (i : ℕ) (m : Member A)
      → member ms i ≡ some m
      → All P ms
      → P m
  unfolding member
  member-All P [] i m at all = absurd (ground arith)
  member-All P (x ∷ ms) zero m at all = subst P (some-injective x m at) all.0
  member-All P (x ∷ ms) (suc i) m at all = member-All P ms i m at all.1

  pub any_told-all_notified :
      (p : ℕ) (ms : List (Member A)) → any_told p (all_notified ms) ≡ any_told p ms
  unfolding any_told all_notified
  any_told-all_notified p [] = refl
  any_told-all_notified p (m ∷ ms) =
      λ j. go_package m.kind == p && told-notified m.handler j || any_told-all_notified p ms j

  pub notified-All :
      (ms xs : List (Member A)) → All (Agrees ms) xs → All (Agrees ms) (all_notified xs)
  unfolding all_notified
  notified-All ms [] all = tt
  notified-All ms (x ∷ xs) all = (all.0, notified-All ms xs all.1)

  pub any_told-termed : (p k : ℕ) (ms : List (Member A)) → any_told p (termed k ms) ≡ any_told p ms
  unfolding any_told termed
  any_told-termed p k [] = refl
  any_told-termed p k (m ∷ ms) = elim (Bool-cases (go_package m.kind == k)) [
    | inl same ↦
        rw same (ap (λ b. go_package m.kind == p && told m.handler || b) (any_told-termed p k ms))
    | inr other ↦
        rw other (ap (λ b. go_package m.kind == p && told m.handler || b) (any_told-termed p k ms))
  ]

  -- A member whose handler has set it.
  pub any_told-with_member :
      (p : ℕ) (ms : List (Member A)) (i : ℕ) (m n : Member A)
      → member ms i ≡ some m
      → go_package n.kind ≡ go_package m.kind
      → told n.handler ≡ true
      → any_told p (with_member ms i n) ≡ (go_package m.kind == p || any_told p ms)
  unfolding member with_member any_told
  any_told-with_member p [] i m n at kind tells = absurd (ground arith)
  any_told-with_member p (x ∷ ms) zero m n at kind tells =
      let same : go_package x.kind ≡ go_package m.kind =
        ap (λ (y : Member A). go_package y.kind) (some-injective x m at) in
      rw (kind, tells, same) (joins (go_package m.kind == p) (told x.handler) (any_told p ms))
    where
      joins : (a b c : Bool) → (a && true || c) ≡ (a || (a && b || c))
      joins true b c = refl
      joins false b c = refl
  any_told-with_member p (x ∷ ms) (suc i) m n at kind tells =
      ap (λ b. go_package x.kind == p && told x.handler || b)
        (any_told-with_member p ms i m n at kind tells)
      ∙ swaps (go_package x.kind == p && told x.handler) (go_package m.kind == p) (any_told p ms)
    where
      swaps : (a b c : Bool) → (a || (b || c)) ≡ (b || (a || c))
      swaps true true c = refl
      swaps true false c = refl
      swaps false b c = refl

  -- With term_signal of the package set, the others are as they were.
  pub termed-All :
      (k : ℕ) (ms ns xs : List (Member A))
      → ((p : ℕ) → any_told p ns ≡ (k == p || any_told p ms))
      → All (Agrees ms) xs
      → All (Agrees ns) (termed k xs)
  unfolding termed
  termed-All k ms ns [] now all = tt
  termed-All k ms ns (x ∷ xs) now (agrees, all) = elim (Bool-cases (go_package x.kind == k)) [
    | inl same ↦ rw same (
      sym (
          now (go_package x.kind) ∙ ap (λ b. b || any_told (go_package x.kind) ms) (turned x same)),
      termed-All k ms ns xs now all,
    )
    | inr other ↦ rw other (
      agrees
          ∙ sym (
              now (go_package x.kind)
              ∙ ap (λ b. b || any_told (go_package x.kind) ms) (unlike x other)),
      termed-All k ms ns xs now all,
    )
  ]
    where
      turned : (x : Member A) → (go_package x.kind == k) ≡ true → (k == go_package x.kind) ≡ true
      turned x same = (==_iff k (go_package x.kind)).1 (sym ((==_iff (go_package x.kind) k).0 same))

      unlike : (x : Member A) → (go_package x.kind == k) ≡ false → (k == go_package x.kind) ≡ false
      unlike x other = elim (Bool-cases (k == go_package x.kind)) [
        | inr away ↦ away
        | inl same ↦
            let back =
              (==_iff (go_package x.kind) k).1 (sym ((==_iff k (go_package x.kind)).0 same)) in
            absurd (ground (arith, sym other ∙ back))
      ]
