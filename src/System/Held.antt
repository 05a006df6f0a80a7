-- ===== src/System/Held.antt =====
-- The files that the workers of a system hold, up to their order.
use ugoku.Base.{
  ℕ, zero, suc, ◌≤◌, ◌≡◌, refl, ap, Option, none, some, List, [], ◌∷◌, ◌++◌, length, length-append,
  arith, Shuffled, both, Shuffled_refl, Shuffled_exchange, Shuffled_append_left, Without, here,
  there,
}
use ugoku.Dispatch.{pick}
use ugoku.System.{
  WorkerState, Loop, created, connecting, head, receiving, working, reporting, deciding, ended,
  get_elem?, set,
}

-- What the loop over the channel has in hand.
abbrev pub holding : {A : Type 0} → Loop A → List A
holding (working a) = a ∷ []
holding (reporting a) = a ∷ []
holding l = []

module _ {A : Type 0} where
  abbrev pub held : List (WorkerState A) → List A
  held [] = []
  held (w ∷ ws) = holding w.loop ++ held ws

  length-holding : (l : Loop A) → length (holding l) ≤ 1
  length-holding created = omega arith
  length-holding connecting = omega arith
  length-holding head = omega arith
  length-holding receiving = omega arith
  length-holding (working a) = omega arith
  length-holding (reporting a) = omega arith
  length-holding deciding = omega arith
  length-holding ended = omega arith

  pub length-held : (ws : List (WorkerState A)) → length (held ws) ≤ length ws
  length-held [] = omega arith
  length-held (w ∷ ws) =
      omega (arith, length-append (holding w.loop) (held ws), length-holding w.loop, length-held ws)

  -- The files of a worker and those of the others, also when another worker takes its place.
  pub held-set :
      (ws : List (WorkerState A)) (k : ℕ) (w : WorkerState A)
      → get_elem? ws k ≡ some w
      → (others : List A) × Shuffled (held ws) (holding w.loop ++ others)
        × ((v : WorkerState A) → Shuffled (held (set ws k v)) (holding v.loop ++ others))
        × (suc (length others) ≤ length ws)
  unfolding get_elem? set
  held-set [] k w h = cc
  held-set (x ∷ ws) zero w h = (
    held ws,
    rw
        (ap {B = List A}
          (λ (o : Option (WorkerState A)). elim o [ none ↦ [] | some v ↦ holding v.loop ]) h)
        (Shuffled_refl (holding w.loop ++ held ws)),
    λ v. Shuffled_refl (holding v.loop ++ held ws),
    omega (arith, length-held ws),
  )
  held-set (x ∷ ws) (suc k) w h =
      let (others, p, q, fits) = held-set ws k w h in
      (
        holding x.loop ++ others,
        both (Shuffled_append_left (holding x.loop) p)
            (Shuffled_exchange (holding x.loop) (holding w.loop) others),
        λ v.
            both (Shuffled_append_left (holding x.loop) (q v))
              (Shuffled_exchange (holding x.loop) (holding v.loop) others),
        omega (arith, length-append (holding x.loop) others, length-holding x.loop),
      )

  pub pick-Without :
      {a : A} {xs ys : List A} → Without a xs ys → (k : ℕ) × (pick k xs ≡ some (a, ys))
  unfolding pick
  pick-Without here = (0, refl)
  pick-Without (there x w) = let (k, e) = pick-Without w in (suc k, rw e)
