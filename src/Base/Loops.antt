-- ===== src/Base/Loops.antt =====
-- Counted loops with `break` over a state.
use Prim.Native.Nat.{ℕ, zero, suc, ◌+◌}
use mathlib.Core.Path.{◌≡◌}
use mathlib.Core.Bool.{Bool, true, false}
use mathlib.Core.Logic.{◌⊎◌, inl, inr}
use ugoku.Base.Tests.{Bool-cases, if◌then◌else◌}

-- `for i := i0; i < i0 + n; i++ { s = body }`, where the body says whether it breaks.
unfoldable pub for_break {ℓ} : {S : Type ℓ} → ℕ → ℕ → (ℕ → S → Bool × S) → S → S
for_break zero i body s = s
for_break (suc n) i body s =
    let r = body i s in let rest = for_break n (i + 1) body r.1 in if r.0 then r.1 else rest

-- An invariant of the body is one of the loop.
pub for_break_inv {ℓ κ} :
    {S : Type ℓ} (P : S → Type κ) (body : ℕ → S → Bool × S)
    → ((i : ℕ) (s : S) → P s → P (body i s).1)
    → (n i : ℕ) (s : S) → P s
    → P (for_break n i body s)
unfolding for_break
for_break_inv P body keep zero i s h = h
for_break_inv P body keep (suc n) i s h = elim (Bool-cases (body i s).0) [
  | inl e ↦ rw (e, for_break) (keep i s h)
  | inr e ↦ rw (e, for_break) (for_break_inv P body keep n (i + 1) (body i s).1 (keep i s h))
]

-- With P kept by every round that does not break and Q reached by the round that does.
pub for_break_cases {ℓ κ} :
    {S : Type ℓ} (P Q : S → Type κ) (body : ℕ → S → Bool × S)
    → ((i : ℕ) (s : S)
        → P s
        → ((body i s).0 ≡ true → Q (body i s).1) × ((body i s).0 ≡ false → P (body i s).1))
    → (n i : ℕ) (s : S) → P s
    → Q (for_break n i body s) ⊎ P (for_break n i body s)
unfolding for_break
for_break_cases P Q body round zero i s h = inr h
for_break_cases P Q body round (suc n) i s h = elim (Bool-cases (body i s).0) [
  | inl e ↦ rw (e, for_break) (inl ((round i s h).0 e))
  | inr e ↦
      rw (e, for_break) (for_break_cases P Q body round n (i + 1) (body i s).1 ((round i s h).1 e))
]
