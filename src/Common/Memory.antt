-- ===== src/Common/Memory.antt =====
-- A C array as a function of the index. An access out of bounds is not hidden: a write there is
-- seen, so that a theorem can say that no such write happens.
use Prim.Native.Nat.{ℕ, ◌+◌, ◌≤◌, ◌<◌}
use mathlib.Core.Path.{◌≡◌, refl}
use mathlib.Core.List.{List, [], ◌∷◌}
use native.Mathlib.Omega.{arith}
use c10kcode.Common.Tests.{◌==◌, if◌then◌else◌}
use c10kcode.Common.Lists.{length}

module _ {ℓ} {A : Type ℓ} where
  -- `a[i] = v`
  abbrev pub write : (ℕ → A) → ℕ → A → ℕ → A
  write a i v j = if j == i then v else a j

  -- `memcpy(a + i, p, n)`, the list being `p[0..n)`
  abbrev pub memcpy : (ℕ → A) → ℕ → List A → ℕ → A
  memcpy a i [] = a
  memcpy a i (x ∷ xs) = memcpy (write a i x) (i + 1) xs

  pub memcpy_outside :
      (a : ℕ → A) (i : ℕ) (xs : List A) (j : ℕ) → i + length xs ≤ j → memcpy a i xs j ≡ a j
  memcpy_outside a i [] j h = refl
  memcpy_outside a i (x ∷ xs) j h = ground (arith, memcpy_outside (write a i x) (i + 1) xs j)

  pub memcpy_below : (a : ℕ → A) (i : ℕ) (xs : List A) (j : ℕ) → j < i → memcpy a i xs j ≡ a j
  memcpy_below a i [] j h = refl
  memcpy_below a i (x ∷ xs) j h = ground (arith, memcpy_below (write a i x) (i + 1) xs j)
