-- ===== src/Platoon/Search.antt =====
-- dkftpbench-0.45/Platoon.cc: the search of `startUser` for a free slot.
use c10kcode.Common.{
  ℕ, zero, suc, ◌+◌, ◌-◌, ◌≤◌, ◌<◌, ◌≡◌, refl, sym, subst, true, false, Option, none, some, arith,
  ltb, leb, ◌==◌, if◌then◌else◌, Bool-cases, inl, inr,
}
use c10kcode.Platoon.{User, maxusers}
use c10kcode.Platoon.Fleet.{find_slot}

-- The slot that is reached from slot `i` in `d` steps
abbrev pub round : ℕ → ℕ → ℕ
round i d = if ltb (i + d) maxusers then i + d else (i + d) - maxusers

abbrev pub IsTaken : Option User → Type 0
IsTaken none = ⊥
IsTaken (some u) = Unit {0}

-- What a search of `n` slots from slot `i` on finds.
abbrev pub Searched : (ℕ → Option User) → ℕ → ℕ → Option ℕ → Type 0
Searched users n i none = (d : ℕ) → d < n → IsTaken (users (round i d))
Searched users n i (some j) = (j < maxusers) × (users j ≡ none)

abbrev slot_at : ℕ → ℕ
slot_at i = if i == maxusers then 0 else i

round-suc : (i d : ℕ) → i ≤ maxusers → d + 1 < maxusers → round i (suc d) ≡ round (slot_at i + 1) d
round-suc i d h l = ground arith

round-zero : (i : ℕ) → i ≤ maxusers → round i 0 ≡ slot_at i
round-zero i h = ground arith

slot_at-below : (i : ℕ) → i ≤ maxusers → slot_at i < maxusers
slot_at-below i h = ground arith

taken_slot : (u : Option User) (v : User) → u ≡ some v → IsTaken u
taken_slot u v e = subst IsTaken (sym e) tt

shifted :
    (users : ℕ → Option User) (n i : ℕ)
    → i ≤ maxusers
    → n < maxusers
    → IsTaken (users (slot_at i))
    → Searched users n (slot_at i + 1) none
    → Searched users (suc n) i none
shifted users n i h l t s zero k = subst (λ j. IsTaken (users j)) (sym (round-zero i h)) t
shifted users n i h l t s (suc d) k =
    subst (λ j. IsTaken (users j)) (sym (round-suc i d h (omega (arith, k, l))))
      (s d (omega (arith, k)))

found_here :
    (users : ℕ → Option User) (n i : ℕ) (u : Option User) (rest : Option ℕ)
    → i ≤ maxusers
    → n < maxusers
    → users (slot_at i) ≡ u
    → Searched users n (slot_at i + 1) rest
    → Searched users (suc n) i (elim u [ none ↦ some (slot_at i) | some _ ↦ rest ])
found_here users n i none rest h l e s = (slot_at-below i h, e)
found_here users n i (some u) (some j) h l e s = s
found_here users n i (some u) none h l e s = shifted users n i h l (taken_slot _ u e) s

-- The search for a slot looks at the slots from `i` on and going round, each one once. What it finds
-- is a free slot of the table, and where it finds none every slot it looked at is taken.
pub find_slot-Searched :
    (users : ℕ → Option User) (n i : ℕ)
    → i ≤ maxusers
    → n ≤ maxusers
    → Searched users n i (find_slot users n i)
unfolding find_slot
find_slot-Searched users zero i h l = λ d k. absurd (omega (arith, k))
find_slot-Searched users (suc n) i h l =
    let below = slot_at-below i h in
    let rest =
      find_slot-Searched users n (slot_at i + 1) (omega (arith, below)) (omega (arith, l)) in
    found_here users n i (users (slot_at i)) (find_slot users n (slot_at i + 1)) h
      (omega (arith, l)) refl rest

reached : (g j : ℕ) → j < maxusers → leb g j ≡ true → round g (j - g) ≡ j
reached g j l e = ground arith

reached_round :
    (g j : ℕ) → g ≤ maxusers → j < maxusers → leb g j ≡ false → round g ((j + maxusers) - g) ≡ j
reached_round g j h l e = ground arith

steps_below : (g j : ℕ) → g ≤ maxusers → leb g j ≡ false → (j + maxusers) - g < maxusers
steps_below g j h e = ground arith

-- Where a search of the whole table finds nothing, every slot is taken.
pub all_taken :
    (users : ℕ → Option User) (g j : ℕ)
    → g ≤ maxusers
    → j < maxusers
    → Searched users maxusers g none
    → IsTaken (users j)
all_taken users g j h l s = elim (Bool-cases (leb g j)) [
  | inl from ↦ subst (λ k. IsTaken (users k)) (reached g j l from) (s (j - g) (omega (arith, l)))
  | inr before ↦
      subst (λ k. IsTaken (users k)) (reached_round g j h l before)
        (s ((j + maxusers) - g) (steps_below g j h before))
]
