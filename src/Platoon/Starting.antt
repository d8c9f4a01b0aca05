-- ===== src/Platoon/Starting.antt =====
-- dkftpbench-0.45/Platoon.cc: `startUser`.
use c10kcode.Common.{
  ℕ, ◌≤◌, ◌<◌, ◌≡◌, refl, true, Option, none, some, arith, ltb, if_both, inl, inr, ◌⊎◌, ealready,
}
use c10kcode.Pipe.{undefined, returned, ◌>>=◌}
use c10kcode.Platoon.{uninit, connect, getting, User, Platoon, maxusers, put_user, sum_in_state}
use c10kcode.Platoon.Census.{IsCounted}
use c10kcode.Platoon.Fleet.{find_slot, start_user}
use c10kcode.Robouser.{World, start}
use c10kcode.Robouser.Quiet.{Returns, Returns-bind}
use c10kcode.Platoon.Search.{IsTaken, Searched, find_slot-Searched, all_taken}
use c10kcode.Platoon.Joining.{Joins, start-Joins}
use c10kcode.Platoon.Census.{live_census}

-- What `startUser` comes to: a user joins in a free slot, or every slot is taken.
abbrev pub StartUser : ℕ → Platoon → ℕ × Platoon → Type 0
StartUser gone pl (err, q) =
    ((err ≡ 0) × ((i : ℕ) × ((i < maxusers) × Joins gone i pl q)))
    ⊎ ((err ≡ ealready) × (q ≡ pl) × ((j : ℕ) → j < maxusers → IsTaken (pl.users j)))

guess_in_table :
    (gone : ℕ) (pl : Platoon) → IsCounted gone pl → sum_in_state pl connect getting ≤ maxusers
guess_in_table gone pl c = omega (
  arith,
  live_census maxusers pl.users,
  c.alive 1 (omega arith) (omega arith),
  c.alive 2 (omega arith) (omega arith),
  c.alive 3 (omega arith) (omega arith),
  c.alive 4 (omega arith) (omega arith),
  c.alive 5 (omega arith) (omega arith),
  c.alive 6 (omega arith) (omega arith),
)

start_in :
    (gone : ℕ) (w : World) (made : User) (pl : Platoon) (g : ℕ) (o : Option ℕ)
    → IsCounted gone pl
    → g ≤ maxusers
    → Searched pl.users maxusers g o
    → Returns (StartUser gone pl) (elim o [
      | none ↦ returned (ealready, pl)
      | some i ↦
          start w (put_user pl i (some (record made { state = uninit }))) i >>= λ q. returned (0, q)
    ])
start_in gone w made pl g none c h s = inr (refl, refl, λ j l. all_taken pl.users g j h l s)
start_in gone w made pl g (some i) c h (l, free) =
    Returns-bind (Joins gone i pl) (StartUser gone pl)
      (start w (put_user pl i (some (record made { state = uninit }))) i) _
      (start-Joins gone i pl w made c l free) (λ q x. inl (refl, (i, (l, x))))

not_beyond : (g : ℕ) → g ≤ maxusers → ltb maxusers g ≡ true → ⊥
not_beyond g h e = ground arith

-- From a platoon whose counts are those of the table, `startUser` returns, and looks only at slots
-- of the table. It puts a new user into one that was free, and no other slot changes; the new user
-- is in the state CONNECT, one more is counted there, and the counts are those of the table again.
-- Where it returns EALREADY every slot is taken, and nothing changes.
pub start_user-StartUser :
    (gone : ℕ) (w : World) (made : User) (pl : Platoon)
    → IsCounted gone pl
    → Returns (StartUser gone pl) (start_user w made pl)
unfolding start_user
start_user-StartUser gone w made pl c =
    let g = sum_in_state pl connect getting in
    let h = guess_in_table gone pl c in
    if_both (Returns (StartUser gone pl)) (ltb maxusers g) undefined _
      (λ e. absurd (not_beyond g h e))
      (λ e.
        start_in gone w made pl g (find_slot pl.users maxusers g) c h
          (find_slot-Searched pl.users maxusers g h (omega arith)))
