-- ===== src/Platoon/Lifetime.antt =====
-- dkftpbench-0.45/Platoon.cc: the counts from `init` on, and what a stopped user means for the others.
use c10kcode.Common.{
  ℕ, suc, ◌+◌, ◌<◌, ◌≡◌, ◌≢◌, refl, Bool, true, false, ◌&&◌, none, List, [], ◌∷◌, arith, ltb, ◌==◌,
  if◌then◌else◌, if_then, if_else, length,
}
use c10kcode.Pipe.{returned, ◌>>=◌}
use c10kcode.Platoon.{User, Platoon, maxusers}
use c10kcode.Platoon.Census.{IsCounted, census-empty}
use c10kcode.Platoon.Fleet.{init, start_user, wants_user, ramp_up, reap}
use c10kcode.Platoon.Reaping.{AreDead, Reaped, reap-Reaped}
use c10kcode.Robouser.{World}
use c10kcode.Robouser.Quiet.{Returns, Returns-weaken}

small : (k : ℕ) → k < 7 → ltb k 8 ≡ true
small k h = ground arith

in_table : (i : ℕ) → i < maxusers → ltb i maxusers ≡ true
in_table i h = ground arith

-- `init` makes the counts those of the table, whatever was there before.
pub init-IsCounted : (pl : Platoon) → IsCounted 0 (init pl)
unfolding init
init-IsCounted pl =
    let nobody = λ (k : ℕ).
      census-empty maxusers (init pl).users k
        (λ i l. if_then (ltb i maxusers) none (pl.users i) (in_table i l)) in
    record {
      alive = λ k p l. omega (arith, nobody k, if_then (ltb k 8) 0 (pl.in_state k) (small k l));
      ended = omega (arith, nobody 7);
    }

not_wanted : (f : ℕ → ℕ) (b c : Bool) → f 7 ≢ 0 → (f 7 + 0 == 0 && b && c) ≡ false
not_wanted f b c h = ground arith

starts_nobody :
    (w : World) (made : User) (n gone : ℕ) (pl : Platoon)
    → IsCounted gone pl
    → gone ≢ 0
    → ramp_up w made (suc n) pl ≡ returned pl
unfolding ramp_up
starts_nobody w made n gone pl c h =
    if_else (wants_user pl)
      (start_user w made pl >>= λ r. if r.0 == 0 then ramp_up w made n r.1 else returned r.1)
      (returned pl) (not_wanted pl.in_state _ _ (λ z. h (omega (arith, c.ended, z))))

positive : (gone : ℕ) (l : List ℕ) → l ≢ [] → gone + length l ≢ 0
positive gone [] h = absurd (h refl)
positive gone (i ∷ l) h = λ z. absurd (omega (arith, z))

-- Where the counts are those of the table, and the list of the dead is not empty and holds
-- different users of the table that have stopped, then behind a `reap` `skedCallback` starts
-- nobody, whatever the targets are: the users that were deleted are still counted as stopped.
pub reap-StartsNobody :
    (w : World) (made : User) (n gone : ℕ) (pl : Platoon)
    → IsCounted gone pl
    → AreDead pl.users pl.dead
    → pl.dead ≢ []
    → Returns (λ q. ramp_up w made (suc n) q ≡ returned q) (reap pl)
reap-StartsNobody w made n gone pl c d some_dead =
    Returns-weaken (Reaped gone pl pl.dead) (λ q. ramp_up w made (suc n) q ≡ returned q) (reap pl)
      (λ q x.
        starts_nobody w made n (gone + length pl.dead) q x.0 (positive gone pl.dead some_dead))
      (reap-Reaped gone pl c d)
