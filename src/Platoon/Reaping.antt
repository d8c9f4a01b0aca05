-- ===== src/Platoon/Reaping.antt =====
-- dkftpbench-0.45/Platoon.cc: `reap` deletes the users that have stopped.
use c10kcode.Common.{
  ℕ, ◌+◌, ◌<◌, ◌≡◌, refl, sym, ◌∙◌, ap, subst, Option, none, some, List, [], ◌∷◌, arith, length,
  ◌==◌, if◌then◌else◌,
}
use c10kcode.Pipe.{Outcome, returned, ◌>>=◌}
use c10kcode.Platoon.{stopped, index, User, Platoon, maxusers, put_user}
use c10kcode.Platoon.Census.{IsCounted, census-put, weight}
use c10kcode.Platoon.Fleet.{delete_user, reap_all, reap}
use c10kcode.Robouser.Quiet.{Returns, Returns-weaken, with_user-here}

-- The table without the user in slot `i`
abbrev pub without : (ℕ → Option User) → ℕ → ℕ → Option User
without users i j = if j == i then none else users j

abbrev pub without_all : (ℕ → Option User) → List ℕ → ℕ → Option User
without_all users [] = users
without_all users (i ∷ rest) = without_all (without users i) rest

-- Different users of the table that have stopped.
abbrev pub AreDead : (ℕ → Option User) → List ℕ → Type 0
AreDead users [] = Unit {0}
AreDead users (i ∷ rest) =
    (i < maxusers)
    × ((u : User) × ((users i ≡ some u) × (u.state ≡ stopped)))
    × AreDead (without users i) rest

abbrev once : ℕ → ℕ → ℕ
once j k = if j == k then 1 else 0

other_state : (k : ℕ) → k < 7 → once 7 k ≡ 0
other_state k h = ground arith

delete_user-IsCounted :
    (gone i : ℕ) (pl : Platoon) (u : User)
    → IsCounted gone pl
    → i < maxusers
    → pl.users i ≡ some u
    → u.state ≡ stopped
    → IsCounted (gone + 1) (put_user pl i none)
delete_user-IsCounted gone i pl u c h here dead =
    let slot = λ (k : ℕ). census-put maxusers i k pl.users none h in
    let was = λ (k : ℕ). ap (λ o. weight o k) here ∙ ap (λ t. once (index t) k) dead in
    record {
      alive = λ k p l. omega (arith, slot k, was k, other_state k l, c.alive k p l);
      ended = omega (arith, slot 7, was 7, c.ended);
    }

-- What `reap` comes to.
abbrev pub Reaped : ℕ → Platoon → List ℕ → Platoon → Type 0
Reaped gone pl dead q =
    IsCounted (gone + length dead) q × (q.users ≡ without_all pl.users dead) × (q.dead ≡ [])

ap-returned :
    (P : Platoon → Type 0) {m : Outcome Platoon} {q : Platoon} (f : Platoon → Outcome Platoon)
    → m ≡ returned q
    → Returns P (f q)
    → Returns P (m >>= f)
ap-returned P {m} {q} f e h = subst (λ n. Returns P (n >>= f)) (sym e) h

reap_all-Reaped :
    (gone : ℕ) (dead : List ℕ) (pl : Platoon)
    → IsCounted gone pl
    → AreDead pl.users dead
    → Returns (Reaped gone pl dead) (reap_all dead pl)
unfolding reap_all
reap_all-Reaped gone [] pl c d =
    (record { alive = c.alive; ended = omega (arith, c.ended) }, refl, refl)
reap_all-Reaped gone (i ∷ rest) pl c (h, (u, (here, dead)), ds) =
    let p : Platoon = record pl { dead = rest } in
    let q : Platoon = put_user p i none in
    let deleted : delete_user p i ≡ returned q = with_user-here p i u _ here in
    let c' : IsCounted (gone + 1) q =
      delete_user-IsCounted gone i p u (record { alive = c.alive; ended = c.ended }) h here dead in
    let done : Returns (Reaped (gone + 1) q rest) (reap_all rest q) =
      reap_all-Reaped (gone + 1) rest q c' ds in
    ap-returned (Reaped gone pl (i ∷ rest)) (reap_all rest) deleted (
      Returns-weaken (Reaped (gone + 1) q rest) (Reaped gone pl (i ∷ rest)) (reap_all rest q)
        (λ r x. (record { alive = x.0.alive; ended = omega (arith, x.0.ended) }, x.1, x.2)) done)

-- Where the counts are those of the table, and the users in the list of the dead are different
-- users of the table that have stopped, `reap` returns, deletes them and no others, and empties
-- the list. The counts stay as they are: the users deleted are still counted as stopped.
pub reap-Reaped :
    (gone : ℕ) (pl : Platoon)
    → IsCounted gone pl
    → AreDead pl.users pl.dead
    → Returns (Reaped gone pl pl.dead) (reap pl)
unfolding reap
reap-Reaped gone pl c d = reap_all-Reaped gone pl.dead pl c d
