-- ===== src/Platoon/Ramp.antt =====
-- dkftpbench-0.45/Platoon.cc: `skedCallback` brings the platoon up to its target.
use c10kcode.Common.{
  ℕ, zero, suc, ◌+◌, ◌-◌, ◌≤◌, ◌<◌, ◌≡◌, ◌≢◌, refl, sym, ◌∙◌, ap, subst, Bool, true, false, ◌&&◌,
  arith, ltb, ◌==◌, if◌then◌else◌, if_both, inl, inr, ◌⊎◌, ==→ne, ealready,
}
use c10kcode.Pipe.{returned}
use c10kcode.Platoon.{
  UserState, uninit, connect, connecting, start_type, finish_type, get, getting, stopped, index,
  User, Platoon, maxusers, set_count, sum_from, sum_in_state,
}
use c10kcode.Platoon.Census.{IsCounted}
use c10kcode.Platoon.Fleet.{start_user, wants_user, ramp_up}
use c10kcode.Robouser.{World}
use c10kcode.Robouser.Quiet.{Returns, Returns-weaken, Returns-bind}
use c10kcode.Platoon.Search.{IsTaken}
use c10kcode.Platoon.Joining.{Joins}
use c10kcode.Platoon.Starting.{StartUser, start_user-StartUser}

abbrev pub alive : Platoon → ℕ
alive pl = sum_in_state pl connect getting

abbrev pub connected : Platoon → ℕ
connected pl = sum_in_state pl connect pl.last_connecting

-- Why no further user is to be started: a user has stopped, as many users as wanted are alive, as many
-- as wanted are connecting, or every slot is taken.
abbrev pub IsComplete : Platoon → Type 0
IsComplete q =
    (q.in_state (index stopped) ≢ 0)
    ⊎ ((q.user_target ≤ alive q)
        ⊎ ((q.connecting_target ≤ connected q) ⊎ ((j : ℕ) → j < maxusers → IsTaken (q.users j))))

-- What `skedCallback` comes to.
pub record Ramped (gone : ℕ) (pl q : Platoon) : Type 0 where
  pub counted : IsCounted gone q
  pub same_target : q.user_target ≡ pl.user_target
  pub same_dead : q.dead ≡ pl.dead
  pub within : (q ≡ pl) ⊎ ((alive q ≤ q.user_target) × (connected q ≤ q.connecting_target))
  pub ended : IsComplete q

more_alive : (gone i : ℕ) (pl q : Platoon) → Joins gone i pl q → alive q ≡ alive pl + 1
more_alive gone i pl q x = ap (λ f. sum_from f 1 6) x.one_more ∙ omega arith

more_in :
    (f : ℕ → ℕ) (s : UserState)
    → sum_from (set_count f 1 (f 1 + 1)) 1 (index s + 1 - 1) ≤ sum_from f 1 (index s + 1 - 1) + 1
more_in f uninit = omega arith
more_in f connect = omega arith
more_in f connecting = omega arith
more_in f start_type = omega arith
more_in f finish_type = omega arith
more_in f get = omega arith
more_in f getting = omega arith
more_in f stopped = omega arith

more_connected : (gone i : ℕ) (pl q : Platoon) → Joins gone i pl q → connected q ≤ connected pl + 1
more_connected gone i pl q x =
    subst (λ n. n ≤ connected pl + 1)
      (sym (
        ap (λ f. sum_from f 1 (index q.last_connecting + 1 - 1)) x.one_more
        ∙ ap (λ s. sum_from (set_count pl.in_state 1 (pl.in_state 1 + 1)) 1 (index s + 1 - 1))
            x.same_last))
      (more_in pl.in_state pl.last_connecting)

wants : (a b c : Bool) → a && b && c ≡ true → (b ≡ true) × (c ≡ true)
wants a b c e = ground arith

below : (a b : ℕ) → ltb a b ≡ true → a < b
below a b e = ground arith

refused : (n a t c k : ℕ) → (n == 0 && ltb a t && ltb c k) ≡ false → (n ≢ 0) ⊎ ((t ≤ a) ⊎ (k ≤ c))
refused n a t c k e = ground arith

-- Where the loop wants no further user, there is one of the reasons.
refused-IsComplete : (q : Platoon) → wants_user q ≡ false → IsComplete q
refused-IsComplete q e =
    elim (refused (q.in_state 7 + 0) (alive q) q.user_target (connected q) q.connecting_target e) [
      | inl n ↦ inl (λ z. n (omega (arith, z)))
      | inr (inl n) ↦ inr (inl n)
      | inr (inr n) ↦ inr (inr (inl n))
    ]

no_error : (err : ℕ) → (err == 0) ≡ true → err ≢ ealready
no_error err z h = ground arith

module _ (gone : ℕ) (w : World) (made : User) where
  -- What a second round makes of what the first one left.
  Ramped-after :
      (pl q r : Platoon) (i : ℕ)
      → wants_user pl ≡ true
      → Joins gone i pl q
      → Ramped gone q r
      → Ramped gone pl r
  Ramped-after pl q r i e x y =
      let (more, room) =
        wants (sum_in_state pl stopped stopped == 0) (ltb (alive pl) pl.user_target)
          (ltb (connected pl) pl.connecting_target) e in
      let a = below (alive pl) pl.user_target more in
      let b = below (connected pl) pl.connecting_target room in
      record {
        counted = record { alive = y.counted.alive; ended = y.counted.ended };
        same_target = y.same_target ∙ x.same_target;
        same_dead = y.same_dead ∙ x.same_dead;
        within = elim y.within [
          | inl same ↦ inr (
            omega (
              arith,
              ap alive same,
              more_alive gone i pl q x,
              a,
              ap (λ (p : Platoon). p.user_target) same,
              x.same_target,
            ),
            omega (
              arith,
              ap connected same,
              more_connected gone i pl q x,
              b,
              ap (λ (p : Platoon). p.connecting_target) same,
              x.same_connecting_target,
            ),
          )
          | inr z ↦ inr z
        ];
        ended = y.ended;
      }

  rests-Ramped : (pl q : Platoon) → IsCounted gone pl → q ≡ pl → IsComplete q → Ramped gone pl q
  rests-Ramped pl q c same e = record {
    counted = subst (IsCounted gone) (sym same) c;
    same_target = ap (λ (p : Platoon). p.user_target) same;
    same_dead = ap (λ (p : Platoon). p.dead) same;
    within = inl same;
    ended = e;
  }

  again-Ramped :
      (n : ℕ) (pl : Platoon) (r : ℕ × Platoon)
      → IsCounted gone pl
      → wants_user pl ≡ true
      → pl.user_target ≤ suc n + alive pl
      → ((q : Platoon)
          → IsCounted gone q
          → q.user_target ≤ n + alive q
          → Returns (Ramped gone q) (ramp_up w made (suc n) q))
      → StartUser gone pl r
      → Returns (Ramped gone pl) (if r.0 == 0 then ramp_up w made (suc n) r.1 else returned r.1)
  again-Ramped n pl (err, q) c e h rest (inl (fine, (i, (l, x)))) =
      if_both (Returns (Ramped gone pl)) (err == 0) _ _
        (λ z.
          Returns-weaken (Ramped gone q) (Ramped gone pl) (ramp_up w made (suc n) q)
            (λ r y. Ramped-after pl q r i e x y)
            (rest q x.counted (omega (arith, h, more_alive gone i pl q x, x.same_target))))
        (λ z. absurd (==→ne err 0 z fine))
  again-Ramped n pl (err, q) c e h rest (inr (full, same, taken)) =
      if_both (Returns (Ramped gone pl)) (err == 0) _ _ (λ z. absurd (no_error err z full))
        (λ z. rests-Ramped pl q c same (
          inr (
            inr
              (inr (λ j l. subst (λ (p : Platoon). IsTaken (p.users j)) (sym same) (taken j l))))))

  -- From a platoon whose counts are those of the table, `skedCallback` ends, at the latest when as
  -- many rounds are done as users were missing, and one more. It fails no assertion and reads no
  -- slot beyond the table. The counts are those of the table afterwards; where it started a user,
  -- there are neither more live users nor more users connecting than the targets ask for. Then a
  -- user has stopped, or as many users are alive as the target asks for, or as many are connecting
  -- as its target allows, or every slot is taken.
  pub ramp_up-Ramped :
      (n : ℕ) (pl : Platoon)
      → IsCounted gone pl
      → pl.user_target ≤ n + alive pl
      → Returns (Ramped gone pl) (ramp_up w made (suc n) pl)
  unfolding ramp_up
  ramp_up-Ramped zero pl c h =
      if_both (Returns (Ramped gone pl)) (wants_user pl) _ _
        (λ e. absurd (
          omega (
            arith,
            h,
            below (alive pl) pl.user_target (wants (sum_in_state pl stopped stopped == 0) _ _ e).0,
          )))
        (λ e. rests-Ramped pl pl c refl (refused-IsComplete pl e))
  ramp_up-Ramped (suc n) pl c h =
      if_both (Returns (Ramped gone pl)) (wants_user pl) _ _
        (λ e.
          Returns-bind (StartUser gone pl) (Ramped gone pl) (start_user w made pl) _
            (start_user-StartUser gone w made pl c)
            (λ r x. again-Ramped n pl r c e h (ramp_up-Ramped n) x))
        (λ e. rests-Ramped pl pl c refl (refused-IsComplete pl e))
