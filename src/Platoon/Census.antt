-- ===== src/Platoon/Census.antt =====
-- dkftpbench-0.45/Platoon.cc: `m_nInState` counts the users of the table in each state.
use c10kcode.Common.{
  ℕ, zero, suc, ◌+◌, ◌-◌, ◌≤◌, ◌<◌, ◌≡◌, ◌≢◌, refl, sym, ◌∙◌, ap, subst, false, Option, none, some,
  arith, ◌==◌, if◌then◌else◌, if_then, if_else, Bool-cases, inl, inr, eq→==, ne→==, ==→eq, ==→ne,
}
use c10kcode.Pipe.{undefined, returned}
use c10kcode.Platoon.{
  UserState, uninit, connect, connecting, start_type, finish_type, get, getting, stopped, index,
  User, Platoon, maxusers, set_count, move_count, put_user,
}

-- 1 where there is a user in the state with index `k`, and 0 otherwise.
abbrev pub weight : Option User → ℕ → ℕ
weight none k = 0
weight (some u) k = if index u.state == k then 1 else 0

-- How many users in the slots below `n` are in the state with index `k`.
pub census : ℕ → (ℕ → Option User) → ℕ → ℕ
census zero users k = 0
census (suc n) users k = weight (users n) k + census n users k

-- The counts are those of the table; the users that were deleted are counted as stopped for ever, and
-- UNINIT is not counted.
pub record IsCounted (gone : ℕ) (pl : Platoon) : Type 0 where
  pub alive : (k : ℕ) → k ≢ 0 → k < 7 → pl.in_state k ≡ census maxusers pl.users k
  pub ended : pl.in_state 7 ≡ census maxusers pl.users 7 + gone

-- Changing one slot changes the census by its weight.
census-above :
    (n i k : ℕ) (users : ℕ → Option User) (u : Option User)
    → n ≤ i
    → census n (λ j. if j == i then u else users j) k ≡ census n users k
unfolding census
census-above zero i k users u h = refl
census-above (suc n) i k users u h =
    let other : (n == i) ≡ false = ne→== n i (omega (arith, h)) in
    rw (other, census-above n i k users u (omega (arith, h))) refl

add_swapped : (a b c d e f : ℕ) → a ≡ b → c ≡ d → e ≡ f → a + c + f ≡ e + d + b
add_swapped a b c d e f h k l = omega (arith, h, k, l)

add_kept : (a b c d e f : ℕ) → a ≡ b → c + d ≡ e + f → a + c + d ≡ b + e + f
add_kept a b c d e f h k = omega (arith, h, k)

pub census-put :
    (n i k : ℕ) (users : ℕ → Option User) (u : Option User)
    → i < n
    → census n (λ j. if j == i then u else users j) k + weight (users i) k
      ≡ census n users k + weight u k
unfolding census
census-put zero i k users u h = elim h [ ]
census-put (suc n) i k users u h = elim (Bool-cases (n == i)) [
  | inl here ↦
      let same : n ≡ i = ==→eq n i here in
      let above = census-above n i k users u (omega (arith, same)) in
      let mine : weight (users n) k ≡ weight (users i) k = ap (λ j. weight (users j) k) same in
      let top : weight (if n == i then u else users n) k ≡ weight u k =
        ap (λ v. weight v k) (if_then _ u (users n) here) in
      add_swapped _ _ _ _ _ _ top above mine
  | inr other ↦
      let rest = census-put n i k users u (omega (arith, h, ==→ne n i other)) in
      let top : weight (if n == i then u else users n) k ≡ weight (users n) k =
        ap (λ v. weight v k) (if_else _ u (users n) other) in
      add_kept _ _ _ _ _ _ top rest
]

-- How often `k` is `j`: once or not at all.
abbrev once : ℕ → ℕ → ℕ
once j k = if j == k then 1 else 0

moved_counts :
    (f : ℕ → ℕ) (old new k : ℕ)
    → f old ≢ 0
    → set_count (set_count f old (f old - 1)) new (set_count f old (f old - 1) new + 1) k
        + once old k
      ≡ f k + once new k
moved_counts f old new k some_there = ground arith

first_count :
    (f : ℕ → ℕ) (new k : ℕ) → k ≢ 0 → set_count f new (f new + 1) k + once 0 k ≡ f k + once new k
first_count f new k h = ground arith

-- The counts go from one state to another.
move_count-once :
    (f : ℕ → ℕ) (old new : ℕ)
    → (old ≢ 0 → f old ≢ 0)
    → (g : ℕ → ℕ) × (move_count f old new ≡ returned g)
      × ((k : ℕ) → k ≢ 0 → g k + once old k ≡ f k + once new k)
move_count-once f zero new h = (_, refl, first_count f new)
move_count-once f (suc old) new h =
    let there : f (suc old) ≢ 0 = h (omega arith) in
    (
      _,
      if_else _ undefined _ (ne→== (f (suc old)) 0 there),
      λ k p. moved_counts f (suc old) new k there,
    )

-- A user that is in the table is in the census.
in_census :
    (users : ℕ → Option User) (i : ℕ) (u : User)
    → i < maxusers
    → users i ≡ some u
    → 1 ≤ census maxusers users (index u.state)
in_census users i u h here =
    let put = census-put maxusers i (index u.state) users none h in
    let one : weight (users i) (index u.state) ≡ 1 =
      ap (λ o. weight o (index u.state)) here
      ∙ if_then _ 1 0 (eq→== (index u.state) (index u.state) refl) in
    omega (arith, put, one)

below_seven : (s : UserState) → index s ≢ 7 → index s < 7
below_seven uninit h = omega arith
below_seven connect h = omega arith
below_seven connecting h = omega arith
below_seven start_type h = omega arith
below_seven finish_type h = omega arith
below_seven get h = omega arith
below_seven getting h = omega arith
below_seven stopped h = absurd (h refl)

some_counted :
    (gone i : ℕ) (pl : Platoon) (u : User)
    → IsCounted gone pl
    → i < maxusers
    → pl.users i ≡ some u
    → index u.state ≢ 0
    → pl.in_state (index u.state) ≢ 0
some_counted gone i pl u c h here positive = elim (Bool-cases (index u.state == 7)) [
  | inl last ↦
      let e : index u.state ≡ 7 = ==→eq (index u.state) 7 last in
      let at7 : 1 ≤ census maxusers pl.users 7 =
        subst (λ k. 1 ≤ census maxusers pl.users k) e (in_census pl.users i u h here) in
      subst (λ k. pl.in_state k ≢ 0) (sym e) (λ z. absurd (omega (arith, c.ended, at7, z)))
  | inr before ↦
      let at =
        c.alive (index u.state) positive (below_seven u.state (==→ne (index u.state) 7 before)) in
      λ z. absurd (omega (arith, at, in_census pl.users i u h here, z))
]

-- Where a user goes to a state other than UNINIT, no count falls below 0, and the counts are those of
-- the table again.
pub IsCounted-moved :
    (gone i : ℕ) (pl : Platoon) (u v : User)
    → IsCounted gone pl
    → i < maxusers
    → pl.users i ≡ some u
    → (counts : ℕ → ℕ) × (move_count pl.in_state (index u.state) (index v.state) ≡ returned counts)
      × IsCounted gone (put_user (record pl { in_state = counts }) i (some v))
IsCounted-moved gone i pl u v c h here =
    let (g, run, shift) =
      move_count-once pl.in_state (index u.state) (index v.state)
        (some_counted gone i pl u c h here) in
    let slot = λ (k : ℕ). census-put maxusers i k pl.users (some v) h in
    let was = λ (k : ℕ). ap (λ o. weight o k) here in
    (
      g,
      run,
      record {
        alive = λ k p l. omega (arith, shift k p, slot k, was k, c.alive k p l);
        ended = omega (arith, shift 7 (omega arith), slot 7, was 7, c.ended);
      },
    )

one_state :
    (s : UserState)
    → once (index s) 1
        + once (index s) 2
        + once (index s) 3
        + once (index s) 4
        + once (index s) 5
        + once (index s) 6
      ≤ 1
one_state uninit = omega arith
one_state connect = omega arith
one_state connecting = omega arith
one_state start_type = omega arith
one_state finish_type = omega arith
one_state get = omega arith
one_state getting = omega arith
one_state stopped = omega arith

one_weight :
    (u : Option User)
    → weight u 1 + weight u 2 + weight u 3 + weight u 4 + weight u 5 + weight u 6 ≤ 1
one_weight none = omega arith
one_weight (some u) = one_state u.state

-- There are no more live users than slots.
pub live_census :
    (n : ℕ) (users : ℕ → Option User)
    → census n users 1
        + census n users 2
        + census n users 3
        + census n users 4
        + census n users 5
        + census n users 6
      ≤ n
unfolding census
live_census zero users = omega arith
live_census (suc n) users = omega (arith, live_census n users, one_weight (users n))

-- An empty table has no user in any state.
pub census-empty :
    (n : ℕ) (users : ℕ → Option User) (k : ℕ)
    → ((i : ℕ) → i < n → users i ≡ none)
    → census n users k ≡ 0
unfolding census
census-empty zero users k h = refl
census-empty (suc n) users k h = omega (
  arith,
  ap (λ u. weight u k) (h n (omega arith)),
  census-empty n users k (λ i l. h i (omega (arith, l))),
)
