-- ===== src/Robouser/Quiet.antt =====
-- dkftpbench-0.45/robouser.cc: how a user's state and the platoon's counts change together.
use c10kcode.Common.{
  ℕ, ◌<◌, ◌≡◌, refl, sym, ◌∙◌, ap, subst, some, arith, ◌==◌, if◌then◌else◌, if_then, eq→==,
}
use c10kcode.Pipe.{Outcome, aborted, undefined, unfinished, returned, ◌>>=◌}
use c10kcode.Platoon.{UserState, uninit, stopped, index, User, Platoon, maxusers, put_user}
use c10kcode.Platoon.Census.{IsCounted, census-put, weight, IsCounted-moved}
use c10kcode.Robouser.{World, moved_to, goto_state_of, with_user, goto_state, stop}

-- The call returns, with a result that satisfies `P`.
abbrev pub Returns {ℓ} : {A : Type ℓ} → (A → Type 0) → Outcome A → Type 0
Returns P aborted = ⊥
Returns P undefined = ⊥
Returns P unfinished = ⊥
Returns P (returned a) = P a

pub Returns-bind {ℓ κ} :
    {A : Type ℓ} {B : Type κ} (P : A → Type 0) (Q : B → Type 0) (m : Outcome A) (k : A → Outcome B)
    → Returns P m
    → ((a : A) → P a → Returns Q (k a))
    → Returns Q (m >>= k)
Returns-bind P Q aborted k h l = absurd h
Returns-bind P Q undefined k h l = absurd h
Returns-bind P Q unfinished k h l = absurd h
Returns-bind P Q (returned a) k h l = l a h

pub Returns-weaken {ℓ} :
    {A : Type ℓ} (P Q : A → Type 0) (m : Outcome A)
    → ((a : A) → P a → Q a)
    → Returns P m
    → Returns Q m
Returns-weaken P Q aborted w h = h
Returns-weaken P Q undefined w h = h
Returns-weaken P Q unfinished w h = h
Returns-weaken P Q (returned a) w h = w a h

-- The counts are those of the table, and the user in slot `i` is in the state `s`.
pub record IsIn (gone i : ℕ) (s : UserState) (pl : Platoon) : Type 0 where
  pub counted : IsCounted gone pl
  pub in_table : i < maxusers
  pub user : User
  pub here : pl.users i ≡ some user
  pub its_state : user.state ≡ s

abbrev pub IsCountable : UserState → Type 0
IsCountable uninit = ⊥
IsCountable _ = Unit {0}

pub put-here : (pl : Platoon) (i : ℕ) (u : User) → (put_user pl i (some u)).users i ≡ some u
put-here pl i u = if_then (i == i) (some u) (pl.users i) (eq→== i i refl)

pub with_user-here {ℓ} :
    {A : Type ℓ} (pl : Platoon) (i : ℕ) (u : User) (f : User → Outcome A)
    → pl.users i ≡ some u
    → with_user pl i f ≡ f u
with_user-here pl i u f h = rw (with_user, h) refl

moved_to-IsIn :
    (gone i : ℕ) (pl : Platoon) (w : World) (u : User) (newstate : UserState)
    → IsCounted gone pl
    → i < maxusers
    → pl.users i ≡ some u
    → Returns (IsIn gone i newstate) (moved_to w pl i u newstate)
moved_to-IsIn gone i pl w u newstate c h at =
    let v : User = record u { state = newstate } in
    let (counts, run, c') = IsCounted-moved gone i pl u v c h at in
    rw run (record {
      counted = record { alive = c'.alive; ended = c'.ended };
      in_table = h;
      user = v;
      here = put-here (record pl { in_state = counts }) i v;
      its_state = refl;
    })

goto_state_of-IsIn :
    (gone i : ℕ) (pl : Platoon) (w : World) (u : User) (newstate : UserState)
    → IsCounted gone pl
    → i < maxusers
    → pl.users i ≡ some u
    → IsCountable newstate
    → Returns (IsIn gone i newstate) (goto_state_of w pl i u newstate)
goto_state_of-IsIn gone i pl w u uninit c h at ok = absurd ok
goto_state_of-IsIn gone i pl w u newstate c h at ok = moved_to-IsIn gone i pl w u newstate c h at

-- `gotoState` keeps the counts those of the table.
pub goto_state-IsIn :
    (gone i : ℕ) (pl : Platoon) (w : World) (s newstate : UserState)
    → IsIn gone i s pl
    → IsCountable newstate
    → Returns (IsIn gone i newstate) (goto_state w pl i newstate)
unfolding goto_state
goto_state-IsIn gone i pl w s newstate v ok =
    subst (Returns (IsIn gone i newstate)) (sym (with_user-here pl i v.user _ v.here))
      (goto_state_of-IsIn gone i pl w v.user newstate v.counted v.in_table v.here ok)

-- `stop` too.
pub stop-IsIn :
    (gone i : ℕ) (pl : Platoon) (w : World) (s : UserState)
    → IsIn gone i s pl
    → Returns (IsIn gone i stopped) (stop w pl i)
unfolding stop
stop-IsIn gone i pl w s v =
    Returns-bind (IsIn gone i stopped) (IsIn gone i stopped) (goto_state w pl i stopped) _
      (goto_state-IsIn gone i pl w s stopped v tt)
      (λ q x. record {
        counted = record { alive = x.counted.alive; ended = x.counted.ended };
        in_table = x.in_table;
        user = x.user;
        here = x.here;
        its_state = x.its_state;
      })

-- A change of a user that keeps its state.
pub put_user-IsIn :
    (gone i : ℕ) (pl : Platoon) (s : UserState) (v : User)
    → IsIn gone i s pl
    → v.state ≡ s
    → IsIn gone i s (put_user pl i (some v))
put_user-IsIn gone i pl s v x same =
    let slot = λ (k : ℕ). census-put maxusers i k pl.users (some v) x.in_table in
    let was = λ (k : ℕ).
      ap (λ o. weight o k) x.here
      ∙ ap (λ t. if index t == k then 1 else 0) (x.its_state ∙ sym same) in
    record {
      counted = record {
        alive = λ k p l. omega (arith, slot k, was k, x.counted.alive k p l);
        ended = omega (arith, slot 7, was 7, x.counted.ended);
      };
      in_table = x.in_table;
      user = v;
      here = put-here pl i v;
      its_state = same;
    }
