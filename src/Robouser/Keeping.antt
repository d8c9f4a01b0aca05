-- ===== src/Robouser/Keeping.antt =====
-- dkftpbench-0.45/robouser.cc: calls that may fail, and what they leave where they return.
use c10kcode.Common.{ℕ, ◌⊎◌}
use c10kcode.Pipe.{Outcome, aborted, undefined, unfinished, returned, ◌>>=◌}
use c10kcode.Platoon.{UserState, Platoon}
use c10kcode.Robouser.{Calls}
use c10kcode.Robouser.Quiet.{Returns, IsIn}

-- The ways of not returning.
pub data Failure : Type 0 where
  aborts misbehaves runs_on : Failure

abbrev pub IsFailure {ℓ} : {A : Type ℓ} → Failure → Outcome A → Type 0
IsFailure aborts aborted = Unit {0}
IsFailure misbehaves undefined = Unit {0}
IsFailure runs_on unfinished = Unit {0}
IsFailure _ _ = ⊥

-- A call fails only in ways that `F` allows, and what it returns satisfies `P`.
abbrev pub Keeps {ℓ} : {A : Type ℓ} → (Failure → Type 0) → (A → Type 0) → Outcome A → Type 0
Keeps F P aborted = F aborts
Keeps F P undefined = F misbehaves
Keeps F P unfinished = F runs_on
Keeps F P (returned a) = P a

abbrev pub Any : Failure → Type 0
Any b = Unit {0}

pub Keeps-bind {ℓ κ} :
    {A : Type ℓ} {B : Type κ} (F : Failure → Type 0) (P : A → Type 0) (Q : B → Type 0)
    (m : Outcome A) (k : A → Outcome B)
    → Keeps F P m
    → ((a : A) → P a → Keeps F Q (k a))
    → Keeps F Q (m >>= k)
Keeps-bind F P Q aborted k h l = h
Keeps-bind F P Q undefined k h l = h
Keeps-bind F P Q unfinished k h l = h
Keeps-bind F P Q (returned a) k h l = l a h

pub Keeps-weaken {ℓ} :
    {A : Type ℓ} (F : Failure → Type 0) (P Q : A → Type 0) (m : Outcome A)
    → ((a : A) → P a → Q a)
    → Keeps F P m
    → Keeps Any Q m
Keeps-weaken F P Q aborted w h = tt
Keeps-weaken F P Q undefined w h = tt
Keeps-weaken F P Q unfinished w h = tt
Keeps-weaken F P Q (returned a) w h = w a h

-- A call that returns keeps to everything.
pub Returns-Keeps {ℓ} :
    {A : Type ℓ} (F : Failure → Type 0) (P : A → Type 0) (m : Outcome A) → Returns P m → Keeps F P m
Returns-Keeps F P aborted h = absurd h
Returns-Keeps F P undefined h = absurd h
Returns-Keeps F P unfinished h = absurd h
Returns-Keeps F P (returned a) h = h

-- The failures that are seen are those that are allowed.
pub Keeps-seen {ℓ} :
    {A : Type ℓ} (F : Failure → Type 0) (P : A → Type 0) (m : Outcome A)
    → ((b : Failure) → IsFailure b m → F b)
    → Keeps Any P m
    → Keeps F P m
Keeps-seen F P aborted f h = f aborts tt
Keeps-seen F P undefined f h = f misbehaves tt
Keeps-seen F P unfinished f h = f runs_on tt
Keeps-seen F P (returned a) f h = h

-- More failures may be allowed.
pub Keeps-allow {ℓ} :
    {A : Type ℓ} (F G : Failure → Type 0) (P : A → Type 0) (m : Outcome A)
    → ((b : Failure) → F b → G b)
    → Keeps F P m
    → Keeps G P m
Keeps-allow F G P aborted f h = f aborts h
Keeps-allow F G P undefined f h = f misbehaves h
Keeps-allow F G P unfinished f h = f runs_on h
Keeps-allow F G P (returned a) f h = h

-- The user in slot `i` is in the table, in some state, and the counts are those of the table.
abbrev pub IsSomewhere : ℕ → ℕ → Platoon → Type 0
IsSomewhere gone i q = (t : UserState) × IsIn gone i t q

-- Where the call of a user of the table returns, the user is in the table, in whatever state, and the
-- counts are those of the table, if they were before.
abbrev pub KeepsUser : (Platoon → ℕ → Outcome (ℕ × Platoon)) → Type 0
KeepsUser call =
    (gone i : ℕ) (s : UserState) (pl : Platoon)
    → IsIn gone i s pl
    → Keeps Any (λ (r : ℕ × Platoon). IsSomewhere gone i r.1) (call pl i)

pub record KeepUsers (c : Calls) : Type 0 where
  pub connect_keeps : KeepsUser c.call_connect
  pub login_keeps : KeepsUser c.call_login
  pub type_keeps : KeepsUser c.call_type
  pub get_keeps : KeepsUser c.call_get

-- Some call fails in this way.
abbrev pub FailsAs : Calls → Failure → Type 0
FailsAs c b =
    (pl : Platoon) × ((i : ℕ) × (IsFailure b (c.call_connect pl i)
        ⊎ (IsFailure b (c.call_login pl i)
            ⊎ (IsFailure b (c.call_type pl i) ⊎ IsFailure b (c.call_get pl i)))))
