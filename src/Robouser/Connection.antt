-- ===== src/Robouser/Connection.antt =====
-- dkftpbench-0.45/robouser.cc: the user's calls of its own FTP pipe, which may call the user back.
use c10kcode.Common.{
  ℕ, ◌≡◌, zero, suc, Bool, true, false, ◌&&◌, some, List, [], ◌∷◌, if◌then◌else◌, if_both, subst,
  sym, ◌==◌,
}
use c10kcode.CText.{ℤ, pos, int_eq}
use c10kcode.Pipe.{
  Pipe, Os, App, Effect, told, one_less, Outcome, aborted, undefined, unfinished, returned, ◌>>=◌,
}
use c10kcode.Pipe.Ephemeral
use c10kcode.Pipe.Requests
use c10kcode.Platoon.{UserState, stopped, User, Platoon, put_user}
use c10kcode.Robouser.{Calls, World, with_user, ftp_cmd_done}
use c10kcode.Robouser.Quiet.{IsIn, put_user-IsIn, with_user-here}
use c10kcode.Robouser.Keeping.{
  Keeps, Any, Keeps-bind, Keeps-weaken, IsSomewhere, KeepsUser, KeepUsers, FailsAs,
}
use c10kcode.Robouser.Cycle.{CallFrom, ftp_cmd_done-Leads}

-- What the platoon's settings give for the calls.
pub record Settings : Type 0 where
  pub servername : List ℕ
  pub username : List ℕ
  pub passwd : List ℕ
  pub filename : List ℕ

-- What `ftpCmdDone` does to the user in slot `i`, told of an error and a status.
abbrev pub Back : Type 0
Back = Platoon → ℕ → ℕ → ℤ → Outcome Platoon

-- The pipe calls its user as the last thing it does. Seen from the pipe, the call stops there: it is
-- marked by `m_in_ftpCmdDone`, which stays 1 behind the pipe's call, and what the user is told is the
-- last effect of the log. The user's part is done by `through`.
abbrev pub suspended : App
suspended xerr status text p = returned (record p { in_cmd_done = pos 2 })

abbrev pub is_suspended : Pipe → Pipe → Bool
is_suspended before after = int_eq before.in_cmd_done (pos 0) && int_eq after.in_cmd_done (pos 1)

abbrev pub last_told : List Effect → ℕ × ℤ
last_told (told xerr status ∷ log) = (xerr, status)
last_told _ = (0, pos 0)

-- `m_in_ftpCmdDone--`, behind the user's part.
abbrev pub leave : Platoon → ℕ → Outcome Platoon
leave pl i = with_user pl i (λ u. returned (
    put_user pl i
      (some (record u { fcp = record u.fcp { in_cmd_done = one_less u.fcp.in_cmd_done } }))))

abbrev pub called_back : Back → Platoon → ℕ → ℕ × ℤ → Outcome Platoon
called_back back pl i (xerr, status) = back pl i xerr status >>= λ q. leave q i

-- A call `f` of the pipe of the user in slot `i`.
abbrev pub through : Back → (Pipe → Outcome (ℕ × Pipe)) → Platoon → ℕ → Outcome (ℕ × Platoon)
through back f pl i = with_user pl i (λ u. f u.fcp >>= λ r.
    let q = put_user pl i (some (record u { fcp = r.1 })) in
    if is_suspended u.fcp r.1
    then (called_back back q i (last_told r.1.log) >>= λ t. returned (r.0, t))
    else returned (r.0, q))

abbrev pub calls_with : Os → Settings → Back → Calls
calls_with os s back = record {
  call_connect = through back (λ p. Ephemeral.connect os p s.servername);
  call_login = through back (λ p. Requests.login os suspended p s.username s.passwd);
  call_type = through back (λ p. Requests.set_type os suspended p (73 ∷ []));
  call_get = through back (λ p. Requests.get os suspended p s.filename true);
}

-- The calls of a user; the number is how deep calls may call back, each inside the other.
unfoldable pub pipe_calls : World → Os → Settings → ℕ → Calls
pipe_calls w os s zero = calls_with os s (λ pl i xerr status. unfinished)
pipe_calls w os s (suc depth) = calls_with os s (ftp_cmd_done (pipe_calls w os s depth) w)

-- A call back leaves the user somewhere in the table.
abbrev KeepsBack : Back → Type 0
KeepsBack back =
    (gone i xerr : ℕ) (s : UserState) (status : ℤ) (pl : Platoon)
    → IsIn gone i s pl
    → Keeps Any (IsSomewhere gone i) (back pl i xerr status)

-- Nothing is asked of the pipe's call.
anything : (m : Outcome (ℕ × Pipe)) → Keeps Any (λ r. Unit {0}) m
anything aborted = tt
anything undefined = tt
anything unfinished = tt
anything (returned r) = tt

leave-Keeps :
    (gone i : ℕ) (s : UserState) (pl : Platoon)
    → IsIn gone i s pl
    → Keeps Any (IsSomewhere gone i) (leave pl i)
leave-Keeps gone i s pl v =
    let u : User = v.user in
    let left : User = record u {
      fcp = record u.fcp { in_cmd_done = one_less u.fcp.in_cmd_done };
    } in
    subst (Keeps Any (IsSomewhere gone i)) (sym (with_user-here pl i u _ v.here))
      (s, put_user-IsIn gone i pl s left v v.its_state)

called_back-Keeps :
    (back : Back) (gone i : ℕ) (s : UserState) (pl : Platoon) (t : ℕ × ℤ)
    → KeepsBack back
    → IsIn gone i s pl
    → Keeps Any (IsSomewhere gone i) (called_back back pl i t)
called_back-Keeps back gone i s pl (xerr, status) k v =
    Keeps-bind Any (IsSomewhere gone i) (IsSomewhere gone i) (back pl i xerr status) _
      (k gone i xerr s status pl v) (λ q (t, x). leave-Keeps gone i t q x)

through-KeepsUser :
    (back : Back) (f : Pipe → Outcome (ℕ × Pipe)) → KeepsBack back → KeepsUser (through back f)
through-KeepsUser back f k gone i s pl v =
    let Kept = λ (r : ℕ × Platoon). IsSomewhere gone i r.1 in
    let u : User = v.user in
    subst (Keeps Any Kept) (sym (with_user-here pl i u _ v.here)) (
      Keeps-bind Any (λ r. Unit {0}) Kept (f u.fcp) _ (anything (f u.fcp))
        (λ r _.
          let q : Platoon = put_user pl i (some (record u { fcp = r.1 })) in
          let x : IsIn gone i s q =
            put_user-IsIn gone i pl s (record u { fcp = r.1 }) v v.its_state in
          if_both (Keeps Any Kept) (is_suspended u.fcp r.1) _ _
            (λ e.
              Keeps-bind Any (IsSomewhere gone i) Kept (called_back back q i (last_told r.1.log)) _
                (called_back-Keeps back gone i s q (last_told r.1.log) k x) (λ t y. y))
            (λ e. (s, x))))

calls_with-KeepUsers :
    (os : Os) (s : Settings) (back : Back) → KeepsBack back → KeepUsers (calls_with os s back)
calls_with-KeepUsers os s back k = record {
  connect_keeps = through-KeepsUser back (λ p. Ephemeral.connect os p s.servername) k;
  login_keeps = through-KeepsUser back (λ p. Requests.login os suspended p s.username s.passwd) k;
  type_keeps = through-KeepsUser back (λ p. Requests.set_type os suspended p (73 ∷ [])) k;
  get_keeps = through-KeepsUser back (λ p. Requests.get os suspended p s.filename true) k;
}

somewhere :
    (gone i : ℕ) (s : UserState) (b : Bool) (q : Platoon)
    → (if b then CallFrom gone i s else IsIn gone i stopped) q
    → IsSomewhere gone i q
somewhere gone i s true q (t, l, x) = (t, x)
somewhere gone i s false q x = (stopped, x)

-- The calls of the pipe keep their user in the table and the counts right, whatever the system answers
-- and however they call back.
pub pipe_calls-KeepUsers :
    (w : World) (os : Os) (s : Settings) (depth : ℕ) → KeepUsers (pipe_calls w os s depth)
unfolding pipe_calls
pipe_calls-KeepUsers w os s zero =
    calls_with-KeepUsers os s (λ pl i xerr status. unfinished) (λ gone i xerr t status pl v. tt)
pipe_calls-KeepUsers w os s (suc depth) =
    let inner = pipe_calls w os s depth in
    calls_with-KeepUsers os s (ftp_cmd_done inner w) (λ gone i xerr t status pl v.
      Keeps-weaken (λ b. (xerr ≡ 0) × FailsAs inner b) _ (IsSomewhere gone i)
        (ftp_cmd_done inner w pl i xerr status) (somewhere gone i t (xerr == 0))
        (ftp_cmd_done-Leads gone i w inner pl t xerr status (pipe_calls-KeepUsers w os s depth) v))
