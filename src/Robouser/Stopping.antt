-- ===== src/Robouser/Stopping.antt =====
-- dkftpbench-0.45/robouser.cc and Platoon.cc: a user that is told of an error twice.
use c10kcode.Common.{
  ℕ, ◌≡◌, ◌≢◌, refl, sym, ◌∙◌, ap, subst, none, some, List, [], ◌∷◌, ◌++◌, ◌==◌, if_else, if_then,
  ne→==, eq→==,
}
use c10kcode.CText.{ℤ}
use c10kcode.Pipe.{Outcome, aborted, undefined, unfinished, returned, ◌>>=◌}
use c10kcode.Platoon.{UserState, stopped, User, Platoon, put_user}
use c10kcode.Platoon.Census.{IsCounted-moved}
use c10kcode.Platoon.Fleet.{reap_all, reap}
use c10kcode.Robouser.{Calls, World, moved_to, with_user, goto_state, stop, cmd_loop, ftp_cmd_done}
use c10kcode.Robouser.Quiet.{Returns, Returns-bind, IsIn, with_user-here, put-here}

-- The user in slot `i` is in the table, and the list of the dead holds the numbers `dead`.
record HasDead (gone i : ℕ) (dead : List ℕ) (pl : Platoon) : Type 0 where
  state : UserState
  is_in : IsIn gone i state pl
  its_dead : pl.dead ≡ dead

moved_to-HasDead :
    (gone i : ℕ) (dead : List ℕ) (pl : Platoon) (w : World) (s : UserState) (v : IsIn gone i s pl)
    → pl.dead ≡ dead
    → Returns (HasDead gone i dead) (moved_to w pl i v.user stopped)
moved_to-HasDead gone i dead pl w s v d =
    let t : User = record v.user { state = stopped } in
    let (counts, run, c) = IsCounted-moved gone i pl v.user t v.counted v.in_table v.here in
    rw run (record {
      state = stopped;
      is_in = record {
        counted = record { alive = c.alive; ended = c.ended };
        in_table = v.in_table;
        user = t;
        here = put-here (record pl { in_state = counts }) i t;
        its_state = refl;
      };
      its_dead = d;
    })

stop-HasDead :
    (gone i : ℕ) (dead : List ℕ) (pl : Platoon) (w : World)
    → HasDead gone i dead pl
    → Returns (HasDead gone i (dead ++ (i ∷ []))) (stop w pl i)
unfolding stop goto_state
stop-HasDead gone i dead pl w v =
    Returns-bind (HasDead gone i dead) (HasDead gone i (dead ++ (i ∷ [])))
      (goto_state w pl i stopped) _
      (subst (Returns (HasDead gone i dead)) (sym (with_user-here pl i v.is_in.user _ v.is_in.here))
        (moved_to-HasDead gone i dead pl w v.state v.is_in v.its_dead))
      (λ q x. record {
        state = x.state;
        is_in = record {
          counted = record { alive = x.is_in.counted.alive; ended = x.is_in.counted.ended };
          in_table = x.is_in.in_table;
          user = x.is_in.user;
          here = x.is_in.here;
          its_state = x.is_in.its_state;
        };
        its_dead = ap (λ l. l ++ (i ∷ [])) x.its_dead;
      })

deleted_again : (i : ℕ) (pl : Platoon) → pl.users i ≡ none → reap_all (i ∷ []) pl ≡ undefined
unfolding reap_all
deleted_again i pl h = rw (with_user, h) refl

-- A user that is twice in the list is deleted twice.
reap_all-twice :
    (i : ℕ) (pl : Platoon) (u : User) → pl.users i ≡ some u → reap_all (i ∷ i ∷ []) pl ≡ undefined
unfolding reap_all
reap_all-twice i pl u here =
    let p : Platoon = record pl { dead = i ∷ [] } in
    let q : Platoon = put_user p i none in
    ap (λ m. m >>= reap_all (i ∷ [])) (with_user-here p i u _ here)
    ∙ deleted_again i q (if_then (i == i) none (pl.users i) (eq→== i i refl))

-- A user that is told of two errors, in two calls of `ftpCmdDone`, before the dead are reaped.
abbrev pub two_errors : Calls → World → Platoon → ℕ → ℕ → ℕ → ℤ → Outcome Platoon
two_errors c w pl i e1 e2 status =
    ftp_cmd_done c w pl i e1 status >>= λ q. ftp_cmd_done c w q i e2 status >>= reap

error_stops :
    (c : Calls) (w : World) (pl : Platoon) (i xerr : ℕ) (status : ℤ)
    → xerr ≢ 0
    → ftp_cmd_done c w pl i xerr status ≡ stop w pl i
unfolding ftp_cmd_done
error_stops c w pl i xerr status h =
    if_else (xerr == 0) (cmd_loop c w status 2 pl i) (stop w pl i) (ne→== xerr 0 h)

-- Behind two stops the user is reaped twice.
reap-twice : (gone i : ℕ) (pl : Platoon) → HasDead gone i (i ∷ i ∷ []) pl → reap pl ≡ undefined
unfolding reap
reap-twice gone i pl v = rw v.its_dead (reap_all-twice i pl v.is_in.user v.is_in.here)

of_returned :
    {P : Platoon → Type 0} (m : Outcome Platoon) (f : Platoon → Outcome Platoon)
    → Returns P m
    → ((q : Platoon) → P q → f q ≡ undefined)
    → m >>= f ≡ undefined
of_returned aborted f h k = absurd h
of_returned undefined f h k = absurd h
of_returned unfinished f h k = absurd h
of_returned (returned q) f h k = k q h

-- A user of the table that is told of an error again before it is reaped is put into the list of
-- the dead again, though it has stopped: where nobody was in the list before, and the counts were
-- those of the table, the next `reap` deletes it twice, which is undefined.
pub two_errors_lem :
    (c : Calls) (w : World) (pl : Platoon) (gone i e1 e2 : ℕ) (s : UserState) (status : ℤ)
    → IsIn gone i s pl
    → pl.dead ≡ []
    → e1 ≢ 0
    → e2 ≢ 0
    → two_errors c w pl i e1 e2 status ≡ undefined
two_errors_lem c w pl gone i e1 e2 s status v none_dead h1 h2 =
    ap (λ m. m >>= λ q. ftp_cmd_done c w q i e2 status >>= reap) (error_stops c w pl i e1 status h1)
    ∙ of_returned (stop w pl i) _
        (stop-HasDead gone i [] pl w (record { state = s; is_in = v; its_dead = none_dead }))
        (λ q x.
          ap (λ m. m >>= reap) (error_stops c w q i e2 status h2)
          ∙ of_returned (stop w q i) reap (stop-HasDead gone i (i ∷ []) q w x)
              (λ r y. reap-twice gone i r y))
