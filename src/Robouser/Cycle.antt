-- ===== src/Robouser/Cycle.antt =====
-- dkftpbench-0.45/robouser.cc: `ftpCmdDone` takes a user from one state of its life to the next.
use c10kcode.Common.{
  ℕ, sym, subst, Bool, true, false, some, ◌==◌, if◌then◌else◌, if_both, Bool-cases, inl, inr, ◌≡◌,
  ==→eq,
}
use c10kcode.CText.{ℤ}
use c10kcode.FtpProto.Replies.{ok2}
use c10kcode.Pipe.{Outcome, unfinished, returned}
use c10kcode.Platoon.{
  UserState, uninit, connect, connecting, start_type, finish_type, get, getting, stopped, User,
  Platoon, put_user,
}
use c10kcode.Robouser.{
  Calls, World, goto_state, stop, stops, goes, calling, start_fetch, was_slow, in_state_done,
  cmd_round, cmd_loop, ftp_cmd_done,
}
use c10kcode.Robouser.Quiet.{
  IsIn, IsCountable, goto_state-IsIn, stop-IsIn, put_user-IsIn, with_user-here,
}
use c10kcode.Robouser.Keeping.{
  Failure, IsFailure, Keeps, Any, Keeps-bind, Keeps-allow, Keeps-seen, Returns-Keeps, IsSomewhere,
  KeepUsers, FailsAs,
}

-- The steps of a user's life that one call of `ftpCmdDone` makes.
pub data Leads : UserState → UserState → Type 0 where
  logs_in : Leads connect connecting
  asks_type : Leads connecting finish_type
  asks_type_again : Leads start_type finish_type
  fetches : Leads finish_type getting
  fetches_again : Leads get getting
  fetches_next : Leads getting getting
  gives_up : (s : UserState) → Leads s stopped
  rests : Leads uninit uninit

-- The states that the loop only passes through.
data Passes : UserState → UserState → Type 0 where
  to_type : Passes connecting start_type
  to_get : Passes finish_type get
  to_next : Passes getting get

passed : {s t u : UserState} → Passes s t → Leads t u → Leads s u
passed to_type asks_type_again = asks_type
passed to_type (gives_up _) = gives_up connecting
passed to_get fetches_again = fetches
passed to_get (gives_up _) = gives_up finish_type
passed to_next fetches_again = fetches_next
passed to_next (gives_up _) = gives_up getting

no_more : {s t u : UserState} → Passes s t → Passes t u → ⊥
no_more to_type p = elim p [ ]
no_more to_get p = elim p [ ]
no_more to_next p = elim p [ ]

-- Where a round of the loop leads.
abbrev RoundFrom : ℕ → ℕ → UserState → Bool × Platoon → Type 0
RoundFrom gone i s (false, q) = (t : UserState) × Leads s t × IsIn gone i t q
RoundFrom gone i s (true, q) = (t : UserState) × Passes s t × IsIn gone i t q

-- Where a call leads.
abbrev pub CallFrom : ℕ → ℕ → UserState → Platoon → Type 0
CallFrom gone i s q = (t : UserState) × Leads s t × IsIn gone i t q

module _ (gone i : ℕ) (w : World) (c : Calls) where
  stops-RoundFrom :
      (s : UserState) (from : UserState) (pl : Platoon)
      → IsIn gone i s pl
      → Keeps (FailsAs c) (RoundFrom gone i from) (stops w pl i)
  stops-RoundFrom s from pl v =
      Keeps-bind (FailsAs c) (IsIn gone i stopped) (RoundFrom gone i from) (stop w pl i) _
        (Returns-Keeps (FailsAs c) (IsIn gone i stopped) (stop w pl i) (stop-IsIn gone i pl w s v))
        (λ q x. (stopped, gives_up from, x))

  goes-RoundFrom :
      (s from t : UserState) (again : Bool) (pl : Platoon)
      → IsIn gone i s pl
      → IsCountable t
      → ((q : Platoon) → IsIn gone i t q → RoundFrom gone i from (again, q))
      → Keeps (FailsAs c) (RoundFrom gone i from) (goes w pl i t again)
  goes-RoundFrom s from t again pl v ok k =
      Keeps-bind (FailsAs c) (IsIn gone i t) (RoundFrom gone i from) (goto_state w pl i t) _
        (Returns-Keeps (FailsAs c) (IsIn gone i t) (goto_state w pl i t)
          (goto_state-IsIn gone i pl w s t v ok))
        k

  calling-RoundFrom :
      (from : UserState) (call : Outcome (ℕ × Platoon)) (next : Platoon → Outcome (Bool × Platoon))
      → ((b : Failure) → IsFailure b call → FailsAs c b)
      → Keeps Any (λ (r : ℕ × Platoon). IsSomewhere gone i r.1) call
      → ((q : Platoon) (t : UserState)
          → IsIn gone i t q
          → Keeps (FailsAs c) (RoundFrom gone i from) (next q))
      → Keeps (FailsAs c) (RoundFrom gone i from) (calling w i call next)
  calling-RoundFrom from call next seen h k =
      Keeps-bind (FailsAs c) (λ (r : ℕ × Platoon). IsSomewhere gone i r.1) (RoundFrom gone i from)
        call _ (Keeps-seen (FailsAs c) (λ (r : ℕ × Platoon). IsSomewhere gone i r.1) call seen h)
        (λ r (t, x).
          if_both (Keeps (FailsAs c) (RoundFrom gone i from)) (r.0 == 0) _ _ (λ e. k r.1 t x)
            (λ e. stops-RoundFrom t from r.1 x))

  start_fetch-RoundFrom :
      (pl : Platoon) (t : UserState)
      → IsIn gone i t pl
      → Keeps (FailsAs c) (RoundFrom gone i get) (start_fetch w pl i)
  start_fetch-RoundFrom pl t v =
      let u : User = record v.user { started_at = w.now; bytes_fetched = 0; reads = 0 } in
      subst (Keeps (FailsAs c) (RoundFrom gone i get)) (sym (with_user-here pl i v.user _ v.here)) (
        goes-RoundFrom t get getting false (put_user pl i (some u))
          (put_user-IsIn gone i pl t u v v.its_state) tt (λ q x. (getting, fetches_again, x)))

  in_state_done-RoundFrom :
      (status : ℤ) (pl : Platoon) (u : User) (s : UserState)
      → KeepUsers c
      → IsIn gone i s pl
      → Keeps (FailsAs c) (RoundFrom gone i s) (in_state_done c w status pl i u s)
  in_state_done-RoundFrom status pl u connect a v =
      calling-RoundFrom connect (c.call_connect pl i) _ (λ b f. (pl, (i, inl f)))
        (a.connect_keeps gone i connect pl v)
        (λ q s x.
          calling-RoundFrom connect (c.call_login q i) _ (λ b f. (q, (i, inr (inl f))))
            (a.login_keeps gone i s q x)
            (λ r t y.
              goes-RoundFrom t connect connecting false r y tt (λ q' z. (connecting, logs_in, z))))
  in_state_done-RoundFrom status pl u connecting a v =
      if_both (Keeps (FailsAs c) (RoundFrom gone i connecting)) (ok2 status) _ _
        (λ e.
          goes-RoundFrom connecting connecting start_type true pl v tt
            (λ q x. (start_type, to_type, x)))
        (λ e. stops-RoundFrom connecting connecting pl v)
  in_state_done-RoundFrom status pl u start_type a v =
      calling-RoundFrom start_type (c.call_type pl i) _ (λ b f. (pl, (i, inr (inr (inl f)))))
        (a.type_keeps gone i start_type pl v)
        (λ q t x.
          goes-RoundFrom t start_type finish_type false q x tt
            (λ r y. (finish_type, asks_type_again, y)))
  in_state_done-RoundFrom status pl u finish_type a v =
      if_both (Keeps (FailsAs c) (RoundFrom gone i finish_type)) (ok2 status) _ _
        (λ e. goes-RoundFrom finish_type finish_type get true pl v tt (λ q x. (get, to_get, x)))
        (λ e. stops-RoundFrom finish_type finish_type pl v)
  in_state_done-RoundFrom status pl u get a v =
      calling-RoundFrom get (c.call_get pl i) _ (λ b f. (pl, (i, inr (inr (inr f)))))
        (a.get_keeps gone i get pl v) (λ q t x. start_fetch-RoundFrom q t x)
  in_state_done-RoundFrom status pl u getting a v =
      if_both (Keeps (FailsAs c) (RoundFrom gone i getting)) (ok2 status) _ _
        (λ e.
          if_both (Keeps (FailsAs c) (RoundFrom gone i getting)) (was_slow w u) _ _
            (λ slow. stops-RoundFrom getting getting pl v)
            (λ fast. goes-RoundFrom getting getting get true pl v tt (λ q x. (get, to_next, x))))
        (λ e. stops-RoundFrom getting getting pl v)
  in_state_done-RoundFrom status pl u stopped a v = (stopped, gives_up stopped, v)
  in_state_done-RoundFrom status pl u uninit a v = (uninit, rests, v)

  cmd_round-RoundFrom :
      (status : ℤ) (pl : Platoon) (s : UserState)
      → KeepUsers c
      → IsIn gone i s pl
      → Keeps (FailsAs c) (RoundFrom gone i s) (cmd_round c w status pl i)
  unfolding cmd_round
  cmd_round-RoundFrom status pl s a v =
      subst (Keeps (FailsAs c) (RoundFrom gone i s)) (sym (with_user-here pl i v.user _ v.here)) (
        subst (λ t. Keeps (FailsAs c) (RoundFrom gone i s) (in_state_done c w status pl i v.user t))
          (sym v.its_state) (in_state_done-RoundFrom status pl v.user s a v))

  -- A second round after one that goes on ends the loop.
  second-CallFrom :
      (s t : UserState) (r : Bool × Platoon)
      → Passes s t
      → RoundFrom gone i t r
      → Keeps
          (FailsAs c)
          (CallFrom gone i s)
          (elim r.0 [ true ↦ unfinished | false ↦ returned r.1 ])
  second-CallFrom s t (false, q) p (u, l, v) = (u, passed p l, v)
  second-CallFrom s t (true, q) p (u, p', v) = absurd (no_more p p')

  cmd_loop-last :
      (status : ℤ) (pl : Platoon) (s t : UserState)
      → KeepUsers c
      → Passes s t
      → IsIn gone i t pl
      → Keeps (FailsAs c) (CallFrom gone i s) (cmd_loop c w status 1 pl i)
  unfolding cmd_loop
  cmd_loop-last status pl s t a p v =
      Keeps-bind (FailsAs c) (RoundFrom gone i t) (CallFrom gone i s) (cmd_round c w status pl i) _
        (cmd_round-RoundFrom status pl t a v) (λ r x. second-CallFrom s t r p x)

  first-CallFrom :
      (status : ℤ) (s : UserState) (r : Bool × Platoon)
      → KeepUsers c
      → RoundFrom gone i s r
      → Keeps
          (FailsAs c)
          (CallFrom gone i s)
          (elim r.0 [ true ↦ cmd_loop c w status 1 r.1 i | false ↦ returned r.1 ])
  first-CallFrom status s (false, q) a x = x
  first-CallFrom status s (true, q) a (t, p, v) = cmd_loop-last status q s t a p v

  -- For a user of the table, and counts that are those of the table, `ftpCmdDone` takes the user one
  -- step on in its life, or stops it, and the counts are those of the table again. Its loop ends
  -- within two rounds. It fails only in a way in which a call of the connection fails: no count
  -- falls below 0. Where it is told of an error it returns, and has stopped the user, whatever the
  -- state. The calls of the connection may put the user in any state, as a call back of
  -- `ftpCmdDone` does; where they return, the user is in the table, with the counts right.
  pub ftp_cmd_done-Leads :
      (pl : Platoon) (s : UserState) (xerr : ℕ) (status : ℤ)
      → KeepUsers c
      → IsIn gone i s pl
      → Keeps
          (λ b. (xerr ≡ 0) × FailsAs c b)
          (if xerr == 0 then CallFrom gone i s else IsIn gone i stopped)
          (ftp_cmd_done c w pl i xerr status)
  unfolding ftp_cmd_done cmd_loop
  ftp_cmd_done-Leads pl s xerr status a v =
      let F : Failure → Type 0 = λ b. (xerr ≡ 0) × FailsAs c b in
      elim (Bool-cases (xerr == 0)) [
        | inl fine ↦
            rw (ftp_cmd_done, fine)
              (Keeps-allow (FailsAs c) F (CallFrom gone i s) _ (λ b f. (==→eq xerr 0 fine, f))
                (Keeps-bind (FailsAs c) (RoundFrom gone i s) (CallFrom gone i s)
                  (cmd_round c w status pl i) _ (cmd_round-RoundFrom status pl s a v)
                  (λ r x. first-CallFrom status s r a x)))
        | inr bad ↦
            rw (ftp_cmd_done, bad)
              (Returns-Keeps F (IsIn gone i stopped) (stop w pl i) (stop-IsIn gone i pl w s v))
      ]
