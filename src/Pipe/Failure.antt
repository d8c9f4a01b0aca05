-- ===== src/Pipe/Failure.antt =====
-- dkftpbench-0.45/ftp_client_pipe.cc: how an error of a connection comes to the application.
use c10kcode.Common.{
  ℕ, zero, suc, ◌+◌, ◌++◌, if_both, arith, ◌≡◌, ◌≢◌, refl, sym, ◌∙◌, ap, Bool, true, false, ◌&&◌,
  ◌||◌, not, Option, none, some, List, ◌∷◌, ◌==◌, if◌then◌else◌, if_then, if_else, inl, inr,
  Bool-cases, ne→==, ealready,
}
use c10kcode.CText.{ℤ, pos, int_eq}
use c10kcode.FtpProto.{Proto, get_status}
use c10kcode.FtpProto
use c10kcode.Pipe.{
  Pipe, Os, App, State, idle, getting, sleeping, putting, told, one_less, pollin, pollout, Outcome,
  aborted, undefined, unfinished, returned, ◌>>=◌, from_proto, masked, is_some, drop_fd,
  call_cmd_done, Effect,
}
use c10kcode.FtpProto.Replies.{ok2}
use c10kcode.Nbbio.{is_empty, is_full}
use c10kcode.Pipe.Data.{is_getting, is_sleeping, is_putting}
use c10kcode.Pipe.Closing.{ending}
use c10kcode.Pipe.Notify.{
  handle, without_failed, control_mask, data_mask, ask_for, update_masks, tell_status, tell_app,
  conclude, notify,
}

-- The poller takes every mask.
abbrev pub TakesMasks : Os → Type 0
TakesMasks os = (fd mask : ℕ) → os.set_mask fd mask ≡ 0

abbrev mask_log : Option ℕ → ℕ → List Effect → List Effect
mask_log none mask log = log
mask_log (some fd) mask log = masked fd mask ∷ log

-- The events that are of use: input on the control connection where there is room for it, output where
-- there is some; on the data connection what the transfer needs, and nothing while it sleeps with an
-- event remembered.
abbrev pub control_wanted : (full empty : Bool) → ℕ
control_wanted true true = 0
control_wanted true false = pollout
control_wanted false true = pollin
control_wanted false false = pollin + pollout

abbrev pub data_wanted : State → ℕ → ℕ
data_wanted idle events = 0
data_wanted getting events = pollin
data_wanted putting events = pollout
data_wanted sleeping zero = pollin
data_wanted sleeping (suc events) = 0

wanted_control :
    (full empty : Bool)
    → (if full then 0 else pollin) + (if empty then 0 else pollout) ≡ control_wanted full empty
wanted_control true true = refl
wanted_control true false = refl
wanted_control false true = refl
wanted_control false false = refl

wanted_data :
    (s : State) (events : ℕ)
    → (if is_getting s || (is_sleeping s && events == 0)
        then pollin
        else if is_putting s
        then pollout
        else 0)
      ≡ data_wanted s events
wanted_data idle events = refl
wanted_data getting events = refl
wanted_data putting events = refl
wanted_data sleeping zero = refl
wanted_data sleeping (suc events) = ground arith

-- The pipe behind `update_masks`: the poller is asked for input on the control connection where there
-- is room for it, for output where there is some, and on the data connection for what the transfer
-- needs.
abbrev pub asked : Pipe → Pipe
asked p = record p {
  log =
      mask_log p.dfd (data_wanted p.state p.dfd_events)
        (mask_log p.cfd (control_wanted (is_full p.ibuf) (is_empty p.obuf)) p.log);
}

ask_for-log :
    (os : Os) (d : Option ℕ) (mask : ℕ) (p : Pipe)
    → TakesMasks os
    → ask_for os d mask p ≡ returned (record p { log = mask_log d mask p.log })
ask_for-log os none mask p h = refl
ask_for-log os (some fd) mask p h = rw (h fd mask) refl

ask_for-wanted :
    (os : Os) (d : Option ℕ) (mask wanted : ℕ) (p : Pipe)
    → TakesMasks os
    → mask ≡ wanted
    → ask_for os d mask p ≡ returned (record p { log = mask_log d wanted p.log })
ask_for-wanted os d mask wanted p h e =
    ask_for-log os d mask p h ∙ ap (λ m. returned (record p { log = mask_log d m p.log })) e

update_masks-asked : (os : Os) (p : Pipe) → TakesMasks os → update_masks os p ≡ returned (asked p)
unfolding update_masks
update_masks-asked os p h =
    ap (λ m. m >>= λ q. ask_for os q.dfd (data_mask q) q)
      (ask_for-wanted os p.cfd (control_mask p) _ p h
        (wanted_control (is_full p.ibuf) (is_empty p.obuf)))
    ∙ ask_for-wanted os p.dfd (data_mask p) _
        (record p {
          log = mask_log p.cfd (control_wanted (is_full p.ibuf) (is_empty p.obuf)) p.log;
        })
        h (wanted_data p.state p.dfd_events)

-- The status that `getStatus` gives.
abbrev pub status_of : Proto → ℤ
status_of p = elim p.state [
  | FtpProto.State.idle ↦ p.status
  | FtpProto.State.init ↦ p.status
  | _ ↦ pos 0
]

-- The pipe without a data connection, whose descriptor is closed
abbrev pub without_data : Pipe → Pipe
without_data p = record p { dfd_connecting = false; dfd = none; log = ending p.dfd ++ p.log }

-- The pipe that the application is told with: behind a status that is an error no data connection is
-- left open.
abbrev pub cleared : Pipe → Pipe
cleared p =
    let s = status_of p.proto in
    if not (int_eq s (pos 0)) && not (ok2 s) && is_some p.dfd then without_data p else p

status_in :
    (s : FtpProto.State) (p : Proto)
    → (text : Option (List ℕ)) × (get_status (record p { state = s }) (some 256)
        ≡ FtpProto.Outcome.returned (status_of (record p { state = s }), text))
unfolding get_status
status_in FtpProto.State.idle p = (_, refl)
status_in FtpProto.State.init p = (_, refl)
status_in _ p = (none, refl)

-- What the application is told, where a handler returns `e`, which is not 0: EALREADY is told as 0,
-- and only where a status has come and no data connection is open.
abbrev pub verdict : ℕ → ℤ → Option ℕ → Option ℕ
verdict e status dfd =
    if e == ealready
    then (if not (int_eq status (pos 0)) && not (is_some dfd) then some 0 else none)
    else some e

abbrev pub tell : App → Pipe → Option ℕ → ℤ → Option (List ℕ) → Outcome (ℕ × Pipe)
tell app p none status text = returned (0, p)
tell app p (some x) status text =
    app x status text (record p { in_cmd_done = pos 1; log = told x status ∷ p.log }) >>= λ q.
    returned (0, record q { in_cmd_done = one_less q.in_cmd_done })

-- What becomes of the pipe behind the application's call.
abbrev left : Pipe → Pipe
left q = record q { in_cmd_done = one_less q.in_cmd_done }

abbrev succeed : Pipe → Outcome (ℕ × Pipe)
succeed q = returned (0, q)

bound :
    (m : Outcome Pipe) → (m >>= λ q. returned (left q)) >>= succeed ≡ (m >>= λ q. succeed (left q))
bound aborted = refl
bound undefined = refl
bound unfinished = refl
bound (returned q) = refl

-- A pipe that is not in a call of the application tells it.
told_now :
    (app : App) (p : Pipe) (x : ℕ) (status : ℤ) (text : Option (List ℕ))
    → p.in_cmd_done ≡ pos 0
    → (call_cmd_done app p x status text >>= λ q. returned (0, q)) ≡ tell app p (some x) status text
unfolding call_cmd_done
told_now app p x status text h =
    ap (λ m. m >>= λ q. returned (0, q)) (if_then _ _ (returned p) (ap (λ z. int_eq z (pos 0)) h))
    ∙ bound (app x status text (record p { in_cmd_done = pos 1; log = told x status ∷ p.log }))

dropped : (d : Option ℕ) (log : List Effect) → drop_fd d log ≡ ending d ++ log
dropped none log = refl
dropped (some fd) log = refl

cleared-without_failed : (p : Pipe) → without_failed p (status_of p.proto) ≡ cleared p
cleared-without_failed p =
    ap
      (λ l.
        if not (int_eq (status_of p.proto) (pos 0))
          && not (ok2 (status_of p.proto))
          && is_some p.dfd
        then record p { dfd_connecting = false; dfd = none; log = l }
        else p)
      (dropped p.dfd p.log)

cleared-depth : (p : Pipe) → p.in_cmd_done ≡ pos 0 → (cleared p).in_cmd_done ≡ pos 0
cleared-depth p h =
    if_both (λ (q : Pipe). q.in_cmd_done ≡ pos 0)
      (not (int_eq (status_of p.proto) (pos 0)) && not (ok2 (status_of p.proto)) && is_some p.dfd)
      (without_data p) p (λ e. h) (λ e. h)

tell_if :
    (app : App) (p : Pipe) (status : ℤ) (text : Option (List ℕ))
    → p.in_cmd_done ≡ pos 0
    → (b : Bool)
    → (if b then (call_cmd_done app p 0 status text >>= λ r. returned (0, r)) else returned (0, p))
      ≡ tell app p (if b then some 0 else none) status text
tell_if app p status text h true = told_now app p 0 status text h
tell_if app p status text h false = refl

abbrev tell_rest : App → ℕ → ℤ → Option (List ℕ) → Pipe → Outcome (ℕ × Pipe)
tell_rest app x s text q =
    if not (x == 0) || (not (int_eq s (pos 0)) && not (is_some q.dfd))
    then (call_cmd_done app q x s text >>= λ r. returned (0, r))
    else returned (0, q)

tell_status-tell :
    (app : App) (p : Pipe) (e : ℕ) (text : Option (List ℕ))
    → p.in_cmd_done ≡ pos 0
    → e ≢ 0
    → tell_status app p (if e == ealready then 0 else e) (status_of p.proto, text)
      ≡ tell app
          (cleared p)
          (verdict e (status_of p.proto) (cleared p).dfd)
          (status_of p.proto)
          text
tell_status-tell app p e text d h =
    let s : ℤ = status_of p.proto in
    let c = cleared-without_failed p in
    elim (Bool-cases (e == ealready)) [
      | inl done ↦
          ap (λ x. tell_status app p x (s, text)) (if_then _ 0 e done)
          ∙ ap (tell_rest app 0 s text) c
          ∙ tell_if app (cleared p) s text (cleared-depth p d) _
          ∙ ap (λ v. tell app (cleared p) v s text) (sym (if_then _ _ (some e) done))
      | inr other ↦
          let told_it : (not (e == 0) || (not (int_eq s (pos 0)) && not (is_some (cleared p).dfd)))
              ≡ true =
            rw (ne→== e 0 h) refl in
          ap (λ x. tell_status app p x (s, text)) (if_else _ 0 e other)
          ∙ ap (tell_rest app e s text) c
          ∙ if_then _ _ (returned (0, cleared p)) told_it
          ∙ told_now app (cleared p) e s text (cleared-depth p d)
          ∙ ap (λ v. tell app (cleared p) v s text) (sym (if_else _ _ (some e) other))
    ]

-- Where the application is not being called, the poller takes every mask and a handler returns an error,
-- the application is called at most once, as the last thing that `notifyPollEvent` does: with 0 for
-- EALREADY, and then only where a status has come and no data connection is open; with every other
-- error as it is; and with the status. Before that the poller is asked for the events that are now of
-- use, and the data connection of a command that has failed is closed. The call returns 0 where the
-- application's does.
pub notify-tells :
    (os : Os) (app : App) (p q : Pipe) (fd revents e : ℕ)
    → TakesMasks os
    → handle os p fd revents ≡ some (returned (e, q))
    → q.in_cmd_done ≡ pos 0
    → e ≢ 0
    → let s = status_of q.proto in
      let r = cleared (asked q) in
      (text : Option (List ℕ)) × (notify os app p (some fd) revents
        ≡ tell app r (verdict e s r.dfd) s text)
unfolding notify conclude tell_app
notify-tells os app p q fd revents e masks handled outside h =
    let (text, s) = status_in q.proto.state q.proto in
    (
      text,
      rw (notify, handled)
          (ap
              (λ m. m >>= λ r.
                if e == 0 then returned (0, r) else tell_app app r (if e == ealready then 0 else e))
              (update_masks-asked os q masks)
            ∙ if_else _ _ _ (ne→== e 0 h)
            ∙ ap (λ m. from_proto m >>= tell_status app (asked q) (if e == ealready then 0 else e))
                s
            ∙ tell_status-tell app (asked q) e text outside h),
    )
