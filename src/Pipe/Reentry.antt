-- ===== src/Pipe/Reentry.antt =====
-- dkftpbench-0.45/ftp_client_pipe.cc: `m_in_ftpCmdDone`, which keeps the application from being called
-- while it is being called.
use c10kcode.Common.{
  ℕ, ◌≡◌, refl, sym, ◌∙◌, ap, false, ◌&&◌, not, Option, none, some, List, if◌then◌else◌, if_both,
  if_else, ◌==◌, ◌||◌, ealready,
}
use c10kcode.CText.{ℤ, pos, int_eq}
use c10kcode.Nbbio.Transfer.{ReadsAtMost, WritesAtMost}
use c10kcode.FtpProto.{get_status}
use c10kcode.Pipe.{
  Pipe, Os, App, Outcome, aborted, undefined, unfinished, returned, ◌>>=◌, from_proto,
  call_cmd_done, is_some,
}
use c10kcode.Pipe.Control.{notify_control}
use c10kcode.Pipe.Control.Service.{IsSound, Ends, Ends-weaken, from_proto-Ends}
use c10kcode.Pipe.Control.Loop.{Settled}
use c10kcode.Pipe.Control.Ending.{notify_control-Ends}
use c10kcode.FtpProto.Replies.{ok2}
use c10kcode.Pipe.Notify.{
  is_fd, handle, update_masks, without_failed, tell_status, tell_app, conclude, after_handler,
  notify,
}
use c10kcode.Pipe.Depth.{AtDepth, At, HandledAt, notify_data-Ends, update_masks-Ends}

-- Two calls that agree on what a call may end with come to the same.
bind_agree :
    {A B : Type 0} (P : A → Type 0) (m : Outcome A) (f g : A → Outcome B)
    → Ends P m
    → ((a : A) → P a → f a ≡ g a)
    → (m >>= f) ≡ (m >>= g)
bind_agree P aborted f g h l = refl
bind_agree P undefined f g h l = refl
bind_agree P unfinished f g h l = refl
bind_agree P (returned a) f g h l = l a h

-- Inside ftpCmdDone the application is not called.
inside_cmd_done :
    (app : App) (p : Pipe) (e : ℕ) (status : ℤ) (text : Option (List ℕ))
    → int_eq p.in_cmd_done (pos 0) ≡ false
    → call_cmd_done app p e status text ≡ returned p
unfolding call_cmd_done
inside_cmd_done app p e status text h = if_else _ _ _ h

abbrev AnyStatus : ℤ × Option (List ℕ) → Type 0
AnyStatus s = Unit {0}

module _ (os : Os) (app app' : App) (k : ℤ) (inside : int_eq k (pos 0) ≡ false) where
  tell_status-agree :
      (p : Pipe) (e : ℕ) (s : ℤ × Option (List ℕ))
      → p.in_cmd_done ≡ k
      → tell_status app p e s ≡ tell_status app' p e s
  tell_status-agree p e s d =
      let q : Pipe = without_failed p s.0 in
      let same : q.in_cmd_done ≡ k =
        if_both (At k) (not (int_eq s.0 (pos 0)) && not (ok2 s.0) && is_some p.dfd) _ _ (λ h. d)
          (λ h. d) in
      let shut : int_eq q.in_cmd_done (pos 0) ≡ false = ap (λ z. int_eq z (pos 0)) same ∙ inside in
      ap
        (λ m.
          if not (e == 0) || (not (int_eq s.0 (pos 0)) && not (is_some q.dfd))
          then (m >>= λ r. returned (0, r))
          else returned (0, q))
        (inside_cmd_done app q e s.0 s.1 shut ∙ sym (inside_cmd_done app' q e s.0 s.1 shut))

  tell_app-agree : (p : Pipe) (e : ℕ) → p.in_cmd_done ≡ k → tell_app app p e ≡ tell_app app' p e
  unfolding tell_app
  tell_app-agree p e d =
      bind_agree AnyStatus (from_proto (get_status p.proto (some 256))) (tell_status app p e)
        (tell_status app' p e)
        (from_proto-Ends AnyStatus (get_status p.proto (some 256)) (λ a h. tt))
        (λ s _. tell_status-agree p e s d)

  conclude-agree :
      (p : Pipe) (e : ℕ) → p.in_cmd_done ≡ k → conclude os app e p ≡ conclude os app' e p
  unfolding conclude
  conclude-agree p e d =
      bind_agree (At k) (update_masks os p) _ _ (update_masks-Ends k os p d) (λ q w.
        ap (λ t. if e == 0 then returned (0, q) else t)
          (tell_app-agree q (if e == ealready then 0 else e) w))

  handled-agree :
      (o : Option (Outcome (ℕ × Pipe))) (p : Pipe)
      → HandledAt k o
      → after_handler os app p o ≡ after_handler os app' p o
  handled-agree none p h = refl
  handled-agree (some m) p h = bind_agree (AtDepth k) m _ _ h (λ r w. conclude-agree r.1 r.0 w)

  module _ (reads : ReadsAtMost os.os_read) (writes : WritesAtMost os.os_write) where
    handle-HandledAt :
        (p : Pipe) (fd revents : ℕ) → IsSound k p → HandledAt k (handle os p fd revents)
    unfolding handle
    handle-HandledAt p fd revents v =
        if_both (HandledAt k) (is_fd p.dfd fd) _ _ (λ h. notify_data-Ends k os p fd revents v.depth)
          (λ h.
            if_both (HandledAt k) (is_fd p.cfd fd) _ _
              (λ h.
                Ends-weaken (Settled k) (AtDepth k) (notify_control os p fd revents)
                  (λ r w. w.depth) (notify_control-Ends k os reads writes p fd revents v))
              (λ h. tt))

    -- While the application is in ftpCmdDone, an event, and the kickstart of a request that it makes
    -- there, come to the same whatever the application would do if it were called: it is not called
    -- again. The buffers' indices are valid, `read` gives no more bytes than it is asked for and
    -- `write` takes no more than it is given.
    pub notify_agrees :
        (p : Pipe) (fd : Option ℕ) (revents : ℕ)
        → IsSound k p
        → notify os app p fd revents ≡ notify os app' p fd revents
    unfolding notify
    notify_agrees p none revents v = refl
    notify_agrees p (some fd) revents v =
        handled-agree (handle os p fd revents) p (handle-HandledAt p fd revents v)
