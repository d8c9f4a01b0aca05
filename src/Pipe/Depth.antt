-- ===== src/Pipe/Depth.antt =====
-- dkftpbench-0.45/ftp_client_pipe.cc: an event of the data connection leaves `m_in_ftpCmdDone` as it is.
use c10kcode.Common.{
  ℕ, ◌+◌, ◌≡◌, false, ◌&&◌, not, ewouldblock, ◌⊎◌, inl, inr, Option, none, some, if_both, ◌==◌,
  ◌||◌, ◌^◌, ◌*◌, ltb, leb, einprogress,
}
use c10kcode.CText.{ℤ, pos, negsuc}
use c10kcode.Eclock.{hertz, eclock_after}
use c10kcode.Pipe.{
  Pipe, Os, Outcome, returned, ◌>>=◌, Reply, failed, answered, schedule, connect_result, sleeping,
  note, cancel, transfer, has, kickstarted, pollin, pollout, pollhup,
}
use c10kcode.Pipe.Data.{
  notify_data, check_data, doze, move_data, Moved, hung_up, broken, moved, after_io, sleep_for,
  finish_data, is_idle, is_getting, is_sleeping, is_putting,
}
use c10kcode.Pipe.Control.Service.{Ends, Ends-bind}
use c10kcode.Pipe.Notify.{ask_for, update_masks, control_mask, data_mask}

-- `m_in_ftpCmdDone` is `k` in the pipe of a result.
abbrev pub AtDepth : ℤ → ℕ × Pipe → Type 0
AtDepth k r = r.1.in_cmd_done ≡ k

abbrev pub At : ℤ → Pipe → Type 0
At k p = p.in_cmd_done ≡ k

abbrev Anything : ℕ × ℕ → Type 0
Anything r = Unit {0}

abbrev pub HandledAt : ℤ → Option (Outcome (ℕ × Pipe)) → Type 0
HandledAt k none = Unit {0}
HandledAt k (some m) = Ends (AtDepth k) m

abbrev GoesOnAt : ℤ → ℕ ⊎ Pipe → Type 0
GoesOnAt k (inl e) = Unit {0}
GoesOnAt k (inr q) = q.in_cmd_done ≡ k

abbrev MovedAt : ℤ → Moved → Type 0
MovedAt k (hung_up p) = p.in_cmd_done ≡ k
MovedAt k (broken p) = p.in_cmd_done ≡ k
MovedAt k (moved n p) = p.in_cmd_done ≡ k

sleep_for-Ends : (bps bpt n : ℕ) → Ends Anything (sleep_for bps bpt n)
unfolding sleep_for
sleep_for-Ends bps bpt n =
    if_both (Ends Anything) (leb (2 ^ 31) n) _ _ (λ h. tt)
      (λ h.
        if_both (Ends Anything) (ltb bpt 5) _ _
          (λ h.
            if_both (Ends Anything) (bps == 0 || leb (2 ^ 31) (n * hertz)) _ _ (λ h. tt) (λ h. tt))
          (λ h. tt))

module _ (k : ℤ) where
  check_data-GoesOnAt :
      (os : Os) (p : Pipe) (fd revents : ℕ)
      → p.in_cmd_done ≡ k
      → GoesOnAt k (check_data os p fd revents)
  unfolding check_data
  check_data-GoesOnAt os p fd revents d =
      if_both (GoesOnAt k) (p.dfd_connecting && not (has kickstarted revents)) _ _
        (λ h. asked (os.sock_error fd)) (λ h. d)
    where
      asked : (r : Reply) → GoesOnAt k (connect_result p (record p { dfd_connecting = false }) fd r)
      asked (failed e) = tt
      asked (answered e) =
          if_both (GoesOnAt k) (e == einprogress) _ _ (λ h. d)
            (λ h. if_both (GoesOnAt k) (e == 0) _ _ (λ h. d) (λ h. tt))

  schedule-Ends :
      (os : Os) (p : Pipe) (timer : Option ℕ) (when : ℕ)
      → p.in_cmd_done ≡ k
      → Ends (At k) (schedule os (record p { timer = timer }) when)
  schedule-Ends os p none when d = if_both (At k) os.sked_ok _ _ (λ m. d) (λ m. d)
  schedule-Ends os p (some t) when d = tt

  doze-Ends :
      (os : Os) (p : Pipe) (revents : ℕ) → p.in_cmd_done ≡ k → Ends (At k) (doze os p revents)
  unfolding doze
  doze-Ends os p revents d =
      if_both (Ends (At k))
        (is_getting p.state
          && not (has kickstarted revents || has pollhup revents)
          && eclock_after p.wakeup os.now)
        _ _
        (λ h.
          Ends-bind (At k) (At k) (schedule os p p.wakeup)
            (λ q. returned (record q { state = sleeping })) (schedule-Ends os p p.timer p.wakeup d)
            (λ q e. e))
        (λ h. d)

  after_io-MovedAt : (p : Pipe) (fd : ℕ) (z : ℤ) → p.in_cmd_done ≡ k → MovedAt k (after_io p fd z)
  after_io-MovedAt p fd (pos n) d = if_both (MovedAt k) (n == 0) _ _ (λ h. d) (λ h. d)
  after_io-MovedAt p fd (negsuc n) d =
      if_both (MovedAt k) (n + 1 == ewouldblock) _ _ (λ h. d) (λ h. d)

  move_data-MovedAt :
      (os : Os) (p : Pipe) (fd revents : ℕ)
      → p.in_cmd_done ≡ k
      → MovedAt k (move_data os p fd revents)
  unfolding move_data
  move_data-MovedAt os p fd revents d =
      if_both (MovedAt k) (is_sleeping p.state) _ _ (λ h. d)
        (λ h.
          if_both (MovedAt k)
            ((is_getting p.state && has pollin revents)
              || (is_putting p.state && has pollout revents))
            _ _
            (λ h.
              after_io-MovedAt (note (cancel p) (transfer fd revents)) fd
                (os.data_io fd revents os.now) d)
            (λ h. if_both (MovedAt k) (has pollhup revents) _ _ (λ h. d) (λ h. d)))

  finish_data-Ends :
      (os : Os) (m : Moved) (fd : ℕ) → MovedAt k m → Ends (AtDepth k) (finish_data os m fd)
  unfolding finish_data
  finish_data-Ends os (hung_up p) fd d = d
  finish_data-Ends os (broken p) fd d = d
  finish_data-Ends os (moved n p) fd d =
      if_both (Ends (AtDepth k)) (is_getting p.state) _ _
        (λ h.
          Ends-bind Anything (AtDepth k)
            (sleep_for p.bytes_per_sec p.bytes_per_tick (n + p.bytes_unslept)) _
            (sleep_for-Ends p.bytes_per_sec p.bytes_per_tick (n + p.bytes_unslept)) (λ r _. d))
        (λ h. d)

  pub notify_data-Ends :
      (os : Os) (p : Pipe) (fd revents : ℕ)
      → p.in_cmd_done ≡ k
      → Ends (AtDepth k) (notify_data os p fd revents)
  unfolding notify_data
  notify_data-Ends os p fd revents d =
      if_both (Ends (AtDepth k)) (is_idle p.state) _ _ (λ h. tt)
        (λ h. checked (check_data os p fd revents) (check_data-GoesOnAt os p fd revents d))
    where
      checked :
          (c : ℕ ⊎ Pipe)
          → GoesOnAt k c
          → Ends (AtDepth k) (elim c [
            | inl e ↦ returned (e, p)
            | inr q ↦ doze os q revents >>= λ r. finish_data os (move_data os r fd revents) fd
          ])
      checked (inl e) w = d
      checked (inr q) w =
          Ends-bind (At k) (AtDepth k) (doze os q revents) _ (doze-Ends os q revents w) (λ r e.
            finish_data-Ends os (move_data os r fd revents) fd
              (move_data-MovedAt os r fd revents e))

  ask_for-Ends :
      (os : Os) (d : Option ℕ) (mask : ℕ) (p : Pipe)
      → p.in_cmd_done ≡ k
      → Ends (At k) (ask_for os d mask p)
  ask_for-Ends os none mask p e = e
  ask_for-Ends os (some fd) mask p e =
      if_both (Ends (At k)) (os.set_mask fd mask == 0) _ _ (λ h. e) (λ h. tt)

  pub update_masks-Ends : (os : Os) (p : Pipe) → p.in_cmd_done ≡ k → Ends (At k) (update_masks os p)
  unfolding update_masks
  update_masks-Ends os p d =
      Ends-bind (At k) (At k) (ask_for os p.cfd (control_mask p) p) _
        (ask_for-Ends os p.cfd (control_mask p) p d)
        (λ q e. ask_for-Ends os q.dfd (data_mask q) q e)
