-- ===== src/Pipe/Control/Loop.antt =====
-- dkftpbench-0.45/ftp_client_pipe.cc: the loop over the lines of the control connection ends.
use c10kcode.Common.{
  ℕ, zero, suc, ◌+◌, ◌≤◌, ◌<◌, ◌≡◌, refl, subst, false, ◌&&◌, ◌||◌, not, ◌⊎◌, inl, inr, Option,
  none, some, arith, ◌==◌, if_both, if_else, &&-false, ap₂, subst₂, sym, ◌∙◌, ewouldblock,
}
use c10kcode.CText.{ℤ}
use c10kcode.Nbbio.{bytes_used}
use c10kcode.FtpProto.{is_input_ready}
use c10kcode.Pipe.{Pipe, returned, ◌>>=◌}
use c10kcode.Pipe.Control.{
  Round, stop, on, read_line, give_line, put_output, round, goes_on, service,
}
use c10kcode.Pipe.Control.Service.{
  IsSound, Ends, Ends-bind, Ends-weaken, output_done, HasRead, HasGiven, HasPut, read_line-HasRead,
  give_line-HasGiven, put_output-HasPut,
}

module _ (k : ℤ) where
  -- Behind one round: no line is waiting, nothing is left to be sent that there is room for, and fewer
  -- bytes are in the buffer, or no whole line is.
  abbrev Advanced : Pipe → Round → Type 0
  Advanced p (stop e q) = IsSound k q
  Advanced p (on g u q) =
      IsSound k q
      × (q.iline_full ≡ false)
      × (output_done u q ≡ false)
      × (bytes_used q.ibuf ≤ bytes_used p.ibuf)
      × (p.iline_full ≡ false → (g ≡ ewouldblock) ⊎ (bytes_used q.ibuf < bytes_used p.ibuf))

  put-Advanced :
      (g u : ℕ) (p q : Pipe)
      → HasRead k p (on g u q)
      → q.iline_full ≡ false
      → (r : Round) → HasPut k g q r
      → Advanced p r
  put-Advanced g u p q read empty (stop e r) v = v
  put-Advanced g u p q (v, few, fewer) empty (on g' u' r) (same, w, buf, full, done) = (
    w,
    full ∙ empty,
    done,
    subst (λ b. bytes_used b ≤ bytes_used p.ibuf) (sym buf) few,
    λ h.
        subst₂ (λ k b. (k ≡ ewouldblock) ⊎ (bytes_used b < bytes_used p.ibuf)) (sym same) (sym buf)
          (fewer h),
  )

  given-Advanced :
      (g u : ℕ) (p q : Pipe)
      → HasRead k p (on g u q)
      → (r : Round) → HasGiven k g q r
      → Ends
          (Advanced p)
          (elim r [ stop e q' ↦ returned (stop e q') | on g' u' q' ↦ put_output 2 g' u' q' ])
  given-Advanced g u p q read (stop e r) v = v
  given-Advanced g u p q (v, few, fewer) (on g' u' r) (same, w, buf, empty) =
      let read : HasRead k p (on g' u' r) = (
        w,
        subst (λ b. bytes_used b ≤ bytes_used p.ibuf) (sym buf) few,
        λ h.
            subst₂ (λ k b. (k ≡ ewouldblock) ⊎ (bytes_used b < bytes_used p.ibuf)) (sym same)
              (sym buf) (fewer h),
      ) in
      Ends-weaken (HasPut k g' r) (Advanced p) (put_output 2 g' u' r)
        (put-Advanced g' u' p r read empty) (put_output-HasPut k g' u' r w)

  read-Advanced :
      (p : Pipe) (r : Round)
      → HasRead k p r
      → Ends (Advanced p) (elim r [
        | stop e q ↦ returned (stop e q)
        | on g u q ↦ give_line g u q >>= λ s. elim s [
          | stop e q' ↦ returned (stop e q')
          | on g' u' q' ↦ put_output 2 g' u' q'
        ]
      ])
  read-Advanced p (stop e q) v = v
  read-Advanced p (on g u q) read =
      Ends-bind (HasGiven k g q) (Advanced p) (give_line g u q) _
        (give_line-HasGiven k g u q read.0) (given-Advanced g u p q read)

  round-Advanced : (g u : ℕ) (p : Pipe) → IsSound k p → Ends (Advanced p) (round g u p)
  unfolding round
  round-Advanced g u p v = read-Advanced p (read_line g u p) (read_line-HasRead k g u p v)

  -- The loop's result has valid buffers.
  abbrev pub Served : Option ℕ × Pipe → Type 0
  Served r = IsSound k r.1

  abbrev pub Settled : ℕ × Pipe → Type 0
  Settled r = IsSound k r.1

  -- The loop stops where there is neither a line to read nor anything to send.
  service-stops :
      (fuel g u : ℕ) (p : Pipe)
      → g ≡ ewouldblock
      → output_done u p ≡ false
      → service (suc fuel) g u p ≡ returned (none, p)
  unfolding service
  service-stops fuel g u p blocked done =
      let no_input : (is_input_ready p.proto && not (g == ewouldblock)) ≡ false =
        &&-false (is_input_ready p.proto) (not (g == ewouldblock)) (rw blocked refl) in
      if_else _ _ _ (ap₂ (λ a b. a || b) no_input done)

  service-blocked :
      (fuel g u : ℕ) (p : Pipe)
      → IsSound k p
      → g ≡ ewouldblock
      → output_done u p ≡ false
      → 1 ≤ fuel
      → Ends Served (service fuel g u p)
  service-blocked zero g u p v blocked done h = absurd (omega arith)
  service-blocked (suc fuel) g u p v blocked done h =
      subst (Ends Served) (sym (service-stops fuel g u p blocked done)) v

  -- What is to be shown of the loop with this fuel, once no line is waiting.
  abbrev Quiet : ℕ → Type 0
  Quiet fuel =
      (g u : ℕ) (p : Pipe)
      → IsSound k p
      → p.iline_full ≡ false
      → output_done u p ≡ false
      → bytes_used p.ibuf + 2 ≤ fuel
      → Ends Served (service fuel g u p)

  on-Served :
      (fuel : ℕ) (p : Pipe)
      → Quiet fuel
      → p.iline_full ≡ false
      → bytes_used p.ibuf + 2 ≤ suc fuel
      → (r : Round) → Advanced p r
      → Ends Served (elim r [ stop e q ↦ returned (some e, q) | on g u q ↦ service fuel g u q ])
  on-Served fuel p ih empty enough (stop e q) v = v
  on-Served fuel p ih empty enough (on g u q) (v, empty', done, few, fewer) = elim (fewer empty) [
    | inl blocked ↦ service-blocked fuel g u q v blocked done (omega (arith, enough))
    | inr less ↦ ih g u q v empty' done (omega (arith, enough, less))
  ]

  service-Quiet : (fuel : ℕ) → Quiet fuel
  unfolding service
  service-Quiet zero g u p v empty done enough = absurd (omega (arith, enough))
  service-Quiet (suc fuel) g u p v empty done enough =
      if_both (Ends Served) (goes_on g u p) _ _
        (λ e.
          Ends-bind (Advanced p) Served (round g u p) _ (round-Advanced g u p v)
            (on-Served fuel p (service-Quiet fuel) empty enough))
        (λ e. v)

  first-Served :
      (fuel : ℕ) (p : Pipe)
      → bytes_used p.ibuf + 2 ≤ fuel
      → (r : Round) → Advanced p r
      → Ends Served (elim r [ stop e q ↦ returned (some e, q) | on g u q ↦ service fuel g u q ])
  first-Served fuel p enough (stop e q) v = v
  first-Served fuel p enough (on g u q) (v, empty, done, few, fewer) =
      service-Quiet fuel g u q v empty done (omega (arith, enough, few))

  -- The loop over the lines ends: one round for each byte in the input buffer and three more are
  -- enough, whatever is in the buffer and the line buffer, and whatever the protocol does with it.
  pub service-Served :
      (fuel g u : ℕ) (p : Pipe)
      → IsSound k p
      → bytes_used p.ibuf + 3 ≤ fuel
      → Ends Served (service fuel g u p)
  unfolding service
  service-Served zero g u p v enough = absurd (omega (arith, enough))
  service-Served (suc fuel) g u p v enough =
      if_both (Ends Served) (goes_on g u p) _ _
        (λ e.
          Ends-bind (Advanced p) Served (round g u p) _ (round-Advanced g u p v)
            (first-Served fuel p (omega (arith, enough))))
        (λ e. v)
