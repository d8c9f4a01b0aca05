-- ===== src/Pipe/Control/Service.antt =====
-- dkftpbench-0.45/ftp_client_pipe.cc: the loop over the lines ends, and keeps the buffers valid.
use c10kcode.Common.{
  ℕ, suc, ◌≤◌, ◌<◌, ◌≡◌, ◌≢◌, refl, sym, ◌∙◌, ap, subst, Bool, false, ◌&&◌, not, ◌⊎◌, inl, inr,
  none, some, List, arith, ◌==◌, if◌then◌else◌, if_both, if_then, &&-false, Bool-cases,
  Option-cases, ewouldblock,
}
use mathlib.Core.Option.{none-ne-some}
use c10kcode.CText.{ℤ, pos, int_eq}
use c10kcode.Nbbio.{Nbbio, bytes_used, readline}
use c10kcode.Nbbio
use c10kcode.Nbbio.Contents
use c10kcode.Nbbio.Put.{put_refines}
use c10kcode.Nbbio.Progress.{readline-Takes}
use c10kcode.FtpProto.{
  Proto, is_input_ready, is_output_ready, get_output, get_status, advance_output,
}
use c10kcode.FtpProto
use c10kcode.FtpProto.Replies.{give_input}
use c10kcode.FtpProto.Codes.{NotBlocked, give_input-NotBlocked}
use c10kcode.Pipe.{
  Pipe, Outcome, aborted, undefined, unfinished, returned, ◌>>=◌, from_proto, cancel,
}
use c10kcode.Pipe.Data.{is_idle}
use c10kcode.Pipe.Control.{
  Round, stop, on, iline_size, read_line, give_line, put_output, report, give_to, line_of,
}

-- The indices of both buffers stay inside them, and `m_in_ftpCmdDone` is `k`.
pub record IsSound (k : ℤ) (p : Pipe) : Type 0 where
  pub input : Contents.IsValid p.ibuf
  pub output : Contents.IsValid p.obuf
  pub depth : p.in_cmd_done ≡ k

-- Nothing is left to be sent that there is room for.
abbrev pub output_done : ℕ → Pipe → Bool
output_done puterr p = is_output_ready p.proto && not (puterr == ewouldblock)

-- What holds of a call that ends: it does not run out of fuel, and its result satisfies `P`.
abbrev pub Ends {ℓ} : {A : Type ℓ} → (A → Type 0) → Outcome A → Type 0
Ends P aborted = Unit {0}
Ends P undefined = Unit {0}
Ends P unfinished = ⊥
Ends P (returned a) = P a

pub Ends-bind {ℓ κ} :
    {A : Type ℓ} {B : Type κ} (P : A → Type 0) (Q : B → Type 0) (m : Outcome A) (k : A → Outcome B)
    → Ends P m
    → ((a : A) → P a → Ends Q (k a))
    → Ends Q (m >>= k)
Ends-bind P Q aborted k h l = tt
Ends-bind P Q undefined k h l = tt
Ends-bind P Q unfinished k h l = absurd h
Ends-bind P Q (returned a) k h l = l a h

-- What holds of all results holds of them with less said.
pub Ends-weaken {ℓ} :
    {A : Type ℓ} (P Q : A → Type 0) (m : Outcome A) → ((a : A) → P a → Q a) → Ends P m → Ends Q m
Ends-weaken P Q aborted w h = tt
Ends-weaken P Q undefined w h = tt
Ends-weaken P Q unfinished w h = h
Ends-weaken P Q (returned a) w h = w a h

-- The protocol does not run out of fuel.
pub from_proto-Ends {ℓ} :
    {A : Type ℓ} (P : A → Type 0) (m : FtpProto.Outcome A)
    → ((a : A) → m ≡ FtpProto.Outcome.returned a → P a)
    → Ends P (from_proto m)
from_proto-Ends P FtpProto.Outcome.aborted h = tt
from_proto-Ends P FtpProto.Outcome.stray h = tt
from_proto-Ends P (FtpProto.Outcome.returned a) h = h a refl

module _ (k : ℤ) where
  -- Behind `read_line`: fewer bytes are in the buffer, or no whole line is.
  abbrev pub HasRead : Pipe → Round → Type 0
  HasRead p (stop e q) = IsSound k q
  HasRead p (on g u q) =
      IsSound k q
      × (bytes_used q.ibuf ≤ bytes_used p.ibuf)
      × (p.iline_full ≡ false → (g ≡ ewouldblock) ⊎ (bytes_used q.ibuf < bytes_used p.ibuf))

  pub read_line-HasRead : (g u : ℕ) (p : Pipe) → IsSound k p → HasRead p (read_line g u p)
  unfolding read_line
  read_line-HasRead g u p v =
      let (took, valid) = readline-Takes p.ibuf p.iline iline_size v.input in
      let r : ℕ × (ℕ → ℕ) × Nbbio = readline p.ibuf p.iline iline_size in
      let s : IsSound k (record p { iline = r.1; ibuf = r.2 }) = record {
        input = valid;
        output = v.output;
        depth = v.depth;
      } in
      if_both (HasRead p) p.iline_full _ _ (λ full. (v, omega arith, λ h. absurd (ground arith)))
        (λ empty.
          if_both (HasRead p) (r.0 == 0) _ _
            (λ line. (
              record { input = valid; output = v.output; depth = v.depth },
              took.0,
              λ h. inr (took.1 (ground arith)),
            ))
            (λ none_yet.
              if_both (HasRead p) (r.0 == ewouldblock) _ _
                (λ blocked. (s, took.0, λ h. inl (ground arith))) (λ error. s)))

  -- Behind `give_line`: the buffers and `geterr` are as before, and the line has been taken.
  abbrev pub HasGiven : ℕ → Pipe → Round → Type 0
  HasGiven g p (stop e q) = IsSound k q
  HasGiven g p (on g' u' q) = (g' ≡ g) × IsSound k q × (q.ibuf ≡ p.ibuf) × (q.iline_full ≡ false)

  report-HasGiven :
      (g u : ℕ) (p : Pipe) → IsSound k p → p.iline_full ≡ false → Ends (HasGiven g p) (report g u p)
  report-HasGiven g u p v empty =
      Ends-bind (λ s. Unit {0}) (HasGiven g p) (from_proto (get_status p.proto none)) _
        (from_proto-Ends (λ s. Unit {0}) _ (λ a e. tt))
        (λ s _.
          if_both (HasGiven g p) (int_eq s.0 (pos 0)) _ _ (λ e. (refl, v, refl, empty)) (λ e. v))

  give_to-HasGiven : (g u : ℕ) (p : Pipe) → IsSound k p → Ends (HasGiven g p) (give_to g u p)
  give_to-HasGiven g u p v =
      Ends-bind (λ r. r.0 ≢ ewouldblock) (HasGiven g p)
        (from_proto (give_input p.proto (line_of p.iline))) _
        (from_proto-Ends (λ r. r.0 ≢ ewouldblock) _
          (λ a e. subst NotBlocked e (give_input-NotBlocked p.proto (line_of p.iline))))
        (λ r never.
          let s : IsSound k (record p { proto = r.1 }) = record {
            input = v.input;
            output = v.output;
            depth = v.depth;
          } in
          let done : IsSound k (record p { proto = r.1; iline_full = false }) = record {
            input = v.input;
            output = v.output;
            depth = v.depth;
          } in
          if_both (Ends (HasGiven g p)) (r.0 == 0) _ _
            (λ e. report-HasGiven g u (record p { proto = r.1; iline_full = false }) done refl)
            (λ e.
              if_both (Ends (HasGiven g p)) (r.0 == ewouldblock) _ _
                (λ b. absurd (never (ground arith))) (λ b. s)))

  pub give_line-HasGiven :
      (g u : ℕ) (p : Pipe) → IsSound k p → Ends (HasGiven g p) (give_line g u p)
  unfolding give_line
  give_line-HasGiven g u p v =
      if_both (Ends (HasGiven g p)) p.iline_full _ _
        (λ full.
          if_both (λ q. Ends (HasGiven g p) (give_to g u q)) (is_idle p.state) _ _
            (λ e.
              give_to-HasGiven g u (cancel p)
                (record { input = v.input; output = v.output; depth = v.depth }))
            (λ e. give_to-HasGiven g u p v))
        (λ empty. (refl, v, refl, empty))

  -- Behind `put_output`: only what is to be sent has changed, and nothing is left that there is room
  -- for.
  abbrev pub HasPut : ℕ → Pipe → Round → Type 0
  HasPut g p (stop e q) = IsSound k q
  HasPut g p (on g' u' q) =
      (g' ≡ g)
      × IsSound k q
      × (q.ibuf ≡ p.ibuf)
      × (q.iline_full ≡ p.iline_full)
      × (output_done u' q ≡ false)

  no_output : (p : Proto) → get_output p ≡ none → is_output_ready p ≡ false
  unfolding get_output
  no_output p h = elim (Bool-cases (is_output_ready p)) [
    | inl e ↦ absurd (none-ne-some _ (sym h ∙ if_then _ _ _ e))
    | inr e ↦ e
  ]

  -- No more is to be sent.
  put_output-nothing :
      (fuel g u : ℕ) (p : Pipe)
      → get_output p.proto ≡ none
      → put_output (suc fuel) g u p ≡ returned (on g u p)
  unfolding put_output
  put_output-nothing fuel g u p h = rw (put_output, h) refl

  put_output-some :
      (fuel g u : ℕ) (p : Pipe) (text : List ℕ)
      → get_output p.proto ≡ some text
      → put_output (suc fuel) g u p ≡ (
          let (err, b) = Nbbio.put p.obuf text in
          if err == 0
          then put_output fuel g 0 (record p { obuf = b; proto = (advance_output p.proto).1 })
          else returned (if err == ewouldblock then on g err p else stop err p))
  unfolding put_output
  put_output-some fuel g u p text h = rw (put_output, h) refl

  advanced : (p : Proto) → get_output (advance_output p).1 ≡ none
  unfolding get_output advance_output
  advanced p = refl

  pub put_output-HasPut :
      (g u : ℕ) (p : Pipe) → IsSound k p → Ends (HasPut g p) (put_output 2 g u p)
  put_output-HasPut g u p v = elim (Option-cases (get_output p.proto)) [
    | inl h ↦
        subst (Ends (HasPut g p)) (sym (put_output-nothing 1 g u p h))
          (refl, v, refl, refl, rw (no_output p.proto h) refl)
    | inr (text, h) ↦
        let (_, valid) = put_refines p.obuf text v.output in
        let q : Pipe = record p {
          obuf = (Nbbio.put p.obuf text).1;
          proto = (advance_output p.proto).1;
        } in
        let none_left : get_output q.proto ≡ none = advanced p.proto in
        subst (Ends (HasPut g p)) (sym (put_output-some 1 g u p text h)) (
          if_both (Ends (HasPut g p)) ((Nbbio.put p.obuf text).0 == 0) _ _
            (λ e. subst (Ends (HasPut g p)) (sym (put_output-nothing 0 g 0 q none_left)) (
              refl,
              record { input = v.input; output = valid; depth = v.depth },
              refl,
              refl,
              rw (no_output q.proto none_left) refl,
            ))
            (λ e.
              if_both (HasPut g p) ((Nbbio.put p.obuf text).0 == ewouldblock) _ _
                (λ b. (refl, v, refl, refl, &&-false _ _ (ap not b))) (λ b. v)))
  ]
