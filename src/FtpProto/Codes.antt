-- ===== src/FtpProto/Codes.antt =====
-- dkftpbench-0.45/ftp_client_proto.cc: the codes that `giveInput` returns.
use c10kcode.Common.{ℕ, ◌≢◌, true, Option, none, some, List, ◌∷◌, arith, ewouldblock, if_both}
use c10kcode.CText.{ℤ, atoi, within}
use c10kcode.FtpProto.{
  State, init, user, pass, port, pasv, retr, SockAddr, Proto, Line, Outcome, aborted, stray,
  returned, ◌>>=◌, has_lf, pop_state, return_state, print_line, give_up,
}
use c10kcode.FtpProto.Replies.{pasv_address, pasv_reply, retr_line, ok2, respond, give_input}

-- The call does not return EWOULDBLOCK.
abbrev pub NotBlocked : Outcome (ℕ × Proto) → Type 0
NotBlocked (returned r) = r.0 ≢ ewouldblock
NotBlocked _ = Unit {0}

NotBlocked-bind {ℓ} :
    {A : Type ℓ} (m : Outcome A) (k : A → Outcome (ℕ × Proto))
    → ((a : A) → NotBlocked (k a))
    → NotBlocked (m >>= k)
NotBlocked-bind aborted k h = tt
NotBlocked-bind stray k h = tt
NotBlocked-bind (returned a) k h = h a

give_up-NotBlocked : (p : Proto) → NotBlocked (give_up p)
give_up-NotBlocked p = NotBlocked-bind (pop_state p) _ (λ r. omega arith)

resumed-NotBlocked :
    (s : State) (q : Proto)
    → NotBlocked (elim s [
      | retr ↦ print_line q (retr_line q) >>= λ r. returned (0, r)
      | _ ↦ returned (0, q)
    ])
resumed-NotBlocked retr q =
    NotBlocked-bind (print_line q (retr_line q)) (λ r. returned (0, r)) (λ r. omega arith)
resumed-NotBlocked _ q = omega arith

pasv_reply-NotBlocked : (p : Proto) (a : Option SockAddr) → NotBlocked (pasv_reply p a)
pasv_reply-NotBlocked p none = give_up-NotBlocked p
pasv_reply-NotBlocked p (some a) =
    NotBlocked-bind (return_state (record p { address = a; address_ready = true })) _
      (λ q. resumed-NotBlocked q.state q)

respond-NotBlocked :
    (s : State) (p : Proto) (text : List ℕ) (status : ℤ) → NotBlocked (respond s p text status)
unfolding respond
respond-NotBlocked init p text s =
    if_both NotBlocked (ok2 s) _ _
      (λ e. if_both NotBlocked p.sent_user _ _ (λ e. omega arith) (λ e. omega arith))
      (λ e. omega arith)
respond-NotBlocked user p text s =
    if_both NotBlocked (ok2 s) _ _ (λ e. omega arith)
      (λ e.
        if_both NotBlocked (within 300 400 s) _ _
          (λ e.
            NotBlocked-bind (print_line p (b'P' ∷ b'A' ∷ b'S' ∷ b'S' ∷ b' ' ∷ p.password))
              (λ q. returned (0, record q { state = pass })) (λ q. omega arith))
          (λ e. omega arith))
respond-NotBlocked pass p text s =
    if_both NotBlocked (ok2 s) _ _ (λ e. omega arith) (λ e. omega arith)
respond-NotBlocked port p text s =
    if_both NotBlocked (ok2 s) _ _ (λ e. NotBlocked-bind (return_state p) _ (λ q. omega arith))
      (λ e. give_up-NotBlocked p)
respond-NotBlocked pasv p text s =
    if_both NotBlocked (ok2 s) _ _
      (λ e. NotBlocked-bind (pasv_address text) _ (pasv_reply-NotBlocked p))
      (λ e. give_up-NotBlocked p)
respond-NotBlocked retr p text s =
    if_both NotBlocked (within 100 200 s) _ _ (λ e. omega arith) (λ e. omega arith)
respond-NotBlocked _ p text s = omega arith

-- `giveInput` never returns EWOULDBLOCK, so a line that is given is used up or ends the session.
pub give_input-NotBlocked : (p : Proto) (l : Line) → NotBlocked (give_input p l)
unfolding give_input
give_input-NotBlocked p l =
    if_both NotBlocked (has_lf l.text) _ _ (λ e. tt)
      (λ e.
        if_both NotBlocked p.multiline _ _ (λ m. omega arith)
          (λ m. respond-NotBlocked p.state _ l.text (atoi l.text)))
