-- ===== src/FtpProto/Multiline.antt =====
-- dkftpbench-0.45/ftp_client_proto.cc: replies of several lines.
use c10kcode.Common.{
  if_then, if_else, ℕ, ◌≡◌, refl, sym, ◌∙◌, ap, subst, ◌⊎◌, inl, inr, Bool, true, false, ◌&&◌,
  Option, none, some, List, [], ◌∷◌, ◌++◌, leb, ◌==◌, if◌then◌else◌, length, take, Bool-cases,
}
use c10kcode.CText.{ℤ, atoi, int_eq, within}
use c10kcode.FtpProto.{
  State, init, user, pass, port, pasv, retr, SockAddr, Proto, Line, Outcome, aborted, stray,
  returned, ◌>>=◌, cr_lf, linelen, byte_at, has_lf, print_line, give_up,
}
use c10kcode.FtpProto.Replies.{
  pasv_address, ok2, pasv_done, retr_line, pasv_reply, respond, give_input,
}

-- `giveInput` of one line after the other
unfoldable pub give_lines : Proto → List Line → Outcome (ℕ × Proto)
give_lines p [] = returned (0, p)
give_lines p (l ∷ ls) = give_input p l >>= λ r. give_lines r.1 ls

-- The line is the last of a reply that began with the given status.
abbrev pub is_last : ℤ → Line → Bool
is_last s l = byte_at l.text l.stale 3 == b' ' && int_eq (atoi l.text) s

-- The lines belong to such a reply and do not end it.
abbrev pub GoOn : ℤ → List Line → Type 0
GoOn s [] = Unit {0}
GoOn s (l ∷ ls) = (has_lf l.text ≡ false) × (is_last s l ≡ false) × GoOn s ls

-- Where the call returns, the client is in a reply of the given status.
abbrev InReply : ℤ → Outcome (ℕ × Proto) → Type 0
InReply s aborted = Unit {0}
InReply s stray = Unit {0}
InReply s (returned r) = (r.1.multiline ≡ true) × (r.1.status ≡ s)

if-InReply :
    (s : ℤ) (b : Bool) (x y : Outcome (ℕ × Proto))
    → InReply s x
    → InReply s y
    → InReply s (if b then x else y)
if-InReply s true x y h k = h
if-InReply s false x y h k = k

abbrev empty_or_not {ℓ} :
    {A : Type ℓ} (xs : List A) → (xs ≡ []) ⊎ ((x : A) × (ys : List A) × (xs ≡ x ∷ ys))
empty_or_not [] = inl refl
empty_or_not (x ∷ xs) = inr (x, xs, refl)

give_up-InReply : (s : ℤ) (p : Proto) → p.multiline ≡ true → p.status ≡ s → InReply s (give_up p)
give_up-InReply s p m e = elim (empty_or_not p.stack) [
  | inl h ↦ rw h tt
  | inr (t, ts, h) ↦ rw h (m, e)
]

print_line-InReply :
    (s : ℤ) (p : Proto) (text : List ℕ) (k : Proto → Proto)
    → ((o : List ℕ) (n : ℕ) → InReply s (returned (0, k (record p { obuf = o; obuflen = n }))))
    → InReply s (print_line p text >>= λ q. returned (0, k q))
print_line-InReply s p text k h = elim (Bool-cases (leb (length (text ++ cr_lf)) linelen)) [
  | inl y ↦ rw y (h (text ++ cr_lf) (length (text ++ cr_lf)))
  | inr n ↦ rw n tt
]

pasv_done-InReply :
    (t : State) (s : ℤ) (p : Proto) (a : SockAddr) (ts : List State)
    → p.stack ≡ t ∷ ts
    → p.multiline ≡ true
    → p.status ≡ s
    → InReply s (pasv_done p a)
pasv_done-InReply retr s p a ts h m e = rw h (
    print_line-InReply s (record p { address = a; address_ready = true; stack = ts; state = retr })
      (retr_line p) (λ q. q) (λ o n. (m, e)))
pasv_done-InReply _ s p a ts h m e = rw h (m, e)

pasv_reply-InReply :
    (s : ℤ) (p : Proto) (o : Outcome (Option SockAddr))
    → p.multiline ≡ true
    → p.status ≡ s
    → InReply s (o >>= pasv_reply p)
pasv_reply-InReply s p aborted m e = tt
pasv_reply-InReply s p stray m e = tt
pasv_reply-InReply s p (returned none) m e = give_up-InReply s p m e
pasv_reply-InReply s p (returned (some a)) m e = elim (empty_or_not p.stack) [
  | inl h ↦ rw h tt
  | inr (t, ts, h) ↦ pasv_done-InReply t s p a ts h m e
]

respond-InReply :
    (t : State) (p : Proto) (text : List ℕ) (s : ℤ)
    → p.multiline ≡ true
    → p.status ≡ s
    → InReply s (respond t p text s)
unfolding respond
respond-InReply init p text s m e =
    if-InReply s (ok2 s) _ _ (if-InReply s p.sent_user _ _ (m, e) (m, e)) (m, e)
respond-InReply user p text s m e =
    if-InReply s (ok2 s) _ _ (m, e)
      (if-InReply s (within 300 400 s) _ _
        (print_line-InReply s p (b'P' ∷ b'A' ∷ b'S' ∷ b'S' ∷ b' ' ∷ p.password)
          (λ q. record q { state = pass }) (λ o n. (m, e)))
        (m, e))
respond-InReply pass p text s m e = if-InReply s (ok2 s) _ _ (m, e) (m, e)
respond-InReply port p text s m e =
    if-InReply s (ok2 s) _ _
      (elim (empty_or_not p.stack) [ inl h ↦ rw h tt | inr (t, ts, h) ↦ rw h (m, e) ])
      (give_up-InReply s p m e)
respond-InReply pasv p text s m e =
    if-InReply s (ok2 s) _ _ (pasv_reply-InReply s p (pasv_address text) m e)
      (give_up-InReply s p m e)
respond-InReply retr p text s m e = if-InReply s (within 100 200 s) _ _ (m, e) (m, e)
respond-InReply _ p text s m e = (m, e)

-- A line inside a reply leaves the client as it was.
skipped :
    (p : Proto) (l : Line)
    → p.multiline ≡ true
    → has_lf l.text ≡ false
    → is_last p.status l ≡ false
    → give_input p l ≡ returned (0, p)
unfolding give_input
skipped p l m hl more =
    if_else (has_lf l.text) _ _ hl
    ∙ if_then p.multiline _ _ m
    ∙ ap (λ q. returned (0, q)) (if_else (is_last p.status l) _ p more)

give_lines-GoOn :
    (p : Proto) (ls : List Line) (last : Line)
    → p.multiline ≡ true
    → GoOn p.status ls
    → has_lf last.text ≡ false
    → is_last p.status last ≡ true
    → give_lines p (ls ++ last ∷ []) ≡ returned (0, record p { multiline = false })
unfolding give_lines give_input
give_lines-GoOn p [] last m go h e = rw (h, m, e) refl
give_lines-GoOn p (l ∷ ls) last m (hl, more, go) h e =
    rw (skipped p l m hl more) (give_lines-GoOn p ls last m go h e)

-- A reply of several lines, the first with a dash behind the status and the last with a space behind
-- the same status, has the effect of its first line alone, whatever is in the lines between them
-- that are not such a last line: the client ends where the first line brought it, outside a reply.
pub multiline_reply :
    (p q : Proto) (first : Line) (ls : List Line) (last : Line) (r : ℕ)
    → p.multiline ≡ false
    → has_lf first.text ≡ false
    → (byte_at first.text first.stale 3 == b'-') ≡ true
    → give_input p first ≡ returned (r, q)
    → GoOn (atoi first.text) ls
    → has_lf last.text ≡ false
    → is_last (atoi first.text) last ≡ true
    → give_lines p (first ∷ ls ++ last ∷ []) ≡ returned (0, record q { multiline = false })
unfolding give_lines give_input
multiline_reply p q first ls last r m hl dash e go h en =
    let s = atoi first.text in
    let p' : Proto = record p {
      status = s;
      response = take linelen first.text;
      multiline = byte_at first.text first.stale 3 == b'-';
    } in
    let first_read : InReply s (give_input p first) =
      rw (hl, m) (respond-InReply p.state p' first.text s dash refl) in
    let (on, same) = subst (InReply s) e first_read in
    rw e (give_lines-GoOn q ls last on (subst (λ z. GoOn z ls) (sym same) go) h (rw same en))
