-- ===== src/FtpProto/Valid.antt =====
-- dkftpbench-0.45/ftp_client_proto.cc: the states that the client can be in between two calls.
use c10kcode.Common.{
  ℕ, ◌+◌, ◌≤◌, ◌<◌, ◌≡◌, refl, ap, ◌⊎◌, inl, inr, Bool, true, false, ◌&&◌, Option, none, some, List,
  [], ◌∷◌, ◌++◌, arith, leb, ◌==◌, length, take, Bool-cases, Option-cases, length-append,
}
use c10kcode.CText.{ℤ, atoi, is_digit, int_eq, within}
use c10kcode.FtpProto.{
  State, uninit, init, connected, user, pass, idle, cwd, type, size, port, pasv, retr, quit,
  SockAddr, Proto, Line, Outcome, aborted, stray, returned, cr_lf, linelen, maxpassword, maxfname,
  byte_at, has_lf, print_line, get_output,
}
use c10kcode.FtpProto.Replies.{
  find_comma, step_back, scan_ints, sock_addr, pasv_address, ok2, retr_line, pasv_reply, respond,
  give_input,
}

-- PORT and PASV are substates of RETR; no other state has anything on the stack.
abbrev pub stack_of : State → List State
stack_of port = retr ∷ []
stack_of pasv = retr ∷ []
stack_of _ = []

-- USER waits to be recognised only before the server has said hello.
abbrev pub SentUser : State → Bool → Type 0
SentUser init sent = Unit {0}
SentUser uninit sent = Unit {0}
SentUser _ sent = sent ≡ false

-- What is in the buffers fits, the NUL included.
abbrev pub Fits : Proto → Type 0
Fits p = (p.obuflen ≤ linelen) × (length p.fname < maxfname) × (length p.password < maxpassword)

unfoldable pub IsValid : Proto → Type 0
IsValid p = (p.stack ≡ stack_of p.state) × SentUser p.state p.sent_user × Fits p

-- The call returns, and the client is in such a state again.
abbrev pub Keeps : Outcome (ℕ × Proto) → Type 0
Keeps aborted = ⊥
Keeps stray = ⊥
Keeps (returned r) = IsValid r.1

-- A line of a reply as RFC 959 has it: three digits, then a space or a dash.
unfoldable pub IsReply : List ℕ → Type 0
IsReply (a ∷ b ∷ c ∷ d ∷ cs) =
    (is_digit a ≡ true) × (is_digit b ≡ true) × (is_digit c ≡ true) × ((d ≡ b' ') ⊎ (d ≡ b'-'))
IsReply _ = ⊥

step_back_stops :
    (c : ℕ) (cs : List ℕ) → is_digit c ≡ false → (ds : List ℕ) × (step_back (c ∷ cs) ≡ some ds)
step_back_stops c cs h = elim (Option-cases (step_back cs)) [
  | inl e ↦ (cs, rw (e, h) refl)
  | inr (ds, e) ↦ (ds, rw e refl)
]

step_back-cons : (c : ℕ) (cs ds : List ℕ) → step_back cs ≡ some ds → step_back (c ∷ cs) ≡ some ds
step_back-cons c cs ds e = rw e refl

-- The four bytes of the reply code are in front of the first comma, and the last of them is no
-- digit.
pasv_address-IsReply :
    (text : List ℕ) → IsReply text → (a : Option SockAddr) × (pasv_address text ≡ returned a)
unfolding pasv_address IsReply
pasv_address-IsReply [] h = absurd h
pasv_address-IsReply (a ∷ []) h = absurd h
pasv_address-IsReply (a ∷ b ∷ []) h = absurd h
pasv_address-IsReply (a ∷ b ∷ c ∷ []) h = absurd h
pasv_address-IsReply (a ∷ b ∷ c ∷ d ∷ cs) (ha, hb, hc, hd) =
    let ea : (a == b',') ≡ false = ground arith in
    let eb : (b == b',') ≡ false = ground arith in
    let ec : (c == b',') ≡ false = ground arith in
    let ed : (d == b',') ≡ false = ground arith in
    let nd : is_digit d ≡ false = ground arith in
    elim (Option-cases (find_comma cs)) [
      | inl e ↦
          let fc : find_comma (a ∷ b ∷ c ∷ d ∷ cs) ≡ none = rw (ea, eb, ec, ed, e) refl in
          (none, rw (pasv_address, fc) refl)
      | inr ((before, from), e) ↦
          let (ds, stops) = step_back_stops d before nd in
          let fc : find_comma (a ∷ b ∷ c ∷ d ∷ cs) ≡ some (a ∷ b ∷ c ∷ d ∷ before, from) =
            rw (ea, eb, ec, ed, e) refl in
          let back : step_back (a ∷ b ∷ c ∷ d ∷ before) ≡ some ds =
            step_back-cons a (b ∷ c ∷ d ∷ before) ds
              (step_back-cons b (c ∷ d ∷ before) ds (step_back-cons c (d ∷ before) ds stops)) in
          elim (Option-cases (scan_ints 5 (ds ++ from))) [
            | inl none_read ↦ (none, rw (pasv_address, fc, back, none_read) refl)
            | inr (zs, read) ↦ (sock_addr zs, rw (pasv_address, fc, back, read) refl)
          ]
    ]

pub printed_fits : (text : List ℕ) → length text + 2 ≤ linelen → length (text ++ cr_lf) ≤ linelen
printed_fits text h =
    let e : length (text ++ cr_lf) ≡ length text + 2 = length-append text cr_lf in omega arith

-- A line that fits is printed.
pub print_line-fits :
    (p : Proto) (text : List ℕ)
    → length text + 2 ≤ linelen
    → print_line p text
      ≡ returned (record p { obuf = text ++ cr_lf; obuflen = length (text ++ cr_lf) })
print_line-fits p text h =
    let small = printed_fits text h in
    let fits : leb (length (text ++ cr_lf)) linelen ≡ true = ground arith in rw fits refl

take_all : (xs : List ℕ) → take (length xs) xs ≡ xs
take_all [] = refl
take_all (x ∷ xs) = ap (◌∷◌ x) (take_all xs)

-- The line that was printed is the one that is sent.
pub get_output-printed :
    (p : Proto) (text : List ℕ)
    → get_output (record p { obuf = text ++ cr_lf; obuflen = length (text ++ cr_lf) })
      ≡ some (text ++ cr_lf)
unfolding get_output
get_output-printed p text =
    let e : length (text ++ cr_lf) ≡ length text + 2 = length-append text cr_lf in
    let some_left : (length (text ++ cr_lf) == 0) ≡ false = ground arith in
    rw (some_left, take_all (text ++ cr_lf)) refl

pasv_reply-IsValid :
    (p : Proto) (a : Option SockAddr)
    → p.stack ≡ stack_of pasv
    → p.sent_user ≡ false
    → Fits p
    → Keeps (pasv_reply p a)
unfolding IsValid
pasv_reply-IsValid p none st su f = rw st (refl, su, f)
pasv_reply-IsValid p (some a) st su f =
    let fits : length (retr_line p) + 2 ≤ linelen = omega (arith, f.1) in
    let q : Proto = record p { address = a; address_ready = true; stack = []; state = retr } in
    rw (st, print_line-fits q (retr_line p) fits)
      (refl, su, (printed_fits (retr_line p) fits, f.1, f.2))

respond-IsValid :
    (s : State) (p : Proto) (text : List ℕ) (status : ℤ)
    → IsReply text
    → p.stack ≡ stack_of s
    → SentUser s p.sent_user
    → p.state ≡ s
    → Fits p
    → Keeps (respond s p text status)
unfolding respond IsValid
respond-IsValid init p text s r st su e f = elim (Bool-cases (ok2 s)) [
  | inl y ↦ elim (Bool-cases p.sent_user) [
    | inl sent ↦ rw (y, sent) (st, refl, f)
    | inr not_sent ↦ rw (y, not_sent) (st, refl, f)
  ]
  | inr n ↦ rw n (st, tt, f)
]
respond-IsValid user p text s r st su e f = elim (Bool-cases (ok2 s)) [
  | inl y ↦ rw y (st, su, f)
  | inr n ↦ elim (Bool-cases (within 300 400 s)) [
    | inl y ↦
        let fits : length (b'P' ∷ b'A' ∷ b'S' ∷ b'S' ∷ b' ' ∷ p.password) + 2 ≤ linelen =
          omega (arith, f.2) in
        rw (n, y, print_line-fits p (b'P' ∷ b'A' ∷ b'S' ∷ b'S' ∷ b' ' ∷ p.password) fits)
          (st, su, (printed_fits (b'P' ∷ b'A' ∷ b'S' ∷ b'S' ∷ b' ' ∷ p.password) fits, f.1, f.2))
    | inr n' ↦ rw (n, n') (st, tt, f)
  ]
]
respond-IsValid pass p text s r st su e f = elim (Bool-cases (ok2 s)) [
  | inl y ↦ rw y (st, su, f)
  | inr n ↦ rw n (st, tt, f)
]
respond-IsValid cwd p text s r st su e f = (st, su, f)
respond-IsValid type p text s r st su e f = (st, su, f)
respond-IsValid size p text s r st su e f = (st, su, f)
respond-IsValid port p text s r st su e f = elim (Bool-cases (ok2 s)) [
  | inl y ↦ rw (y, st) (refl, su, f)
  | inr n ↦ rw (n, st) (refl, su, f)
]
respond-IsValid pasv p text s r st su e f = elim (Bool-cases (ok2 s)) [
  | inl y ↦
      let (a, read) = pasv_address-IsReply text r in rw (y, read) (pasv_reply-IsValid p a st su f)
  | inr n ↦ rw (n, st) (refl, su, f)
]
respond-IsValid retr p text s r st su e f = elim (Bool-cases (within 100 200 s)) [
  | inl y ↦ rw (y, e) (st, su, f)
  | inr n ↦ rw n (st, su, f)
]
respond-IsValid uninit p text s r st su e f = rw e (st, su, f)
respond-IsValid connected p text s r st su e f = rw e (st, su, f)
respond-IsValid idle p text s r st su e f = rw e (st, su, f)
respond-IsValid quit p text s r st su e f = rw e (st, su, f)

pub give_input-IsValid :
    (p : Proto) (l : Line)
    → IsReply l.text
    → has_lf l.text ≡ false
    → IsValid p
    → Keeps (give_input p l)
unfolding give_input IsValid
give_input-IsValid p l r h (st, su, f) = elim (Bool-cases p.multiline) [
  | inl m ↦ elim (Bool-cases (byte_at l.text l.stale 3 == b' ' && int_eq (atoi l.text) p.status)) [
    | inl y ↦ rw (h, m, y) (st, su, f)
    | inr n ↦ rw (h, m, n) (st, su, f)
  ]
  | inr m ↦
      let q : Proto = record p {
        status = atoi l.text;
        response = take linelen l.text;
        multiline = byte_at l.text l.stale 3 == b'-';
      } in
      rw (h, m) (respond-IsValid p.state q l.text (atoi l.text) r st su refl f)
]
