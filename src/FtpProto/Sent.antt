-- ===== src/FtpProto/Sent.antt =====
-- dkftpbench-0.45/ftp_client_proto.cc: what the requests leave behind.
use c10kcode.Common.{
  ℕ, suc, ◌+◌, ◌*◌, ◌/◌, ◌%◌, ◌^◌, ◌≤◌, ◌<◌, ◌≡◌, refl, sym, ◌∙◌, ap, subst, inl, inr, Bool, true,
  false, Option, none, some, List, [], ◌∷◌, ◌++◌, arith, leb, if◌then◌else◌, length, take,
  Bool-cases, length-append, length-take, ewouldblock, eisconn,
}
use c10kcode.CText.{decimal}
use c10kcode.FtpProto.{
  State, init, connected, idle, cwd, type, size, SockAddr, Proto, Outcome, returned, cr_lf, linelen,
  maxpassword, maxfname, is_output_ready,
}
use c10kcode.FtpProto.Requests.{
  login, login_in, when_new, send_user, when_idle, send_in, cd, set_type, get_size, get, ask_data,
  commas, get_byte, port_of, port_line, is_parent,
}
use c10kcode.FtpProto.Valid.{
  stack_of, SentUser, Fits, IsValid, Keeps, print_line-fits, printed_fits,
}
use c10kcode.CText.Decimal.{decimal-length}

send_in-IsValid :
    (p : Proto) (text : List ℕ) (s : State)
    → length text + 2 ≤ linelen
    → p.stack ≡ stack_of s
    → SentUser s p.sent_user
    → Fits p
    → Keeps (send_in p text s)
unfolding IsValid
send_in-IsValid p text s h st su f =
    rw (print_line-fits p text h) (st, su, (printed_fits text h, f.1, f.2))

idle_only :
    (s : State) (p : Proto) (go : Outcome (ℕ × Proto))
    → p.state ≡ s
    → IsValid p
    → (p.state ≡ idle → Keeps go)
    → Keeps (elim s [
      | idle ↦ if is_output_ready p then returned (ewouldblock, p) else go
      | _ ↦ returned (eisconn, p)
    ])
idle_only idle p go e v k = elim (Bool-cases (is_output_ready p)) [
  | inl y ↦ rw y v
  | inr n ↦ rw n (k e)
]
idle_only _ p go e v k = v

-- A guarded request leaves the client as it was, or does what it is for in the idle state.
when_idle-IsValid :
    (p : Proto) (go : Outcome (ℕ × Proto))
    → IsValid p
    → (p.state ≡ idle → Keeps go)
    → Keeps (when_idle p go)
when_idle-IsValid p go v k = idle_only p.state p go refl v k

in_idle : (p : Proto) → IsValid p → p.state ≡ idle → (p.stack ≡ []) × (p.sent_user ≡ false) × Fits p
unfolding IsValid
in_idle p (st, su, f) e =
    subst (λ s. (p.stack ≡ stack_of s) × SentUser s p.sent_user × Fits p) e (st, su, f)

pub cd-IsValid :
    (p : Proto) (dir : List ℕ) → length dir + 6 ≤ linelen → IsValid p → Keeps (cd p dir)
unfolding cd
cd-IsValid p dir h v = when_idle-IsValid p _ v (λ e.
    let (st, su, f) = in_idle p v e in
    elim (Bool-cases (is_parent dir)) [
      | inl y ↦ rw y (send_in-IsValid p (b'C' ∷ b'D' ∷ b'U' ∷ b'P' ∷ []) cwd (omega arith) st su f)
      | inr n ↦ rw n (send_in-IsValid p (b'C' ∷ b'W' ∷ b'D' ∷ b' ' ∷ dir) cwd (omega arith) st su f)
    ])

pub set_type-IsValid :
    (p : Proto) (ttype : List ℕ) → length ttype + 7 ≤ linelen → IsValid p → Keeps (set_type p ttype)
unfolding set_type
set_type-IsValid p ttype h v = when_idle-IsValid p _ v (λ e.
    let (st, su, f) = in_idle p v e in
    send_in-IsValid p (b'T' ∷ b'Y' ∷ b'P' ∷ b'E' ∷ b' ' ∷ ttype) type (omega arith) st su f)

pub get_size-IsValid :
    (p : Proto) (fname : List ℕ) → length fname + 7 ≤ linelen → IsValid p → Keeps (get_size p fname)
unfolding get_size
get_size-IsValid p fname h v = when_idle-IsValid p _ v (λ e.
    let (st, su, f) = in_idle p v e in
    send_in-IsValid p (b'S' ∷ b'I' ∷ b'Z' ∷ b'E' ∷ b' ' ∷ fname) size (omega arith) st su f)

-- Each number is below 256.
abbrev AreBytes : List ℕ → Type 0
AreBytes [] = Unit {0}
AreBytes (n ∷ ns) = (n < 256) × AreBytes ns

length-commas : (ns : List ℕ) → AreBytes ns → length (commas ns) ≤ 4 * length ns
length-commas [] h = omega arith
length-commas (n ∷ []) (h, _) = omega (arith, decimal-length 2 n (omega arith))
length-commas (n ∷ m ∷ ns) (h, hs) =
    let rest = length-commas (m ∷ ns) hs in
    let three = decimal-length 2 n (omega arith) in
    let e : length (commas (n ∷ m ∷ ns)) ≡ length (decimal n) + suc (length (commas (m ∷ ns))) =
      length-append (decimal n) (b',' ∷ commas (m ∷ ns)) in
    omega arith

below_256 : (n : ℕ) → n % 256 < 256
below_256 n = omega arith

port_line-fits : (a : SockAddr) → length (port_line a) + 2 ≤ linelen
port_line-fits a =
    let ip = a.addr in
    let byte : (k x : ℕ) → get_byte k x < 256 = λ k x. below_256 (x / 2 ^ (8 * k)) in
    let ns : List ℕ =
      get_byte 3 ip
      ∷ get_byte 2 ip
      ∷ get_byte 1 ip
      ∷ get_byte 0 ip
      ∷ get_byte 1 (port_of a)
      ∷ get_byte 0 (port_of a)
      ∷ [] in
    omega (
      arith,
      length-commas ns (
        byte 3 ip,
        (byte 2 ip, (byte 1 ip, (byte 0 ip, (byte 1 (port_of a), (byte 0 (port_of a), tt))))),
      ),
    )

ask_data-IsValid :
    (p : Proto) (adr : Option SockAddr)
    → p.stack ≡ []
    → p.sent_user ≡ false
    → Fits p
    → Keeps (ask_data p adr)
unfolding IsValid
ask_data-IsValid p none st su f =
    let text : List ℕ = b'P' ∷ b'A' ∷ b'S' ∷ b'V' ∷ [] in
    rw st (refl, su, (printed_fits text (omega arith), f.1, f.2))
ask_data-IsValid p (some a) st su f =
    let h = port_line-fits a in
    rw (print_line-fits p (port_line a) h, st) (refl, su, (printed_fits (port_line a) h, f.1, f.2))

-- What `get` prints is short, so only the file name has to be.
pub get-IsValid :
    (p : Proto) (fname : List ℕ) (adr : Option SockAddr) → IsValid p → Keeps (get p fname adr)
unfolding get
get-IsValid p fname adr v = when_idle-IsValid p _ v (λ e.
    let (st, su, f) = in_idle p v e in
    elim (Bool-cases (leb maxfname (length fname))) [
      | inl y ↦ rw y v
      | inr n ↦
          let named = record p { fname = fname } in
          let f' : Fits named = (f.0, ground arith, f.2) in
          rw n (ask_data-IsValid named adr st su f')
    ])

send_user-Fits :
    (p : Proto) (username password : List ℕ)
    → length username + 7 ≤ linelen
    → Fits p
    → (q : Proto) × (send_user p username password ≡ returned q)
      × (q.stack ≡ p.stack)
      × (q.sent_user ≡ p.sent_user)
      × (q.state ≡ p.state)
      × Fits q
send_user-Fits p username password h f =
    let text : List ℕ = b'U' ∷ b'S' ∷ b'E' ∷ b'R' ∷ b' ' ∷ username in
    let fits : length text + 2 ≤ linelen = omega arith in
    let short : length (take 31 password) < maxpassword = omega (arith, length-take 31 password) in
    (
      record p {
        obuf = text ++ cr_lf;
        obuflen = length (text ++ cr_lf);
        password = take 31 password;
      },
      rw (print_line-fits p text fits) refl,
      refl,
      refl,
      refl,
      (printed_fits text fits, f.1, short),
    )

if-Keeps :
    (b : Bool) (x y : Outcome (ℕ × Proto))
    → Keeps x
    → (b ≡ false → Keeps y)
    → Keeps (if b then x else y)
if-Keeps true x y k l = k
if-Keeps false x y k l = l refl

when_new-IsValid :
    (p : Proto) (go : Outcome (ℕ × Proto))
    → IsValid p
    → (p.sent_user ≡ false → Keeps go)
    → Keeps (when_new p go)
when_new-IsValid p go v k =
    if-Keeps p.sent_user _ _ v (λ n. if-Keeps (is_output_ready p) _ _ v (λ _. k n))

-- USER is sent at once; whether its answer comes before or after the hello is kept in `sent_user`.
login_in-IsValid :
    (s : State) (p : Proto) (username password : List ℕ)
    → length username + 7 ≤ linelen
    → p.state ≡ s
    → p.stack ≡ stack_of s
    → Fits p
    → IsValid p
    → Keeps (login_in s p username password)
unfolding IsValid
login_in-IsValid connected p username password h e st f v =
    let (q, sent, same, su, at, fits) = send_user-Fits p username password h f in
    when_new-IsValid p _ v (λ n. rw sent (same ∙ st, su ∙ n, fits))
login_in-IsValid init p username password h e st f v =
    let (q, sent, same, su, at, fits) = send_user-Fits p username password h f in
    when_new-IsValid p _ v (λ n.
      let here = at ∙ e in
      rw sent
        (same ∙ st ∙ sym (ap stack_of here), subst (λ s. SentUser s true) (sym here) tt, fits))
login_in-IsValid _ p username password h e st f v = v

pub login-IsValid :
    (p : Proto) (username password : List ℕ)
    → length username + 7 ≤ linelen
    → IsValid p
    → Keeps (login p username password)
unfolding login IsValid
login-IsValid p username password h v =
    login_in-IsValid p.state p username password h refl v.0 v.2 v
