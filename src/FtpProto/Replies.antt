-- ===== src/FtpProto/Replies.antt =====
-- dkftpbench-0.45/ftp_client_proto.cc: `giveInput`, what the client makes of a reply.
use c10kcode.Common.{
  ℕ, zero, suc, ◌+◌, ◌*◌, ◌^◌, Bool, true, false, ◌&&◌, Option, none, some, List, [], ◌∷◌, ◌++◌,
  ◌==◌, if◌then◌else◌, take, eacces, einval,
}
use c10kcode.CText.{ℤ, atoi, scan_int, is_digit, int_eq, within, to_byte}
use c10kcode.FtpProto.{
  State, uninit, init, connected, user, pass, idle, cwd, type, size, port, pasv, retr, quit,
  SockAddr, Proto, Line, Outcome, aborted, stray, returned, ◌>>=◌, linelen, byte_at, has_lf,
  print_line, return_state, give_up,
}

-- `strchr(ibuf, ',')`: what stands before the comma, and what follows from it on.
abbrev pub find_comma : List ℕ → Option (List ℕ × List ℕ)
find_comma [] = none
find_comma (c ∷ cs) =
    if c == b','
    then some ([], c ∷ cs)
    else elim (find_comma cs) [ none ↦ none | some (before, from) ↦ some (c ∷ before, from) ]

-- `while (isdigit(p[-1])) p--;` over what stands before the comma: the digits that it steps over.
-- `none` is where it reads the byte before the line.
abbrev pub step_back : List ℕ → Option (List ℕ)
step_back [] = none
step_back (c ∷ cs) = elim (step_back cs) [
  | some ds ↦ some ds
  | none ↦ if is_digit c then none else some cs
]

-- `sscanf` of `n + 1` numbers `%d` with commas between them
abbrev pub scan_ints : ℕ → List ℕ → Option (List ℤ)
scan_ints zero cs = elim (scan_int cs) [ none ↦ none | some (z, _) ↦ some (z ∷ []) ]
scan_ints (suc n) cs = elim (scan_int cs) [
  | some (z, c ∷ rest) ↦
      if c == b',' then elim (scan_ints n rest) [ none ↦ none | some zs ↦ some (z ∷ zs) ] else none
  | _ ↦ none
]

-- `MAKE_INT32`
abbrev pub make_int32 : ℕ → ℕ → ℕ → ℕ → ℕ
make_int32 a b c d = a * 2 ^ 24 + b * 2 ^ 16 + c * 2 ^ 8 + d

-- The address that six numbers make.
abbrev pub sock_addr : List ℤ → Option SockAddr
sock_addr (a1 ∷ a2 ∷ a3 ∷ a4 ∷ p1 ∷ p2 ∷ []) = some (record {
  addr = make_int32 (to_byte a1) (to_byte a2) (to_byte a3) (to_byte a4);
  port_number = make_int32 0 0 (to_byte p1) (to_byte p2);
})
sock_addr _ = none

-- The address in the text of a response; `stray` where the code reads the byte before it.
unfoldable pub pasv_address : List ℕ → Outcome (Option SockAddr)
pasv_address text = elim (find_comma text) [
  | none ↦ returned none
  | some (before, from) ↦ elim (step_back before) [
    | none ↦ stray
    | some ds ↦ elim (scan_ints 5 (ds ++ from)) [
      | none ↦ returned none
      | some zs ↦ returned (sock_addr zs)
    ]
  ]
]

-- "USER ", "PASS ", "CWD ", "TYPE ", "SIZE ", "RETR "
abbrev pub retr_line : Proto → List ℕ
retr_line p = b'R' ∷ b'E' ∷ b'T' ∷ b'R' ∷ b' ' ∷ p.fname

-- The success of PASV: back to the calling state, which sends its command if it is RETR.
abbrev pub pasv_done : Proto → SockAddr → Outcome (ℕ × Proto)
pasv_done p a = return_state (record p { address = a; address_ready = true }) >>= λ q.
    elim q.state [
      | retr ↦ print_line q (retr_line q) >>= λ r. returned (0, r)
      | _ ↦ returned (0, q)
    ]

abbrev pub pasv_reply : Proto → Option SockAddr → Outcome (ℕ × Proto)
pasv_reply p none = give_up p
pasv_reply p (some a) = pasv_done p a

abbrev pub ok2 : ℤ → Bool
ok2 s = within 200 300 s

-- The `switch (m_state)` of `giveInput`; the first argument is the state.
unfoldable pub respond : State → Proto → List ℕ → ℤ → Outcome (ℕ × Proto)
unfolding pasv_address
respond init p text s =
    if ok2 s
    then (if p.sent_user
        then returned (0, record p { state = user; sent_user = false })
        else returned (0, record p { state = connected }))
    else returned (eacces, record p { state = uninit })
respond user p text s =
    if ok2 s
    then returned (0, record p { state = idle })
    else if within 300 400 s
    then (print_line p (b'P' ∷ b'A' ∷ b'S' ∷ b'S' ∷ b' ' ∷ p.password) >>= λ q.
        returned (0, record q { state = pass }))
    else returned (0, record p { state = init })
respond pass p text s =
    if ok2 s
    then returned (0, record p { state = idle })
    else returned (0, record p { state = init })
respond cwd p text s = returned (0, record p { state = idle })
respond type p text s = returned (0, record p { state = idle })
respond size p text s = returned (0, record p { state = idle })
respond port p text s = if ok2 s then (return_state p >>= λ q. returned (0, q)) else give_up p
respond pasv p text s = if ok2 s then pasv_address text >>= pasv_reply p else give_up p
respond retr p text s =
    if within 100 200 s then returned (0, p) else returned (0, record p { state = idle })
respond uninit p text s = returned (einval, p)
respond connected p text s = returned (einval, p)
respond idle p text s = returned (einval, p)
respond quit p text s = returned (einval, p)

-- `giveInput(ibuf)`
unfoldable pub give_input : Proto → Line → Outcome (ℕ × Proto)
unfolding respond
give_input p l =
    let s = atoi l.text in
    let fourth = byte_at l.text l.stale 3 in
    let ended = fourth == b' ' && int_eq s p.status in
    let p' = record p { status = s; response = take linelen l.text; multiline = fourth == b'-' } in
    if has_lf l.text
    then aborted
    else if p.multiline
    then returned (0, if ended then record p { multiline = false } else p)
    else respond p.state p' l.text s
