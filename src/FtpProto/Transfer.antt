-- ===== src/FtpProto/Transfer.antt =====
-- dkftpbench-0.45/ftp_client_proto.cc: how a file transfer is set up.
use c10kcode.Common.{
  ℕ, ◌+◌, ◌*◌, ◌%◌, ◌≤◌, ◌<◌, ◌≡◌, refl, sym, ◌∙◌, ap, ap₂, true, false, none, some, List, [], ◌∷◌,
  ◌++◌, arith, ◌==◌, length, take, append_assoc,
}
use c10kcode.CText.{ℤ, pos, atoi, is_digit, scan_int, decimal}
use c10kcode.CText.Decimal.{NoDigit, scan_int-decimal, AllDigits, decimal-AllDigits}
use c10kcode.FtpProto.{
  port, pasv, retr, SockAddr, Proto, Line, stray, returned, cr_lf, linelen, maxfname, byte_at,
  has_lf, get_output, is_port_ready,
}
use c10kcode.FtpProto.Replies.{
  find_comma, step_back, scan_ints, sock_addr, make_int32, pasv_address, ok2, retr_line, respond,
  give_input,
}
use c10kcode.FtpProto.Requests.{get, commas}
use c10kcode.FtpProto.Valid.{print_line-fits, get_output-printed}

-- No comma in it.
abbrev pub NoComma : List ℕ → Type 0
NoComma [] = Unit {0}
NoComma (c ∷ cs) = ((c == b',') ≡ false) × NoComma cs

AllDigits-NoComma : (cs : List ℕ) → AllDigits cs → NoComma cs
AllDigits-NoComma [] h = tt
AllDigits-NoComma (c ∷ cs) (d, ds) = (ground arith, AllDigits-NoComma cs ds)

NoComma-append : (xs ys : List ℕ) → NoComma xs → NoComma ys → NoComma (xs ++ ys)
NoComma-append [] ys h k = k
NoComma-append (x ∷ xs) ys (c, h) k = (c, NoComma-append xs ys h k)

find_comma-append :
    (before from : List ℕ)
    → NoComma before
    → find_comma (before ++ b',' ∷ from) ≡ some (before, b',' ∷ from)
find_comma-append [] from h = refl
find_comma-append (c ∷ cs) from (n, h) = rw (n, find_comma-append cs from h) refl

step_back-AllDigits : (ds : List ℕ) → AllDigits ds → step_back ds ≡ none
step_back-AllDigits [] h = refl
step_back-AllDigits (d ∷ ds) (h, hs) = rw (step_back-AllDigits ds hs, h) refl

-- Stepping back over digits stops behind the byte in front of them.
step_back-append :
    (pre : List ℕ) (c : ℕ) (ds : List ℕ)
    → is_digit c ≡ false
    → AllDigits ds
    → step_back (pre ++ c ∷ ds) ≡ some ds
step_back-append [] c ds n h = rw (step_back-AllDigits ds h, n) refl
step_back-append (x ∷ pre) c ds n h = rw (step_back-append pre c ds n h) refl

-- The numbers as the scan gives them.
abbrev all_pos : List ℕ → List ℤ
all_pos [] = []
all_pos (n ∷ ns) = pos n ∷ all_pos ns

scan_ints-commas :
    (n : ℕ) (ns : List ℕ) (rest : List ℕ)
    → NoDigit rest
    → scan_ints (length ns) (commas (n ∷ ns) ++ rest) ≡ some (all_pos (n ∷ ns))
scan_ints-commas n [] rest h = rw (scan_ints, scan_int-decimal n rest h) refl
scan_ints-commas n (m ∷ ns) rest h =
    let more = commas (m ∷ ns) in
    let e : commas (n ∷ m ∷ ns) ++ rest ≡ decimal n ++ (b',' ∷ (more ++ rest)) =
      append_assoc (decimal n) (b',' ∷ more) rest in
    let first : scan_int (commas (n ∷ m ∷ ns) ++ rest) ≡ some (pos n, b',' ∷ (more ++ rest)) =
      ap scan_int e ∙ scan_int-decimal n (b',' ∷ (more ++ rest)) refl in
    rw (scan_ints, first, scan_ints-commas m ns rest h) refl

-- The numbers behind a byte that is neither a digit nor a comma are read back.
pasv_address-commas :
    (pre : List ℕ) (c a1 a2 a3 a4 p1 p2 : ℕ) (rest : List ℕ)
    → NoComma pre
    → (c == b',') ≡ false
    → is_digit c ≡ false
    → NoDigit rest
    → pasv_address (pre ++ c ∷ (commas (a1 ∷ a2 ∷ a3 ∷ a4 ∷ p1 ∷ p2 ∷ []) ++ rest))
      ≡ returned (sock_addr (pos a1 ∷ pos a2 ∷ pos a3 ∷ pos a4 ∷ pos p1 ∷ pos p2 ∷ []))
unfolding pasv_address
pasv_address-commas pre c a1 a2 a3 a4 p1 p2 rest hp hc hd hr =
    let more : List ℕ = b',' ∷ (commas (a2 ∷ a3 ∷ a4 ∷ p1 ∷ p2 ∷ []) ++ rest) in
    let numbers : List ℕ = commas (a1 ∷ a2 ∷ a3 ∷ a4 ∷ p1 ∷ p2 ∷ []) ++ rest in
    let split : numbers ≡ decimal a1 ++ more = append_assoc (decimal a1) _ rest in
    let front : pre ++ c ∷ numbers ≡ (pre ++ c ∷ decimal a1) ++ more =
      ap (λ t. pre ++ c ∷ t) split ∙ sym (append_assoc pre (c ∷ decimal a1) more) in
    let digits = decimal-AllDigits a1 in
    let no_comma =
      NoComma-append pre (c ∷ decimal a1) hp (hc, AllDigits-NoComma (decimal a1) digits) in
    let found : find_comma (pre ++ c ∷ numbers) ≡ some (pre ++ c ∷ decimal a1, more) =
      ap find_comma front ∙ find_comma-append (pre ++ c ∷ decimal a1) _ no_comma in
    let read : scan_ints 5 (decimal a1 ++ more)
        ≡ some (pos a1 ∷ pos a2 ∷ pos a3 ∷ pos a4 ∷ pos p1 ∷ pos p2 ∷ []) =
      ap (scan_ints 5) (sym split) ∙ scan_ints-commas a1 (a2 ∷ a3 ∷ a4 ∷ p1 ∷ p2 ∷ []) rest hr in
    rw (pasv_address, found, step_back-append pre c (decimal a1) hd digits, read) refl

-- A client that waits for the answer to PASV.
unfoldable pub AwaitsAddress : Proto → Type 0
AwaitsAddress p =
    (p.state ≡ pasv) × (p.stack ≡ retr ∷ []) × (p.multiline ≡ false) × (length p.fname < maxfname)

-- A client that waits for the answer to PASV and gets a line with a status from 200 to 299, in which
-- six numbers below 256 with commas between them follow a byte that is neither a digit nor a comma,
-- has the RETR command for its file to send, and gives out the address that the numbers make once.
pub passive_address :
    (p : Proto) (l : Line) (pre : List ℕ) (c a1 a2 a3 a4 p1 p2 : ℕ) (rest : List ℕ)
    → AwaitsAddress p
    → l.text ≡ pre ++ c ∷ (commas (a1 ∷ a2 ∷ a3 ∷ a4 ∷ p1 ∷ p2 ∷ []) ++ rest)
    → NoComma pre
    → (c == b',') ≡ false
    → is_digit c ≡ false
    → NoDigit rest
    → has_lf l.text ≡ false
    → ok2 (atoi l.text) ≡ true
    → (a1 < 256) × (a2 < 256) × (a3 < 256) × (a4 < 256) × (p1 < 256) × (p2 < 256)
    → (q : Proto) × (give_input p l ≡ returned (0, q))
      × (q.state ≡ retr)
      × (q.stack ≡ [])
      × (get_output q ≡ some (retr_line p ++ cr_lf))
      × ((is_port_ready q).0
          ≡ some (record {
            addr = ((a1 * 256 + a2) * 256 + a3) * 256 + a4;
            port_number = p1 * 256 + p2;
          }))
      × ((is_port_ready (is_port_ready q).1).0 ≡ none)
unfolding AwaitsAddress give_input respond get_output is_port_ready
passive_address p l pre c a1 a2 a3 a4 p1 p2 rest (hs, hk, hm, hf) e hp hc hd hr hl ho small =
    let read = ap pasv_address e ∙ pasv_address-commas pre c a1 a2 a3 a4 p1 p2 rest hp hc hd hr in
    let fits : length (retr_line p) + 2 ≤ linelen = omega arith in
    let a : SockAddr = record {
      addr = make_int32 (a1 % 256) (a2 % 256) (a3 % 256) (a4 % 256);
      port_number = make_int32 0 0 (p1 % 256) (p2 % 256);
    } in
    let q : Proto = record p {
      status = atoi l.text;
      response = take linelen l.text;
      multiline = byte_at l.text l.stale 3 == b'-';
      address = a;
      address_ready = true;
      stack = [];
      state = retr;
    } in
    let r : Proto = record q {
      obuf = retr_line p ++ cr_lf;
      obuflen = length (retr_line p ++ cr_lf);
    } in
    let ip : a.addr ≡ ((a1 * 256 + a2) * 256 + a3) * 256 + a4 = omega arith in
    let number : a.port_number ≡ p1 * 256 + p2 = omega arith in
    (
      r,
      rw (hl, hm, hs, ho, read, hk, print_line-fits q (retr_line p) fits) refl,
      refl,
      refl,
      get_output-printed q (retr_line p),
      ap₂ (λ x y. some (record { addr = x; port_number = y })) ip number,
      refl,
    )

-- The PORT command that `get` sends, and all else that it does, is the same for every port of the
-- address it is given.
pub port_ignored :
    (p : Proto) (fname : List ℕ) (ip n m : ℕ)
    → get p fname (some (record { addr = ip; port_number = n }))
      ≡ get p fname (some (record { addr = ip; port_number = m }))
unfolding get
port_ignored p fname ip n m = refl

-- A client that waits for the answer to PORT.
unfoldable pub AwaitsPort : Proto → Type 0
AwaitsPort p = (p.state ≡ port) × (p.stack ≡ retr ∷ []) × (p.multiline ≡ false) × (p.obuflen ≡ 0)

-- When a client without output left gets a reply to PORT with a status from 200 to 299, it waits for
-- the answer to RETR, and has no command to send.
pub port_sends_nothing :
    (p : Proto) (l : Line)
    → AwaitsPort p
    → has_lf l.text ≡ false
    → ok2 (atoi l.text) ≡ true
    → (q : Proto) × (give_input p l ≡ returned (0, q)) × (q.state ≡ retr) × (get_output q ≡ none)
unfolding AwaitsPort give_input respond get_output
port_sends_nothing p l (hs, hk, hm, ho) hl ok =
    let q : Proto = record p {
      status = atoi l.text;
      response = take linelen l.text;
      multiline = byte_at l.text l.stale 3 == b'-';
      stack = [];
      state = retr;
    } in
    (q, rw (hl, hm, hs, ok, hk) refl, refl, rw ho refl)

-- A reply to PASV with a status from 200 to 299 whose text is digits up to the first comma makes the
-- code read the byte in front of the line.
pub digits_then_comma_stray :
    (p : Proto) (l : Line) (before from : List ℕ)
    → AwaitsAddress p
    → AllDigits before
    → l.text ≡ before ++ b',' ∷ from
    → has_lf l.text ≡ false
    → ok2 (atoi l.text) ≡ true
    → give_input p l ≡ stray
unfolding AwaitsAddress give_input respond pasv_address
digits_then_comma_stray p l before from (hs, hk, hm, hf) digits e hl ok =
    let found : find_comma l.text ≡ some (before, b',' ∷ from) =
      ap find_comma e ∙ find_comma-append before from (AllDigits-NoComma before digits) in
    let outside : pasv_address l.text ≡ stray =
      rw (pasv_address, found, step_back-AllDigits before digits) refl in
    rw (hl, hm, hs, ok, outside) refl
