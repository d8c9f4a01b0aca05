-- ===== src/Nbbio/Lines.antt =====
-- Reading lines with `nbbio::readline`, as the program does: what comes back of a stream of CR LF
-- lines, and what becomes of bare line feeds.
use c10kcode.Common.{
  ℕ, zero, suc, ◌+◌, ◌<◌, ◌≡◌, ◌≢◌, refl, subst, ◌∙◌, ap, ap₂, ◌⊎◌, inl, inr, List, [], ◌∷◌, ◌++◌,
  arith, if◌then◌else◌, length, write, memcpy, ◌==◌, false, eq→==, ne→==, memcpy_below,
}
use c10kcode.Nbbio.{Nbbio, is_empty, readline}
use c10kcode.Nbbio.Contents.{IsValid, contents, length-contents}
use c10kcode.Nbbio.Line.{
  LineState, scan, stored, finish, IsText, scan-text, scan-cr, scan-crlf, len-stored, line-stored,
}
use c10kcode.Nbbio.Readline.{line_state, Refines, readline-Refines}

some_held : (b : Nbbio) (c : ℕ) (cs : List ℕ) → IsValid b → contents b ≡ c ∷ cs → is_empty b ≡ false
some_held b c cs v e = ne→== _ _ (omega (arith, length-contents b, ap length e))

-- The result of `readline` on a buffer that holds bytes.
pub readline-scan :
    (b : Nbbio) (line : ℕ → ℕ) (maxlen c : ℕ) (cs : List ℕ)
    → IsValid b
    → contents b ≡ c ∷ cs
    → Refines (readline b line maxlen) (scan (c ∷ cs) (line_state b line) maxlen)
readline-scan b line maxlen c cs v e =
    subst (λ q. Refines (readline b line maxlen) (scan q (line_state b line) maxlen)) e
      (rw (some_held b c cs v e) at (readline-Refines b line maxlen v))

-- What `readline` gives for a line: success, the bytes and a NUL in the line buffer, the bytes
-- behind the line left in the buffer, and the buffer ready for the next line.
abbrev pub GivesLine : List ℕ → ℕ → List ℕ → (ℕ → ℕ) → Nbbio → ℕ × (ℕ → ℕ) × Nbbio → Type 0
GivesLine xs end rest line b (e, line', b') =
    (e ≡ 0)
    × (line' ≡ write (memcpy line b.linelen xs) (b.linelen + length xs) 0)
    × (contents b' ≡ rest)
    × (b'.linelen ≡ 0)
    × (b'.lastchar ≡ end)
    × IsValid b'

scan-line :
    (xs rest : List ℕ) (s : LineState) (maxlen : ℕ)
    → IsText xs
    → s.len + length xs < maxlen
    → scan (xs ++ (b'\r' ∷ rest)) s maxlen ≡ (0, finish (stored s xs) b'\r', rest)
scan-line xs rest s maxlen t room =
    scan-text xs (b'\r' ∷ rest) s maxlen t (omega arith)
    ∙ scan-cr rest (stored s xs) maxlen (omega (arith, len-stored s xs))

GivesLine-of_seen :
    (xs rest : List ℕ) (end : ℕ) (line : ℕ → ℕ) (b : Nbbio) (r : ℕ × (ℕ → ℕ) × Nbbio)
    → Refines r (0, finish (stored (line_state b line) xs) end, rest)
    → GivesLine xs end rest line b r
GivesLine-of_seen xs rest end line b (e, line', b') (same, v) = (
  ap (λ t. t.0) same,
  ap (λ t. t.1.line) same
      ∙ ap₂ (λ a n. write a n 0) (line-stored (line_state b line) xs)
          (len-stored (line_state b line) xs),
  ap (λ t. t.2) same,
  ap (λ t. t.1.len) same,
  ap (λ t. t.1.last) same,
  v,
)

-- Text up to a carriage return is read as one line, also where the first bytes of it were read
-- before, provided that the line buffer has room for it and for the NUL.
pub readline-cr :
    (b : Nbbio) (line : ℕ → ℕ) (maxlen : ℕ) (xs rest : List ℕ)
    → IsValid b
    → contents b ≡ xs ++ (b'\r' ∷ rest)
    → IsText xs
    → b.linelen + length xs < maxlen
    → GivesLine xs b'\r' rest line b (readline b line maxlen)
readline-cr b line maxlen [] rest v e t room = GivesLine-of_seen [] rest b'\r' line b _ (
    subst (Refines (readline b line maxlen)) (scan-line [] rest (line_state b line) maxlen t room)
      (readline-scan b line maxlen b'\r' rest v e))
readline-cr b line maxlen (x ∷ xs) rest v e t room =
    GivesLine-of_seen (x ∷ xs) rest b'\r' line b _ (
      subst (Refines (readline b line maxlen))
        (scan-line (x ∷ xs) rest (line_state b line) maxlen t room)
        (readline-scan b line maxlen x (xs ++ (b'\r' ∷ rest)) v e))

-- So is the text behind the line feed of a CR LF, which is skipped.
pub readline-lf-cr :
    (b : Nbbio) (line : ℕ → ℕ) (maxlen : ℕ) (xs rest : List ℕ)
    → IsValid b
    → contents b ≡ b'\n' ∷ xs ++ (b'\r' ∷ rest)
    → b.lastchar ≡ b'\r'
    → IsText xs
    → b.linelen + length xs < maxlen
    → GivesLine xs b'\r' rest line b (readline b line maxlen)
readline-lf-cr b line maxlen xs rest v e after t room = GivesLine-of_seen xs rest b'\r' line b _ (
    subst (Refines (readline b line maxlen))
      (scan-crlf (xs ++ (b'\r' ∷ rest)) (line_state b line) maxlen (omega arith) after
        ∙ scan-line xs rest (line_state b line) maxlen t room)
      (readline-scan b line maxlen b'\n' (xs ++ (b'\r' ∷ rest)) v e))

-- The characters of a C string, up to its NUL; at most `n`.
c_string : ℕ → (ℕ → ℕ) → ℕ → List ℕ
c_string zero a i = []
c_string (suc n) a i = if a i == 0 then [] else a i ∷ c_string n a (i + 1)

c_string-suc :
    (n : ℕ) (a : ℕ → ℕ) (i x : ℕ)
    → a i ≡ x
    → x ≢ 0
    → c_string (suc n) a i ≡ x ∷ c_string n a (i + 1)
unfolding c_string
c_string-suc n a i x e h = ground arith

c_string-line :
    (a : ℕ → ℕ) (i n end : ℕ) (xs : List ℕ)
    → IsText xs
    → length xs < n
    → end ≡ i + length xs
    → c_string n (write (memcpy a i xs) end 0) i ≡ xs
unfolding c_string
c_string-line a i zero end xs t h e = absurd (omega arith)
c_string-line a i (suc n) end [] t h e = ground arith
c_string-line a i (suc n) end (x ∷ xs) t h e =
    let a' : ℕ → ℕ = memcpy (write a i x) (i + 1) xs in
    let unwritten : write a' end 0 i ≡ a' i = ground arith in
    let stays : a' i ≡ write a i x i = memcpy_below (write a i x) (i + 1) xs i (omega arith) in
    let written : write a i x i ≡ x = ground arith in
    c_string-suc n (write a' end 0) i x (unwritten ∙ stays ∙ written) t.2
    ∙ ap (◌∷◌ x) (c_string-line (write a i x) (i + 1) n end xs t.3 (omega arith) (omega arith))

-- The bytes of lines, each with its CR LF.
abbrev pub sent : List (List ℕ) → List ℕ
sent [] = []
sent (xs ∷ xss) = xs ++ (b'\r' ∷ b'\n' ∷ sent xss)

-- Reading `n` lines one after the other: the strings that the caller sees, in order, and the
-- buffer then. It stops where a call does not succeed.
pub read_lines : ℕ → Nbbio → (ℕ → ℕ) → ℕ → List (List ℕ) × Nbbio
read_lines zero b line maxlen = ([], b)
read_lines (suc n) b line maxlen =
    let (e, line', b') = readline b line maxlen in
    let (xss, b'') = read_lines n b' line' maxlen in
    if e == 0 then (c_string maxlen line' 0 ∷ xss, b'') else ([], b)

-- Lines that a buffer of `maxlen` bytes has room for.
abbrev pub AreLines : ℕ → List (List ℕ) → Type 0
AreLines maxlen [] = Unit {0}
AreLines maxlen (xs ∷ xss) = IsText xs × (length xs < maxlen) × AreLines maxlen xss

read_lines-suc :
    (n : ℕ) (b : Nbbio) (line : ℕ → ℕ) (maxlen : ℕ) (xs rest : List ℕ)
    → b.linelen ≡ 0
    → IsText xs
    → length xs < maxlen
    → GivesLine xs b'\r' rest line b (readline b line maxlen)
    → let (e, line', b') = readline b line maxlen in
      read_lines (suc n) b line maxlen
      ≡ (xs ∷ (read_lines n b' line' maxlen).0, (read_lines n b' line' maxlen).1)
unfolding read_lines
read_lines-suc n b line maxlen xs rest start t room given =
    let (e, line', b') = readline b line maxlen in
    let same : c_string maxlen line' 0 ≡ xs =
      ap (λ a. c_string maxlen a 0)
        (given.1 ∙ ap (λ k. write (memcpy line k xs) (k + length xs) 0) start)
      ∙ c_string-line line 0 maxlen (0 + length xs) xs t room refl in
    rw (eq→== e 0 given.0, same)

-- Behind a carriage return the line feed of the last line may still stand in the buffer.
abbrev Awaits : List ℕ → Nbbio → Type 0
Awaits q b = (contents b ≡ q) ⊎ ((contents b ≡ b'\n' ∷ q) × (b.lastchar ≡ b'\r'))

gives_next :
    (b : Nbbio) (line : ℕ → ℕ) (maxlen : ℕ) (xs rest : List ℕ)
    → IsValid b
    → b.linelen ≡ 0
    → Awaits (xs ++ (b'\r' ∷ rest)) b
    → IsText xs
    → length xs < maxlen
    → GivesLine xs b'\r' rest line b (readline b line maxlen)
gives_next b line maxlen xs rest v start (inl e) t room =
    readline-cr b line maxlen xs rest v e t (omega arith)
gives_next b line maxlen xs rest v start (inr (e, after)) t room =
    readline-lf-cr b line maxlen xs rest v e after t (omega arith)

read_lines_awaited :
    (xss : List (List ℕ)) (b : Nbbio) (line : ℕ → ℕ) (maxlen : ℕ)
    → IsValid b
    → b.linelen ≡ 0
    → Awaits (sent xss) b
    → AreLines maxlen xss
    → (read_lines (length xss) b line maxlen).0 ≡ xss
unfolding read_lines
read_lines_awaited [] b line maxlen v start w t = refl
read_lines_awaited (xs ∷ xss) b line maxlen v start w t =
    let line_read = gives_next b line maxlen xs (b'\n' ∷ sent xss) v start w t.0 t.1 in
    let (e, line', b') = readline b line maxlen in
    let (_, _, left, start', after, v') = line_read in
    ap (λ r. r.0)
      (read_lines-suc (length xss) b line maxlen xs (b'\n' ∷ sent xss) start t.0 t.1 line_read)
    ∙ ap (◌∷◌ xs) (read_lines_awaited xss b' line' maxlen v' start' (inr (left, after)) t.2)

-- Lines sent with CR LF come back one by one, as they were, in order.
pub read_lines-sent :
    (xss : List (List ℕ)) (b : Nbbio) (line : ℕ → ℕ) (maxlen : ℕ)
    → IsValid b
    → b.linelen ≡ 0
    → contents b ≡ sent xss
    → AreLines maxlen xss
    → (read_lines (length xss) b line maxlen).0 ≡ xss
read_lines-sent xss b line maxlen v start e t =
    read_lines_awaited xss b line maxlen v start (inl e) t

-- `k` line feeds
abbrev pub line_feeds : ℕ → List ℕ → List ℕ
line_feeds zero cs = cs
line_feeds (suc k) cs = b'\n' ∷ line_feeds k cs

scan-line_feeds :
    (k : ℕ) (cs : List ℕ) (s : LineState) (maxlen : ℕ)
    → s.len < maxlen
    → s.last ≡ b'\r'
    → scan (line_feeds k cs) s maxlen ≡ scan cs s maxlen
scan-line_feeds zero cs s maxlen room after = refl
scan-line_feeds (suc k) cs s maxlen room after =
    scan-crlf (line_feeds k cs) s maxlen room after ∙ scan-line_feeds k cs s maxlen room after

-- Behind a line that ended in a carriage return every further line feed is dropped, however many
-- there are: blank lines that end in a line feed alone are lost.
pub line_feeds_lost :
    (k : ℕ) (b : Nbbio) (line : ℕ → ℕ) (maxlen : ℕ) (xs rest : List ℕ)
    → IsValid b
    → contents b ≡ b'\n' ∷ line_feeds k (xs ++ (b'\r' ∷ rest))
    → b.lastchar ≡ b'\r'
    → IsText xs
    → b.linelen + length xs < maxlen
    → GivesLine xs b'\r' rest line b (readline b line maxlen)
line_feeds_lost k b line maxlen xs rest v e after t room =
    GivesLine-of_seen xs rest b'\r' line b _ (
      subst (Refines (readline b line maxlen))
        (scan-line_feeds (suc k) (xs ++ (b'\r' ∷ rest)) (line_state b line) maxlen (omega arith)
            after
          ∙ scan-line xs rest (line_state b line) maxlen t room)
        (readline-scan b line maxlen b'\n' (line_feeds k (xs ++ (b'\r' ∷ rest))) v e))
