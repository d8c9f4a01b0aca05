-- ===== src/Nbbio/Readline.antt =====
-- `nbbio::readline` is the scan of `Line` over the bytes that the buffer holds.
use c10kcode.Common.{
  ℕ, zero, suc, ◌+◌, ◌≡◌, refl, sym, subst, subst₂, ap, inl, inr, List, [], ◌∷◌, arith,
  if◌then◌else◌, length, write, Bool-cases, ltb, false, ne→==, ewouldblock, not, ◌&&◌,
}
use c10kcode.Nbbio.{Nbbio, bytes_used, is_empty, readc, read_loop, readline, is_lf, is_cr, no_line}
use c10kcode.Nbbio.Contents.{IsValid, contents, window, length-contents}
use c10kcode.Nbbio.Put.{readc_refines}
use c10kcode.Nbbio.Line.{LineState, scan, store, finish, blocked}

abbrev pub line_state : Nbbio → (ℕ → ℕ) → LineState
line_state b line = record { line = line; len = b.linelen; last = b.lastchar }

-- The result of `readline` as the scan sees it.
abbrev pub seen : ℕ × (ℕ → ℕ) × Nbbio → ℕ × LineState × List ℕ
seen (e, line, b) = (e, line_state b line, contents b)

-- One round of the loop, and of the scan, over what the rounds after it give.
read_step : Nbbio → (ℕ → ℕ) → ℕ → ℕ × (ℕ → ℕ) × Nbbio → ℕ × (ℕ → ℕ) × Nbbio → ℕ × (ℕ → ℕ) × Nbbio
read_step b line maxlen skipped stored =
    let ended : ℕ × (ℕ → ℕ) × Nbbio =
      (0, write line b.linelen 0, record (readc b).1 { linelen = 0; lastchar = (readc b).0 }) in
    if not (is_empty b) && ltb b.linelen maxlen
    then (if is_lf (readc b).0
        then (if is_cr b.lastchar then skipped else ended)
        else (if is_cr (readc b).0 then ended else stored))
    else (no_line b maxlen, line, b)

scan_step :
    ℕ
    → List ℕ
    → LineState
    → ℕ
    → ℕ × LineState × List ℕ
    → ℕ × LineState × List ℕ
    → ℕ × LineState × List ℕ
scan_step c cs s maxlen skipped stored =
    if ltb s.len maxlen
    then (if is_lf c
        then (if is_cr s.last then skipped else (0, finish s c, cs))
        else (if is_cr c then (0, finish s c, cs) else stored))
    else (blocked s maxlen, s, c ∷ cs)

-- `b` with the byte that has been read stored in the line.
abbrev kept : Nbbio → Nbbio
kept b = record (readc b).1 { linelen = b.linelen + 1; lastchar = (readc b).0 }

read_loop-suc :
    (fuel : ℕ) (b : Nbbio) (line : ℕ → ℕ) (maxlen : ℕ)
    → read_loop (suc fuel) b line maxlen
      ≡ read_step b line maxlen
          (read_loop fuel (readc b).1 line maxlen)
          (read_loop fuel (kept b) (write line b.linelen (readc b).0) maxlen)
unfolding read_loop read_step readc
read_loop-suc fuel b line maxlen = refl

scan-cons :
    (c : ℕ) (cs : List ℕ) (s : LineState) (maxlen : ℕ)
    → scan (c ∷ cs) s maxlen
      ≡ scan_step c cs s maxlen (scan cs s maxlen) (scan cs (store s c) maxlen)
unfolding scan scan_step
scan-cons c cs s maxlen = refl

-- A result of `readline` is a result of the scan, with the indices inside the buffer.
abbrev pub Refines : ℕ × (ℕ → ℕ) × Nbbio → ℕ × LineState × List ℕ → Type 0
Refines r t = (seen r ≡ t) × IsValid r.2

-- A round of the loop is a round of the scan.
read_step-Refines :
    (b : Nbbio) (line : ℕ → ℕ) (maxlen : ℕ) (skipped stored : ℕ × (ℕ → ℕ) × Nbbio)
    (skipped' stored' : ℕ × LineState × List ℕ)
    → IsValid b
    → is_empty b ≡ false
    → Refines skipped skipped'
    → Refines stored stored'
    → Refines
        (read_step b line maxlen skipped stored)
        (scan_step (readc b).0 (contents (readc b).1) (line_state b line) maxlen skipped' stored')
unfolding read_step scan_step
read_step-Refines b line maxlen skipped stored skipped' stored' v more r1 r2 =
    elim (Bool-cases (ltb b.linelen maxlen)) [
      | inl room ↦ elim (Bool-cases (is_lf (readc b).0)) [
        | inl lf ↦ elim (Bool-cases (is_cr b.lastchar)) [
          | inl cr ↦ rw (more, room, lf, cr) r1
          | inr other ↦ rw (more, room, lf, other) (refl, v'')
        ]
        | inr text ↦ elim (Bool-cases (is_cr (readc b).0)) [
          | inl cr ↦ rw (more, room, text, cr) (refl, v'')
          | inr plain ↦ rw (more, room, text, plain) r2
        ]
      ]
      | inr full ↦ rw (more, full) (rw (readc_refines b v more).0 refl, v)
    ]
  where
    v'' : IsValid (record (readc b).1 { linelen = 0; lastchar = (readc b).0 })
    v'' = let (_, v') = readc_refines b v more in record { get_in = v'.get_in; put_in = v'.put_in }

read_loop_round :
    (fuel : ℕ) (b : Nbbio) (line : ℕ → ℕ) (maxlen : ℕ)
    → IsValid b
    → is_empty b ≡ false
    → Refines
        (read_loop fuel (readc b).1 line maxlen)
        (scan (contents (readc b).1) (line_state b line) maxlen)
    → Refines
        (read_loop fuel (kept b) (write line b.linelen (readc b).0) maxlen)
        (scan (contents (readc b).1) (store (line_state b line) (readc b).0) maxlen)
    → Refines (read_loop (suc fuel) b line maxlen) (scan (contents b) (line_state b line) maxlen)
read_loop_round fuel b line maxlen v more r1 r2 =
    subst (λ q. Refines (read_loop (suc fuel) b line maxlen) (scan q (line_state b line) maxlen))
      (sym (readc_refines b v more).0)
      (subst₂ Refines (sym (read_loop-suc fuel b line maxlen))
        (sym (scan-cons (readc b).0 (contents (readc b).1) (line_state b line) maxlen))
        (read_step-Refines b line maxlen _ _ _ _ v more r1 r2))

read_loop-Refines :
    (fuel : ℕ) (b : Nbbio) (line : ℕ → ℕ) (maxlen : ℕ)
    → IsValid b
    → bytes_used b ≡ fuel
    → Refines (read_loop fuel b line maxlen) (scan (contents b) (line_state b line) maxlen)
unfolding read_loop scan readc
read_loop-Refines zero b line maxlen v u =
    let none_left : contents b ≡ [] = ap (window b.buf b.get_from) u in rw none_left (refl, v)
read_loop-Refines (suc fuel) b line maxlen v u =
    let more : is_empty b ≡ false = ne→== _ _ (omega arith) in
    let (split, v') = readc_refines b v more in
    let used : bytes_used (readc b).1 ≡ fuel =
      omega (arith, length-contents (readc b).1, length-contents b, ap length split) in
    read_loop_round fuel b line maxlen v more
      (read_loop-Refines fuel (readc b).1 line maxlen v' used)
      (read_loop-Refines fuel (kept b) (write line b.linelen (readc b).0) maxlen
        (record { get_in = v'.get_in; put_in = v'.put_in }) used)

-- `readline` does to the bytes of the buffer what the scan does to their queue, on every branch:
-- the same code, the same line buffer, length and last byte, and the same bytes left. An empty
-- buffer is left alone. The loop ends within its fuel, and the indices stay inside the buffer.
pub readline-Refines :
    (b : Nbbio) (line : ℕ → ℕ) (maxlen : ℕ)
    → IsValid b
    → Refines (readline b line maxlen) (
        if is_empty b
        then (ewouldblock, line_state b line, [])
        else scan (contents b) (line_state b line) maxlen)
unfolding readline
readline-Refines b line maxlen v = elim (Bool-cases (is_empty b)) [
  | inl e ↦
      let none_left : bytes_used b ≡ 0 = ground arith in
      rw e (ap (λ n. (ewouldblock, line_state b line, window b.buf b.get_from n)) none_left, v)
  | inr more ↦ rw more (read_loop-Refines (bytes_used b) b line maxlen v refl)
]
