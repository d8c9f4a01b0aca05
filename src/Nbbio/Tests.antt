-- ===== src/Nbbio/Tests.antt =====
-- Runs of the buffer of nbbio.cc, and the theorems about it at concrete buffers.
use c10kcode.Common.{
  ℕ, zero, suc, ◌≤◌, ◌≡◌, refl, List, [], ◌∷◌, arith, length, write, memcpy, some,
}
use c10kcode.Nbbio.{Nbbio, put, readline, flush_to, fill_from, WriteReply, ReadReply, took, got}
use c10kcode.Nbbio.Contents.{IsValid, contents}
use c10kcode.Nbbio.Fifo
use c10kcode.Nbbio.Put.{put_refines}
use c10kcode.Nbbio.Transfer.{Filled, Flushed, fill_from_lem, flush_to_lem}
use c10kcode.Nbbio.Readline.{readline-Refines, line_state, Refines, seen}
use c10kcode.Nbbio.Line.{scan}
use c10kcode.Nbbio.Lines.{read_lines, read_lines-sent, sent, line_feeds_lost, line_feeds, GivesLine}
use c10kcode.Nbbio.Resume.{readline_resumes}

-- Two bytes, in the last cell of the buffer and in the first.
abbrev wrapped : Nbbio
wrapped = record {
  buf = write (write (λ _. 0) 1023 65) 0 66;
  get_from = 1023;
  put_to = 1;
  linelen = 0;
  lastchar = 0;
}

abbrev blank : ℕ → ℕ
blank _ = 0

wrapped-IsValid : IsValid wrapped
wrapped-IsValid = omega arith

-- A buffer with the bytes `xs` from its start.
abbrev loaded : List ℕ → ℕ → ℕ → Nbbio
loaded xs len last = record {
  buf = memcpy (λ _. 0) 0 xs;
  get_from = 0;
  put_to = length xs;
  linelen = len;
  lastchar = last;
}

put_wraps : contents (put wrapped (67 ∷ 68 ∷ [])).1 ≡ 65 ∷ 66 ∷ 67 ∷ 68 ∷ []
unfolding put
put_wraps = refl

put_refines_example :
    let (e, b') = put wrapped (67 ∷ []) in
    ((e, contents b') ≡ Fifo.put (65 ∷ 66 ∷ []) (67 ∷ [])) × IsValid b'
put_refines_example = put_refines wrapped (67 ∷ []) wrapped-IsValid

-- The descriptor gives one byte where it is asked for several.
abbrev one_byte : ℕ → ℕ → ReadReply
one_byte i zero = got []
one_byte i (suc n) = got (90 ∷ [])

fill_from_lem_example : Filled wrapped (fill_from one_byte wrapped)
fill_from_lem_example = fill_from_lem one_byte most wrapped wrapped-IsValid
  where
    most : (i n : ℕ) (xs : List ℕ) → one_byte i n ≡ got xs → length xs ≤ n
    most i zero xs e = ground arith
    most i (suc n) xs e = ground arith

abbrev all_taken : ℕ → ℕ → WriteReply
all_taken i n = took n

flush_to_wraps :
    flush_to all_taken wrapped ≡ some (0, 65 ∷ 66 ∷ [], record wrapped { get_from = 1 })
unfolding flush_to
flush_to_wraps = refl

flush_to_lem_example : Flushed wrapped (flush_to all_taken wrapped)
flush_to_lem_example = flush_to_lem all_taken (λ i n m e. ground arith) wrapped wrapped-IsValid

readline-Refines_example :
    Refines (readline wrapped blank 10) (scan (65 ∷ 66 ∷ []) (line_state wrapped blank) 10)
readline-Refines_example = readline-Refines wrapped blank 10 wrapped-IsValid

abbrev two_lines : List (List ℕ)
two_lines = (72 ∷ 73 ∷ []) ∷ (74 ∷ []) ∷ []

read_lines-sent_example : (read_lines 2 (loaded (sent two_lines) 0 0) blank 80).0 ≡ two_lines
read_lines-sent_example =
    read_lines-sent two_lines (loaded (sent two_lines) 0 0) blank 80 (omega arith) refl refl
      (omega arith)

line_feeds_lost_example :
    GivesLine
      (72 ∷ [])
      b'\r'
      []
      blank
      (loaded (line_feeds 3 (72 ∷ b'\r' ∷ [])) 0 b'\r')
      (readline (loaded (line_feeds 3 (72 ∷ b'\r' ∷ [])) 0 b'\r') blank 80)
line_feeds_lost_example =
    line_feeds_lost 2 (loaded (line_feeds 3 (72 ∷ b'\r' ∷ [])) 0 b'\r') blank 80 (72 ∷ []) []
      (omega arith) refl refl (omega arith) (omega arith)

readline_resumes_example :
    seen (readline (loaded (65 ∷ 66 ∷ b'\r' ∷ []) 0 0) blank 80)
    ≡ seen
        (readline (loaded (66 ∷ b'\r' ∷ []) 1 65) (readline (loaded (65 ∷ []) 0 0) blank 80).1 80)
unfolding readline
readline_resumes_example =
    readline_resumes (loaded (65 ∷ []) 0 0) (loaded (66 ∷ b'\r' ∷ []) 1 65)
      (loaded (65 ∷ 66 ∷ b'\r' ∷ []) 0 0) blank 80 (omega arith) (omega arith) (omega arith)
      (omega arith) refl refl refl refl refl refl refl refl
