-- ===== src/Nbbio/Resume.antt =====
-- Reading with `nbbio::readline` where the stream of bytes is cut, and how far it writes.
use c10kcode.Common.{
  ℕ, ◌≤◌, ◌≡◌, sym, subst, ◌∙◌, ap, ap₂, inl, inr, ◌++◌, arith, length, Bool-cases, false, ne→==,
  ==→ne, ewouldblock, length-append,
}
use c10kcode.Nbbio.{Nbbio, is_empty, readline}
use c10kcode.Nbbio.Contents.{IsValid, contents, length-contents}
use c10kcode.Nbbio.Line.{scan, scan-append, scan_bounds}
use c10kcode.Nbbio.Readline.{line_state, seen, Refines, readline-Refines}

scan_held :
    (b : Nbbio) (line : ℕ → ℕ) (maxlen : ℕ)
    → IsValid b
    → is_empty b ≡ false
    → Refines (readline b line maxlen) (scan (contents b) (line_state b line) maxlen)
scan_held b line maxlen v held = rw held at (readline-Refines b line maxlen v)

same_state :
    (b c : Nbbio) (line : ℕ → ℕ)
    → c.linelen ≡ b.linelen
    → c.lastchar ≡ b.lastchar
    → line_state c line ≡ line_state b line
same_state b c line l e = λ i. record { line = line; len = l i; last = e i }

-- Cutting the stream does not change what is read: where `readline` has taken all that `b` holds
-- and reports EWOULDBLOCK, and more bytes then come, calling it again does what one call on a
-- buffer `whole` that held all the bytes at once would have done.
pub readline_resumes :
    (b more whole : Nbbio) (line : ℕ → ℕ) (maxlen : ℕ)
    → IsValid b
    → IsValid more
    → IsValid whole
    → b.linelen ≤ maxlen
    → is_empty b ≡ false
    → is_empty more ≡ false
    → (readline b line maxlen).0 ≡ ewouldblock
    → more.linelen ≡ (readline b line maxlen).2.linelen
    → more.lastchar ≡ (readline b line maxlen).2.lastchar
    → whole.linelen ≡ b.linelen
    → whole.lastchar ≡ b.lastchar
    → contents whole ≡ contents b ++ contents more
    → seen (readline whole line maxlen) ≡ seen (readline more (readline b line maxlen).1 maxlen)
readline_resumes b more whole line maxlen v v1 v2 room some1 some2 e l1 c1 l2 c2 w =
    (scan_held whole line maxlen v2 some3).0
    ∙ ap₂ (λ q s. scan q s maxlen) w (same_state b whole line l2 c2)
    ∙ scan-append (contents b) (contents more) (line_state b line) maxlen room
        (ap (λ t. t.0) (sym first) ∙ e)
    ∙ ap (λ s. scan (contents more) s maxlen)
        (ap (λ t. t.1) (sym first)
          ∙ sym (same_state (readline b line maxlen).2 more (readline b line maxlen).1 l1 c1))
    ∙ sym (scan_held more (readline b line maxlen).1 maxlen v1 some2).0
  where
    first : seen (readline b line maxlen) ≡ scan (contents b) (line_state b line) maxlen
    first = (scan_held b line maxlen v some1).0

    some3 : is_empty whole ≡ false
    some3 = ne→== _ _ (
        omega (
          arith,
          length-contents b,
          length-contents whole,
          ap length w,
          length-append (contents b) (contents more),
          ==→ne _ _ some1,
        ))

-- `readline` stores nothing at or behind `maxlen`, and its length stays within it.
pub readline_in_bounds :
    (b : Nbbio) (line : ℕ → ℕ) (maxlen i : ℕ)
    → IsValid b
    → b.linelen ≤ maxlen
    → maxlen ≤ i
    → let (e, line', b') = readline b line maxlen in (line' i ≡ line i) × (b'.linelen ≤ maxlen)
readline_in_bounds b line maxlen i v room h = elim (Bool-cases (is_empty b)) [
  | inl none_held ↦
      let (same, _) = rw none_held at (readline-Refines b line maxlen v) in
      (ap (λ t. t.1.line i) same, subst (λ n. n ≤ maxlen) (sym (ap (λ t. t.1.len) same)) room)
  | inr held ↦
      let same = (scan_held b line maxlen v held).0 in
      let (out, inside) = scan_bounds (contents b) (line_state b line) maxlen i h room in
      (
        ap (λ t. t.1.line i) same ∙ out,
        subst (λ n. n ≤ maxlen) (sym (ap (λ t. t.1.len) same)) inside,
      )
]
