-- ===== src/Nbbio/Progress.antt =====
-- nbbio.cc: `readline` takes bytes out of the buffer, and at least one where it gives a line.
use c10kcode.Common.{
  suc, if_both, ℕ, ◌≤◌, ◌<◌, ◌≡◌, ◌≢◌, sym, subst, List, [], ◌∷◌, arith, length, ltb, ewouldblock,
  if◌then◌else◌,
}
use c10kcode.Nbbio.{Nbbio, bytes_used, is_empty, readline, is_lf, is_cr}
use c10kcode.Nbbio.Contents.{IsValid, contents, length-contents}
use c10kcode.Nbbio.Line.{LineState, scan, store, finish, blocked}
use c10kcode.Nbbio.Readline.{seen, readline-Refines, line_state}

-- No more bytes are left than before, and fewer where the code is 0.
abbrev pub Takes : ℕ → ℕ → ℕ → Type 0
Takes n code left = (left ≤ n) × (code ≡ 0 → left < n)

abbrev TakesFrom : ℕ → ℕ × LineState × List ℕ → Type 0
TakesFrom n r = Takes n r.0 (length r.2)

blocked_code : (s : LineState) (maxlen : ℕ) → blocked s maxlen ≢ 0
blocked_code s maxlen h = ground arith

weaker : (n : ℕ) (r : ℕ × LineState × List ℕ) → TakesFrom n r → TakesFrom (suc n) r
weaker n r (few, fewer) = (omega (arith, few), λ h. omega (arith, fewer h))

scan-TakesFrom :
    (cs : List ℕ) (s : LineState) (maxlen : ℕ) → TakesFrom (length cs) (scan cs s maxlen)
unfolding scan
scan-TakesFrom [] s maxlen = (omega arith, λ h. absurd (blocked_code s maxlen h))
scan-TakesFrom (c ∷ cs) s maxlen =
    let p : ℕ × LineState × List ℕ → Type 0 = TakesFrom (suc (length cs)) in
    let ended : p (0, finish s c, cs) = (omega arith, λ h. omega arith) in
    if_both p (ltb s.len maxlen) _ _
      (λ room.
        if_both p (is_lf c) _ _
          (λ lf.
            if_both p (is_cr s.last) _ _
              (λ e. weaker _ (scan cs s maxlen) (scan-TakesFrom cs s maxlen)) (λ e. ended))
          (λ text.
            if_both p (is_cr c) _ _ (λ e. ended)
              (λ e. weaker _ (scan cs (store s c) maxlen) (scan-TakesFrom cs (store s c) maxlen))))
      (λ full. (omega arith, λ h. absurd (blocked_code s maxlen h)))

-- `readline` leaves no more bytes in the buffer than there were, and fewer where it gives a line;
-- the indices stay inside the buffer.
pub readline-Takes :
    (b : Nbbio) (line : ℕ → ℕ) (maxlen : ℕ)
    → IsValid b
    → Takes (bytes_used b) (readline b line maxlen).0 (bytes_used (readline b line maxlen).2)
      × IsValid (readline b line maxlen).2
readline-Takes b line maxlen v =
    let r : ℕ × (ℕ → ℕ) × Nbbio = readline b line maxlen in
    let (same, v') = readline-Refines b line maxlen v in
    let scanned : TakesFrom (bytes_used b) (
        if is_empty b
        then (ewouldblock, line_state b line, [])
        else scan (contents b) (line_state b line) maxlen) =
      if_both (TakesFrom (bytes_used b)) (is_empty b) _ _
        (λ e. (omega arith, λ h. absurd (ground arith)))
        (λ e.
          subst (λ n. TakesFrom n (scan (contents b) (line_state b line) maxlen))
            (length-contents b) (scan-TakesFrom (contents b) (line_state b line) maxlen)) in
    let taken : TakesFrom (bytes_used b) (seen r) =
      subst (TakesFrom (bytes_used b)) (sym same) scanned in
    (subst (Takes (bytes_used b) r.0) (length-contents r.2) taken, v')
