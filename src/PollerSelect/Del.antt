-- ===== src/PollerSelect/Del.antt =====
-- dkftpbench-0.45/Poller_select.cc: `del`.
use c10kcode.Common.{
  ℕ, zero, suc, ◌≤◌, ◌<◌, ◌≡◌, refl, sym, ◌∙◌, subst, Bool, false, Option, none, some, leb, ◌==◌,
  if◌then◌else◌, write, arith, Bool-cases, Option-cases, inl, inr,
}
use c10kcode.CText.{pos}
use c10kcode.PollerPoll.{Outcome, aborted, stray, unfinished, returned, ◌>>=◌}
use c10kcode.PollerSelect.{PollerSelect, fd_setsize, set_mask, shrink, take_out, del}
use c10kcode.PollerSelect.Valid.{IsValid, registered, Changes, masks_change}

picked_some {ℓ} :
    {A : Type ℓ} (b d : Bool) (o : Option ℕ) (x y w z : A) (c : ℕ)
    → b ≡ false
    → o ≡ some c
    → d ≡ false
    → (if b then x else elim o [ none ↦ y | some _ ↦ if d then w else z ]) ≡ z
picked_some b d o x y w z c h k l = rw (h, k, l) refl

shrink_lem :
    (table : ℕ → Option ℕ) (n : ℕ)
    → (shrink table n ≤ n) × ((f c : ℕ) → f < n → table f ≡ some c → f < shrink table n)
shrink_lem table zero = (omega arith, λ f i h e. absurd (omega arith))
shrink_lem table (suc n) =
    let (less, kept) = shrink_lem table n in
    elim (Option-cases (table n)) [
      | inl unused ↦
          let cut : shrink table (suc n) ≡ shrink table n = rw (shrink, unused) refl in
          rw cut (
            omega (arith, less),
            λ f i h e. elim (Bool-cases (f == n)) [
              | inl last ↦ absurd (ground arith)
              | inr before ↦ kept f i (ground arith) e
            ],
          )
      | inr (x, at) ↦
          let whole : shrink table (suc n) ≡ suc n = rw (shrink, at) refl in
          rw whole (omega arith, λ f i h e. h)
    ]

take_out-IsValid :
    (q : PollerSelect) (fd : ℕ)
    → IsValid q
    → q.read_fds fd ≡ false
    → q.write_fds fd ≡ false
    → IsValid (take_out q fd)
      × ((f : ℕ) → registered (take_out q fd) f ≡ (if f == fd then none else registered q f))
take_out-IsValid q fd v r w =
    let (less, kept) = shrink_lem (write q.clients fd none) q.fd_limit in
    (
      record {
        below = λ f c e. kept f c (ground (arith, v.below f c)) e;
        unread = λ f n. ground (arith, v.unread f);
        unwritten = λ f n. ground (arith, v.unwritten f);
        inside = omega (arith, less, v.inside);
      },
      λ f. ground arith,
    )

not_awaited :
    (q : PollerSelect) (fd c : ℕ)
    → registered q fd ≡ some (c, false, false)
    → IsValid q
    → (q.read_fds fd ≡ false) × (q.write_fds fd ≡ false)
not_awaited q fd c held v = elim (Option-cases (q.clients fd)) [
  | inl free ↦ (v.unread fd free, v.unwritten fd free)
  | inr (d, e) ↦ (ground arith, ground arith)
]

-- `del` behind its call of `setMask`.
Changes-take_out :
    (p : PollerSelect) (fd c : ℕ) (o : Outcome (ℕ × PollerSelect))
    → Changes p fd (some (c, false, false)) o
    → Changes p fd none (o >>= λ r. returned (0, take_out r.1 fd))
Changes-take_out p fd c aborted h = h
Changes-take_out p fd c stray h = h
Changes-take_out p fd c unfinished h = h
Changes-take_out p fd c (returned (e, q)) (_, v, all) =
    let held : registered q fd ≡ some (c, false, false) = ground (arith, all fd) in
    let (r, w) = not_awaited q fd c held v in
    let (v', gone) = take_out-IsValid q fd v r w in
    (
      refl,
      v',
      λ f. elim (Bool-cases (f == fd)) [
        | inl here ↦ gone f ∙ rw here refl
        | inr other ↦ gone f ∙ rw other (ground (arith, all f))
      ],
    )

-- `del` of a watched descriptor is `setMask`, and taking it out.
pub del-run :
    (p : PollerSelect) (fd client : ℕ)
    → IsValid p
    → p.clients fd ≡ some client
    → del p (pos fd) ≡ (set_mask p (pos fd) 0 >>= λ r. returned (0, take_out r.1 fd))
unfolding del
del-run p fd c v e =
    let known : fd < p.fd_limit = v.below fd c e in
    let in_set : leb fd_setsize fd ≡ false = ground (arith, v.inside) in
    let below_limit : leb p.fd_limit fd ≡ false = ground arith in
    picked_some (leb fd_setsize fd) (leb p.fd_limit fd) (p.clients fd) _ _ _ _ c in_set e
      below_limit

-- Deleting a watched descriptor fails no assertion and returns 0: it is watched no more, and every
-- other descriptor is as before.
pub del-Changes :
    (p : PollerSelect) (fd client : ℕ)
    → IsValid p
    → p.clients fd ≡ some client
    → Changes p fd none (del p (pos fd))
del-Changes p fd c v e =
    let (set, _, _) = masks_change p fd c 0 v e in
    subst (Changes p fd none) (sym (del-run p fd c v e))
      (Changes-take_out p fd c (set_mask p (pos fd) 0) set)
