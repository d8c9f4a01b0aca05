-- ===== src/PollerSelect/Valid.antt =====
-- dkftpbench-0.45/Poller_select.cc: what is watched, and how `add` and the masks change it.
use c10kcode.Common.{
  ℕ, ◌+◌, ◌≤◌, ◌<◌, ◌≡◌, refl, sym, ◌∙◌, subst, Bool, false, ◌&&◌, ◌||◌, Option, none, some, ltb,
  leb, ◌==◌, if◌then◌else◌, write, arith, Bool-cases, inl, inr,
}
use c10kcode.CText.{pos}
use c10kcode.PollerPoll.{Outcome, aborted, stray, unfinished, returned, ◌>>=◌}
use c10kcode.PollerSelect.{
  PollerSelect, fd_setsize, has_in, has_out, init, watched, masked, set_mask, or_mask, and_mask,
  add,
}

-- Watched descriptors are below the limit, and the others are in neither set.
pub record IsValid (p : PollerSelect) : Type 0 where
  pub below : (f c : ℕ) → p.clients f ≡ some c → f < p.fd_limit
  pub unread : (f : ℕ) → p.clients f ≡ none → p.read_fds f ≡ false
  pub unwritten : (f : ℕ) → p.clients f ≡ none → p.write_fds f ≡ false
  pub inside : p.fd_limit ≤ fd_setsize

-- The client of a descriptor, and whether it waits to be read and written.
abbrev pub registered : PollerSelect → ℕ → Option (ℕ × Bool × Bool)
registered p f = elim (p.clients f) [ none ↦ none | some c ↦ some (c, p.read_fds f, p.write_fds f) ]

-- The call returns 0, and `fd` alone has changed, to `r`.
abbrev pub Changes :
    PollerSelect → ℕ → Option (ℕ × Bool × Bool) → Outcome (ℕ × PollerSelect) → Type 0
Changes p fd r (returned (e, q)) =
    (e ≡ 0) × IsValid q × ((f : ℕ) → registered q f ≡ (if f == fd then r else registered p f))
Changes p fd r _ = ⊥

watched-Changes :
    (p : PollerSelect) (fd client : ℕ) (i o : ℕ → Bool)
    → IsValid p
    → p.clients fd ≡ some client
    → Changes p fd (some (client, i fd, o fd)) (watched p (pos fd) (λ f. masked p f (i f) (o f)))
watched-Changes p fd client i o v e =
    let known : fd < p.fd_limit = v.below fd client e in
    let in_set : leb fd_setsize fd ≡ false = ground (arith, v.inside) in
    let below_limit : leb p.fd_limit fd ≡ false = ground arith in
    let run : watched p (pos fd) (λ f. masked p f (i f) (o f))
        ≡ returned (0, masked p fd (i fd) (o fd)) =
      rw (in_set, e, below_limit) refl in
    subst (Changes p fd (some (client, i fd, o fd))) (sym run) (
      refl,
      record {
        below = v.below;
        unread = λ f n. ground (arith, v.unread f n);
        unwritten = λ f n. ground (arith, v.unwritten f n);
        inside = v.inside;
      },
      λ f. ground arith,
    )

-- For a watched descriptor the three calls fail no assertion and return 0: it then waits for what the
-- mask says, also for that, or only for that of what it waited for; all other descriptors are as
-- before.
pub masks_change :
    (p : PollerSelect) (fd client eventmask : ℕ)
    → IsValid p
    → p.clients fd ≡ some client
    → Changes p fd
        (some (client, has_in eventmask, has_out eventmask))
        (set_mask p (pos fd) eventmask)
      × Changes p fd
          (some (client, has_in eventmask || p.read_fds fd, has_out eventmask || p.write_fds fd))
          (or_mask p (pos fd) eventmask)
      × Changes p fd
          (some (client, has_in eventmask && p.read_fds fd, has_out eventmask && p.write_fds fd))
          (and_mask p (pos fd) eventmask)
unfolding set_mask or_mask and_mask
masks_change p fd client m v e = (
  watched-Changes p fd client (λ _. has_in m) (λ _. has_out m) v e,
  watched-Changes p fd client (λ f. has_in m || p.read_fds f) (λ f. has_out m || p.write_fds f) v e,
  watched-Changes p fd client (λ f. has_in m && p.read_fds f) (λ f. has_out m && p.write_fds f) v e,
)

-- `add` before its call of `setMask`.
abbrev placed : PollerSelect → ℕ → ℕ → PollerSelect
placed p fd client = record p {
  fd_limit = if ltb fd p.fd_limit then p.fd_limit else fd + 1;
  clients = write p.clients fd (some client);
}

placed-IsValid :
    (p : PollerSelect) (fd client : ℕ) → IsValid p → fd < fd_setsize → IsValid (placed p fd client)
placed-IsValid p fd client v h = record {
  below = λ f c e. ground (arith, v.below f c);
  unread = λ f n. ground (arith, v.unread f);
  unwritten = λ f n. ground (arith, v.unwritten f);
  inside = ground (arith, v.inside);
}

Changes-from :
    (p q : PollerSelect) (fd : ℕ) (r : Option (ℕ × Bool × Bool)) (o : Outcome (ℕ × PollerSelect))
    → ((f : ℕ) → (f == fd) ≡ false → registered q f ≡ registered p f)
    → Changes q fd r o
    → Changes p fd r (o >>= λ s. returned (0, s.1))
Changes-from p q fd r aborted same c = c
Changes-from p q fd r stray same c = c
Changes-from p q fd r unfinished same c = c
Changes-from p q fd r (returned (e, s)) same (_, v, all) = (
  refl,
  v,
  λ f. elim (Bool-cases (f == fd)) [
    | inl here ↦ all f ∙ rw here refl
    | inr other ↦ all f ∙ rw other (same f other)
  ],
)

picked_none {ℓ} :
    {A : Type ℓ} (b : Bool) (o : Option ℕ) (x y z : A)
    → b ≡ false
    → o ≡ none
    → (if b then x else elim o [ some _ ↦ y | none ↦ z ]) ≡ z
picked_none b o x y z h k = rw (h, k) refl

-- Adding a descriptor below 1024 that is not watched fails no assertion and returns 0: it is then
-- watched for its client and waits for what the mask says, and every other descriptor is as before.
pub add-Changes :
    (p : PollerSelect) (fd client eventmask : ℕ)
    → IsValid p
    → fd < fd_setsize
    → p.clients fd ≡ none
    → Changes p fd
        (some (client, has_in eventmask, has_out eventmask))
        (add p (pos fd) client eventmask)
unfolding add
add-Changes p fd client m v h free =
    let in_set : leb fd_setsize fd ≡ false = ground arith in
    let q = placed p fd client in
    let set = masks_change q fd client m (placed-IsValid p fd client v h) (ground arith) in
    let run : add p (pos fd) client m ≡ (set_mask q (pos fd) m >>= λ r. returned (0, r.1)) =
      picked_none (leb fd_setsize fd) (p.clients fd) _ _ _ in_set free in
    subst (Changes p fd (some (client, has_in m, has_out m))) (sym run) (
      Changes-from p q fd (some (client, has_in m, has_out m)) (set_mask q (pos fd) m)
        (λ f other. ground arith) set.0)

-- `init` watches nothing.
pub starts_empty : (p : PollerSelect) → IsValid (init p) × ((f : ℕ) → registered (init p) f ≡ none)
unfolding init
starts_empty p = (
  record {
    below = λ f c e. absurd (ground arith);
    unread = λ f n. refl;
    unwritten = λ f n. refl;
    inside = omega arith;
  },
  λ f. refl,
)
