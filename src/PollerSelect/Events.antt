-- ===== src/PollerSelect/Events.antt =====
-- dkftpbench-0.45/Poller_select.cc: `getNextEvent`.
use c10kcode.Common.{
  ℕ, zero, suc, ◌+◌, ◌-◌, ◌≤◌, ◌<◌, ◌≡◌, ◌≢◌, refl, sym, ap, subst, Bool, true, false, ◌||◌, Option,
  none, some, ltb, ◌==◌, if◌then◌else◌, arith, Bool-cases, inl, inr, ewouldblock,
}
use c10kcode.CText.{pos}
use c10kcode.PollerPoll.{
  PollEvent, Outcome, aborted, stray, unfinished, returned, ◌>>=◌, is_positive,
}
use c10kcode.PollerSelect.{
  PollerSelect, find_set, revents_of, get_next_event, minus_bit, take_out, set_mask, del,
}
use c10kcode.PollerSelect.Valid.{IsValid, Changes, masks_change}
use c10kcode.PollerSelect.Del.{del-run}

-- The descriptor has a bit set in what `select` gave back.
abbrev pub is_set : PollerSelect → ℕ → Bool
is_set p f = p.test_read f || p.test_write f

-- The search gives the first one that is set, if any.
abbrev Found : PollerSelect → ℕ → ℕ → Option ℕ → Type 0
Found p i n none = (f : ℕ) → i ≤ f → f < i + n → is_set p f ≡ false
Found p i n (some j) =
    (i ≤ j) × (j < i + n) × (is_set p j ≡ true) × ((f : ℕ) → i ≤ f → f < j → is_set p f ≡ false)

find_set-Found : (p : PollerSelect) (n i : ℕ) → Found p i n (find_set n p.test_read p.test_write i)
find_set-Found p zero i = λ f a b. absurd (omega arith)
find_set-Found p (suc n) i = elim (Bool-cases (is_set p i)) [
  | inl here ↦ rw here (omega arith, omega arith, here, λ f a b. absurd (omega arith))
  | inr other ↦
      let later = find_set-Found p n (i + 1) in
      rw other (further p n i (find_set n p.test_read p.test_write (i + 1)) other later)
]
  where
    further :
        (p : PollerSelect) (n i : ℕ) (o : Option ℕ)
        → is_set p i ≡ false
        → Found p (i + 1) n o
        → Found p i (suc n) o
    further p n i none other h = λ f a b. elim (Bool-cases (f == i)) [
      | inl same ↦ ground arith
      | inr apart ↦ h f (ground arith) (omega arith)
    ]
    further p n i (some j) other (a, b, c, h) = (
      omega arith,
      omega arith,
      c,
      λ f d e. elim (Bool-cases (f == i)) [
        | inl same ↦ ground arith
        | inr apart ↦ h f (ground arith) e
      ],
    )

-- What the call may answer: the next descriptor that is set, with its client and what is set for
-- it; or nothing, where no further one is.
abbrev pub GivesNext : PollerSelect → ℕ × Option PollEvent × PollerSelect → Type 0
GivesNext p (err, none, q) =
    (err ≡ ewouldblock) × ((f : ℕ) → p.next_fd ≤ f → f < p.fd_limit → is_set p f ≡ false)
GivesNext p (err, some e, q) =
    (err ≡ 0)
    × (p.next_fd ≤ e.fd)
    × (e.fd < p.fd_limit)
    × (is_set p e.fd ≡ true)
    × (e.revents ≡ revents_of (p.test_read e.fd) (p.test_write e.fd))
    × (e.client ≡ p.clients e.fd)
    × ((f : ℕ) → p.next_fd ≤ f → f < e.fd → is_set p f ≡ false)
    × (q.next_fd ≡ e.fd + 1)

abbrev answered : PollerSelect → Option ℕ → ℕ × Option PollEvent × PollerSelect
answered p none = (
  ewouldblock,
  none,
  record p { next_fd = (if ltb p.next_fd p.fd_limit then p.fd_limit else p.next_fd) + 1 },
)
answered p (some i) = (
  0,
  some (record {
    fd = i;
    revents = revents_of (p.test_read i) (p.test_write i);
    client = p.clients i;
  }),
  record p {
    rbits = minus_bit (p.test_write i) (minus_bit (p.test_read i) p.rbits);
    next_fd = i + 1;
  },
)

answered-GivesNext :
    (p : PollerSelect) (o : Option ℕ)
    → Found p p.next_fd (p.fd_limit - p.next_fd) o
    → GivesNext p (answered p o)
answered-GivesNext p none h = (refl, λ f a b. h f a (omega arith))
answered-GivesNext p (some i) (a, b, c, h) = (refl, a, omega arith, c, refl, refl, h, refl)

-- While the count of bits is not used up, the call gives the least descriptor that is set from the
-- place of the last search on, with its client and what is set for it, and the next search starts
-- behind it; it gives none, with EWOULDBLOCK, only where no descriptor from there on is set.
pub get_next_event-GivesNext :
    (p : PollerSelect) → is_positive p.rbits ≡ true → GivesNext p (get_next_event p)
unfolding get_next_event
get_next_event-GivesNext p more =
    let o = find_set (p.fd_limit - p.next_fd) p.test_read p.test_write p.next_fd in
    let run : get_next_event p ≡ answered p o =
      ap (λ b. if b then answered p o else (ewouldblock, none, p)) more in
    subst (GivesNext p) (sym run)
      (answered-GivesNext p o (find_set-Found p (p.fd_limit - p.next_fd) p.next_fd))

-- An event that is given is not one of `fd`.
abbrev pub NotGiven : ℕ → ℕ × Option PollEvent × PollerSelect → Type 0
NotGiven fd (err, none, q) = Unit {0}
NotGiven fd (err, some e, q) = e.fd ≢ fd

GivesNext-NotGiven :
    (p : PollerSelect) (fd : ℕ) (t : ℕ × Option PollEvent × PollerSelect)
    → is_set p fd ≡ false
    → GivesNext p t
    → NotGiven fd t
GivesNext-NotGiven p fd (err, none, q) h g = tt
GivesNext-NotGiven p fd (err, some e, q) h g = ground (arith, g.3)

not_set-NotGiven :
    (p : PollerSelect) (fd : ℕ) → is_set p fd ≡ false → NotGiven fd (get_next_event p)
unfolding get_next_event
not_set-NotGiven p fd h = elim (Bool-cases (is_positive p.rbits)) [
  | inl more ↦ GivesNext-NotGiven p fd (get_next_event p) h (get_next_event-GivesNext p more)
  | inr over ↦
      let o = find_set (p.fd_limit - p.next_fd) p.test_read p.test_write p.next_fd in
      let run : get_next_event p ≡ (ewouldblock, none, p) =
        ap (λ b. if b then answered p o else (ewouldblock, none, p)) over in
      subst (NotGiven fd) (sym run) tt
]

-- The call returns a poller from which no event of `fd` is had.
abbrev pub NotGivenAfter : ℕ → Outcome (ℕ × PollerSelect) → Type 0
NotGivenAfter fd (returned r) = NotGiven fd (get_next_event r.1)
NotGivenAfter fd _ = ⊥

NotGivenAfter-take_out :
    (p : PollerSelect) (fd : ℕ) (r : Option (ℕ × Bool × Bool)) (o : Outcome (ℕ × PollerSelect))
    → Changes p fd r o
    → NotGivenAfter fd (o >>= λ s. returned (0, take_out s.1 fd))
NotGivenAfter-take_out p fd r aborted c = c
NotGivenAfter-take_out p fd r stray c = c
NotGivenAfter-take_out p fd r unfinished c = c
NotGivenAfter-take_out p fd r (returned (e, q)) c =
    not_set-NotGiven (take_out q fd) fd (ground arith)

-- Deleting a watched descriptor while events are still to be had drops its own: the next event is
-- none of it, even where `select` has set it.
pub deleted_not_given :
    (p : PollerSelect) (fd client : ℕ)
    → IsValid p
    → p.clients fd ≡ some client
    → NotGivenAfter fd (del p (pos fd))
deleted_not_given p fd c v e =
    let (set, _, _) = masks_change p fd c 0 v e in
    subst (NotGivenAfter fd) (sym (del-run p fd c v e))
      (NotGivenAfter-take_out p fd _ (set_mask p (pos fd) 0) set)
