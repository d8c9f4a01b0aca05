-- ===== src/PollerPoll/Events.antt =====
-- dkftpbench-0.45/Poller_poll.cc: `waitForEvents` and `getNextEvent`.
use c10kcode.Common.{
  ℕ, zero, suc, ◌≤◌, ◌<◌, ◌≡◌, refl, sym, ◌∙◌, ap, subst, subst₂, true, false, Option, none, some,
  List, [], ◌∷◌, ltb, ◌==◌, if◌then◌else◌, arith, Bool-cases, inl, inr, ==→eq, ==→ne, ltb→lt,
  ewouldblock,
}
use c10kcode.CText.{pos, negsuc}
use c10kcode.PollerPoll.{
  PollEvent, PollerPoll, ready, wait_for_events, is_positive, find_ready, next_from, get_next_event,
  Outcome, aborted, stray, unfinished, returned, ◌>>=◌,
}
use c10kcode.PollerPoll.Valid.{IsValid}
use c10kcode.PollerPoll.Next.{
  count_ready, left_at, take_found, get_next_event-inside, skips, delivers,
}

-- `getNextEvent` again and again, until it gives none.
unfoldable pub drain : ℕ → PollerPoll → Outcome (List PollEvent)
drain zero p = unfinished
drain (suc fuel) p = get_next_event p >>= λ r. elim r.1 [
  | none ↦ returned []
  | some e ↦ drain fuel r.2 >>= λ es. returned (e ∷ es)
]

-- The events at `fds` and `clients`
abbrev pub ready_events : (ℕ → ℕ) → PollerPoll → ℕ → List (Option ℕ × ℕ × Option ℕ)
ready_events f p zero = []
ready_events f p (suc k) =
    let rest = ready_events f p k in
    if f k == 0 then rest else ((p.pfds k).fd, f k, p.clients k) ∷ rest

abbrev pub seen : List PollEvent → List (Option ℕ × ℕ × Option ℕ)
seen [] = []
seen (e ∷ es) = (some e.fd, e.revents, e.client) ∷ seen es

-- What `drain` makes of one answer of `getNextEvent`.
abbrev drained : ℕ → Outcome (ℕ × Option PollEvent × PollerPoll) → Outcome (List PollEvent)
drained fuel o =
    o >>= λ r. elim r.1 [ none ↦ returned [] | some e ↦ drain fuel r.2 >>= λ es. returned (e ∷ es) ]

drain-suc : (fuel : ℕ) (p : PollerPoll) → drain (suc fuel) p ≡ drained fuel (get_next_event p)
unfolding drain
drain-suc fuel p = refl

drain-nothing :
    (fuel : ℕ) (p : PollerPoll) (f : ℕ → ℕ) (k : ℕ)
    → count_ready f k ≡ 0
    → drain (suc fuel) (left_at p f k) ≡ returned []
unfolding get_next_event
drain-nothing fuel p f k h =
    let over : is_positive (pos (count_ready f k)) ≡ false = ground arith in
    let q = left_at p f k in
    drain-suc fuel q
    ∙ ap
        (λ b.
          drained fuel (if b then next_from q q.cur_pfdnum else returned (ewouldblock, none, q)))
        over

drain-skips :
    (fuel : ℕ) (p : PollerPoll) (f : ℕ → ℕ) (k : ℕ)
    → k < p.pfds_used
    → f k ≡ 0
    → drain (suc fuel) (left_at p f (suc k)) ≡ drain (suc fuel) (left_at p f k)
drain-skips fuel p f k h idle = elim (Bool-cases (ltb 0 (count_ready f k))) [
  | inl more ↦
      drain-suc fuel (left_at p f (suc k))
      ∙ ap (drained fuel) (skips p f k h idle (ltb→lt _ _ more))
      ∙ sym (drain-suc fuel (left_at p f k))
  | inr over ↦
      drain-nothing fuel p f (suc k) (ground arith) ∙ sym (drain-nothing fuel p f k (ground arith))
]

-- The call returns these events.
abbrev pub Gives : List (Option ℕ × ℕ × Option ℕ) → Outcome (List PollEvent) → Type 0
Gives xs (returned es) = seen es ≡ xs
Gives xs _ = ⊥

Gives-first :
    (xs : List (Option ℕ × ℕ × Option ℕ)) (e : PollEvent) (o : Outcome (List PollEvent))
    → Gives xs o
    → Gives ((some e.fd, e.revents, e.client) ∷ xs) (o >>= λ es. returned (e ∷ es))
Gives-first xs e aborted g = g
Gives-first xs e stray g = g
Gives-first xs e unfinished g = g
Gives-first xs e (returned es) g = ap (◌∷◌ (some e.fd, e.revents, e.client)) g

drain-entries :
    (p : PollerPoll) (f : ℕ → ℕ) (k fuel : ℕ)
    → IsValid p
    → k ≤ p.pfds_used
    → count_ready f k < fuel
    → Gives (ready_events f p k) (drain fuel (left_at p f k))
drain-entries p f k zero v h enough = absurd (omega arith)
drain-entries p f zero (suc fuel) v h enough =
    subst (Gives []) (sym (drain-nothing fuel p f zero refl)) refl
drain-entries p f (suc k) (suc fuel) v h enough = elim (Bool-cases (f k == 0)) [
  | inl idle ↦
      let ih = drain-entries p f k (suc fuel) v (omega arith) (ground arith) in
      let same : ready_events f p (suc k) ≡ ready_events f p k = rw idle refl in
      subst₂ Gives (sym same) (sym (drain-skips fuel p f k h (==→eq _ _ idle))) ih
  | inr is_ready ↦
      let ih = drain-entries p f k fuel v (omega arith) (ground arith) in
      let (fd, at, inside, back) = v.from k h in
      let known : fd < p.fd_used = v.to_seen fd k inside back in
      let next = delivers p f k fd h (==→ne _ _ is_ready) at known back in
      let e : PollEvent = record { fd = fd; revents = f k; client = p.clients k } in
      let split : ready_events f p (suc k) ≡ (some e.fd, e.revents, e.client) ∷ ready_events f p k =
        rw (is_ready, at) refl in
      subst₂ Gives (sym split) (sym (drain-suc fuel (left_at p f (suc k)) ∙ ap (drained fuel) next))
        (Gives-first (ready_events f p k) e (drain fuel (left_at p f k)) ih)
]

-- After `poll` has said how many entries are ready, and which, calling `getNextEvent` until it gives
-- no event gives the events of just those entries, each once, from the last entry to the first, with
-- the descriptor, what it is ready for and its client; no assertion fails. `waitForEvents` returns 0
-- where there is one, and EWOULDBLOCK where there is none.
pub events_delivered :
    (p : PollerPoll) (f : ℕ → ℕ) (n : ℕ)
    → IsValid p
    → n ≡ count_ready f p.pfds_used
    → let (err, q) = wait_for_events p (ready n f) in
      (err ≡ (if n == 0 then ewouldblock else 0))
      × Gives (ready_events f p p.pfds_used) (drain (suc n) q)
unfolding wait_for_events
events_delivered p f n v e = (
  refl,
  subst
      (λ m.
        Gives (ready_events f p p.pfds_used)
          (drain (suc n) (record (left_at p f p.pfds_used) { rfds = pos m })))
      (sym e) (drain-entries p f p.pfds_used (suc n) v (omega arith) (omega arith)),
)

-- Where no entry is ready any more but the count says that some are, as after a handler has deleted
-- another descriptor that was ready, the call reports that there are no more events, and the next
-- call reads in front of the array.
pub asked_again_stray :
    (p : PollerPoll) (n : ℕ)
    → is_positive p.rfds ≡ true
    → p.cur_pfdnum ≡ pos n
    → n ≤ p.pfds_used
    → find_ready p.pfds n ≡ none
    → (q : PollerPoll) × (get_next_event p ≡ returned (ewouldblock, none, q))
      × (get_next_event q ≡ stray)
unfolding get_next_event
asked_again_stray p n more at h nothing = (
  record p { cur_pfdnum = negsuc 0 },
  get_next_event-inside p n more at h ∙ ap (take_found p) nothing,
  rw more refl,
)
