-- ===== src/PollerPoll/Next.antt =====
-- dkftpbench-0.45/Poller_poll.cc: one call of `getNextEvent`.
use c10kcode.Common.{
  ℕ, zero, suc, ◌≤◌, ◌<◌, ◌≡◌, ◌≢◌, refl, sym, ◌∙◌, ap, ap₂, true, false, ◌||◌, not, Option, none,
  some, ltb, leb, ◌==◌, if◌then◌else◌, arith, ewouldblock,
}
use c10kcode.CText.{pos, negsuc}
use c10kcode.PollerPoll.{
  PollEvent, PollerPoll, with_revents, is_positive, decremented, find_ready, deliver, next_from,
  get_next_event, Outcome, returned,
}

-- How many of the first entries are ready, and their events, the last first.
abbrev pub count_ready : (ℕ → ℕ) → ℕ → ℕ
count_ready f zero = 0
count_ready f (suc k) = if f k == 0 then count_ready f k else suc (count_ready f k)

-- The poller from which the events of the first `k` entries are still to be had.
abbrev pub left_at : PollerPoll → (ℕ → ℕ) → ℕ → PollerPoll
left_at p f k = record p {
  rfds = pos (count_ready f k);
  cur_pfdnum = pos k;
  pfds = with_revents p f;
}

abbrev pub take_found : PollerPoll → Option ℕ → Outcome (ℕ × Option PollEvent × PollerPoll)
take_found q none = returned (ewouldblock, none, record q { cur_pfdnum = negsuc 0 })
take_found q (some i) = deliver q i

next_from-inside :
    (q : PollerPoll) (n : ℕ)
    → n ≤ q.pfds_used
    → next_from q (pos n) ≡ take_found q (find_ready q.pfds n)
next_from-inside q n h =
    let clamped : (if ltb q.pfds_used n then q.pfds_used else n) ≡ n = ground arith in
    ap (λ m. take_found q (find_ready q.pfds m)) clamped

pub get_next_event-inside :
    (q : PollerPoll) (n : ℕ)
    → is_positive q.rfds ≡ true
    → q.cur_pfdnum ≡ pos n
    → n ≤ q.pfds_used
    → get_next_event q ≡ take_found q (find_ready q.pfds n)
unfolding get_next_event
get_next_event-inside q n more at h =
    let asked : get_next_event q ≡ next_from q q.cur_pfdnum =
      ap (λ b. if b then next_from q q.cur_pfdnum else returned (ewouldblock, none, q)) more in
    asked ∙ ap (next_from q) at ∙ next_from-inside q n h

deliver-entry :
    (q : PollerPoll) (i fd : ℕ)
    → (q.pfds i).fd ≡ some fd
    → fd < q.fd_used
    → i < q.pfds_used
    → q.fd_to_pfd fd ≡ some i
    → deliver q i
      ≡ returned (
        0,
        some (record { fd = fd; revents = (q.pfds i).revents; client = q.clients i }),
        record q { rfds = decremented q.rfds; cur_pfdnum = pos i },
      )
deliver-entry q i fd at known used back =
    let checks : (leb q.fd_used fd || leb q.pfds_used i || not (i == i)) ≡ false = ground arith in
    rw (deliver, at, back, checks) refl

-- An entry that is not ready is passed over.
pub skips :
    (p : PollerPoll) (f : ℕ → ℕ) (k : ℕ)
    → k < p.pfds_used
    → f k ≡ 0
    → 0 < count_ready f k
    → get_next_event (left_at p f (suc k)) ≡ get_next_event (left_at p f k)
skips p f k h idle more =
    let same : count_ready f (suc k) ≡ count_ready f k = ground arith in
    let some_left : ltb 0 (count_ready f k) ≡ true = ground arith in
    let some_left' : ltb 0 (count_ready f (suc k)) ≡ true = ground arith in
    let pfds = with_revents p f in
    let passed : find_ready pfds (suc k) ≡ find_ready pfds k =
      let here : ((pfds k).revents == 0) ≡ true = ground arith in rw here refl in
    get_next_event-inside (left_at p f (suc k)) (suc k) some_left' refl h
    ∙ ap (take_found (left_at p f (suc k))) passed
    ∙ agree same (find_ready pfds k)
    ∙ sym (get_next_event-inside (left_at p f k) k some_left refl (omega arith))
  where
    agree :
        count_ready f (suc k) ≡ count_ready f k
        → (o : Option ℕ) → take_found (left_at p f (suc k)) o ≡ take_found (left_at p f k) o
    agree e none =
        ap
          (λ c.
            returned
              (ewouldblock, none, record (left_at p f k) { rfds = pos c; cur_pfdnum = negsuc 0 }))
          e
    agree e (some i) =
        ap (λ c. deliver (record (left_at p f k) { rfds = pos c; cur_pfdnum = pos (suc k) }) i) e

pub delivers :
    (p : PollerPoll) (f : ℕ → ℕ) (k fd : ℕ)
    → k < p.pfds_used
    → f k ≢ 0
    → (p.pfds k).fd ≡ some fd
    → fd < p.fd_used
    → p.fd_to_pfd fd ≡ some k
    → get_next_event (left_at p f (suc k))
      ≡ returned (0, some (record { fd = fd; revents = f k; client = p.clients k }), left_at p f k)
delivers p f k fd h is_ready at known back =
    let one_more : count_ready f (suc k) ≡ suc (count_ready f k) = ground arith in
    let some_left : ltb 0 (count_ready f (suc k)) ≡ true = ground arith in
    let pfds = with_revents p f in
    let found : find_ready pfds (suc k) ≡ some k =
      let here : ((pfds k).revents == 0) ≡ false = ground arith in rw here refl in
    let entry : (pfds k).fd ≡ some fd = ground arith in
    let mask : (pfds k).revents ≡ f k = ground arith in
    get_next_event-inside (left_at p f (suc k)) (suc k) some_left refl h
    ∙ ap (take_found (left_at p f (suc k))) found
    ∙ deliver-entry (left_at p f (suc k)) k fd entry known h back
    ∙ ap₂
        (λ m c. returned (
          0,
          some (record { fd = fd; revents = m; client = p.clients k }),
          record (left_at p f k) { rfds = decremented (pos c) },
        ))
        mask one_more
