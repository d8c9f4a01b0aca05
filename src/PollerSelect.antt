-- ===== src/PollerSelect.antt =====
-- dkftpbench-0.45/Poller_select.h and Poller_select.cc: the set of descriptors that `select` watches,
-- without the third kind of event, which is compiled for Poller_URGENT only. A client is a number; a
-- set of descriptors is its test.
pub mod Valid
pub mod Del
pub mod Events
pub mod Tests
use c10kcode.Common.{
  ℕ, zero, suc, ◌+◌, ◌-◌, ◌*◌, ◌/◌, ◌%◌, Bool, true, false, ◌&&◌, ◌||◌, not, Option, none, some,
  ltb, leb, ◌==◌, if◌then◌else◌, write, einval, ealready, ewouldblock,
}
use c10kcode.CText.{ℤ, pos, negsuc}
use c10kcode.PollerPoll.{
  PollEvent, Outcome, aborted, stray, unfinished, returned, ◌>>=◌, is_positive, decremented,
}

abbrev pub fd_setsize : ℕ
fd_setsize = 1024

-- The members; `fd_limit` is m_max_fd + 1 and `next_fd` is m_cur_fd + 1, since both start at -1.
pub record PollerSelect : Type 0 where
  pub clients : ℕ → Option ℕ
  pub fd_limit : ℕ
  pub rbits : ℤ
  pub next_fd : ℕ
  pub read_fds : ℕ → Bool
  pub write_fds : ℕ → Bool
  pub test_read : ℕ → Bool
  pub test_write : ℕ → Bool

-- `mask & POLLIN` and `mask & POLLOUT`, whose values are 1 and 4
abbrev pub has_in : ℕ → Bool
has_in mask = mask % 2 == 1

abbrev pub has_out : ℕ → Bool
has_out mask = mask / 4 % 2 == 1

abbrev pub none_set : ℕ → Bool
none_set _ = false

pub init : PollerSelect → PollerSelect
init p = record {
  clients = λ _. none;
  fd_limit = 0;
  rbits = pos 0;
  next_fd = 0;
  read_fds = none_set;
  write_fds = none_set;
  test_read = none_set;
  test_write = none_set;
}

-- `shutdown()`; the clients and the sets stay as they are.
pub shutdown : PollerSelect → PollerSelect
shutdown p = if p.fd_limit == 0 then p else record p { fd_limit = 0; next_fd = 0; rbits = pos 0 }

-- The checks in front of `setMask`, `orMask` and `andMask`.
abbrev pub watched : PollerSelect → ℤ → (ℕ → PollerSelect) → Outcome (ℕ × PollerSelect)
watched p (negsuc n) go = returned (einval, p)
watched p (pos fd) go = if leb fd_setsize fd then returned (einval, p) else elim (p.clients fd) [
  | none ↦ returned (ealready, p)
  | some _ ↦ if leb p.fd_limit fd then aborted else returned (0, go fd)
]

abbrev pub masked : PollerSelect → ℕ → Bool → Bool → PollerSelect
masked p fd i o = record p { read_fds = write p.read_fds fd i; write_fds = write p.write_fds fd o }

pub set_mask : PollerSelect → ℤ → ℕ → Outcome (ℕ × PollerSelect)
set_mask p fd eventmask = watched p fd (λ f. masked p f (has_in eventmask) (has_out eventmask))

pub or_mask : PollerSelect → ℤ → ℕ → Outcome (ℕ × PollerSelect)
or_mask p fd eventmask =
    watched p fd
      (λ f. masked p f (has_in eventmask || p.read_fds f) (has_out eventmask || p.write_fds f))

pub and_mask : PollerSelect → ℤ → ℕ → Outcome (ℕ × PollerSelect)
and_mask p fd eventmask =
    watched p fd
      (λ f. masked p f (has_in eventmask && p.read_fds f) (has_out eventmask && p.write_fds f))

pub add : PollerSelect → ℤ → ℕ → ℕ → Outcome (ℕ × PollerSelect)
unfolding set_mask
add p (negsuc n) client eventmask = returned (einval, p)
add p (pos fd) client eventmask =
    let q = record p {
      fd_limit = if ltb fd p.fd_limit then p.fd_limit else fd + 1;
      clients = write p.clients fd (some client);
    } in
    if leb fd_setsize fd then returned (einval, p) else elim (p.clients fd) [
      | some _ ↦ returned (ealready, p)
      | none ↦ set_mask q (pos fd) eventmask >>= λ r. returned (0, r.1)
    ]

-- `while (max >= 0 && clients[max] == NULL) max--;`
abbrev pub shrink : (ℕ → Option ℕ) → ℕ → ℕ
shrink table zero = 0
shrink table (suc n) = elim (table n) [ none ↦ shrink table n | some _ ↦ suc n ]

-- The end of `del`, behind its checks and its call of `setMask`
abbrev pub take_out : PollerSelect → ℕ → PollerSelect
take_out p fd =
    let table = write p.clients fd none in
    record p {
      test_read = write p.test_read fd false;
      test_write = write p.test_write fd false;
      clients = table;
      fd_limit = shrink table p.fd_limit;
    }

pub del : PollerSelect → ℤ → Outcome (ℕ × PollerSelect)
unfolding set_mask
del p (negsuc n) = returned (einval, p)
del p (pos fd) = if leb fd_setsize fd then returned (einval, p) else elim (p.clients fd) [
  | none ↦ returned (ealready, p)
  | some _ ↦
      if leb p.fd_limit fd
      then aborted
      else (set_mask p (pos fd) 0 >>= λ r. returned (0, take_out r.1 fd))
]

-- What `select` answers: -1 with `errno`, or how many bits are set, and the sets.
pub data SelectReply : Type 0 where
  failed : ℕ → SelectReply
  ready : ℕ → (ℕ → Bool) → (ℕ → Bool) → SelectReply

-- `waitForEvents`, the second argument being what `select` answers. Where it fails the sets that it
-- was given are unspecified; they are left as the copies made for it.
pub wait_for_events : PollerSelect → SelectReply → ℕ × PollerSelect
wait_for_events p (failed errno) =
    (errno, record p { rbits = negsuc 0; test_read = p.read_fds; test_write = p.write_fds })
wait_for_events p (ready n r w) = (
  if n == 0 then ewouldblock else 0,
  record p { rbits = pos n; next_fd = 0; test_read = r; test_write = w },
)

-- The first descriptor from `i` on with a bit set, among as many as the first argument says
abbrev pub find_set : ℕ → (ℕ → Bool) → (ℕ → Bool) → ℕ → Option ℕ
find_set zero r w i = none
find_set (suc n) r w i = let rest = find_set n r w (i + 1) in if r i || w i then some i else rest

abbrev pub revents_of : Bool → Bool → ℕ
revents_of i o = (if i then 1 else 0) + (if o then 4 else 0)

abbrev pub minus_bit : Bool → ℤ → ℤ
minus_bit b n = if b then decremented n else n

-- `getNextEvent`. Where there is none, the loop's condition has still moved `m_cur_fd` on by one.
pub get_next_event : PollerSelect → ℕ × Option PollEvent × PollerSelect
get_next_event p =
    if is_positive p.rbits
    then elim (find_set (p.fd_limit - p.next_fd) p.test_read p.test_write p.next_fd) [
      | none ↦ (
        ewouldblock,
        none,
        record p { next_fd = (if ltb p.next_fd p.fd_limit then p.fd_limit else p.next_fd) + 1 },
      )
      | some i ↦ (
        0,
        some (record {
          fd = i;
          revents = revents_of (p.test_read i) (p.test_write i);
          client = p.clients i;
        }),
        record p {
          rbits = minus_bit (p.test_write i) (minus_bit (p.test_read i) p.rbits);
          next_fd = i + 1;
        },
      )
    ]
    else (ewouldblock, none, p)

-- The loop of `waitAndDispatchEvents`, on fuel. `notify` is what the clients' `notifyPollEvent`
-- return and do to the poller.
pub dispatch_loop :
    (PollEvent → PollerSelect → ℕ × PollerSelect) → ℕ → PollerSelect → Outcome PollerSelect
unfolding get_next_event del
dispatch_loop notify zero p = unfinished
dispatch_loop notify (suc fuel) p =
    let r = get_next_event p in
    if not (is_positive p.rbits) then returned p else elim r.1 [
      | none ↦ returned r.2
      | some e ↦
          let told = notify e r.2 in
          let on = dispatch_loop notify fuel told.1 in
          if told.0 == 0 then on else (del told.1 (pos e.fd) >>= λ d. dispatch_loop notify fuel d.1)
    ]

pub wait_and_dispatch :
    (PollEvent → PollerSelect → ℕ × PollerSelect)
    → ℕ
    → PollerSelect
    → SelectReply
    → Outcome (ℕ × PollerSelect)
unfolding wait_for_events dispatch_loop
wait_and_dispatch notify fuel p answer =
    let (err, q) = wait_for_events p answer in
    if err == 0 then (dispatch_loop notify fuel q >>= λ r. returned (0, r)) else returned (err, q)
