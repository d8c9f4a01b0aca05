-- ===== src/PollerPoll.antt =====
-- dkftpbench-0.45/Poller_poll.h and Poller_poll.cc: the set of descriptors that `poll` watches. A
-- client is a number. In the tables `none` is -1, or NULL; a table entry is otherwise an index, as
-- the code's assertions demand. The success of an allocation is an argument.
pub mod Valid
pub mod Add
pub mod Hole
pub mod Del
pub mod Masks
pub mod Next
pub mod Events
pub mod Tests
use Prim.Native.Nat.{bit_and, bit_or}
use c10kcode.Common.{
  ℕ, zero, suc, ◌+◌, ◌-◌, ◌*◌, Bool, true, false, ◌&&◌, ◌||◌, not, Option, none, some, List, [],
  ◌∷◌, ltb, leb, ◌==◌, if◌then◌else◌, write, enomem, einval, enoent, ewouldblock,
}
use c10kcode.CText.{ℤ, pos, negsuc}

-- `struct pollfd`
pub record PollFd : Type 0 where
  pub fd : Option ℕ
  pub events : ℕ
  pub revents : ℕ

-- The members, without `m_`; `fd_to_pfd` is m_fd2pfdnum.
pub record PollerPoll : Type 0 where
  pub fd_used : ℕ
  pub fd_alloc : ℕ
  pub pfds : ℕ → PollFd
  pub clients : ℕ → Option ℕ
  pub pfds_used : ℕ
  pub pfds_alloc : ℕ
  pub fd_to_pfd : ℕ → Option ℕ
  pub rfds : ℤ
  pub cur_pfdnum : ℤ

-- `PollEvent`
pub record PollEvent : Type 0 where
  pub fd : ℕ
  pub revents : ℕ
  pub client : Option ℕ

-- How a call ends: an assertion fails, an access is outside an array, a loop runs out of fuel, or it
-- returns.
pub data Outcome {ℓ} (A : Type ℓ) : Type ℓ where
  aborted : Outcome A
  stray : Outcome A
  unfinished : Outcome A
  returned : A → Outcome A

-- The tables of `init`, where the three calls of `malloc` succeed; their memory is what it was.
pub init : PollerPoll → PollerPoll
init p = record p { fd_used = 0; fd_alloc = 16; pfds_used = 0; pfds_alloc = 16 }

-- The resizing of what descriptors index. The new elements are cleared.
abbrev pub grow_fds : PollerPoll → ℕ → PollerPoll
grow_fds p fd =
    let n = if ltb (p.fd_alloc * 2) (fd + 1) then fd + 1 else p.fd_alloc * 2 in
    record p {
      fd_to_pfd = λ i. if leb p.fd_alloc i && ltb i n then none else p.fd_to_pfd i;
      fd_alloc = n;
    }

-- `add`, once there is room.
abbrev pub place : PollerPoll → ℕ → ℕ → ℕ → PollerPoll
place p fd client eventmask = record p {
  clients = write p.clients p.pfds_used (some client);
  pfds =
      write p.pfds p.pfds_used (record (p.pfds p.pfds_used) { fd = some fd; events = eventmask });
  fd_to_pfd = write p.fd_to_pfd fd (some p.pfds_used);
  fd_used = if leb p.fd_used fd then fd + 1 else p.fd_used;
  pfds_used = p.pfds_used + 1;
}

-- `add` behind the first resizing. The array of clients may have moved where ENOMEM is returned; its
-- elements are the same.
abbrev pub add_client_slot : Bool → PollerPoll → ℕ → ℕ → ℕ → ℕ × PollerPoll
add_client_slot ok p fd client eventmask =
    if p.pfds_used == p.pfds_alloc
    then (if ok
        then (0, place (record p { pfds_alloc = p.pfds_alloc * 2 }) fd client eventmask)
        else (enomem, p))
    else (0, place p fd client eventmask)

-- `add(fd, client, eventmask)`, of a descriptor that is not negative; the first argument is whether the
-- first `realloc` succeeds, the second whether both others do.
pub add : Bool → Bool → PollerPoll → ℕ → ℕ → ℕ → ℕ × PollerPoll
add ok_fds ok_slots p fd client eventmask =
    if leb p.fd_alloc fd
    then (if ok_fds
        then add_client_slot ok_slots (grow_fds p fd) fd client eventmask
        else (enomem, p))
    else add_client_slot ok_slots p fd client eventmask

-- `while (used && table[used - 1] == -1) used--;`
abbrev pub shrink : (ℕ → Option ℕ) → ℕ → ℕ
shrink table zero = 0
shrink table (suc n) = elim (table n) [ none ↦ shrink table n | some _ ↦ suc n ]

-- The last entry is moved into the hole at `i`.
abbrev pub fill_hole : PollerPoll → ℕ → PollerPoll
fill_hole p i =
    let last = p.pfds_used - 1 in
    record p {
      clients = write p.clients i (p.clients last);
      pfds = write p.pfds i (p.pfds last);
      fd_to_pfd = elim (p.pfds last).fd [
        | none ↦ p.fd_to_pfd
        | some f ↦ write p.fd_to_pfd f (some i)
      ];
    }

-- The end of `del`, from where the entry `i` of `fd` is known to be used.
pub take_out : PollerPoll → ℕ → ℕ → PollerPoll
take_out p fd i =
    let last = p.pfds_used - 1 in
    let q = if i == last then p else fill_hole p i in
    let table = write q.fd_to_pfd fd none in
    record q {
      clients = write q.clients last none;
      pfds = write q.pfds last (record (q.pfds last) { fd = none });
      fd_to_pfd = table;
      fd_used = shrink table q.fd_used;
      pfds_used = last;
    }

-- `del(fd)`. The write at a descriptor of -1, which is outside the table, is `stray`.
pub del : PollerPoll → ℤ → Outcome (ℕ × PollerPoll)
del p (negsuc n) = returned (einval, p)
del p (pos fd) =
    if leb p.fd_used fd
    then returned (einval, p)
    else if p.pfds_used == 0
    then aborted
    else elim (p.fd_to_pfd fd) [
      | none ↦ returned (enoent, p)
      | some i ↦ if leb p.pfds_used i then aborted else elim (p.pfds (p.pfds_used - 1)).fd [
        | none ↦ if i == p.pfds_used - 1 then returned (0, take_out p fd i) else stray
        | some _ ↦ returned (0, take_out p fd i)
      ]
    ]

-- The entry's mask is changed by `f`.
abbrev pub with_events : PollerPoll → ℕ → (ℕ → ℕ) → Outcome (ℕ × PollerPoll)
with_events p i f =
    if leb p.pfds_used i
    then aborted
    else returned
        (0, record p { pfds = write p.pfds i (record (p.pfds i) { events = f (p.pfds i).events }) })

-- The three calls read the table of descriptors at `fd` as it is given.
pub set_mask : PollerPoll → ℕ → ℕ → Outcome (ℕ × PollerPoll)
set_mask p fd eventmask = if leb p.fd_alloc fd then stray else elim (p.fd_to_pfd fd) [
  | none ↦ returned (enoent, p)
  | some i ↦ with_events p i (λ _. eventmask)
]

pub or_mask : PollerPoll → ℕ → ℕ → Outcome (ℕ × PollerPoll)
or_mask p fd eventmask = if leb p.fd_alloc fd then stray else elim (p.fd_to_pfd fd) [
  | none ↦ aborted
  | some i ↦ with_events p i (λ m. bit_or m eventmask)
]

pub and_mask : PollerPoll → ℕ → ℕ → Outcome (ℕ × PollerPoll)
and_mask p fd eventmask = if leb p.fd_alloc fd then stray else elim (p.fd_to_pfd fd) [
  | none ↦ aborted
  | some i ↦ with_events p i (λ m. bit_and m eventmask)
]

infixl 5 ◌>>=◌
abbrev pub ◌>>=◌ {ℓ κ} : {A : Type ℓ} {B : Type κ} → Outcome A → (A → Outcome B) → Outcome B
aborted >>= f = aborted
stray >>= f = stray
unfinished >>= f = unfinished
returned a >>= f = f a

-- What the system call `poll` answers: -1 with `errno`, or how many entries are ready, and the
-- `revents` that it writes to the entries.
pub data PollReply : Type 0 where
  failed : ℕ → PollReply
  ready : ℕ → (ℕ → ℕ) → PollReply

abbrev pub with_revents : PollerPoll → (ℕ → ℕ) → ℕ → PollFd
with_revents p f i = if ltb i p.pfds_used then record (p.pfds i) { revents = f i } else p.pfds i

-- `waitForEvents`, the argument being what `poll` answers
pub wait_for_events : PollerPoll → PollReply → ℕ × PollerPoll
wait_for_events p (failed errno) = (errno, record p { rfds = negsuc 0; cur_pfdnum = negsuc 0 })
wait_for_events p (ready n f) = (
  if n == 0 then ewouldblock else 0,
  record p { rfds = pos n; cur_pfdnum = pos p.pfds_used; pfds = with_revents p f },
)

-- `m_rfds >= 1`
abbrev pub is_positive : ℤ → Bool
is_positive (pos n) = ltb 0 n
is_positive (negsuc n) = false

abbrev pub decremented : ℤ → ℤ
decremented (pos zero) = negsuc 0
decremented (pos (suc n)) = pos n
decremented (negsuc n) = negsuc (suc n)

-- `while (--n > -1) if (pfds[n].revents) break;`
abbrev pub find_ready : (ℕ → PollFd) → ℕ → Option ℕ
find_ready pfds zero = none
find_ready pfds (suc n) =
    let rest = find_ready pfds n in if (pfds n).revents == 0 then rest else some n

-- The end of `getNextEvent`, from its assertions on.
abbrev pub deliver : PollerPoll → ℕ → Outcome (ℕ × Option PollEvent × PollerPoll)
deliver p i = elim (p.pfds i).fd [
  | none ↦ aborted
  | some fd ↦ elim (p.fd_to_pfd fd) [
    | none ↦ aborted
    | some j ↦
        if leb p.fd_used fd || leb p.pfds_used j || not (j == i)
        then aborted
        else returned (
          0,
          some (record { fd = fd; revents = (p.pfds i).revents; client = p.clients j }),
          record p { rfds = decremented p.rfds; cur_pfdnum = pos i },
        )
  ]
]

abbrev pub next_from : PollerPoll → ℤ → Outcome (ℕ × Option PollEvent × PollerPoll)
next_from p (negsuc n) = stray
next_from p (pos n) = elim (find_ready p.pfds (if ltb p.pfds_used n then p.pfds_used else n)) [
  | none ↦ returned (ewouldblock, none, record p { cur_pfdnum = negsuc 0 })
  | some i ↦ deliver p i
]

-- `getNextEvent`. From a place of -1 the loop steps to -2, which is not -1, and the code goes on to
-- read there.
pub get_next_event : PollerPoll → Outcome (ℕ × Option PollEvent × PollerPoll)
get_next_event p =
    if is_positive p.rfds then next_from p p.cur_pfdnum else returned (ewouldblock, none, p)

-- The loop of `waitAndDispatchEvents`, on fuel. `notify` is what the clients' `notifyPollEvent`
-- return and do to the poller.
pub dispatch_loop : (PollEvent → PollerPoll → ℕ × PollerPoll) → ℕ → PollerPoll → Outcome PollerPoll
unfolding get_next_event del
dispatch_loop notify zero p = unfinished
dispatch_loop notify (suc fuel) p =
    if not (is_positive p.rfds)
    then returned p
    else (get_next_event p >>= λ r. elim r.1 [
      | none ↦ returned r.2
      | some e ↦
          let told = notify e r.2 in
          let on = dispatch_loop notify fuel told.1 in
          if told.0 == 0 then on else (del told.1 (pos e.fd) >>= λ d. dispatch_loop notify fuel d.1)
    ])

-- `waitAndDispatchEvents`
pub wait_and_dispatch :
    (PollEvent → PollerPoll → ℕ × PollerPoll)
    → ℕ
    → PollerPoll
    → PollReply
    → Outcome (ℕ × PollerPoll)
unfolding wait_for_events dispatch_loop
wait_and_dispatch notify fuel p answer =
    let (err, q) = wait_for_events p answer in
    if err == 0 then (dispatch_loop notify fuel q >>= λ r. returned (0, r)) else returned (err, q)
