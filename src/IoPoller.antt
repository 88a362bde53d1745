-- ===== src/IoPoller.antt =====
-- Source/IOPoller.c and IOPoller.h. An event and a watch are addresses; `events` are the pointers that the
-- elements of the event vector are, 0 for null. The dirty list and the two watch lists of an event are
-- sequences of addresses; `event_of` is the event to whose list the links of a watch lead. A mask of
-- EPOLLIN and EPOLLOUT is a pair of Booleans. The interest list of epoll is kernel state, of a type
-- `E`; epoll_ctl and what epoll_wait reports are parameters. `none` is a fatal error or a failed
-- assertion.
pub mod Kept
pub mod Update
pub mod Round
pub mod Settle
pub mod Watch
pub mod Change
pub mod Begin
pub mod Fit
pub mod Set
pub mod Stored
pub mod Undone
pub mod Absent
pub mod Descriptor
pub mod Calls
pub mod Tick
pub mod Tests
use pixy.Base.{
  ℕ, zero, suc, ◌+◌, ◌^◌, Bool, true, false, not, ◌&&◌, ◌||◌, List, [], ◌∷◌, ◌++◌, ◌==◌, ltb,
  if◌then◌else◌, Option, none, some, ◌>>=◌,
}
use pixy.Base.Int.{ℤ}
use pixy.Base.Lists.{has, take_out}
use pixy.Vector.Words.{store_words, load_word}
use pixy.Vector.{Vector, Realloc, set_length, get_length}
use pixy.Vector
use pixy.MemoryPool.{MemoryPool, allocate_block, free_block}
use pixy.MemoryPool
use pixy.Async.{Async, add_call}
use mathlib.Core.List
use mathlib.Core.Option

pub data IoCondition : Type 0 where
  readable : IoCondition
  writable : IoCondition

-- EPOLLIN and EPOLLOUT
pub record Flags : Type 0 where
  pub in_flag : Bool
  pub out_flag : Bool

abbrev pub no_flags : Flags
no_flags = record { in_flag = false; out_flag = false }

-- `(flags & IOEventFlags[condition]) != 0`
abbrev pub has_flag : IoCondition → Flags → Bool
has_flag readable f = f.in_flag
has_flag writable f = f.out_flag

-- `flags |= IOEventFlags[condition]`, or `flags &= ~IOEventFlags[condition]`
abbrev pub set_flag : IoCondition → Bool → Flags → Flags
set_flag readable b f = record f { in_flag = b }
set_flag writable b f = record f { out_flag = b }

-- `flags == 0`
abbrev pub is_zero : Flags → Bool
is_zero f = not (f.in_flag || f.out_flag)

abbrev pub same_bool : Bool → Bool → Bool
same_bool true b = b
same_bool false b = not b

abbrev pub same_flags : Flags → Flags → Bool
same_flags f g = same_bool f.in_flag g.in_flag && same_bool f.out_flag g.out_flag

-- `struct IOEvent`
pub record IoEvent : Type 0 where
  pub fd : ℕ
  pub flags : Flags
  pub pending_flags : Flags
  pub readers : List ℕ
  pub writers : List ℕ

pub record IoWatch : Type 0 where
  pub condition : IoCondition
  pub user_data : ℕ
  pub callback : ℕ

pub record IoPoller : Type 0 where
  pub event_vector : Vector
  pub event_memory_pool : MemoryPool
  pub dirty_events : List ℕ
  pub events : ℕ → ℕ
  pub event : ℕ → IoEvent
  pub watch : ℕ → IoWatch
  pub event_of : ℕ → ℕ

-- `event->watchListHeads[condition]`
abbrev pub watch_list : IoCondition → IoEvent → List ℕ
watch_list readable e = e.readers
watch_list writable e = e.writers

abbrev pub set_watch_list : IoCondition → List ℕ → IoEvent → IoEvent
set_watch_list readable ws e = record e { readers = ws }
set_watch_list writable ws e = record e { writers = ws }

abbrev pub put : {A : Type 0} → (ℕ → A) → (at : ℕ) → (new : A) → ℕ → A
put f at new i = if i == at then new else (f i)

-- IOPoller_Initialize, behind the creation of the epoll descriptor; `struct IOEvent` is of 64 bytes
unfoldable pub initialize : IoPoller → Option IoPoller
initialize self = do
  pool ← MemoryPool.initialize self.event_memory_pool 64
  some (record self {
    event_vector = Vector.initialize 8;
    event_memory_pool = pool;
    dirty_events = [];
  })

-- IOPoller_Finalize: the chunks freed, in order
unfoldable pub finalize : IoPoller → List ℕ
finalize self = MemoryPool.finalize self.event_memory_pool

-- `if (List_IsEmpty(&event->listItem)) List_InsertBack(&self->dirtyEventListHead, &event->listItem)`;
-- the list item of an event leads to itself if it is not in the list
unfoldable pub make_dirty : (event : ℕ) → IoPoller → IoPoller
make_dirty event self =
    if has event self.dirty_events
    then self
    else (record self { dirty_events = self.dirty_events ++ event ∷ [] })

-- the event vector with its elements as bytes, and the pointers that the bytes of a vector are
unfoldable pub store_events : IoPoller → Vector
unfolding store_words
store_events self = record self.event_vector {
  elements = Option.map (λ bytes. store_words self.events) self.event_vector.elements;
}

unfoldable pub load_events : Vector → ℕ → ℕ
unfolding load_word
load_events vector i = elim vector.elements [
  | none ↦ 0
  | some bytes ↦ if ltb i vector.length then load_word bytes i else 0
]

-- IOPoller_SetWatch: the growth of the event vector; `none` where `fd + 1` is more than an int has
unfoldable pub fit_fd : Realloc → IoPoller → (fd : ℕ) → Option (Bool × IoPoller)
unfolding store_events load_events
fit_fd realloc self fd =
    let (ok, vector) = set_length realloc (store_events self) (fd + 1) true in
    let grown =
      if ok
      then (true, record self { event_vector = vector; events = load_events vector })
      else (false, self) in
    if ltb fd (get_length self.event_vector)
    then some (true, self)
    else if ltb (fd + 1) (2 ^ 31)
    then some grown
    else none

-- IOPoller_SetWatch: the fields of a new event
unfoldable pub begin_event : (fd event : ℕ) → IoPoller → IoPoller
begin_event fd event self = record self {
  event =
      put self.event event (record {
        fd = fd;
        flags = no_flags;
        pending_flags = no_flags;
        readers = [];
        writers = [];
      });
  events = put self.events fd event;
}

-- IOPoller_SetWatch: the event of `fd`, made if there is none; 0 if there is no memory
unfoldable pub get_event : (allocated : Option ℕ) → IoPoller → (fd : ℕ) → Option (ℕ × IoPoller)
unfolding begin_event
get_event allocated self fd =
    let make : Option (ℕ × IoPoller) = do
      (event, pool) ← allocate_block self.event_memory_pool allocated
      let with_pool = record self { event_memory_pool = pool }
      some (event, if event == 0 then with_pool else (begin_event fd event with_pool))
    in if self.events fd == 0 then make else (some (self.events fd, self))

-- IOPoller_SetWatch, once the event is there
unfoldable pub link_watch : (event watch : ℕ) → IoWatch → IoPoller → IoPoller
unfolding make_dirty
link_watch event watch fields self =
    let c = fields.condition in
    let old = self.event event in
    let linked = set_watch_list c (watch_list c old ++ watch ∷ []) old in
    let watched = record self {
      watch = put self.watch watch fields;
      event_of = put self.event_of watch event;
    } in
    if has_flag c old.pending_flags
    then (record watched { event = put self.event event linked })
    else (make_dirty event (record watched {
      event =
          put self.event event
            (record linked { pending_flags = set_flag c true old.pending_flags });
    }))

-- IOPoller_SetWatch
unfoldable pub set_watch :
    Realloc
    → (allocated : Option ℕ) → IoPoller
    → (watch fd : ℕ) → IoWatch
    → Option (Bool × IoPoller)
unfolding fit_fd get_event link_watch
set_watch realloc allocated self watch fd fields = do
  (ok, fitting) ← fit_fd realloc self fd
  let go : Option (Bool × IoPoller) = do
    (event, made) ← get_event allocated fitting fd
    some (if event == 0 then (false, made) else (true, link_watch event watch fields made))
  if ok then go else (some (false, fitting))

-- IOPoller_ClearWatch; `none` if the watch is not in the list of its event
unfoldable pub clear_watch : IoPoller → (watch : ℕ) → Option IoPoller
unfolding make_dirty
clear_watch self watch =
    let c = (self.watch watch).condition in
    let event = self.event_of watch in
    let old = self.event event in
    do
      rest ← take_out watch (watch_list c old)
      let unlinked = set_watch_list c rest old
      some (elim rest [
        | [] ↦ make_dirty event (record self {
          event =
              put self.event event
                (record unlinked { pending_flags = set_flag c false old.pending_flags });
        })
        | w ∷ ws ↦ record self { event = put self.event event unlinked }
      ])

pub data Op : Type 0 where
  add : Op
  del : Op
  modify : Op

-- epoll_ctl, of an operation, a descriptor, the events and the pointer; `none` is an error, which is
-- fatal
abbrev pub EpollCtl : Type 0 → Type 0
EpollCtl E = E → Op → ℕ → Flags → ℕ → Option E

-- IOPoller_Tick: the end of an event without flags
unfoldable pub free_event : IoPoller → (event : ℕ) → Option IoPoller
free_event self event = do
  pool ← free_block self.event_memory_pool event
  some
      (record self { events = put self.events ((self.event event).fd) 0; event_memory_pool = pool })

module _ {E : Type 0} (epoll_ctl : EpollCtl E) where
  -- IOPoller_ClearWatches
  unfoldable pub clear_watches : E → IoPoller → (fd : ℕ) → Option (E × IoPoller)
  unfolding make_dirty
  clear_watches kernel self fd =
      let event = self.events fd in
      let old = self.event event in
      let cleared = record old { readers = []; writers = []; pending_flags = no_flags } in
      let dirty =
        λ (e : IoEvent). make_dirty event (record self { event = put self.event event e }) in
      let deleted : Option (E × IoPoller) = do
        after ← epoll_ctl kernel del fd no_flags 0
        some (after, dirty (record cleared { flags = no_flags }))
      in if ltb fd (get_length self.event_vector)
        then if event == 0
          then (some (kernel, self))
          else if is_zero old.flags
          then some (kernel, dirty cleared)
          else deleted
        else (some (kernel, self))

  -- IOPoller_Tick: the end of a round, once the flags are those of epoll
  unfoldable pub settled : E → IoPoller → (event : ℕ) → Option (E × IoPoller)
  unfolding free_event
  settled kernel self event =
      if is_zero (self.event event).flags
      then Option.map (λ r. (kernel, r)) (free_event self event)
      else (some (kernel, self))

  -- IOPoller_Tick: what it tells epoll of a dirty event
  unfoldable pub update_flags : E → IoPoller → (event : ℕ) → Option (E × IoPoller)
  update_flags kernel self event =
      let old = self.event event in
      let op =
        if is_zero old.flags then add else if is_zero old.pending_flags then del else modify in
      let updated : Option (E × IoPoller) = do
        after ← epoll_ctl kernel op old.fd old.pending_flags event
        some (
          after,
          record self { event = put self.event event (record old { flags = old.pending_flags }) },
        )
      in if same_flags old.flags old.pending_flags then some (kernel, self) else updated

  -- IOPoller_Tick: one round of its first loop
  unfoldable pub settle_event : E → IoPoller → (event : ℕ) → Option (E × IoPoller)
  unfolding update_flags settled
  settle_event kernel self event = do
    (after, updated) ← update_flags kernel self event
    settled after updated event

  -- IOPoller_Tick: its first loop, over the dirty events from the back
  unfoldable pub settle_events : E → IoPoller → (dirty : List ℕ) → Option (E × IoPoller)
  unfolding settle_event
  settle_events kernel self [] = some (kernel, record self { dirty_events = [] })
  settle_events kernel self (event ∷ dirty) = do
    (after, rest) ← settle_event kernel self event
    settle_events after rest dirty

-- what epoll_wait reports: the pointer, and whether EPOLLIN, EPOLLOUT, and one of EPOLLERR and EPOLLHUP
-- are set
pub record Report : Type 0 where
  pub event : ℕ
  pub readable_now : Bool
  pub writable_now : Bool
  pub failed : Bool

-- what epoll_wait gives: reports, or -1 with EINTR, or -1 with another error
pub data Waited : Type 0 where
  reported : List Report → Waited
  interrupted : Waited
  broken : Waited

-- epoll_wait, by the timeout and the interest list
abbrev pub EpollWait : (E : Type 0) → Type 0
EpollWait E = (timeout : ℤ) → E → Waited

module _ (realloc : Realloc) where
  -- the calls of the watches of one list
  unfoldable pub call_watches : IoPoller → List ℕ → Async → Bool × Async
  call_watches self [] async = (true, async)
  call_watches self (w ∷ ws) async =
      let fields = self.watch w in
      let (ok, added) = add_call realloc async fields.callback fields.user_data in
      let rest = call_watches self ws added in if ok then rest else (false, added)

  -- IOPoller_Tick: its second loop
  unfoldable pub call_reports : IoPoller → List Report → Async → Bool × Async
  unfolding call_watches
  call_reports self [] async = (true, async)
  call_reports self (r ∷ rs) async =
      let e = self.event r.event in
      let (ok, read) =
        call_watches self (if r.readable_now || r.failed then e.readers else []) async in
      let (fine, written) =
        call_watches self (if r.writable_now || r.failed then e.writers else []) read in
      let rest = call_reports self rs written in
      if ok then if fine then rest else (false, written) else (false, read)

  -- IOPoller_Tick; `timeout` is in milliseconds, -1 for none
  unfoldable pub tick :
      {E : Type 0}
      → EpollCtl E
      → E
      → IoPoller
      → (timeout : ℤ) → EpollWait E
      → Async
      → Option (Bool × E × IoPoller × Async)
  unfolding settle_events call_reports
  tick epoll_ctl kernel self timeout epoll_wait async = do
    (after, quiet) ← settle_events epoll_ctl kernel self (List.reverse self.dirty_events)
    elim (epoll_wait timeout after) [
      | broken ↦ none
      | interrupted ↦ some (false, after, quiet, async)
      | reported rs ↦
          let (ok, called) = call_reports quiet rs async in some (ok, after, quiet, called)
    ]
