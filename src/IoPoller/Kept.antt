-- ===== src/IoPoller/Kept.antt =====
-- The invariant of the poller of Source/IOPoller.c, and what epoll keeps for it.
use pixy.Base.{
  ℕ, ◌≡◌, arith, Bool, true, false, not, List, [], ◌∷◌, ◌==◌, if◌then◌else◌, Option, none, some,
}
use pixy.Base.Lists.{has, IsDistinct}
use pixy.IoPoller.{
  IoPoller, IoEvent, Flags, is_zero, same_bool, same_flags, add, del, modify, EpollCtl,
}

-- What epoll_ctl does to the interest list, which `get` reads: a descriptor that is not in it is added,
-- and one that is in it is changed or taken out.
pub record IsEpoll {E : Type 0} (epoll_ctl : EpollCtl E) (get : E → ℕ → Option (Flags × ℕ))
    : Type 0 where
  pub adds :
      (k : E) (fd : ℕ) (f : Flags) (p : ℕ)
      → get k fd ≡ none
      → (l : E) × (epoll_ctl k add fd f p ≡ some l)
        × ((g : ℕ) → get l g ≡ (if g == fd then some (f, p) else (get k g)))
  pub modifies :
      (k : E) (fd : ℕ) (f : Flags) (p : ℕ) (old : Flags × ℕ)
      → get k fd ≡ some old
      → (l : E) × (epoll_ctl k modify fd f p ≡ some l)
        × ((g : ℕ) → get l g ≡ (if g == fd then some (f, p) else (get k g)))
  pub deletes :
      (k : E) (fd : ℕ) (f : Flags) (p : ℕ) (old : Flags × ℕ)
      → get k fd ≡ some old
      → (l : E) × (epoll_ctl k del fd f p ≡ some l)
        × ((g : ℕ) → get l g ≡ (if g == fd then none else (get k g)))

abbrev pub is_nil : List ℕ → Bool
is_nil [] = true
is_nil (x ∷ xs) = false

-- the conditions that an event is watched for
abbrev pub watched : IoEvent → Flags
watched e = record { in_flag = not (is_nil e.readers); out_flag = not (is_nil e.writers) }

-- what the interest list has for an event with such flags
abbrev pub entry : Flags → (event : ℕ) → Option (Flags × ℕ)
entry f event = if is_zero f then none else some (f, event)

-- the event of a descriptor
abbrev pub event_at : IoPoller → ℕ → IoEvent
event_at p fd = p.event (p.events fd)

-- what the watches of a descriptor ask of epoll
abbrev pub wanted : IoPoller → ℕ → Option (Flags × ℕ)
wanted p fd = if p.events fd == 0 then none else (entry (watched (event_at p fd)) (p.events fd))

-- Each event in the vector is that of its descriptor, and is pending for the conditions that it is
-- watched for; the interest list has the flags of the events; an event that is not in `dirty` has the
-- flags that it is pending for, and is watched; and `dirty` holds events of the vector, each once.
pub record IsPoller {E : Type 0} (get : E → ℕ → Option (Flags × ℕ)) (k : E) (p : IoPoller)
    (dirty : List ℕ) : Type 0 where
  pub own : (fd : ℕ) → (p.events fd == 0) ≡ false → (event_at p fd).fd ≡ fd
  pub pends :
      (fd : ℕ)
      → (p.events fd == 0) ≡ false
      → (event_at p fd).pending_flags ≡ watched (event_at p fd)
  pub known :
      (fd : ℕ)
      → get k fd ≡ (if p.events fd == 0 then none else (entry (event_at p fd).flags (p.events fd)))
  pub clean :
      (fd : ℕ)
      → (p.events fd == 0) ≡ false
      → has (p.events fd) dirty ≡ false
      → ((event_at p fd).flags ≡ (event_at p fd).pending_flags)
        × (is_zero (event_at p fd).flags ≡ false)
  pub listed : (a : ℕ) → has a dirty ≡ true → ((a == 0) ≡ false) × (p.events (p.event a).fd ≡ a)
  pub once : IsDistinct dirty

same_bool→eq : (a b : Bool) → same_bool a b ≡ true → a ≡ b
same_bool→eq a b h = ground arith

pub same_flags→eq : (f g : Flags) → same_flags f g ≡ true → f ≡ g
same_flags→eq f g h =
    let i = same_bool→eq f.in_flag g.in_flag (ground (arith, h)) in
    let o = same_bool→eq f.out_flag g.out_flag (ground (arith, h)) in
    λ j. record { in_flag = i j; out_flag = o j }

-- an event whose flags are those that it is pending for
abbrev pub even : IoEvent → IoEvent
even e = record e { flags = e.pending_flags }

abbrev pub with_flags : IoEvent → Flags → IoEvent
with_flags e f = record e { flags = f }
