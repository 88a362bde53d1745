-- ===== src/IoPoller/Absent.antt =====
-- An address at which no list of the poller has a watch: IOPoller_SetWatch of Source/IOPoller.c of another watch
-- leaves it so, and IOPoller_ClearWatch fails there.
use pixy.Base.{
  ℕ, ◌+◌, ◌^◌, ◌≡◌, refl, sym, ap, ◌∙◌, subst, arith, inl, inr, Bool, true, false, [], ◌∷◌, ◌++◌,
  List, Option, none, some, ◌==◌, Bool-cases, Option-cases, ltb,
}
use mathlib.Core.Option.{some-injective}
use pixy.Base.Lists.{has, take_out}
use pixy.Vector.{Realloc, get_length, set_length}
use pixy.MemoryPool.{allocate_block}
use pixy.IoPoller.{
  IoPoller, no_flags, store_events, IoEvent, Flags, set_flag, set_watch_list, IoWatch, IoCondition,
  readable, writable, watch_list, make_dirty, link_watch, begin_event, get_event, fit_fd, set_watch,
  clear_watch, put, has_flag,
}

take_out-none : (x : ℕ) (xs : List ℕ) → has x xs ≡ false → take_out x xs ≡ none
unfolding take_out
take_out-none x [] h = refl
take_out-none x (y ∷ xs) h =
    let rest = take_out-none x xs (ground (arith, h)) in ground (arith, h, rest)

pub clear_watch-none :
    (p : IoPoller) (w : ℕ)
    → has w (watch_list (p.watch w).condition (p.event (p.event_of w))) ≡ false
    → clear_watch p w ≡ none
unfolding clear_watch
clear_watch-none p w h =
    rw (take_out-none w (watch_list (p.watch w).condition (p.event (p.event_of w))) h) refl

-- no list of the poller has a watch at this address
abbrev pub IsAbsent : (address : ℕ) → IoPoller → Type 0
IsAbsent address p = (e : ℕ) (c : IoCondition) → has address (watch_list c (p.event e)) ≡ false

has-last :
    (x y : ℕ) (xs : List ℕ) → has x xs ≡ false → (y == x) ≡ false → has x (xs ++ y ∷ []) ≡ false
has-last x y [] h n = ground (arith, n)
has-last x y (z ∷ xs) h n =
    let rest = has-last x y xs (ground (arith, h)) n in ground (arith, h, rest)

same_events :
    (address : ℕ) (p q : IoPoller) → q.event ≡ p.event → IsAbsent address p → IsAbsent address q
same_events address p q same h =
    subst (λ f. (e : ℕ) (c : IoCondition) → has address (watch_list c (f e)) ≡ false) (sym same) h

put-has :
    (address a : ℕ) (new : IoEvent) (f : ℕ → IoEvent)
    → ((c : IoCondition) → has address (watch_list c new) ≡ false)
    → ((e : ℕ) (c : IoCondition) → has address (watch_list c (f e)) ≡ false)
    → (e : ℕ) (c : IoCondition) → has address (watch_list c (put f a new e)) ≡ false
put-has address a new f at rest e c = elim (Bool-cases (e == a)) [
  | inl q ↦ rw q (at c)
  | inr q ↦ rw q (rest e c)
]

linked-has :
    (address watch : ℕ) (old : IoEvent) (d : IoCondition)
    → (watch == address) ≡ false
    → ((c : IoCondition) → has address (watch_list c old) ≡ false)
    → (c : IoCondition)
    → has address (watch_list c (set_watch_list d (watch_list d old ++ watch ∷ []) old)) ≡ false
linked-has address watch old readable n h readable =
    has-last address watch old.readers (h readable) n
linked-has address watch old readable n h writable = h writable
linked-has address watch old writable n h readable = h readable
linked-has address watch old writable n h writable =
    has-last address watch old.writers (h writable) n

flagged-list :
    (c : IoCondition) (event : IoEvent) (f : Flags)
    → watch_list c (record event { pending_flags = f }) ≡ watch_list c event
flagged-list readable event f = refl
flagged-list writable event f = refl

link_watch-IsAbsent :
    (address a watch : ℕ) (fields : IoWatch) (p : IoPoller)
    → (watch == address) ≡ false
    → IsAbsent address p
    → IsAbsent address (link_watch a watch fields p)
unfolding link_watch make_dirty
link_watch-IsAbsent address a watch fields p other h =
    let d = fields.condition in
    let old = p.event a in
    let linked = set_watch_list d (watch_list d old ++ watch ∷ []) old in
    let lists = linked-has address watch old d other (h a) in
    let marked = set_flag d true old.pending_flags in
    let mark =
      put-has address a (record linked { pending_flags = marked }) p.event
        (λ c. ap (has address) (flagged-list c linked marked) ∙ lists c) h in
    elim (Bool-cases (has_flag d old.pending_flags)) [
      | inl q ↦ rw q (put-has address a linked p.event lists h)
      | inr q ↦ elim (Bool-cases (has a p.dirty_events)) [
        | inl r ↦ rw (q, r) mark
        | inr r ↦ rw (q, r) mark
      ]
    ]

fit_fd-events :
    (realloc : Realloc) (p q : IoPoller) (fd : ℕ) (ok : Bool)
    → fit_fd realloc p fd ≡ some (ok, q)
    → q.event ≡ p.event
unfolding fit_fd
fit_fd-events realloc p q fd ok e = elim (Bool-cases (ltb fd (get_length p.event_vector))) [
  | inl n ↦ sym (ap (λ x. x.1.event) (some-injective _ _ (rw n at e)))
  | inr n ↦ elim (Bool-cases (ltb (fd + 1) (2 ^ 31))) [
    | inr m ↦ absurd (ground (arith, (rw (n, m) at e)))
    | inl m ↦ elim (Bool-cases (set_length realloc (store_events p) (fd + 1) true).0) [
      | inl g ↦ sym (ap (λ x. x.1.event) (some-injective _ _ (rw (n, m, g) at e)))
      | inr g ↦ sym (ap (λ x. x.1.event) (some-injective _ _ (rw (n, m, g) at e)))
    ]
  ]
]

empty-has :
    (address fd : ℕ) (c : IoCondition)
    → has address (
        watch_list c (record {
          fd = fd;
          flags = no_flags;
          pending_flags = no_flags;
          readers = [];
          writers = [];
        }))
      ≡ false
empty-has address fd readable = refl
empty-has address fd writable = refl

get_event-IsAbsent :
    (address : ℕ) (allocated : Option ℕ) (p q : IoPoller) (fd a : ℕ)
    → IsAbsent address p
    → get_event allocated p fd ≡ some (a, q)
    → IsAbsent address q
unfolding get_event begin_event
get_event-IsAbsent address allocated p q fd a h e = elim (Bool-cases (p.events fd == 0)) [
  | inr live ↦
      same_events address p q (sym (ap (λ x. x.1.event) (some-injective _ _ (rw live at e)))) h
  | inl dead ↦ elim (Option-cases (allocate_block p.event_memory_pool allocated)) [
    | inl n ↦ absurd (ground (arith, (rw (dead, n) at e)))
    | inr ((b, pool), n) ↦ elim (Bool-cases (b == 0)) [
      | inl z ↦
          same_events address p q
            (sym (ap (λ x. x.1.event) (some-injective _ _ (rw (dead, n, z) at e)))) h
      | inr z ↦
          subst (IsAbsent address) (ap (λ x. x.1) (some-injective _ _ (rw (dead, n, z) at e))) (
            put-has address b
              (record {
                fd = fd;
                flags = no_flags;
                pending_flags = no_flags;
                readers = [];
                writers = [];
              })
              p.event (empty-has address fd) h)
    ]
  ]
]

pub set_watch-IsAbsent :
    (realloc : Realloc) (allocated : Option ℕ) (p q : IoPoller) (address watch fd : ℕ)
    (fields : IoWatch) (ok : Bool)
    → (watch == address) ≡ false
    → IsAbsent address p
    → set_watch realloc allocated p watch fd fields ≡ some (ok, q)
    → IsAbsent address q
unfolding set_watch
set_watch-IsAbsent realloc allocated p q address watch fd fields ok other h e =
    elim (Option-cases (fit_fd realloc p fd)) [
      | inl n ↦ absurd (ground (arith, (rw n at e)))
      | inr ((grown, f), n) ↦
          let fitting = same_events address p f (fit_fd-events realloc p f fd grown n) h in
          elim (Bool-cases grown) [
            | inr g ↦
                subst (IsAbsent address) (ap (λ x. x.1) (some-injective _ _ (rw (n, g) at e)))
                  fitting
            | inl g ↦ elim (Option-cases (get_event allocated f fd)) [
              | inl m ↦ absurd (ground (arith, (rw (n, g, m) at e)))
              | inr ((a, made), m) ↦
                  let began = get_event-IsAbsent address allocated f made fd a fitting m in
                  elim (Bool-cases (a == 0)) [
                    | inl z ↦
                        subst (IsAbsent address)
                          (ap (λ x. x.1) (some-injective _ _ (rw (n, g, m, z) at e))) began
                    | inr z ↦
                        subst (IsAbsent address)
                          (ap (λ x. x.1) (some-injective _ _ (rw (n, g, m, z) at e)))
                          (link_watch-IsAbsent address a watch fields made other began)
                  ]
            ]
          ]
    ]
