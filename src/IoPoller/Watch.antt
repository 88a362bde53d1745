-- ===== src/IoPoller/Watch.antt =====
-- A change of one event of the poller of Source/IOPoller.c, and the invariant.
use pixy.Base.{
  ℕ, ◌≡◌, refl, sym, ap, subst, ◌∙◌, inl, inr, arith, Bool, true, false, not, List, [], ◌∷◌, ◌++◌,
  ◌==◌, if◌then◌else◌, Option, Bool-cases, ==→eq,
}
use pixy.Base.Lists.{has, IsDistinct, has-append}
use pixy.IoPoller.{
  IoPoller, IoEvent, IoWatch, IoCondition, readable, writable, Flags, is_zero, has_flag, set_flag,
  put, make_dirty, watch_list, set_watch_list,
}
use pixy.IoPoller.Kept.{IsPoller, entry, watched, event_at, is_nil}

pub IsDistinct-append :
    (xs : List ℕ) (x : ℕ) → IsDistinct xs → has x xs ≡ false → IsDistinct (xs ++ x ∷ [])
IsDistinct-append [] x d h = (refl, tt)
IsDistinct-append (y ∷ xs) x d h = (
  ground (arith, d.0, h, has-append y xs (x ∷ [])),
  IsDistinct-append xs x d.1 (ground (arith, h)),
)

module _ {E : Type 0} (get : E → ℕ → Option (Flags × ℕ)) where
  -- The event `a` of `fd` becomes `e`.
  module _ (k l : E) (p : IoPoller) (dirty : List ℕ) (i : IsPoller get k p dirty) (fd a : ℕ)
      (at : p.events fd ≡ a) (live : (a == 0) ≡ false) (e : IoEvent) where
    pub elsewhere :
        (g : ℕ) → (p.events g == 0) ≡ false → (g == fd) ≡ false → (p.events g == a) ≡ false
    elsewhere g some_event other = elim (Bool-cases (p.events g == a)) [
      | inr q ↦ q
      | inl q ↦
          let same : p.events g ≡ p.events fd = ==→eq (p.events g) a q ∙ sym at in
          absurd (
            ground (
              arith,
              other,
              i.own g some_event,
              i.own fd (ground (arith, at, live)),
              ap (λ x. (p.event x).fd) same,
            ))
    ]

    at_fd :
        (g : ℕ) → (p.events g == 0) ≡ false → (g == fd) ≡ true → put p.event a e (p.events g) ≡ e
    at_fd g some_event q =
        let same : p.events g ≡ a = ap p.events (==→eq g fd q) ∙ at in
        let hit : (p.events g == a) ≡ true = ground (arith, same) in rw hit refl

    at_other :
        (g : ℕ)
        → (p.events g == 0) ≡ false
        → (g == fd) ≡ false
        → put p.event a e (p.events g) ≡ event_at p g
    at_other g some_event q = rw (elsewhere g some_event q) refl

    pub changed-IsPoller :
        (after : List ℕ)
        → IsDistinct after
        → ((x : ℕ) → (x == a) ≡ false → has x after ≡ has x dirty)
        → e.fd ≡ fd
        → e.pending_flags ≡ watched e
        → (has a after ≡ false → (e.flags ≡ e.pending_flags) × (is_zero e.flags ≡ false))
        → ((g : ℕ) → get l g ≡ (if g == fd then entry e.flags a else (get k g)))
        → IsPoller get l (record p { event = put p.event a e }) after
    changed-IsPoller after once same own pends clean known = record {
      own = λ g q. elim (Bool-cases (g == fd)) [
        | inl f ↦ ap (λ v. v.fd) (at_fd g q f) ∙ own ∙ sym (==→eq g fd f)
        | inr f ↦ ap (λ v. v.fd) (at_other g q f) ∙ i.own g q
      ];
      pends = λ g q. elim (Bool-cases (g == fd)) [
        | inl f ↦ subst (λ v. v.pending_flags ≡ watched v) (sym (at_fd g q f)) pends
        | inr f ↦ subst (λ v. v.pending_flags ≡ watched v) (sym (at_other g q f)) (i.pends g q)
      ];
      known = λ g. elim (Bool-cases (p.events g == 0)) [
        | inl z ↦ ground (arith, known g, z, i.known g, at, live)
        | inr z ↦ elim (Bool-cases (g == fd)) [
          | inl f ↦
              let same : p.events g ≡ a = ap p.events (==→eq g fd f) ∙ at in
              ground (arith, known g, z, f, same, ap (λ v. v.flags) (at_fd g z f))
          | inr f ↦ ground (arith, known g, z, f, i.known g, ap (λ v. v.flags) (at_other g z f))
        ]
      ];
      clean = λ g q h. elim (Bool-cases (g == fd)) [
        | inl f ↦
            let there : p.events g ≡ a = ap p.events (==→eq g fd f) ∙ at in
            subst (λ v. (v.flags ≡ v.pending_flags) × (is_zero v.flags ≡ false)) (sym (at_fd g q f))
              (clean (ground (arith, h, there)))
        | inr f ↦
            subst (λ v. (v.flags ≡ v.pending_flags) × (is_zero v.flags ≡ false))
              (sym (at_other g q f))
              (i.clean g q (ground (arith, h, same (p.events g), elsewhere g q f)))
      ];
      listed = λ x h. elim (Bool-cases (x == a)) [
        | inl f ↦ (ground (arith, live, f), rw f (ap p.events own ∙ at ∙ sym (==→eq x a f)))
        | inr f ↦ rw f (i.listed x (ground (arith, h, same x f)))
      ];
      once = once;
    }

    abbrev changed : IoPoller
    changed = record p { event = put p.event a e }

abbrev the_flags : Bool → Bool → Flags
the_flags i o = record { in_flag = i; out_flag = o }

pub is_nil-append : (xs : List ℕ) (w : ℕ) → is_nil (xs ++ w ∷ []) ≡ false
is_nil-append [] w = refl
is_nil-append (x ∷ xs) w = refl

-- What a change of a watch list does to the conditions that the event is watched for.
pub watched-append :
    (c : IoCondition) (e : IoEvent) (w : ℕ)
    → watched (set_watch_list c (watch_list c e ++ w ∷ []) e) ≡ set_flag c true (watched e)
watched-append readable e w =
    ap (λ b. the_flags (not b) (not (is_nil e.writers))) (is_nil-append e.readers w)
watched-append writable e w =
    ap (λ b. the_flags (not (is_nil e.readers)) (not b)) (is_nil-append e.writers w)

pub watched-nil :
    (c : IoCondition) (e : IoEvent) → watched (set_watch_list c [] e) ≡ set_flag c false (watched e)
watched-nil readable e = refl
watched-nil writable e = refl

pub watched-same :
    (c : IoCondition) (e : IoEvent) (ws : List ℕ)
    → is_nil ws ≡ is_nil (watch_list c e)
    → watched (set_watch_list c ws e) ≡ watched e
watched-same readable e ws h = ap (λ b. the_flags (not b) (not (is_nil e.writers))) h
watched-same writable e ws h = ap (λ b. the_flags (not (is_nil e.readers)) (not b)) h

pub set_flag-has : (c : IoCondition) (f : Flags) → has_flag c f ≡ true → set_flag c true f ≡ f
set_flag-has readable f h = ap (λ b. the_flags b f.out_flag) (sym h)
set_flag-has writable f h = ap (λ b. the_flags f.in_flag b) (sym h)

-- the fields that a change of a watch list leaves
abbrev pub Leaves : IoEvent → IoEvent → Type 0
Leaves e f = (f.fd ≡ e.fd) × (f.flags ≡ e.flags) × (f.pending_flags ≡ e.pending_flags)

pub set_watch_list-Leaves :
    (c : IoCondition) (e : IoEvent) (ws : List ℕ) → Leaves e (set_watch_list c ws e)
set_watch_list-Leaves readable e ws = (refl, refl, refl)
set_watch_list-Leaves writable e ws = (refl, refl, refl)

pub watch_list-set :
    (c : IoCondition) (e : IoEvent) (ws : List ℕ) → watch_list c (set_watch_list c ws e) ≡ ws
watch_list-set readable e ws = refl
watch_list-set writable e ws = refl

-- the same list read from an event with other pending flags
pub watch_list-pending :
    (c : IoCondition) (e : IoEvent) (f : Flags)
    → watch_list c (record e { pending_flags = f }) ≡ watch_list c e
watch_list-pending readable e f = refl
watch_list-pending writable e f = refl

module _ {E : Type 0} (get : E → ℕ → Option (Flags × ℕ)) where
  -- the same, with other watches
  pub rewatched :
      (k : E) (p : IoPoller) (ds : List ℕ) (watch : ℕ → IoWatch) (event_of : ℕ → ℕ)
      → IsPoller get k p ds
      → IsPoller get k (record p { watch = watch; event_of = event_of }) ds
  rewatched k p ds watch event_of j = record {
    own = j.own;
    pends = j.pends;
    known = j.known;
    clean = j.clean;
    listed = j.listed;
    once = j.once;
  }

  module _ (k : E) (p : IoPoller) (i : IsPoller get k p p.dirty_events) (fd a : ℕ)
      (at : p.events fd ≡ a) (live : (a == 0) ≡ false) where
    pub known_at : get k fd ≡ entry (p.event a).flags a
    known_at = ground (arith, i.known fd, at, live, ap p.event at)

    pub pends_at : (p.event a).pending_flags ≡ watched (p.event a)
    pends_at =
        subst (λ x. (p.event x).pending_flags ≡ watched (p.event x)) at
          (i.pends fd (ground (arith, at, live)))

    pub own_at : (p.event a).fd ≡ fd
    own_at = ap (λ x. (p.event x).fd) (sym at) ∙ i.own fd (ground (arith, at, live))

    clean_at :
        has a p.dirty_events ≡ false
        → ((p.event a).flags ≡ (p.event a).pending_flags) × (is_zero (p.event a).flags ≡ false)
    clean_at =
        subst
          (λ x.
            has x p.dirty_events ≡ false
            → ((p.event x).flags ≡ (p.event x).pending_flags) × (is_zero (p.event x).flags ≡ false))
          at (i.clean fd (ground (arith, at, live)))

    -- what the interest list has if the flags stay
    pub same_known :
        (f : Flags)
        → f ≡ (p.event a).flags
        → (g : ℕ) → get k g ≡ (if g == fd then entry f a else (get k g))
    same_known f same g = elim (Bool-cases (g == fd)) [
      | inl q ↦ rw q (ap (get k) (==→eq g fd q) ∙ known_at ∙ ap (λ x. entry x a) (sym same))
      | inr q ↦ rw q refl
    ]

    -- the event changes and stays in the dirty list or out of it
    pub quiet-IsPoller :
        (e : IoEvent)
        → Leaves (p.event a) e
        → watched e ≡ watched (p.event a)
        → (watch : ℕ → IoWatch) (event_of : ℕ → ℕ)
        → IsPoller get k
            (record p { event = put p.event a e; watch = watch; event_of = event_of })
            p.dirty_events
    quiet-IsPoller e (own, same, same_pending) as_watched watch event_of =
        rewatched k (record p { event = put p.event a e }) p.dirty_events watch event_of
          (changed-IsPoller get k k p p.dirty_events i fd a at live e p.dirty_events i.once
            (λ x h. refl) (own ∙ own_at) (same_pending ∙ pends_at ∙ sym as_watched)
            (λ h.
              let old = clean_at h in (same ∙ old.0 ∙ sym same_pending, ap is_zero same ∙ old.1))
            (same_known e.flags same))

  module _ (k l : E) (p : IoPoller) (i : IsPoller get k p p.dirty_events) (fd a : ℕ)
      (at : p.events fd ≡ a) (live : (a == 0) ≡ false) (e : IoEvent) where
    -- the event changes and goes to the dirty list
    pub dirtied-IsPoller :
        e.fd ≡ fd
        → e.pending_flags ≡ watched e
        → ((g : ℕ) → get l g ≡ (if g == fd then entry e.flags a else (get k g)))
        → (watch : ℕ → IoWatch) (event_of : ℕ → ℕ)
        → let r =
            make_dirty a
              (record p { event = put p.event a e; watch = watch; event_of = event_of }) in
          IsPoller get l r r.dirty_events
    unfolding make_dirty
    dirtied-IsPoller own pends known watch event_of = elim (Bool-cases (has a p.dirty_events)) [
      | inl h ↦
          let j =
            changed-IsPoller get k l p p.dirty_events i fd a at live e p.dirty_events i.once
              (λ x o. refl) own pends (λ n. absurd (ground (arith, h, n))) known in
          rw h (record {
            own = j.own;
            pends = j.pends;
            known = j.known;
            clean = j.clean;
            listed = j.listed;
            once = j.once;
          })
      | inr h ↦
          let j =
            changed-IsPoller get k l p p.dirty_events i fd a at live e (p.dirty_events ++ a ∷ [])
              (IsDistinct-append p.dirty_events a i.once h)
              (λ x o. ground (arith, o, has-append x p.dirty_events (a ∷ []))) own pends
              (λ n. absurd (ground (arith, n, has-append a p.dirty_events (a ∷ [])))) known in
          rw h (record {
            own = j.own;
            pends = j.pends;
            known = j.known;
            clean = j.clean;
            listed = j.listed;
            once = j.once;
          })
    ]
