-- ===== src/IoPoller/Fit.antt =====
-- The event vector of Source/IOPoller.c grows where it is too short for a descriptor.
use mathlib.Core.Option
use pixy.Base.{
  ℕ, ◌+◌, ◌*◌, ◌/◌, ◌%◌, ◌^◌, ◌<◌, ◌≤◌, ◌≡◌, ◌⊎◌, refl, ap, sym, subst, ◌∙◌, inl, inr, arith, Bool,
  true, false, List, [], none, some, ◌==◌, ltb, if◌then◌else◌, Bool-cases, Option-cases,
}
use pixy.Vector.{Vector, Realloc, get_length, set_length, next_power_of_two, size_max}
use pixy.Vector.Bytes.{IsKeeping, Resized, resize-Resized}
use pixy.Vector.Lengths.{IsVector, fits}
use pixy.Vector.Words.{store_words, load_word-store_words, store_words-zero}
use pixy.IoPoller.{IoPoller, IoCondition, fit_fd, store_events, load_events, watch_list}
use pixy.IoPoller.Kept.{event_at}

-- The event vector has pointers of 64 bits, and behind its end there is no event.
pub record IsFitting (p : IoPoller) : Type 0 where
  pub vector : IsVector p.event_vector
  pub wide : p.event_vector.element_size ≡ 8
  pub blank : p.event_vector.elements ≡ none → p.event_vector.size ≡ 0
  pub beyond : (fd : ℕ) → p.event_vector.length ≤ fd → p.events fd ≡ 0
  pub words : (fd : ℕ) → p.events fd < 2 ^ 64

-- the watches of a descriptor for a condition
abbrev pub watches : IoPoller → IoCondition → (fd : ℕ) → List ℕ
watches p c fd = if p.events fd == 0 then [] else watch_list c (event_at p fd)

module _ (realloc : Realloc) (keeps : IsKeeping realloc) (v : Vector) (length : ℕ) (w : IsVector v)
    (wide : v.element_size ≡ 8) (few : length ≤ 2 ^ 60) (longer : v.length < length) where
  abbrev size : ℕ
  size = next_power_of_two (length * v.element_size % size_max)

  enough : length ≤ size / 8
  enough =
      subst (λ n. length ≤ size / n) wide
        (fits realloc keeps v length true w (omega (arith, wide)) (rw wide (omega (arith, few))))

  old_length : v.length ≡ v.size / 8
  old_length = w ∙ ap (λ n. v.size / n) wide

  -- Vector_SetLength of a vector of pointers that gets longer
  grows :
      ((r : Vector) × (set_length realloc v length true ≡ (true, r)) × Resized v r size true)
      ⊎ (set_length realloc v length true ≡ (false, v))
  unfolding set_length
  grows =
      let more : v.size < size = omega (arith, enough, old_length, longer) in
      let other : (v.size == size) ≡ false = ground (arith, more) in
      let some_size : (size == 0) ≡ false = ground (arith, more) in
      let zeroed : ltb v.size size ≡ true = ground (arith, more) in
      rw (other, some_size) (rw zeroed (resize-Resized realloc keeps v size true))

-- what fit_fd leaves of `p`: another vector, which is long enough if it is true
pub record Fitted (realloc : Realloc) (p : IoPoller) (fd : ℕ) (ok : Bool) (v : Vector)
    : Type 0 where
  pub run : fit_fd realloc p fd ≡ some (ok, record p { event_vector = v })
  pub whole : IsFitting (record p { event_vector = v })
  pub inside : ok ≡ true → ltb fd v.length ≡ true

module _ (realloc : Realloc) (keeps : IsKeeping realloc) (p : IoPoller) (w : IsFitting p) (fd : ℕ)
    (small : fd + 1 < 2 ^ 31) where
  abbrev stored : Vector
  stored = record p.event_vector {
    elements = Option.map (λ bytes. store_words p.events) p.event_vector.elements;
  }

  module _ (r : Vector) (n : ℕ) (s : Resized stored r n true) where
    new_length : r.length ≡ r.size / 8
    new_length = s.new_length ∙ ap (λ k. n / k) w.wide ∙ ap (λ k. k / 8) (sym s.new_size)

    -- the bytes are those of the events
    same_bytes : (i : ℕ) → i < r.size → s.after i ≡ store_words p.events i
    same_bytes i q = elim (Bool-cases (ltb i p.event_vector.size)) [
      | inr e ↦
          let outside : p.event_vector.size ≤ i = ground (arith, e) in
          let far : p.event_vector.length ≤ i / 8 =
            omega (arith, w.vector, ap (λ k. p.event_vector.size / k) w.wide, outside) in
          s.zeroed refl i (ground (arith, e)) (omega (arith, q, s.new_size))
          ∙ sym (store_words-zero p.events i (w.beyond (i / 8) far))
      | inl e ↦ elim (Option-cases p.event_vector.elements) [
        | inl f ↦ absurd (ground (arith, w.blank f, e))
        | inr (bytes, f) ↦
            s.kept (store_words p.events) (rw f refl) i (ground (arith, e))
              (omega (arith, q, s.new_size))
      ]
    ]

    same_events : (long : p.event_vector.length ≤ r.length) → (g : ℕ) → load_events r g ≡ p.events g
    unfolding load_events
    same_events long g = rw s.block (elim (Bool-cases (ltb g r.length)) [
      | inl e ↦ rw e (
          load_word-store_words p.events s.after g (w.words g)
            (λ i a b. same_bytes i (ground (arith, e, a, new_length))))
      | inr e ↦ rw e (sym (w.beyond g (ground (arith, e, long))))
    ])

    grown-IsFitting : p.event_vector.length ≤ r.length → IsFitting (record p { event_vector = r })
    grown-IsFitting long = record {
      vector =
          s.new_length
          ∙ ap (λ k. n / k) (sym s.same_elements)
          ∙ ap (λ k. k / r.element_size) (sym s.new_size);
      wide = s.same_elements ∙ w.wide;
      blank = λ e. absurd (ground (arith, e, s.block));
      beyond = λ g q. w.beyond g (omega (arith, long, q));
      words = w.words;
    }

  -- The call ends, and no event is lost.
  pub fit_fd-Fitted : (ok : Bool) × (v : Vector) × Fitted realloc p fd ok v
  unfolding fit_fd store_events get_length
  fit_fd-Fitted = elim (Bool-cases (ltb fd p.event_vector.length)) [
    | inl e ↦ (true, p.event_vector, record { run = rw e refl; whole = w; inside = λ q. e })
    | inr e ↦
        let fine : ltb (fd + 1) (2 ^ 31) ≡ true = ground (arith, small) in
        let longer : p.event_vector.length < fd + 1 = ground (arith, e) in
        elim (grows realloc keeps stored (fd + 1) w.vector w.wide (omega (arith, small)) longer) [
          | inr f ↦ (
            false,
            p.event_vector,
            record {
              run = rw (e, fine, f) refl;
              whole = w;
              inside = λ q. absurd (ground (arith, q));
            },
          )
          | inl (r, f, s) ↦
              let long : fd + 1 ≤ r.length = omega (
                arith,
                enough realloc keeps stored (fd + 1) w.vector w.wide (omega (arith, small)) longer,
                new_length r _ s,
                ap (λ k. k / 8) s.new_size,
              ) in
              let same = same_events r _ s (omega (arith, long, longer)) in
              (
                true,
                r,
                record {
                  run =
                      rw (e, fine, f)
                        (λ j. some (true, record p { event_vector = r; events = λ g. same g j }));
                  whole = grown-IsFitting r _ s (omega (arith, long, longer));
                  inside = λ q. (ground (arith, long));
                },
              )
        ]
  ]
