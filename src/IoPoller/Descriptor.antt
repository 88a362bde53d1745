-- ===== src/IoPoller/Descriptor.antt =====
-- The epoll descriptor of Source/IOPoller.c: IOPoller_Initialize and IOPoller_Finalize with the descriptor, which is a
-- number beside the poller. The system calls are parameters. `none` is a fatal error, or no more fuel.
use pixy.Base.{
  ℕ, zero, suc, ◌<◌, ◌≡◌, refl, arith, inl, inr, Bool-cases, true, List, Option, none, some,
  if◌then◌else◌, ◌>>=◌,
}
use pixy.Io.{Outcome, done, failed, is_interrupted}
use pixy.IoPoller.{IoPoller, initialize, finalize}

-- xepoll_create1
unfoldable pub x_epoll_create1 :
    {W : Type 0} → (epoll_create1 : W → Outcome × W) → W → Option (ℕ × W)
x_epoll_create1 epoll_create1 w =
    let (o, after) = epoll_create1 w in elim o [ done fd ↦ some (fd, after) | failed e ↦ none ]

-- xclose; an error is only logged
unfoldable pub x_close :
    {W : Type 0} → (close : W → (fd : ℕ) → Outcome × W) → (tries fd : ℕ) → W → Option W
x_close close zero fd w = none
x_close close (suc n) fd w =
    let (o, after) = close w fd in
    let again = x_close close n fd after in if is_interrupted o then again else some after

-- IOPoller_Initialize
unfoldable pub initialize_descriptor :
    {W : Type 0} → (epoll_create1 : W → Outcome × W) → IoPoller → W → Option (ℕ × IoPoller × W)
unfolding x_epoll_create1
initialize_descriptor epoll_create1 self w = do
  (fd, after) ← x_epoll_create1 epoll_create1 w
  ready ← initialize self
  some (fd, ready, after)

-- IOPoller_Finalize: the chunks freed, in order
unfoldable pub finalize_descriptor :
    {W : Type 0}
    → (close : W → (fd : ℕ) → Outcome × W) → (tries fd : ℕ) → IoPoller
    → W
    → Option (List ℕ × W)
unfolding x_close
finalize_descriptor close tries fd self w = do
  after ← x_close close tries fd w
  some (finalize self, after)

x_close-returns :
    {W : Type 0} (close : W → (fd : ℕ) → Outcome × W) (left : W → ℕ) (fd : ℕ)
    → ((w : W) → is_interrupted (close w fd).0 ≡ true → left (close w fd).1 < left w)
    → (tries : ℕ) (w : W) → left w < tries
    → (after : W) × (x_close close tries fd w ≡ some after)
unfolding x_close
x_close-returns close left fd less zero w enough = absurd (omega arith)
x_close-returns close left fd less (suc n) w enough =
    elim (Bool-cases (is_interrupted (close w fd).0)) [
      | inl e ↦
          let (after, ran) =
            x_close-returns close left fd less n (close w fd).1 (omega (arith, less w e, enough)) in
          (after, rw e ran)
      | inr e ↦ ((close w fd).1, rw e refl)
    ]

-- IOPoller_Finalize ends if each call of close that is interrupted takes something off a number, with more
-- tries than that number, and frees all chunks of the pool, whether or not the descriptor is closed.
pub finalize_descriptor-returns :
    {W : Type 0} (close : W → (fd : ℕ) → Outcome × W) (left : W → ℕ) (fd : ℕ)
    → ((w : W) → is_interrupted (close w fd).0 ≡ true → left (close w fd).1 < left w)
    → (tries : ℕ) (self : IoPoller) (w : W) → left w < tries
    → (after : W) × (finalize_descriptor close tries fd self w ≡ some (finalize self, after))
unfolding finalize_descriptor
finalize_descriptor-returns close left fd less tries self w enough =
    let (after, ran) = x_close-returns close left fd less tries w enough in (after, rw ran refl)
