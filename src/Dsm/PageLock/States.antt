-- ===== src/Dsm/PageLock/States.antt =====
-- src/lib/dsm_node.cpp: the states of the lock `mu`, and what a step does in each of them.
use distributed_thread_libra.Prelude.{
  ℕ, ◌+◌, ◌≡◌, refl, Bool, true, false, not, ◌&&◌, ◌||◌, ltb, Option, none, some, if◌then◌else◌,
  arith,
}
use distributed_thread_libra.Dsm.PageLock.{
  PageLock, Holder, nobody, by_responder, by_granter, Responder, arrives, holds, waits, leaves,
  returned, Granter, loops, takes, has_mu, finished, Event, responder_locks, responder_tests,
  responder_goes_on, responder_unlocks, granter_serves, granter_returns, granter_locks,
  granter_unlocks, responds, step, is_over,
}

-- Who holds `mu`, from where the threads stand.
abbrev pub holder : Responder → Granter → Holder
holder holds g = by_responder
holder waits g = by_responder
holder leaves g = by_responder
holder r has_mu = by_granter
holder r g = nobody

abbrev pub excludes : Responder → Granter → Bool
excludes holds has_mu = false
excludes waits has_mu = false
excludes leaves has_mu = false
excludes r g = true

abbrev pub in_wait : Responder → Bool
in_wait waits = true
in_wait r = false

abbrev pub same_holder : Holder → Holder → Bool
same_holder nobody nobody = true
same_holder by_responder by_responder = true
same_holder by_granter by_granter = true
same_holder h k = false

abbrev pub is_taking : Granter → Bool
is_taking takes = true
is_taking g = false

-- `mu` is held by the one thread that is behind its LOCK, and a request is pending only while its thread waits.
abbrev pub is_sound : PageLock → Bool
is_sound s =
    same_holder s.mu (holder s.responder s.granter)
    && (excludes s.responder s.granter && (not s.pending || in_wait s.responder))

abbrev pub GoesOn : (is_write : Bool) → PageLock → Type 0
GoesOn is_write s = (e : Event) × (t : PageLock) × (step is_write s e ≡ some t)

-- The steps that the two threads have before them.
abbrev pub left_of : Responder → ℕ
left_of arrives = 5
left_of holds = 4
left_of waits = 2
left_of leaves = 1
left_of returned = 0

abbrev pub left_to : Granter → ℕ
left_to loops = 3
left_to takes = 2
left_to has_mu = 1
left_to finished = 0

abbrev pub left_over : PageLock → ℕ
left_over s = left_of s.responder + left_to s.granter + (if s.pending then 1 else 0)

-- What holds of each holder, each place of a thread and each event.
abbrev every_holder : (Holder → Bool) → Bool
every_holder f = f nobody && (f by_responder && f by_granter)

every_holder_lem : (f : Holder → Bool) → every_holder f ≡ true → (h : Holder) → f h ≡ true
every_holder_lem f e nobody = ground arith
every_holder_lem f e by_responder = ground arith
every_holder_lem f e by_granter = ground arith

abbrev every_responder : (Responder → Bool) → Bool
every_responder f = f arrives && (f holds && (f waits && (f leaves && f returned)))

every_responder_lem :
    (f : Responder → Bool) → every_responder f ≡ true → (r : Responder) → f r ≡ true
every_responder_lem f e arrives = ground arith
every_responder_lem f e holds = ground arith
every_responder_lem f e waits = ground arith
every_responder_lem f e leaves = ground arith
every_responder_lem f e returned = ground arith

abbrev every_granter : (Granter → Bool) → Bool
every_granter f = f loops && (f takes && (f has_mu && f finished))

every_granter_lem : (f : Granter → Bool) → every_granter f ≡ true → (g : Granter) → f g ≡ true
every_granter_lem f e loops = ground arith
every_granter_lem f e takes = ground arith
every_granter_lem f e has_mu = ground arith
every_granter_lem f e finished = ground arith

abbrev every_bool : (Bool → Bool) → Bool
every_bool f = f false && f true

every_bool_lem : (f : Bool → Bool) → every_bool f ≡ true → (b : Bool) → f b ≡ true
every_bool_lem f e false = ground arith
every_bool_lem f e true = ground arith

abbrev pub every_state : (PageLock → Bool) → Bool
every_state f = every_holder λ m. every_responder λ r.
    every_granter
      λ g. every_bool λ p. f (record { mu = m; responder = r; granter = g; pending = p })

pub every_state_lem : (f : PageLock → Bool) → every_state f ≡ true → (s : PageLock) → f s ≡ true
every_state_lem f e s =
    let m =
      every_holder_lem
        (λ m. every_responder λ r.
          every_granter
            λ g. every_bool λ p. f (record { mu = m; responder = r; granter = g; pending = p }))
        e s.mu in
    let r =
      every_responder_lem
        (λ r.
          every_granter
            λ g. every_bool λ p. f (record { mu = s.mu; responder = r; granter = g; pending = p }))
        m s.responder in
    let g =
      every_granter_lem
        (λ g.
          every_bool
            λ p. f (record { mu = s.mu; responder = s.responder; granter = g; pending = p }))
        r s.granter in
    every_bool_lem
      (λ p. f (record { mu = s.mu; responder = s.responder; granter = s.granter; pending = p })) g
      s.pending

-- After a step of a sound state, a sound state with less left.
abbrev pub advances : PageLock → Option PageLock → Bool
advances s none = true
advances s (some t) = not (is_sound s) || (is_sound t && ltb (left_over t) (left_over s))

pub step-advances :
    (is_write : Bool) (e : Event) (s : PageLock) → advances s (step is_write s e) ≡ true
unfolding step responds
step-advances w responder_locks = every_state_lem (λ s. advances s (step w s responder_locks)) refl
step-advances w (responder_tests true) =
    every_state_lem (λ s. advances s (step w s (responder_tests true))) refl
step-advances w (responder_tests false) =
    every_state_lem (λ s. advances s (step w s (responder_tests false))) refl
step-advances w responder_goes_on =
    every_state_lem (λ s. advances s (step w s responder_goes_on)) refl
step-advances w responder_unlocks =
    every_state_lem (λ s. advances s (step w s responder_unlocks)) refl
step-advances true granter_serves =
    every_state_lem (λ s. advances s (step true s granter_serves)) refl
step-advances false granter_serves =
    every_state_lem (λ s. advances s (step false s granter_serves)) refl
step-advances w granter_returns = every_state_lem (λ s. advances s (step w s granter_returns)) refl
step-advances w granter_locks = every_state_lem (λ s. advances s (step w s granter_locks)) refl
step-advances w granter_unlocks = every_state_lem (λ s. advances s (step w s granter_unlocks)) refl

-- An event for each place that the threads can be at, beside `grant_write`.
abbrev pub next : (pending : Bool) → Responder → Granter → Event
next p holds g = responder_tests true
next p leaves g = responder_unlocks
next true waits g = granter_serves
next false waits g = responder_goes_on
next p arrives loops = granter_returns
next p arrives takes = granter_locks
next p arrives has_mu = granter_unlocks
next p arrives finished = responder_locks
next p returned loops = granter_returns
next p returned takes = granter_locks
next p returned g = granter_unlocks

abbrev pub can : PageLock → Option PageLock → Bool
can s none = not (is_sound s) || is_over s
can s (some t) = true

pub next-can : (s : PageLock) → can s (step true s (next s.pending s.responder s.granter)) ≡ true
unfolding step responds
next-can = every_state_lem (λ s. can s (step true s (next s.pending s.responder s.granter))) refl
