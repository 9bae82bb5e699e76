-- ===== src/Dsm/PageLock/Laws.antt =====
-- src/lib/dsm_node.cpp: `response_read` beside `grant_write` always goes on, and beside `grant_read` it may not.
use distributed_thread_libra.Prelude.{
  ℕ, ◌+◌, ◌≤◌, ◌≡◌, suc, some-injective, ◌⊎◌, refl, Bool, true, false, not, ◌&&◌, ◌||◌, ltb, Option,
  none, some, List, [], ◌∷◌, length, inl, inr, arith, ap, subst,
}
use distributed_thread_libra.Dsm.PageLock.{
  PageLock, takes, Event, responder_locks, responder_tests, responder_goes_on, responder_unlocks,
  granter_serves, granter_returns, granter_locks, granter_unlocks, responds, step, run, start,
  is_over,
}
use distributed_thread_libra.Dsm.PageLock.States.{
  is_taking, is_sound, GoesOn, left_over, every_state_lem, advances, step-advances, next, can,
  next-can,
}

both_lem : (a b c : Bool) → a ≡ true → (not a || (b && c)) ≡ true → (b ≡ true) × (c ≡ true)
both_lem a b c h e = (ground arith, ground arith)

ltb-suc : (a b : ℕ) → ltb a b ≡ true → suc a ≤ b
ltb-suc a b h = ground arith

run_lem :
    (is_write : Bool) (es : List Event) (s t : PageLock)
    → is_sound s ≡ true
    → run is_write s es ≡ some t
    → (is_sound t ≡ true) × (length es + left_over t ≤ left_over s)
unfolding run
run_lem w [] s t v h =
    let same : s ≡ t = some-injective h in
    subst (λ u. (is_sound u ≡ true) × (0 + left_over u ≤ left_over s)) same (v, omega arith)
run_lem w (e ∷ es) s t v h = go (step w s e) (step-advances w e s) (λ u. run_lem w es u t) h
  where
    go :
        (o : Option PageLock)
        → advances s o ≡ true
        → ((u : PageLock)
            → is_sound u ≡ true
            → run w u es ≡ some t
            → (is_sound t ≡ true) × (length es + left_over t ≤ left_over u))
        → elim o as (λ x. Option PageLock) [ none ↦ none | some u ↦ run w u es ] ≡ some t
        → (is_sound t ≡ true) × (length (e ∷ es) + left_over t ≤ left_over s)
    go none a rec h' = cc
    go (some u) a rec h' =
        let (sound, less) =
          both_lem (is_sound s) (is_sound u) (ltb (left_over u) (left_over s)) v a in
        let (v', n) = rec u sound h' in
        (v', omega (arith, ltb-suc (left_over u) (left_over s) less, n))

-- Beside `grant_write`, whose thread carries out requests while it waits for `mu`: after any events of `response_read`
-- and `grant_write` from their start, in any order, both are through or one can go on, and they take at most 8 events.
pub grant_write-GoesOn :
    (es : List Event) (t : PageLock)
    → run true start es ≡ some t
    → (length es ≤ 8) × ((is_over t ≡ true) ⊎ GoesOn true t)
grant_write-GoesOn es t runs =
    let (sound, few) = run_lem true es start t refl runs in
    (omega (arith, few), go (step true t (next t.pending t.responder t.granter)) refl (next-can t))
  where
    go :
        (o : Option PageLock)
        → step true t (next t.pending t.responder t.granter) ≡ o
        → can t o ≡ true
        → (is_over t ≡ true) ⊎ GoesOn true t
    go none e h = inl (ground (arith, h, (run_lem true es start t refl runs).0))
    go (some u) e h = inr (next t.pending t.responder t.granter, u, e)

abbrev at_rest : PageLock → Option PageLock → Bool
at_rest s none = true
at_rest s (some t) = not (is_sound s && (s.pending && is_taking s.granter))

step-at_rest : (e : Event) (s : PageLock) → at_rest s (step false s e) ≡ true
unfolding step responds
step-at_rest responder_locks = every_state_lem (λ s. at_rest s (step false s responder_locks)) refl
step-at_rest (responder_tests true) =
    every_state_lem (λ s. at_rest s (step false s (responder_tests true))) refl
step-at_rest (responder_tests false) =
    every_state_lem (λ s. at_rest s (step false s (responder_tests false))) refl
step-at_rest responder_goes_on =
    every_state_lem (λ s. at_rest s (step false s responder_goes_on)) refl
step-at_rest responder_unlocks =
    every_state_lem (λ s. at_rest s (step false s responder_unlocks)) refl
step-at_rest granter_serves = every_state_lem (λ s. at_rest s (step false s granter_serves)) refl
step-at_rest granter_returns = every_state_lem (λ s. at_rest s (step false s granter_returns)) refl
step-at_rest granter_locks = every_state_lem (λ s. at_rest s (step false s granter_locks)) refl
step-at_rest granter_unlocks = every_state_lem (λ s. at_rest s (step false s granter_unlocks)) refl

-- Beside `grant_read`, which takes `mu` without carrying out requests: where `grant_prot` returns while the request of
-- `response_read` is not complete, no event of either can happen any more.
pub grant_read-stuck :
    (es : List Event) (t : PageLock)
    → run false start es ≡ some t
    → t.pending ≡ true
    → t.granter ≡ takes
    → (e : Event) → step false t e ≡ none
grant_read-stuck es t runs pending taking e =
    go (step false t e) (step-at_rest e t) (run_lem false es start t refl runs).0
  where
    go : (o : Option PageLock) → at_rest t o ≡ true → is_sound t ≡ true → o ≡ none
    go none a v = refl
    go (some u) a v = absurd (ground (arith, ap is_taking taking, pending, a, v))
