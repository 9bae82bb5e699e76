-- ===== src/HashTable/Probe.antt =====
-- src/include/util/fixed_hashmap.hpp: the do-while loops, by the offset of each round from the start.
use distributed_thread_libra.Prelude.{
  ℕ, zero, suc, ◌+◌, ◌%◌, ◌≤◌, ◌<◌, ◌≡◌, refl, ◌⊎◌, inl, inr, Bool, true, false, ◌==◌, arith,
  Bool-cases, ◌∙◌, ap, subst, sym, ◌-◌, dec_lt, ℕ_discrete,
}
use native.Mathlib.Nat.{mod-lt, mod-eq_of_lt, mod-eq-sub-mod, mod-add-mod}
use distributed_thread_libra.HashTable.{HashEntry, Table, at, Probed, found, wrapped, spent, probe}

-- The entry that is looked at after `d` rounds from `o`.
abbrev pub slot : (n o d : ℕ) → ℕ
slot n o d = (o + d) % n

-- The entries at the offsets from `d` up to `e` fail the test.
abbrev pub AllFail : (HashEntry → Bool) → Table → (n o d e : ℕ) → Type 0
AllFail p t n o d e = (c : ℕ) → d ≤ c → c < e → p (at t (slot n o c)) ≡ false

-- What a loop that starts at offset `d` ends with.
abbrev pub Outcome : (HashEntry → Bool) → Table → (n o d : ℕ) → Probed → Type 0
Outcome p t n o d (found i) =
    (e : ℕ) × (d ≤ e) × (e < n) × (i ≡ slot n o e) × (p (at t i) ≡ true) × AllFail p t n o d e
Outcome p t n o d wrapped = AllFail p t n o d n
Outcome p t n o d spent = ⊥

slot-cases :
    {n o d : ℕ} → o < n → d ≤ n → ((slot n o d ≡ o + d) × (o + d < n)) ⊎ (slot n o d + n ≡ o + d)
slot-cases {n} {o} {d} ho hd = elim (dec_lt (o + d) n) [
  | yes h ↦ inl (mod-eq_of_lt h, h)
  | no h ↦ inr (
      omega (
        arith,
        mod-eq-sub-mod {n = o + d} {m = n} (omega arith)
            ∙ mod-eq_of_lt {n = o + d - n} {m = n} (omega arith),
      ))
]

pub slot-lt : {n o : ℕ} (d : ℕ) → o < n → slot n o d < n
slot-lt {n} {o} d h = mod-lt (o + d) (omega arith)

slot-zero : {n o : ℕ} → o < n → slot n o 0 ≡ o
slot-zero {n} h = ap (λ m. m % n) (omega arith) ∙ mod-eq_of_lt h

slot-suc : (n o d : ℕ) → (slot n o d + 1) % n ≡ slot n o (suc d)
slot-suc n o d = mod-add-mod (o + d) n 1 ∙ ap (λ t. t % n) (omega arith)

slot-ne : {n o d : ℕ} → o < n → suc d < n → (slot n o (suc d) == o) ≡ false
slot-ne {n} {o} {d} ho hd = ground (arith, slot-cases {n = n} {o = o} {d = suc d} ho (omega arith))

slot-last : {n o d : ℕ} → o < n → suc d ≡ n → (slot n o (suc d) == o) ≡ true
slot-last {n} {o} {d} ho hd =
    ground (arith, slot-cases {n = n} {o = o} {d = suc d} ho (omega arith))

module _ (p : HashEntry → Bool) (t : Table) {n o : ℕ} (ho : o < n) where
  AllFail-cons :
      {d : ℕ} (e : ℕ)
      → p (at t (slot n o d)) ≡ false
      → AllFail p t n o (suc d) e
      → AllFail p t n o d e
  AllFail-cons {d} e first rest c h k = elim (ℕ_discrete d c) [
    | yes same ↦ rw (← same) first
    | no other ↦ rest c (omega arith) k
  ]

  Outcome-cons :
      (d : ℕ) (r : Probed)
      → p (at t (slot n o d)) ≡ false
      → Outcome p t n o (suc d) r
      → Outcome p t n o d r
  Outcome-cons d (found i) first (e, de, en, ie, hit, rest) =
      (e, omega arith, en, ie, hit, AllFail-cons e first rest)
  Outcome-cons d wrapped first rest = AllFail-cons n first rest
  Outcome-cons d spent first rest = rest

  probe-Outcome : (f d : ℕ) → d < n → f + d ≡ n → Outcome p t n o d (probe p t n f (slot n o d) o)
  unfolding probe
  probe-Outcome zero d hd e = absurd (omega arith)
  probe-Outcome (suc f) d hd e = elim (Bool-cases (p (at t (slot n o d)))) [
    | inl hit ↦ rw hit (d, omega arith, hd, refl, hit, λ c a b. absurd (omega arith))
    | inr miss ↦
        rw (miss, slot-suc n o d)
          (elim (dec_lt (suc d) n) [
            | yes more ↦
                rw (slot-ne ho more)
                  (Outcome-cons d _ miss (probe-Outcome f (suc d) more (omega arith)))
            | no last ↦
                rw (slot-last {n = n} {o = o} {d = d} ho (omega arith))
                  (AllFail-cons n miss λ c a b. absurd (omega arith))
          ])
  ]

  -- A whole loop, from its first index.
  pub probe_lem : Outcome p t n o 0 (probe p t n n o o)
  probe_lem =
      subst (λ i. Outcome p t n o 0 (probe p t n n i o)) (slot-zero ho)
        (probe-Outcome n 0 (omega arith) (omega arith))

-- Every index is looked at.
pub slot-onto : {n o i : ℕ} → o < n → i < n → (d : ℕ) × (d < n) × (slot n o d ≡ i)
slot-onto {n} {o} {i} ho hi = elim (dec_lt i o) [
  | yes h ↦ (
    i + n - o,
    omega arith,
    ground (arith, slot-cases {n = n} {o = o} {d = i + n - o} ho (omega arith)),
  )
  | no h ↦
      (i - o, omega arith, ground (arith, slot-cases {n = n} {o = o} {d = i - o} ho (omega arith)))
]

-- Different offsets lead to different indices.
pub slot-injective : {n o c d : ℕ} → o < n → c < n → d < n → slot n o c ≡ slot n o d → c ≡ d
slot-injective {n} {o} {c} {d} ho hc hd e = ground (
  arith,
  slot-cases {n = n} {o = o} {d = c} ho (omega arith),
  slot-cases {n = n} {o = o} {d = d} ho (omega arith),
)

-- A loop that ends at an index: the first that passes, at the offset `e`.
pub record Hit (p : HashEntry → Bool) (t : Table) (n o : ℕ) : Type 0 where
  pub index : ℕ
  pub offset : ℕ
  pub ends : probe p t n n o o ≡ found index
  pub within : index < n
  pub near : offset < n
  pub place : index ≡ slot n o offset
  pub passes : p (at t index) ≡ true
  pub before : AllFail p t n o 0 offset

-- A loop that comes back: no entry passes.
pub record Miss (p : HashEntry → Bool) (t : Table) (n o : ℕ) : Type 0 where
  pub ends : probe p t n n o o ≡ wrapped
  pub fails : (i : ℕ) → i < n → p (at t i) ≡ false

-- Every loop ends in one of the two ways, within its fuel.
pub probe_cases : (p : HashEntry → Bool) (t : Table) (n o : ℕ) → o < n → Hit p t n o ⊎ Miss p t n o
probe_cases p t n o ho = go (probe p t n n o o) refl (probe_lem p t ho)
  where
    go : (r : Probed) → probe p t n n o o ≡ r → Outcome p t n o 0 r → Hit p t n o ⊎ Miss p t n o
    go (found i) e (d, _, hd, place, hit, before) = inl (record {
      index = i;
      offset = d;
      ends = e;
      within = rw place (slot-lt d ho);
      near = hd;
      place = place;
      passes = hit;
      before = before;
    })
    go wrapped e fails = inr (record {
      ends = e;
      fails = λ i hi. let (d, hd, at_d) = slot-onto ho hi in rw (← at_d) (fails d (omega arith) hd);
    })
    go spent e h = absurd h

-- A loop sees no more of a table than what its test says of the entries.
pub probe-cong :
    (p q : HashEntry → Bool) (t u : Table) (n : ℕ)
    → ((i : ℕ) → i < n → p (at t i) ≡ q (at u i))
    → (f i o : ℕ) → i < n
    → probe p t n f i o ≡ probe q u n f i o
unfolding probe
probe-cong p q t u n same zero i o h = refl
probe-cong p q t u n same (suc f) i o h =
    rw (same i h, probe-cong p q t u n same f ((i + 1) % n) o (mod-lt (i + 1) (omega arith)))

-- An entry that passes at the start is what the loop finds.
pub probe-first :
    (p : HashEntry → Bool) (t : Table) {n o : ℕ}
    → o < n
    → p (at t o) ≡ true
    → probe p t n n o o ≡ found o
probe-first p t {n} {o} ho hit = elim (probe_cases p t n o ho) [
  | inl h ↦ elim (ℕ_discrete h.offset 0) [
    | yes start ↦
        subst (λ i. probe p t n n o o ≡ found i) (h.place ∙ rw (start, slot-zero ho)) h.ends
    | no later ↦ absurd (
        cc (
          h.before 0 (omega arith) (omega arith),
          subst (λ i. p (at t i) ≡ true) (sym (slot-zero ho)) hit,
        ))
  ]
  | inr m ↦ cc (m.fails o ho)
]
