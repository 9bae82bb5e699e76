-- ===== src/HashTable/Map.antt =====
-- src/include/util/fixed_hashmap.hpp: what `get` finds in a table, and after a write to one entry.
use distributed_thread_libra.Prelude.{
  ℕ, ◌<◌, ◌≡◌, refl, sym, ◌∙◌, ap, ◌≢◌, inl, inr, true, false, none, some, ◌==◌, arith,
  if◌then◌else◌, ℕ_discrete, length, set, get_or-set_self, get_or-set_ne, length-set,
}
use distributed_thread_libra.HashTable.{HashEntry, Table, at, vacant, has_key, is_free, hash, get}
use distributed_thread_libra.HashTable.Probe.{Hit, Miss, probe_cases, probe-cong}
use native.Mathlib.Nat.{mod-lt}

-- The array has `n` entries, and a key stands in one of them at most.
pub record IsMap (n : ℕ) (t : Table) : Type 0 where
  pub size : length t ≡ n
  pub unique :
      (k i j : ℕ) → i < n → j < n → has_key k (at t i) ≡ true → has_key k (at t j) ≡ true → i ≡ j

-- Every entry is occupied.
abbrev pub IsFull : ℕ → Table → Type 0
IsFull n t = (i : ℕ) → i < n → is_free (at t i) ≡ false

pub at-set :
    (t : Table) (i j : ℕ) (e : HashEntry)
    → i < length t
    → at (set t i e) j ≡ (if i == j then e else at t j)
at-set t i j e h = elim (ℕ_discrete i j) [
  | yes same ↦ ground (arith, get_or-set_self t i e vacant h)
  | no other ↦ ground (arith, get_or-set_ne t {i = i} {j = j} e vacant other)
]

module _ {n : ℕ} (pos : 0 < n) where
  pub hash-lt : (k : ℕ) → hash n k < n
  hash-lt k = mod-lt k pos

  module _ (t : Table) where
    pub get-Hit :
        (k : ℕ) (h : Hit (has_key k) t n (hash n k)) → get n t k ≡ some (at t h.index).value
    unfolding get
    get-Hit k h = rw (h.ends, get)

    pub get-Miss : (k : ℕ) → Miss (has_key k) t n (hash n k) → get n t k ≡ none
    unfolding get
    get-Miss k m = rw (m.ends, get)

    pub get-none : (k : ℕ) → get n t k ≡ none → (i : ℕ) → i < n → has_key k (at t i) ≡ false
    get-none k e = elim (probe_cases (has_key k) t n (hash n k) (hash-lt k)) [
      | inl h ↦ λ i hi. cc (get-Hit k h)
      | inr h ↦ h.fails
    ]

    -- Where the only entry for a key stands, and nowhere else, `get` finds it.
    pub get_of_only :
        (k i : ℕ)
        → i < n
        → has_key k (at t i) ≡ true
        → ((j : ℕ) → j < n → has_key k (at t j) ≡ true → i ≡ j)
        → get n t k ≡ some (at t i).value
    get_of_only k i hi hit only = elim (probe_cases (has_key k) t n (hash n k) (hash-lt k)) [
      | inl h ↦ rw (only h.index h.within h.passes) (get-Hit k h)
      | inr h ↦ cc (h.fails i hi)
    ]

    pub get_of_none : (k : ℕ) → ((i : ℕ) → i < n → has_key k (at t i) ≡ false) → get n t k ≡ none
    get_of_none k out = elim (probe_cases (has_key k) t n (hash n k) (hash-lt k)) [
      | inl h ↦ cc (out h.index h.within)
      | inr h ↦ get-Miss k h
    ]

  -- `get` sees only which entries hold the key, and their values.
  get-cong :
      (t u : Table) (k : ℕ)
      → ((i : ℕ) → i < n → has_key k (at t i) ≡ has_key k (at u i))
      → ((i : ℕ) → i < n → has_key k (at t i) ≡ true → (at t i).value ≡ (at u i).value)
      → get n t k ≡ get n u k
  unfolding get
  get-cong t u k keys values = elim (probe_cases (has_key k) t n (hash n k) (hash-lt k)) [
    | inl h ↦
        rw
          (
            ← probe-cong (has_key k) (has_key k) t u n keys n (hash n k) (hash n k) (hash-lt k),
            h.ends,
            get,
          )
          (ap some (values h.index h.within h.passes))
    | inr h ↦
        rw
          (
            ← probe-cong (has_key k) (has_key k) t u n keys n (hash n k) (hash n k) (hash-lt k),
            h.ends,
            get,
          )
          refl
  ]

  -- An entry is overwritten.
  module _ (t : Table) (size : length t ≡ n) {i : ℕ} (hi : i < n) (e : HashEntry) where
    abbrev written : Table
    written = set t i e

    pub at-written : (j : ℕ) → at written j ≡ (if i == j then e else at t j)
    at-written j = at-set t i j e (omega arith)

    -- A key that neither the old nor the new entry holds keeps its value.
    pub get-set_ne :
        (k : ℕ) → has_key k (at t i) ≡ false → has_key k e ≡ false → get n written k ≡ get n t k
    get-set_ne k old new = sym (
        get-cong t written k (λ j hj. ground (arith, at-written j, ℕ_discrete i j))
          (λ j hj hit. ground (arith, at-written j)))

    pub get-set_self :
        (k : ℕ)
        → ((j : ℕ) → j < n → i ≢ j → has_key k (at t j) ≡ false)
        → has_key k e ≡ true
        → get n written k ≡ some e.value
    get-set_self k out new =
        get_of_only written k i hi (rw self new) other ∙ ap (λ (x : HashEntry). some x.value) self
      where
        self : at written i ≡ e
        self = ground (arith, at-written i)

        other : (j : ℕ) → j < n → has_key k (at written j) ≡ true → i ≡ j
        other j hj hit = elim (ℕ_discrete i j) [
          | yes same ↦ same
          | no ne ↦ ground (arith, at-written j, out j hj ne)
        ]

    pub get-set_none :
        (k : ℕ)
        → ((j : ℕ) → j < n → i ≢ j → has_key k (at t j) ≡ false)
        → has_key k e ≡ false
        → get n written k ≡ none
    get-set_none k out new = get_of_none written k λ j hj. elim (ℕ_discrete i j) [
      | yes same ↦ ground (arith, at-written j)
      | no ne ↦ ground (arith, at-written j, out j hj ne)
    ]

    -- A key that stands nowhere else may be written.
    pub IsMap-set :
        IsMap n t
        → ((k j : ℕ) → j < n → i ≢ j → has_key k e ≡ true → has_key k (at t j) ≡ false)
        → IsMap n written
    IsMap-set m fresh = record {
      size = length-set t i e ∙ size;
      unique = λ k a b ha hb pa pb. elim (ℕ_discrete i a) [
        | yes ia ↦ elim (ℕ_discrete i b) [
          | yes ib ↦ omega arith
          | no nb ↦ ground (arith, at-written a, at-written b, fresh k b hb nb)
        ]
        | no na ↦ ground (arith, at-written a, at-written b, fresh k a ha na, m.unique k a b)
      ];
    }
