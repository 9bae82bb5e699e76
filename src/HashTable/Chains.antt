-- ===== src/HashTable/Chains.antt =====
-- src/include/util/fixed_hashmap.hpp: `operator[]`, which looks for the key only up to the first free
-- entry.
use distributed_thread_libra.Prelude.{
  ℕ, ◌<◌, ◌≡◌, refl, sym, ◌∙◌, ap, ◌≢◌, ◌⊎◌, inl, inr, true, false, Option, none, some, ◌==◌, arith,
  if◌then◌else◌, Bool-cases, ℕ_discrete, zero, set, set-set, replicate, suc, length-replicate,
  dec_lt, subst,
}
use distributed_thread_libra.HashTable.{
  Table, at, entry, vacant, has_key, has_key_or_free, is_free, hash, get, ref, read, assign,
  make_table,
}
use distributed_thread_libra.HashTable.Probe.{Hit, probe_cases, slot, slot-injective, slot-onto}
use distributed_thread_libra.HashTable.Map.{
  IsFull, IsMap, hash-lt, get_of_none, get_of_only, get-set_ne, get-set_self, IsMap-set, at-written,
}

-- Between the start of a key's probe and the key there is no free entry.
pub record IsChained (n : ℕ) (t : Table) : Type 0 where
  pub is_map : IsMap n t
  pub chained :
      (k d c : ℕ)
      → d < n
      → c < d
      → has_key k (at t (slot n (hash n k) d)) ≡ true
      → is_free (at t (slot n (hash n k) c)) ≡ false

at-replicate : (n i : ℕ) → at (replicate n vacant) i ≡ vacant
at-replicate zero i = refl
at-replicate (suc n) zero = refl
at-replicate (suc n) (suc i) = at-replicate n i

-- The table that the constructor makes.
pub make_table-IsChained : (n : ℕ) → IsChained n (make_table n)
unfolding make_table
make_table-IsChained n = record {
  is_map = record {
    size = length-replicate n vacant;
    unique = λ k i j hi hj p q. ground (arith, at-replicate n i);
  };
  chained = λ k d c hd hc p. ground (arith, at-replicate n (slot n (hash n k) d));
}

-- The value that a missing key reads as.
abbrev pub get_or_zero : Option ℕ → ℕ
get_or_zero none = 0
get_or_zero (some v) = v

-- `operator[]` stops at the index of `h`, and the entry there becomes `entry k v`.
module _ {n : ℕ} (pos : 0 < n) (t : Table) (ok : IsChained n t) (k : ℕ)
    (h : Hit (has_key_or_free k) t n (hash n k)) where
  open ok use {is_map, chained}

  -- If the loop stops at a free entry, the key is nowhere.
  absent_of_free : is_free (at t h.index) ≡ true → (i : ℕ) → i < n → has_key k (at t i) ≡ false
  absent_of_free free i hi =
      let (d, hd, at_d) = slot-onto (hash-lt pos k) hi in
      subst (λ i. has_key k (at t i) ≡ false) at_d (not_at d hd)
    where
      not_at : (d : ℕ) → d < n → has_key k (at t (slot n (hash n k) d)) ≡ false
      not_at d hd = elim (dec_lt d h.offset) [
        | yes near ↦ ground (arith, h.before d (omega arith) near)
        | no far ↦ elim (ℕ_discrete h.offset d) [
          | yes same ↦ rw (← same, ← h.place) (ground arith)
          | no beyond ↦ elim (Bool-cases (has_key k (at t (slot n (hash n k) d)))) [
            | inl hit ↦ cc (h.place, chained k d h.offset hd (omega arith) hit)
            | inr miss ↦ miss
          ]
        ]
      ]

  elsewhere : (i : ℕ) → i < n → h.index ≢ i → has_key k (at t i) ≡ false
  elsewhere i hi ne = elim (Bool-cases (is_free (at t h.index))) [
    | inl free ↦ absent_of_free free i hi
    | inr taken ↦ elim (Bool-cases (has_key k (at t i))) [
      | inl hit ↦ absurd (ne (is_map.unique k h.index i h.within hi (ground (arith, h.passes)) hit))
      | inr miss ↦ miss
    ]
  ]

  pub get-store :
      (v j : ℕ) → get n (set t h.index (entry k v)) j ≡ (if j == k then some v else get n t j)
  get-store v j = elim (ℕ_discrete j k) [
    | yes same ↦
        get-set_self pos t is_map.size h.within (entry k v) j
          (λ i hi ne. ground (arith, elsewhere i hi ne)) (ground arith)
        ∙ ground arith
    | no other ↦
        get-set_ne pos t is_map.size h.within (entry k v) j (ground (arith, h.passes))
          (ground arith)
        ∙ ground arith
  ]

  before_new :
      (d c : ℕ)
      → d < n
      → c < d
      → h.index ≡ slot n (hash n k) d
      → is_free (at t (slot n (hash n k) c)) ≡ false
  before_new d c hd hc e =
      let same : h.offset ≡ d = slot-injective (hash-lt pos k) h.near hd (sym h.place ∙ e) in
      ground (arith, h.before c (omega arith) (omega arith))

  pub store-IsChained : (v : ℕ) → IsChained n (set t h.index (entry k v))
  store-IsChained v = record {
    is_map =
        IsMap-set pos t is_map.size h.within (entry k v) is_map
          λ a j hj ne same. ground (arith, elsewhere j hj ne);
    chained = λ a d c hd hc p. elim (ℕ_discrete h.index (slot n (hash n a) d)) [
      | yes new ↦
          let same : k ≡ a =
            ground
              (arith, at-written pos t is_map.size h.within (entry k v) (slot n (hash n a) d)) in
          let taken : is_free (at t (slot n (hash n a) c)) ≡ false =
            subst (λ b. is_free (at t (slot n (hash n b) c)) ≡ false) same
              (before_new d c hd hc (rw same new)) in
          ground
            (arith, taken, at-written pos t is_map.size h.within (entry k v) (slot n (hash n a) c))
      | no old ↦ ground (
        arith,
        at-written pos t is_map.size h.within (entry k v) (slot n (hash n a) d),
        at-written pos t is_map.size h.within (entry k v) (slot n (hash n a) c),
        chained a d c hd hc,
      )
    ];
  }

  at_new : at (set t h.index (entry k 0)) h.index ≡ entry k 0
  at_new = ground (arith, at-written pos t is_map.size h.within (entry k 0) h.index)

  -- What the reference names: the key's value, or 0 in a new entry.
  ref-Hit :
      ref n t k ≡ some (if has_key k (at t h.index) then t else set t h.index (entry k 0), h.index)
  unfolding ref
  ref-Hit = rw (h.ends, ref)

  assign-Hit : (v : ℕ) → assign n t k v ≡ some (set t h.index (entry k v))
  unfolding assign
  assign-Hit v =
      rw (ref-Hit, assign)
        (elim (Bool-cases (has_key k (at t h.index))) [
          | inl hit ↦ rw hit (ap (λ e. some (set t h.index e)) (ground arith))
          | inr miss ↦ rw (miss, at_new) (ap some (set-set t h.index (entry k 0) (entry k v)))
        ])

  read-Hit :
      read n t k
      ≡ some (
        if has_key k (at t h.index) then t else set t h.index (entry k 0),
        if has_key k (at t h.index) then (at t h.index).value else 0,
      )
  unfolding read
  read-Hit =
      rw (ref-Hit, read)
        (elim (Bool-cases (has_key k (at t h.index))) [
          | inl hit ↦ rw hit
          | inr miss ↦ rw (miss, at_new)
        ])

  get-present : has_key k (at t h.index) ≡ true → get n t k ≡ some (at t h.index).value
  get-present hit =
      get_of_only pos t k h.index h.within hit
        (λ j hj p. is_map.unique k h.index j h.within hj hit p)

  get-absent : has_key k (at t h.index) ≡ false → get n t k ≡ none
  get-absent miss = get_of_none pos t k (absent_of_free (ground (arith, h.passes)))

  read-get :
      (u : Table) × (read n t k ≡ some (u, get_or_zero (get n t k)))
      × IsChained n u
      × ((j : ℕ) → get n u j ≡ (if j == k then some (get_or_zero (get n t k)) else get n t j))
  read-get = elim (Bool-cases (has_key k (at t h.index))) [
    | inl hit ↦ rw (get-present hit) (
      t,
      rw (read-Hit, hit),
      ok,
      λ j. elim (ℕ_discrete j k) [
        | yes same ↦ ground (arith, get-present hit)
        | no other ↦ ground arith
      ],
    )
    | inr miss ↦
        rw (get-absent miss)
          (set t h.index (entry k 0), rw (read-Hit, miss), store-IsChained 0, get-store 0)
  ]

-- What a table says of every key, after one key was given a value.
abbrev pub Stored : (n : ℕ) → Table → ℕ → ℕ → Table → Type 0
Stored n t k v u = (j : ℕ) → get n u j ≡ (if j == k then some v else get n t j)

module _ {n : ℕ} (pos : 0 < n) (t : Table) (ok : IsChained n t) (k : ℕ) where
  -- On a table without gaps in its probe chains, `table[k] = v` throws only when the table is full and
  -- lacks the key; else the key then has the value, no other key's value changes, and no chain gets
  -- a gap.
  pub assign_lem :
      (v : ℕ)
      → ((assign n t k v ≡ none) × (get n t k ≡ none) × IsFull n t)
        ⊎ ((u : Table) × (assign n t k v ≡ some u) × IsChained n u × Stored n t k v u)
  unfolding assign ref
  assign_lem v = elim (probe_cases (has_key_or_free k) t n (hash n k) (hash-lt pos k)) [
    | inl h ↦ inr (
      set t h.index (entry k v),
      assign-Hit pos t ok k h v,
      store-IsChained pos t ok k h v,
      get-store pos t ok k h v,
    )
    | inr m ↦ inl (
      rw (m.ends, assign),
      get_of_none pos t k (λ i hi. ground (arith, m.fails i hi)),
      λ i hi. ground (arith, m.fails i hi),
    )
  ]

  -- On a table without gaps in its probe chains, `x = table[k]` throws only when the table is full and
  -- lacks the key; else it gives the key's value, or stores and gives 0 for a missing key, changes no
  -- other key's value, and no chain gets a gap.
  pub read_lem :
      ((read n t k ≡ none) × (get n t k ≡ none) × IsFull n t)
      ⊎ ((u : Table) × (read n t k ≡ some (u, get_or_zero (get n t k)))
          × IsChained n u
          × Stored n t k (get_or_zero (get n t k)) u)
  unfolding read ref
  read_lem = elim (probe_cases (has_key_or_free k) t n (hash n k) (hash-lt pos k)) [
    | inl h ↦ inr (read-get pos t ok k h)
    | inr m ↦ inl (
      rw (m.ends, read, ref),
      get_of_none pos t k (λ i hi. ground (arith, m.fails i hi)),
      λ i hi. ground (arith, m.fails i hi),
    )
  ]

  pub assign-IsChained : (v : ℕ) {u : Table} → assign n t k v ≡ some u → IsChained n u
  assign-IsChained v {u} e = elim (assign_lem v) [
    | inl (no_room, _, _) ↦ cc
    | inr (w, stored, chained, _) ↦ let same : w ≡ u = cc in subst (IsChained n) same chained
  ]
