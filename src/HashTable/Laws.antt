-- ===== src/HashTable/Laws.antt =====
-- src/include/util/fixed_hashmap.hpp: `insert`, `get` and `remove`.
use distributed_thread_libra.Prelude.{
  ℕ, ◌<◌, ◌≡◌, refl, ◌∙◌, inl, inr, true, false, none, some, ◌==◌, arith, if◌then◌else◌, ℕ_discrete,
  length, is_some,
}
use distributed_thread_libra.HashTable.{
  Table, entry, vacant, has_key, is_free, hash, insert, get, remove, set,
}
use distributed_thread_libra.HashTable.Probe.{Hit, Miss, probe_cases}
use distributed_thread_libra.HashTable.Map.{
  IsMap, hash-lt, get-none, get-Hit, get-Miss, get-set_ne, get-set_self, get-set_none, IsMap-set,
}

module _ {n : ℕ} (pos : 0 < n) (t : Table) (size : length t ≡ n) where
  insert-Hit :
      (k v : ℕ) (h : Hit is_free t n (hash n k))
      → insert n t k v ≡ (set t h.index (entry k v), true)
  unfolding insert
  insert-Hit k v h = rw (h.ends, insert)

  insert-Miss : (k v : ℕ) → Miss is_free t n (hash n k) → insert n t k v ≡ (t, false)
  unfolding insert
  insert-Miss k v h = rw (h.ends, insert)

  -- A pair that `insert` takes under a new key is found under that key by `get`, and no other key's
  -- value changes.
  pub get-insert :
      (k v : ℕ)
      → get n t k ≡ none
      → (insert n t k v).1 ≡ true
      → (j : ℕ) → get n (insert n t k v).0 j ≡ (if j == k then some v else get n t j)
  get-insert k v new stored j = elim (probe_cases is_free t n (hash n k) (hash-lt pos k)) [
    | inl h ↦ rw (insert-Hit k v h) (elim (ℕ_discrete j k) [
      | yes same ↦
          get-set_self pos t size h.within (entry k v) j
            (λ i hi ne. ground (arith, get-none pos t k new i hi)) (ground arith)
          ∙ ground arith
      | no other ↦
          get-set_ne pos t size h.within (entry k v) j (ground (arith, h.passes)) (ground arith)
          ∙ ground arith
    ])
    | inr m ↦ cc (insert-Miss k v m)
  ]

  -- `insert` of a new key keeps each key in one entry at most, whether or not the pair goes in.
  pub insert-IsMap : (k v : ℕ) → IsMap n t → get n t k ≡ none → IsMap n (insert n t k v).0
  insert-IsMap k v m new = elim (probe_cases is_free t n (hash n k) (hash-lt pos k)) [
    | inl h ↦ rw (insert-Hit k v h) (
        IsMap-set pos t size h.within (entry k v) m
          λ a j hj ne same. ground (arith, get-none pos t k new j hj))
    | inr miss ↦ rw (insert-Miss k v miss) m
  ]

  remove-Hit :
      (k : ℕ) (h : Hit (has_key k) t n (hash n k)) → remove n t k ≡ (set t h.index vacant, true)
  unfolding remove
  remove-Hit k h = rw (h.ends, remove)

  remove-Miss : (k : ℕ) → Miss (has_key k) t n (hash n k) → remove n t k ≡ (t, false)
  unfolding remove
  remove-Miss k h = rw (h.ends, remove)

  -- On a table with each key in one entry at most, `remove` says whether the key was there; after it `get` does
  -- not find the key, and no other key's value changes.
  pub get-remove :
      (k : ℕ)
      → IsMap n t
      → ((remove n t k).1 ≡ is_some (get n t k))
        × ((j : ℕ) → get n (remove n t k).0 j ≡ (if j == k then none else get n t j))
  get-remove k m = elim (probe_cases (has_key k) t n (hash n k) (hash-lt pos k)) [
    | inl h ↦
        rw (remove-Hit k h, get-Hit pos t k h)
          (
            refl,
            λ j. elim (ℕ_discrete j k) [
              | yes same ↦
                  get-set_none pos t size h.within vacant j
                    (λ i hi ne. ground (arith, m.unique k h.index i h.within hi h.passes)) refl
                  ∙ ground arith
              | no other ↦
                  get-set_ne pos t size h.within vacant j (ground (arith, h.passes)) refl
                  ∙ ground arith
            ],
          )
    | inr miss ↦
        rw (remove-Miss k miss, get-Miss pos t k miss)
          (refl, λ j. ground (arith, get-Miss pos t k miss))
  ]

  -- `remove` keeps each key in one entry at most.
  pub remove-IsMap : (k : ℕ) → IsMap n t → IsMap n (remove n t k).0
  remove-IsMap k m = elim (probe_cases (has_key k) t n (hash n k) (hash-lt pos k)) [
    | inl h ↦ rw (remove-Hit k h) (IsMap-set pos t size h.within vacant m λ a j hj ne same. cc)
    | inr miss ↦ rw (remove-Miss k miss) m
  ]
