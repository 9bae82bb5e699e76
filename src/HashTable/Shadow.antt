-- ===== src/HashTable/Shadow.antt =====
-- src/include/util/fixed_hashmap.hpp: `operator[]` after `remove`, on keys with one hash.
use distributed_thread_libra.Prelude.{
  ℕ, ◌<◌, ◌≡◌, refl, ◌≢◌, true, some, arith, length, set, ◌∙◌, false, length-set,
}
use distributed_thread_libra.HashTable.{
  Table, at, entry, vacant, has_key, has_key_or_free, is_free, hash, get, ref, read, remove,
}
use distributed_thread_libra.HashTable.Probe.{probe-first}
use distributed_thread_libra.HashTable.Map.{hash-lt, at-written, get-set_ne}

module _ {n : ℕ} (pos : 0 < n) (t : Table) (size : length t ≡ n) where
  -- A key whose first entry is free reads as 0, and the entry is taken for it.
  read_free :
      (k : ℕ)
      → is_free (at t (hash n k)) ≡ true
      → read n t k ≡ some (set t (hash n k) (entry k 0), 0)
  unfolding read ref
  read_free k free = rw (
    probe-first (has_key_or_free k) t {n = n} {o = hash n k} (hash-lt pos k) (ground arith),
    read,
    ref,
    not_key,
    stored,
  )
    where
      not_key : has_key k (at t (hash n k)) ≡ false
      not_key = ground arith

      stored : at (set t (hash n k) (entry k 0)) (hash n k) ≡ entry k 0
      stored = ground (arith, at-written pos t size (hash-lt pos k) (entry k 0) (hash n k))

  get_first :
      (k : ℕ) → has_key k (at t (hash n k)) ≡ true → get n t k ≡ some (at t (hash n k)).value
  unfolding get
  get_first k hit = rw (probe-first (has_key k) t (hash-lt pos k) hit, get)

  remove_first :
      (k : ℕ) → has_key k (at t (hash n k)) ≡ true → (remove n t k).0 ≡ set t (hash n k) vacant
  unfolding remove
  remove_first k hit = rw (probe-first (has_key k) t (hash-lt pos k) hit, remove)

module _ {n : ℕ} (pos : 0 < n) (t : Table) (size : length t ≡ n) where
  -- Two keys have one hash, the first stands in the entry where both probes start, and the second has
  -- a value. Once the first is removed, `get` still gives that value, but `table[k]` gives 0, and from
  -- then on `get` gives 0 too.
  pub remove-shadows :
      (a k v : ℕ)
      → a ≢ k
      → hash n a ≡ hash n k
      → has_key a (at t (hash n a)) ≡ true
      → get n t k ≡ some v
      → (u : Table) × (get n (remove n t a).0 k ≡ some v)
        × (read n (remove n t a).0 k ≡ some (u, 0))
        × (get n u k ≡ some 0)
  remove-shadows a k v ne same first had = (
    set left (hash n k) (entry k 0),
    rw (remove_first pos t size a first)
        (get-set_ne pos t size (hash-lt pos a) vacant k (ground (arith, first)) refl ∙ had),
    rw (remove_first pos t size a first) (read_free pos left left_size k gap),
    get_first pos (set left (hash n k) (entry k 0)) taken_size k (rw taken (ground arith))
        ∙ rw taken,
  )
    where
      left : Table
      left = set t (hash n a) vacant

      left_size : length left ≡ n
      left_size = length-set t (hash n a) vacant ∙ size

      gap : is_free (at left (hash n k)) ≡ true
      gap = ground (arith, at-written pos t size (hash-lt pos a) vacant (hash n k))

      taken : at (set left (hash n k) (entry k 0)) (hash n k) ≡ entry k 0
      taken = ground (arith, at-written pos left left_size (hash-lt pos k) (entry k 0) (hash n k))

      taken_size : length (set left (hash n k) (entry k 0)) ≡ n
      taken_size = length-set left (hash n k) (entry k 0) ∙ left_size
