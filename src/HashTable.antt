-- ===== src/HashTable.antt =====
-- src/include/util/fixed_hashmap.hpp: the fixed-size table with linear probing that holds the
-- thread id of each context. A key is the bit pattern of an `intptr_t`, a value that of an
-- `int64_t`. The four do-while loops differ only in the test that stops them, so they are one
-- function `probe` with the test as an argument. The loops run on fuel, one round for each entry. The
-- number `n` of entries is a parameter; the program's is `table_size`.
pub mod Probe
pub mod Map
pub mod Laws
pub mod Chains
pub mod Shadow
mod Tests
use distributed_thread_libra.Prelude.{
  ℕ, zero, suc, ◌+◌, ◌%◌, Bool, true, false, not, ◌&&◌, ◌||◌, Option, none, some, List, ◌==◌,
  if◌then◌else◌, get_or, set, replicate,
}

abbrev pub table_size : ℕ
table_size = 1024

pub record HashEntry : Type 0 where
  pub key : ℕ
  pub value : ℕ
  pub occupied : Bool

-- An entry as the constructor and `remove` leave it.
abbrev pub vacant : HashEntry
vacant = record { key = 0; value = 0; occupied = false }

abbrev pub entry : ℕ → ℕ → HashEntry
entry k v = record { key = k; value = v; occupied = true }

abbrev pub Table : Type 0
Table = List HashEntry

-- The entry at an index; every index that the loops use is below the table's size.
abbrev pub at : Table → ℕ → HashEntry
at t i = get_or t i vacant

-- How a probe loop ends: at an index, back at its start, or with no fuel left.
pub data Probed : Type 0 where
  found : ℕ → Probed
  wrapped : Probed
  spent : Probed

-- The do-while loop over a table of `n` entries.
unfoldable pub probe : (HashEntry → Bool) → Table → (n fuel index original : ℕ) → Probed
probe p t n zero index original = spent
probe p t n (suc f) index original =
    let next = (index + 1) % n in
    let rest = probe p t n f next original in
    if p (at t index) then found index else if next == original then wrapped else rest

-- The tests of the loops.
abbrev pub has_key : ℕ → HashEntry → Bool
has_key k e = e.occupied && (e.key == k)

abbrev pub is_free : HashEntry → Bool
is_free e = not e.occupied

abbrev pub has_key_or_free : ℕ → HashEntry → Bool
has_key_or_free k e = has_key k e || is_free e

module _ (n : ℕ) where
  abbrev pub hash : ℕ → ℕ
  hash k = k % n

  abbrev pub search_from : (HashEntry → Bool) → Table → ℕ → Probed
  search_from p t k = probe p t n n (hash k) (hash k)

  unfoldable pub make_table : Table
  make_table = replicate n vacant

  -- The new table, and whether the pair went in.
  unfoldable pub insert : Table → ℕ → ℕ → Table × Bool
  insert t k v = elim (search_from is_free t k) [
    | found i ↦ (set t i (entry k v), true)
    | _ ↦ (t, false)
  ]

  unfoldable pub get : Table → ℕ → Option ℕ
  get t k = elim (search_from (has_key k) t k) [ found i ↦ some (at t i).value | _ ↦ none ]

  unfoldable pub remove : Table → ℕ → Table × Bool
  remove t k = elim (search_from (has_key k) t k) [
    | found i ↦ (set t i vacant, true)
    | _ ↦ (t, false)
  ]

  -- `operator[]`: the table, and the index whose value the reference names; `none` is the throw.
  unfoldable pub ref : Table → ℕ → Option (Table × ℕ)
  ref t k = elim (search_from (has_key_or_free k) t k) [
    | found i ↦ some (if has_key k (at t i) then t else set t i (entry k 0), i)
    | _ ↦ none
  ]

  -- `x = table[k]`
  unfoldable pub read : Table → ℕ → Option (Table × ℕ)
  unfolding ref
  read t k = elim (ref t k) [ none ↦ none | some (u, i) ↦ some (u, (at u i).value) ]

  -- `table[k] = v`
  unfoldable pub assign : Table → ℕ → ℕ → Option Table
  unfolding ref
  assign t k v = elim (ref t k) [
    | none ↦ none
    | some (u, i) ↦ some (set u i (record (at u i) { value = v }))
  ]
