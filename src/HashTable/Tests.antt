-- ===== src/HashTable/Tests.antt =====
-- Runs of the operations of fixed_hashmap.hpp on small tables, and the theorems at those tables.
use distributed_thread_libra.Prelude.{
  ℕ, ◌≡◌, refl, ◌⊎◌, none, some, [], ◌∷◌, ◌==◌, arith, is_some, if◌then◌else◌, set,
}
use distributed_thread_libra.HashTable.{
  Table, table_size, entry, vacant, make_table, insert, get, remove, ref, read, assign, probe,
}
use distributed_thread_libra.HashTable.Map.{IsFull}
use distributed_thread_libra.HashTable.Laws.{get-insert, get-remove}
use distributed_thread_libra.HashTable.Chains.{
  IsChained, make_table-IsChained, Stored, get_or_zero, assign_lem, assign-IsChained, read_lem,
}
use distributed_thread_libra.HashTable.Shadow.{remove-shadows}

-- Keys 5 and 9 of a table of four entries both start at entry 1.
abbrev two_keys : Table
two_keys = vacant ∷ entry 5 50 ∷ entry 9 90 ∷ vacant ∷ []

two_keys_built : (insert 4 (insert 4 (make_table 4) 5 50).0 9 90).0 ≡ two_keys
unfolding insert probe make_table
two_keys_built = refl

assign_twice : assign 4 two_keys 9 7 ≡ some (vacant ∷ entry 5 50 ∷ entry 9 7 ∷ vacant ∷ [])
unfolding assign ref probe
assign_twice = refl

read_missing : read 4 two_keys 2 ≡ some (vacant ∷ entry 5 50 ∷ entry 9 90 ∷ entry 2 0 ∷ [], 0)
unfolding read ref probe
read_missing = refl

-- At the size of the source: 4096 and 5120 collide.
source_size :
    read table_size
      (remove table_size
        (insert table_size (insert table_size (make_table table_size) 4096 1).0 5120 2).0
        4096).0
      5120
    ≡ some (set (set (make_table table_size) 1 (entry 5120 2)) 0 (entry 5120 0), 0)
unfolding insert remove read ref probe make_table
source_size = refl

get-insert_example : get 4 (insert 4 two_keys 3 30).0 3 ≡ some 30
unfolding get insert probe
get-insert_example = get-insert (omega arith) two_keys refl 3 30 refl refl 3

two_keys-IsChained : IsChained 4 two_keys
unfolding assign ref probe make_table
two_keys-IsChained =
    assign-IsChained (omega arith) (vacant ∷ entry 5 50 ∷ vacant ∷ vacant ∷ [])
      (assign-IsChained (omega arith) (make_table 4) (make_table-IsChained 4) 5 50 refl) 9 90 refl

get-remove_example :
    ((remove 4 two_keys 5).1 ≡ is_some (get 4 two_keys 5))
    × ((j : ℕ) → get 4 (remove 4 two_keys 5).0 j ≡ (if j == 5 then none else get 4 two_keys j))
get-remove_example = get-remove (omega arith) two_keys refl 5 two_keys-IsChained.is_map

assign_lem_example :
    ((assign 4 two_keys 9 7 ≡ none) × (get 4 two_keys 9 ≡ none) × IsFull 4 two_keys)
    ⊎ ((u : Table) × (assign 4 two_keys 9 7 ≡ some u) × IsChained 4 u × Stored 4 two_keys 9 7 u)
assign_lem_example = assign_lem (omega arith) two_keys two_keys-IsChained 9 7

read_lem_example :
    ((read 4 two_keys 2 ≡ none) × (get 4 two_keys 2 ≡ none) × IsFull 4 two_keys)
    ⊎ ((u : Table) × (read 4 two_keys 2 ≡ some (u, get_or_zero (get 4 two_keys 2)))
        × IsChained 4 u
        × Stored 4 two_keys 2 (get_or_zero (get 4 two_keys 2)) u)
read_lem_example = read_lem (omega arith) two_keys two_keys-IsChained 2

remove-shadows_example :
    (u : Table) × (get 4 (remove 4 two_keys 5).0 9 ≡ some 90)
    × (read 4 (remove 4 two_keys 5).0 9 ≡ some (u, 0))
    × (get 4 u 9 ≡ some 0)
unfolding get probe
remove-shadows_example =
    remove-shadows (omega arith) two_keys refl 5 9 90 (omega arith) refl refl refl
