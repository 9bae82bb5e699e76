-- ===== src/Dsm/Range/Tests.antt =====
-- A region of 10000 pages.
use distributed_thread_libra.Prelude.{◌<◌, ◌≡◌, refl, false}
use distributed_thread_libra.Dsm.Range.{
  floor, relative_page_id_to_addr, relative_page_id_from_addr, is_in_range,
}
use distributed_thread_libra.Dsm.Range.Laws.{is_in_range-page}

below : is_in_range 40960000 8192 10 4096 ≡ false
unfolding is_in_range
below = refl

is_in_range-page_example :
    (relative_page_id_from_addr 8192 12300 < 10000)
    × (relative_page_id_to_addr 8192 (relative_page_id_from_addr 8192 12300) ≡ floor 12300)
unfolding is_in_range
is_in_range-page_example = is_in_range-page 409600000 8192 10000 12300 refl refl
