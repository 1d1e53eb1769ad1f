-- ===== src/Prelude/Sort.antt =====
-- Sorting: Go's package sort, by insertion behind the elements that are not greater.
mod Insertion
mod TextOrder
unfoldable pub use Insertion.{sort_by}
pub use Insertion.{
  IsSorted, any-sort_by, All-sort_by, length-sort_by, count_if-sort_by, sort_by-perm,
  sort_by-IsSorted, sort_by_of_perm,
}
pub use TextOrder.{
  text_lt, text_lt_irrefl, text_lt_trans, text_lt_asymm, text_lt_connex, text_lt_negtrans,
}
