-- ===== src/Store.antt =====
-- src/store/mod.rs: the `BlockStore` trait and `check_range`. The trait's operations take `&self` and
-- change interior state, so each returns the state beside its result. `read_at` takes the caller's
-- buffer and returns it filled. Sizes and offsets are u64.
pub mod Laws
use iscsi_s.Prelude.{
  ℕ, ◌+◌, ◌-◌, ◌^◌, ◌≤◌, ◌<◌, ◌≡◌, refl, List, arith, leb, ltb, if◌then◌else◌, length,
}
use iscsi_s.Result.{StoreError, out_of_range, Result, ok, err, Exec}

abbrev pub u64_size : ℕ
u64_size = 2 ^ 64

-- `offset.checked_add(len)` fails where the sum does not fit in a u64.
unfoldable pub check_range : ℕ → ℕ → ℕ → Result (Unit {0})
check_range capacity offset len =
    if leb u64_size (offset + len)
    then err (out_of_range offset len capacity)
    else if ltb capacity (offset + len)
    then err (out_of_range offset len capacity)
    else ok tt

pub record BlockStore (S : Type 0) : Type 0 where
  pub read_at : ℕ → List ℕ → Exec S (List ℕ)
  pub write_at : ℕ → List ℕ → Exec S (Unit {0})
  pub capacity : S → ℕ
  pub set_capacity : ℕ → Exec S (Unit {0})
  pub flush : Exec S (Unit {0})
  pub block_size : S → ℕ
  pub chunk_size : S → ℕ
  pub present_chunks : Exec S (List ℕ)
  pub delete_chunk : ℕ → Exec S (Unit {0})

-- A range passes exactly if it ends within the capacity, when the capacity is a u64.
pub check_range_ok :
    (capacity offset len : ℕ)
    → offset + len ≤ capacity
    → capacity < u64_size
    → check_range capacity offset len ≡ ok tt
unfolding check_range
check_range_ok capacity offset len fits small = ground arith

pub check_range_bound :
    (capacity offset len : ℕ) → check_range capacity offset len ≡ ok tt → offset + len ≤ capacity
unfolding check_range
check_range_bound capacity offset len h = ground arith

-- A range that passes the capacity, or u64, is refused with the offset, the length and the capacity.
pub check_range_err :
    (capacity offset len : ℕ)
    → capacity < offset + len
    → check_range capacity offset len ≡ err (out_of_range offset len capacity)
unfolding check_range
check_range_err capacity offset len h = ground arith

-- A read in progress: the store and the buffer. `finish_read` hands the buffer back.
pub record Reading (S : Type 0) : Type 0 where
  pub store : S
  pub buf : List ℕ

abbrev pub finish_read : {S : Type 0} → Result (Unit {0}) × Reading S → Result (List ℕ) × S
finish_read (ok _, r) = (ok r.buf, r.store)
finish_read (err e, r) = (err e, r.store)
