-- ===== src/WriteCache/Buffer.antt =====
-- src/write_cache.rs, `BufState`: the queue of chunks that the worker writes to the inner store.
use iscsi_s.Prelude.{
  ℕ, ◌-◌, Bool, false, none, some, List, [], ◌∷◌, ◌++◌, length, nat_beq, if◌then◌else◌,
}
use iscsi_s.Prelude.Eq.{nat_eq}
use iscsi_s.HashMap
use iscsi_s.WriteCache.{BufState, saturating_add}

abbrev pub new : BufState
new = record { chunks = []; order = []; used_bytes = 0; inflight = none }

-- `order.retain(|i| *i != idx)`.
unfoldable pub without : ℕ → List ℕ → List ℕ
without idx [] = []
without idx (i ∷ is) = let rest = without idx is in if nat_beq i idx then rest else i ∷ rest

unfoldable pub push : ℕ → List ℕ → ℕ → BufState → BufState
unfolding without
push idx bytes generation s = elim (HashMap.lookup idx s.chunks) [
  | none ↦ record s {
    chunks = HashMap.insert idx (record { bytes = bytes; generation = generation }) s.chunks;
    used_bytes = saturating_add s.used_bytes (length bytes);
    order = s.order ++ (idx ∷ []);
  }
  | some old ↦ record s {
    chunks = HashMap.insert idx (record { bytes = bytes; generation = generation }) s.chunks;
    used_bytes = saturating_add (s.used_bytes - length old.bytes) (length bytes);
    order = without idx s.order ++ (idx ∷ []);
  }
]

abbrev pub inflight_is : ℕ → BufState → Bool
inflight_is idx s = elim s.inflight [ none ↦ false | some i ↦ nat_beq i idx ]

abbrev pub clear_inflight : ℕ → BufState → BufState
clear_inflight idx s = if inflight_is idx s then record s { inflight = none } else s

unfoldable pub remove : ℕ → BufState → BufState
unfolding without
remove idx s = elim (HashMap.lookup idx s.chunks) [
  | none ↦ s
  | some old ↦ clear_inflight idx (record s {
    chunks = HashMap.remove idx s.chunks;
    used_bytes = s.used_bytes - length old.bytes;
    order = without idx s.order;
  })
]

abbrev pub clear : BufState → BufState
clear s = record { chunks = []; order = []; used_bytes = 0; inflight = none }
