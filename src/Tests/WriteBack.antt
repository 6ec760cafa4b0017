-- ===== src/Tests/WriteBack.antt =====
-- Runs of src/write_cache.rs over the small disk, with a queue of 8 bytes and files that do nothing.
use iscsi_s.Prelude.{ℕ, ◌+◌, ◌≡◌, refl, true, false, none, some, length, arith, overlay, slice}
use native.Mathlib.Decide.{dec_lt}
use iscsi_s.Prelude.Eq.{nat_eq}
use iscsi_s.Result.{ok, Ends}
use iscsi_s.HashMap
use iscsi_s.Memory.{MemoryStore, memory_store}
use iscsi_s.Memory.Content.{IsValid, content}
use iscsi_s.Memory.Writes.{write_at_lem, write_at_past}
use iscsi_s.Memory.IsVolume.{memory-IsBlockStore}
use iscsi_s.WriteCache.{Core, BufferRt, WriteCacheMode, at_top, parked}
use iscsi_s.WriteCache.Dirty
use iscsi_s.WriteCache.Buffer
use iscsi_s.WriteCache.Files.{FileSystem}
use iscsi_s.WriteCache.Thread.{run_worker, hand_over}
use iscsi_s.WriteCache.Evict.{move_loop}
use iscsi_s.WriteCache.Client
use iscsi_s.WriteCache.Client.{pause_worker, flush, write_piece}
use iscsi_s.WriteCache.Puts.{FailsWithin}
use iscsi_s.WriteCache.View.{Holds}
use iscsi_s.WriteCache.Steps.{hand_over-Holds}
use iscsi_s.WriteCache.Rounds.{run_worker-Holds}
use iscsi_s.WriteCache.Loads.{ReadsView, read_at-ReadsView}
use iscsi_s.WriteCache.Pieces.{write_piece-Wrote}
use iscsi_s.WriteCache.Writes.{inserted, inserted-Holds}
use iscsi_s.WriteCache.Flushes.{pause_worker-parked}
use iscsi_s.WriteCache.Flushed.{IsFlushed, flush-IsFlushed}
use iscsi_s.WriteCache.Evicts.{move_loop-Holds}
use iscsi_s.Tests.{disk, disk-IsValid, four_bytes, three_bytes}

abbrev no_files : FileSystem (Unit {0})
no_files = record {
  create_dir_all = λ path d. (ok tt, d);
  create = λ path d. (ok tt, d);
  write_all = λ path bytes d. (ok tt, d);
  sync_all = λ path d. (ok tt, d);
  rename = λ from to d. (ok tt, d);
  remove_file = λ path d. (ok true, d);
}

-- The in-memory store refuses a write or does the whole of it.
memory-FailsWithin : FailsWithin memory_store IsValid content
memory-FailsWithin = record {
  fails = λ s offset bytes v. elim (dec_lt s.capacity (offset + length bytes)) [
    | yes past ↦
        rw (write_at_past s offset bytes past, Ends)
          (
            record { valid = v; capacity = refl; block_size = refl; chunk_size = refl },
            λ p out. refl,
          )
    | no fits ↦ let (t, e, shows) = write_at_lem s offset bytes v (omega arith) in rw (e, Ends) tt
  ];
}

abbrev queue : BufferRt
queue = record { max_bytes = 8; state = Buffer.new }

abbrev empty : Core MemoryStore (Unit {0})
empty = record {
  inner = disk;
  mode = WriteCacheMode.memory;
  disk = none;
  files = tt;
  dirty = Dirty.new;
  cache_max = 2;
  buffer = some queue;
  ctl = record {
    pause = false;
    stop = false;
    putting = false;
    parked = false;
    exclusive = false;
    writers = 0;
  };
  worker = at_top;
  now = 0;
}

empty-Holds : Holds memory_store IsValid content (content disk) empty
unfolding HashMap.lookup
empty-Holds = record {
  inner = disk-IsValid;
  small = omega arith;
  zero = λ p past. refl;
  cached = λ idx bytes h. cc;
  under = λ p h. refl;
  sized = λ idx k h. cc;
  flying = tt;
}

-- The first chunk is written, and moved to the queue.
abbrev view : ℕ → ℕ
view = overlay (content disk) 0 four_bytes

abbrev written : Core MemoryStore (Unit {0})
written =
    inserted memory_store IsValid content memory-IsBlockStore (content disk) empty empty-Holds tt 0
      0 0 four_bytes refl (omega arith) (omega arith)

written-Holds : Holds memory_store IsValid content view written
written-Holds =
    inserted-Holds memory_store IsValid content memory-IsBlockStore (content disk) empty empty-Holds
      tt 0 0 0 four_bytes refl (omega arith) (omega arith)

abbrev queued : Core MemoryStore (Unit {0})
queued = (hand_over queue 0 written).1

queued-Holds : Holds memory_store IsValid content view queued
queued-Holds = hand_over-Holds memory_store IsValid content view queue 0 written refl written-Holds

run_worker-Holds_example :
    Holds memory_store IsValid content view (run_worker memory_store no_files 3 queued)
run_worker-Holds_example =
    run_worker-Holds memory_store IsValid content view no_files memory-IsBlockStore
      memory-FailsWithin 3 queued queued-Holds

move_loop-Holds_example :
    Ends
      (λ _. Holds memory_store IsValid content view)
      (λ _. Holds memory_store IsValid content view)
      (move_loop memory_store no_files 5 written)
move_loop-Holds_example =
    move_loop-Holds memory_store no_files IsValid content memory-IsBlockStore memory-FailsWithin
      view 5 written written-Holds

read_at-ReadsView_example :
    ReadsView memory_store IsValid content view 2 3
      (Client.read_at memory_store no_files 2 three_bytes queued)
unfolding hand_over HashMap.lookup Dirty.insert
read_at-ReadsView_example =
    read_at-ReadsView memory_store IsValid content no_files memory-IsBlockStore view queued 2
      three_bytes refl queued-Holds

write_piece-Wrote_example :
    Ends
      (λ _. Holds memory_store IsValid content (overlay view 2 (slice three_bytes 0 2)))
      (λ _. Holds memory_store IsValid content view)
      (write_piece memory_store no_files three_bytes 0 2 2 0 written)
write_piece-Wrote_example =
    write_piece-Wrote memory_store no_files IsValid content memory-IsBlockStore view written
      written-Holds 0 three_bytes 2 2 0 2 refl (omega arith) (omega arith) (omega arith)

flush-IsFlushed_example :
    Ends
      (λ _.
        IsFlushed memory_store no_files IsValid content memory-IsBlockStore memory-FailsWithin view)
      (λ _ _. Unit)
      (flush memory_store no_files written)
flush-IsFlushed_example =
    flush-IsFlushed memory_store no_files IsValid content memory-IsBlockStore memory-FailsWithin
      view written refl refl (λ e. cc) written-Holds

pause_worker-parked_example : (pause_worker memory_store no_files written).worker ≡ parked
pause_worker-parked_example =
    pause_worker-parked memory_store no_files written queue refl refl (λ e. cc)
