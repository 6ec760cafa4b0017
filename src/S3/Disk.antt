-- ===== src/S3/Disk.antt =====
-- src/store/s3.rs: `S3ChunkStore` as a `BlockStore`. The stripe locks make the work on a chunk one
-- step among the clients of this process; other instances show as the replies of the client.
use iscsi_s.Prelude.{
  ℕ, zero, suc, true, false, ◌&&◌, not, none, List, length, replicate, slice, copy_at, ltb, nat_beq,
  if◌then◌else◌, ◌%◌, ◌-◌,
}
use iscsi_s.Result.{shrink_refused, geometry_mismatch, Result, ok, err, Exec, and_then}
use iscsi_s.Meta.{VolumeMeta, meta_version}
use iscsi_s.Pieces.{for_pieces}
use iscsi_s.Store.{BlockStore, Reading, check_range, finish_read}
use iscsi_s.S3.{Client, Libraries, S3ChunkStore, on_bucket}
use iscsi_s.S3.Keys.{chunks_prefix}
use iscsi_s.S3.Objects.{put_meta}
use iscsi_s.S3.Chunks.{
  Loaded, get_chunk, put_chunk, delete_chunk_object, list_chunk_indices, is_precondition_failed,
}

abbrev pub max_cas_attempts : ℕ
max_cas_attempts = 8

module _ {B : Type 0} (client : Client B) (libs : Libraries) where
  abbrev pub on_store : {A : Type 0} → Exec (S3ChunkStore B) A → Exec (Reading (S3ChunkStore B)) A
  on_store op r = let (a, s) = op r.store in (a, record r { store = s })

  unfoldable pub read_piece : ℕ → ℕ → ℕ → ℕ → Exec (Reading (S3ChunkStore B)) (Unit {0})
  read_piece idx within taken done r =
      and_then (on_store (get_chunk client libs idx) r)
        λ (chunk, _) r. (ok tt, record r { buf = copy_at r.buf done (slice chunk within taken) })

  unfoldable pub read_at : ℕ → List ℕ → Exec (S3ChunkStore B) (List ℕ)
  unfolding read_piece
  read_at offset buf s =
      and_then (check_range s.capacity offset (length buf), s)
        λ _ s. finish_read (
          for_pieces (length buf) s.chunk_size offset (length buf) 0 read_piece
            (record { store = s; buf = replicate (length buf) 0 }))

  -- A whole chunk is not read before it is written.
  unfoldable pub load_piece : ℕ → ℕ → ℕ → Exec (S3ChunkStore B) Loaded
  load_piece idx within taken s =
      if nat_beq within 0 && nat_beq taken s.chunk_size
      then (ok (replicate s.chunk_size 0, none), s)
      else get_chunk client libs idx s

  abbrev pub again :
      Exec (S3ChunkStore B) (Unit {0})
      → Result (Unit {0}) × S3ChunkStore B
      → Result (Unit {0}) × S3ChunkStore B
  again retry (ok _, s) = (ok tt, s)
  again retry (err e, s) = elim (is_precondition_failed e) [ true ↦ retry s | false ↦ (err e, s) ]

  abbrev pub put_over : ℕ → ℕ → List ℕ → Loaded → Exec (S3ChunkStore B) (Unit {0})
  put_over idx within piece (chunk, etag) =
      put_chunk client libs idx (copy_at chunk within piece) etag

  -- The compare-and-swap loop: `retries` attempts are left after this one.
  unfoldable pub cas_loop : ℕ → ℕ → ℕ → List ℕ → Exec (S3ChunkStore B) (Unit {0})
  unfolding load_piece
  cas_loop zero idx within piece s =
      and_then (load_piece idx within (length piece) s) (put_over idx within piece)
  cas_loop (suc retries) idx within piece s =
      and_then (load_piece idx within (length piece) s)
        λ loaded s. again (cas_loop retries idx within piece) (put_over idx within piece loaded s)

  unfoldable pub write_piece : List ℕ → ℕ → ℕ → ℕ → ℕ → Exec (S3ChunkStore B) (Unit {0})
  unfolding cas_loop
  write_piece bytes idx within taken done s =
      cas_loop (max_cas_attempts - 1) idx within (slice bytes done taken) s

  unfoldable pub write_at : ℕ → List ℕ → Exec (S3ChunkStore B) (Unit {0})
  unfolding write_piece
  write_at offset bytes s =
      and_then (check_range s.capacity offset (length bytes), s)
        λ _ s. for_pieces (length bytes) s.chunk_size offset (length bytes) 0 (write_piece bytes) s

  abbrev pub meta_with : ℕ → S3ChunkStore B → VolumeMeta
  meta_with capacity s = record {
    version = meta_version;
    capacity_bytes = capacity;
    chunk_size = s.chunk_size;
    block_size = s.block_size;
    compression = s.compression;
    storage = s.storage;
  }

  unfoldable pub set_capacity : ℕ → Exec (S3ChunkStore B) (Unit {0})
  set_capacity new_capacity s =
      if not (nat_beq (new_capacity % s.block_size) 0)
      then (err (geometry_mismatch "capacity must be multiple of block_size"), s)
      else if ltb new_capacity s.capacity
      then (err (shrink_refused s.capacity new_capacity), s)
      else if nat_beq new_capacity s.capacity
      then (ok tt, s)
      else and_then (put_meta client libs (meta_with new_capacity s) s)
          λ _ s. (ok tt, record s { capacity = new_capacity })

  unfoldable pub present_chunks : Exec (S3ChunkStore B) (List ℕ)
  present_chunks s = on_bucket (list_chunk_indices client (chunks_prefix s)) s

  abbrev pub s3_store : BlockStore (S3ChunkStore B)
  s3_store = record {
    read_at = read_at;
    write_at = write_at;
    capacity = λ s. s.capacity;
    set_capacity = set_capacity;
    flush = λ s. (ok tt, s);
    block_size = λ s. s.block_size;
    chunk_size = λ s. s.chunk_size;
    present_chunks = present_chunks;
    delete_chunk = delete_chunk_object client;
  }
