-- ===== src/Device/ReadAfterWrite.antt =====
-- src/device.rs, `S3BlockDevice`: a read after a write of the same blocks.
use iscsi_s.Store.{BlockStore}
use iscsi_s.Store.Laws.{IsBlockStore}
use iscsi_s.Device.{read, write}
use iscsi_s.Device.Laws.{read-Reads, write-Writes}
use iscsi_s.Result.{ok}
use iscsi_s.Prelude.{
  ℕ, ◌+◌, ◌*◌, ◌≡◌, List, length, tabulate, overlay, arith, tabulate_ext, tabulate_self, get_or,
  ◌∙◌, sym,
}

pub tabulate-overlay :
    (f : ℕ → ℕ) (a n : ℕ) (xs : List ℕ) → length xs ≡ n → tabulate (overlay f a xs) a n ≡ xs
tabulate-overlay f a n xs e =
    tabulate_ext (overlay f a xs) (λ k. get_or xs k 0) a 0 n (λ i lt. ground arith)
    ∙ sym (tabulate_self xs n e)

module _ {S : Type 0} (ops : BlockStore S) (IsValid : S → Type 0) (content : S → ℕ → ℕ)
    (laws : IsBlockStore ops IsValid content) where
  -- A read from a state that shows what was written, be it that of another store.
  pub read_back :
      (s t u : S) (lba blocks block_size : ℕ) (bytes : List ℕ) {buf : List ℕ}
      → IsValid t
      → length bytes ≡ blocks * block_size
      → ((p : ℕ) → content t p ≡ overlay (content s) (lba * block_size) bytes p)
      → read ops lba blocks block_size t ≡ (ok buf, u)
      → buf ≡ bytes
  read_back s t u lba blocks block_size bytes {buf} v whole same got =
      let r = rw got at (read-Reads ops IsValid content laws t v lba blocks block_size) in
      r.1
      ∙ (tabulate_ext (content t) (overlay (content s) (lba * block_size) bytes) (lba * block_size)
            (lba * block_size) (blocks * block_size) (λ i lt. same (lba * block_size + i))
          ∙ tabulate-overlay (content s) (lba * block_size) (blocks * block_size) bytes whole)

  -- Over a lawful store, after a device write of some blocks that succeeds, a read of the same
  -- blocks that succeeds returns the bytes written.
  pub read-write :
      (s t u : S) (lba blocks block_size : ℕ) (bytes : List ℕ) {buf : List ℕ}
      → IsValid s
      → length bytes ≡ blocks * block_size
      → write ops lba bytes block_size s ≡ (ok tt, t)
      → read ops lba blocks block_size t ≡ (ok buf, u)
      → buf ≡ bytes
  read-write s t u lba blocks block_size bytes v whole wrote got =
      let w = rw wrote at (write-Writes ops IsValid content laws s v lba block_size bytes) in
      read_back s t u lba blocks block_size bytes w.0.valid whole w.0.same.content got
