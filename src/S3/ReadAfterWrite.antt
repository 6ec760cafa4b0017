-- ===== src/S3/ReadAfterWrite.antt =====
-- src/store/s3.rs: `read_at` after `write_at`, in either layout.
use iscsi_s.Prelude.{ℕ, ◌+◌, ◌≡◌, ◌∙◌, refl, List, length, tabulate_ext}
use iscsi_s.Result.{ok}
use iscsi_s.Compression.{IsLossless}
use iscsi_s.Device.ReadAfterWrite.{tabulate-overlay}
use iscsi_s.S3.{Client, Libraries, S3ChunkStore}
use iscsi_s.S3.Disk.{read_at, write_at}
use iscsi_s.S3.Laws.{IsBucket, Bodies}
use iscsi_s.S3.Volume.{IsValid, content}
use iscsi_s.S3.Writes.{CoversWrite, s3_write_at-Writes}
use iscsi_s.S3.Reads.{s3_read_at-Reads}

-- Over a bucket that keeps the promises of S3, where a late removal or put of a meta object is
-- carried out at once or never, with compressors that give back what they compressed, a read that
-- succeeds returns the bytes of the last write, where that write succeeded on a valid volume, in
-- the legacy layout, or in the copy-on-write one with a hash without collisions on a class of
-- bodies that has the stored objects and those of the chunks of the disk while the write goes on.
pub read_at-write_at :
    {B : Type 0} (client : Client B) (libs : Libraries) (objects : B → Bodies)
    (laws : IsBucket client objects) (Body : List ℕ → Type 0) (lossless : IsLossless libs.codecs)
    (s t u : S3ChunkStore B) (offset : ℕ) (bytes buf : List ℕ) {filled : List ℕ}
    → IsValid client libs objects laws Body s
    → CoversWrite client libs objects laws Body lossless s offset bytes
    → length buf ≡ length bytes
    → write_at client libs offset bytes s ≡ (ok tt, t)
    → read_at client libs offset buf t ≡ (ok filled, u)
    → filled ≡ bytes
read_at-write_at client libs objects laws Body lossless s t u offset bytes buf v covers size wrote
      got =
    let w =
      rw wrote at
        (s3_write_at-Writes client libs objects laws Body lossless s offset bytes v covers) in
    let r = rw got at (s3_read_at-Reads client libs objects laws Body t offset buf w.0.valid) in
    let disk = content client libs objects laws Body in
    r.1
    ∙ rw size (
        tabulate_ext (disk t) _ offset offset (length bytes) (λ i lt. w.0.same.content (offset + i))
        ∙ tabulate-overlay (disk s) offset (length bytes) bytes refl)
