-- ===== src/Fuse/Node/Chunks.antt =====
-- A text that a client writes in two pieces, one behind the other.
use ccbox.Common.{
  ℕ, zero, suc, ◌+◌, ◌<◌, ◌≡◌, refl, ap, ◌∙◌, true, Option, none, some, arith, length, Bytes, done,
}
use ccbox.Fuse.Transform.{transform_to_host}
use ccbox.Fuse.Node.Kernel.{Kernel, Root, FileHandle, State}
use ccbox.Fuse.Node.Handle.{or_self, overwrite, write}
use ccbox.Fuse.Node.Disk.{IsDisk, written, length-overwrite, write-written}

-- Off offset 0, rewritten data stand where data that are left alone would.
written_later :
    (old sent : Bytes) (off : ℕ) (text : Option Bytes)
    → 0 < off
    → written old sent off text ≡ overwrite old off (or_self text sent)
unfolding written or_self
written_later old sent zero text h = absurd (omega arith)
written_later old sent (suc off) none h = refl
written_later old sent (suc off) (some text) h = refl

-- A client writes one piece at offset 0, whose rewriting for the host is longer than the piece, and the
-- next piece behind the first as the client counts. The file then has the second rewriting over the end
-- of the first, and fewer bytes than the two have together.
pub write-overwrite :
    (k : Kernel) (r : Root) (fh : FileHandle) (content : k.World → Bytes)
    (first text second : Bytes) (text2 : Option Bytes) (s : State k)
    → IsDisk k fh.fd content
    → fh.needs_transform ≡ true
    → transform_to_host first r.config.path_mappings r.config.dir_mappings ≡ done (some text)
    → transform_to_host second r.config.path_mappings r.config.dir_mappings ≡ done text2
    → 0 < length first
    → length first < length text
    → 0 < length (or_self text2 second)
    → (content (write k r fh second (length first) (write k r fh first 0 s).1).1.0
        ≡ overwrite text (length first) (or_self text2 second))
      × (length (content (write k r fh second (length first) (write k r fh first 0 s).1).1.0)
          < length text + length (or_self text2 second))
unfolding written
write-overwrite k r fh content first text second text2 (w, cs) disk needs e f some_first longer
      some_second =
    let s1 = (write k r fh first 0 (w, cs)).1 in
    let (r1, now) =
      write-written k r fh content first 0 (some text) w cs disk needs (omega arith) e in
    let (r2, then_now) =
      write-written k r fh content second (length first) text2 s1.0 s1.1 disk needs
        (omega (arith, ap length now)) f in
    let whole =
      then_now
      ∙ written_later (content s1.0) second (length first) text2 some_first
      ∙ ap (λ old. overwrite old (length first) (or_self text2 second)) now in
    (
      whole,
      omega (
        arith,
        ap length whole,
        length-overwrite text (length first) (or_self text2 second) (omega arith),
      ),
    )
