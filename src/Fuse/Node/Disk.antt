-- ===== src/Fuse/Node/Disk.antt =====
-- Reads and writes of a regular file as the manual pages of Linux describe them, and what a write
-- stores in such a file.
use ccbox.Common.{
  ℕ, zero, suc, ◌+◌, ◌-◌, ◌%◌, ◌^◌, ◌≤◌, ◌≡◌, refl, ap, ◌∙◌, Bool, true, false, Option, none, some,
  [], ◌∷◌, ◌++◌, arith, ◌==◌, if◌then◌else◌, length, length-append, drop, Bytes, done,
}
use Prim.Native.Nat.{max}
use mathlib.Core.Path.{subst}
use ccbox.Fuse.Transform.{transform_to_host}
use ccbox.Fuse.Node.Kernel.{
  Kernel, Stat, Reply, ok, Root, Caches, FileHandle, State, Action, call, ◌>>=◌, bind_reply,
  reply_of, lift, rcache_invalidate, scache_invalidate,
}
use ccbox.Fuse.Node.Handle.{
  slice, pad, overwrite, old_bytes, count, write_fd, write_all, write_merged, write_transformed,
  write,
}
use ccbox.Fuse.Node.Reads.{slice-all}
use ccbox.Fuse.Node.Writes.{forget}

-- The file behind the descriptor is a regular one that nobody else changes, and no call on it fails.
pub record IsDisk (k : Kernel) (fd : ℕ) (content : k.World → Bytes) : Type 0 where
  pub fstat : (w : k.World) → (st : Stat) × (k.fstat w fd ≡ ok st) × (st.size ≡ length (content w))
  pub pread : (w : k.World) (n off : ℕ) → k.pread w fd n off ≡ ok (slice (content w) off n)
  pub pwrite :
      (w : k.World) (s : Bytes) (off : ℕ)
      → off ≤ length (content w)
      → ((k.pwrite w fd s off).1 ≡ ok (length s))
        × (content (k.pwrite w fd s off).0 ≡ overwrite (content w) off s)
  pub ftruncate :
      (w : k.World) (n : ℕ)
      → ((k.ftruncate w fd n).1 ≡ ok tt) × (content (k.ftruncate w fd n).0 ≡ pad n (content w))
  pub flock :
      (w : k.World) (b : Bool)
      → ((k.flock w fd b).1 ≡ ok tt) × (content (k.flock w fd b).0 ≡ content w)

pad_self : (s : Bytes) → pad (length s) s ≡ s
unfolding pad
pad_self [] = refl
pad_self (c ∷ s) = ap (◌∷◌ c) (pad_self s)

pad-append : (s t : Bytes) → pad (length s) (s ++ t) ≡ s
unfolding pad
pad-append [] t = refl
pad-append (c ∷ s) t = ap (◌∷◌ c) (pad-append s t)

drop-length : (s : Bytes) (n : ℕ) → length s ≤ n → drop n s ≡ []
drop-length [] zero h = refl
drop-length [] (suc n) h = refl
drop-length (c ∷ s) zero h = absurd (omega arith)
drop-length (c ∷ s) (suc n) h = drop-length s n (omega arith)

length-drop : (n : ℕ) (s : Bytes) → length (drop n s) ≡ length s - n
length-drop zero s = omega arith
length-drop (suc n) [] = omega arith
length-drop (suc n) (c ∷ s) = omega (arith, length-drop n s)

pub length-overwrite :
    (s : Bytes) (off : ℕ) (t : Bytes)
    → off ≤ length s
    → length (overwrite s off t) ≡ max (length s) (off + length t)
unfolding overwrite
length-overwrite s zero t h =
    omega (arith, length-append t (drop (length t) s), length-drop (length t) s)
length-overwrite [] (suc n) t h = absurd (omega arith)
length-overwrite (c ∷ s) (suc n) t h = omega (arith, length-overwrite s n t (omega arith))

-- A text over the whole of a file that is then cut to its length.
pad-overwrite : (s t : Bytes) → pad (length t) (overwrite s 0 t) ≡ t
unfolding overwrite
pad-overwrite s t = pad-append t (drop (length t) s)

by_true {ℓ κ} :
    {A : Type ℓ} (P : A → Type κ) (b : Bool) (x y : A) → b ≡ true → P x → P (if b then x else y)
by_true P b x y e p = rw e p

by_false {ℓ κ} :
    {A : Type ℓ} (P : A → Type κ) (b : Bool) (x y : A) → b ≡ false → P y → P (if b then x else y)
by_false P b x y e p = rw e p

-- What a write leaves in the file: without a rewriting the data at its offset, and a rewriting in the
-- place of everything at offset 0, over what stands there elsewhere.
unfoldable pub written : Bytes → Bytes → ℕ → Option Bytes → Bytes
written old content off none = overwrite old off content
written old content zero (some text) = text
written old content (suc off) (some text) = overwrite old (suc off) text

module _ (k : Kernel) (fh : FileHandle) (content : k.World → Bytes)
    (disk : IsDisk k fh.fd content) where
  -- The write replies with the count, and the file has that content.
  pub Stores : Bytes → Bytes → Reply ℕ × State k → Type 0
  Stores sent now (r, (w, cs)) = (r ≡ ok (count sent)) × (content w ≡ now)

  write_fd-Stores :
      (sent : Bytes) (off : ℕ) (w : k.World) (cs : Caches)
      → off ≤ length (content w)
      → Stores sent (overwrite (content w) off sent) (write_fd k fh sent off (w, cs))
  unfolding write_fd Stores bind_reply
  write_fd-Stores sent off w cs h = let (r, e) = disk.pwrite w sent off h in rw r (refl, e)

  write_all-Stores :
      (sent text : Bytes) (w : k.World) (cs : Caches)
      → Stores sent text (write_all k fh sent text (w, cs))
  unfolding write_all Stores bind_reply reply_of
  write_all-Stores sent text w cs =
      let (r, e) = disk.pwrite w text 0 (omega arith) in
      let (r2, e2) = disk.ftruncate (k.pwrite w fh.fd text 0).0 (length text) in
      rw (r, r2) (refl, e2 ∙ ap (pad (length text)) e ∙ pad-overwrite (content w) text)

  old_bytes_self : (s : Bytes) (n : ℕ) → n ≡ length s → old_bytes n (ok (slice s 0 n)) ≡ s
  unfolding old_bytes
  old_bytes_self s n h =
      ap (pad n) (slice-all s n (omega (arith, h))) ∙ ap (λ m. pad m s) h ∙ pad_self s

  flock-Stores :
      (sent now : Bytes) (b : Bool) (p : Reply ℕ × State k)
      → Stores sent now p
      → Stores sent now (p.0, (call k (λ w. k.flock w fh.fd b) p.1).1)
  unfolding Stores
  flock-Stores sent now b (r, (w, cs)) h = (h.0, (disk.flock w b).1 ∙ h.1)

  write_merged-Stores :
      (sent text : Bytes) (off : ℕ) (w : k.World) (cs : Caches)
      → Stores sent (overwrite (content w) off text) (write_merged k fh sent text off (w, cs))
  unfolding write_merged Stores bind_reply reply_of
  write_merged-Stores sent text off w cs =
      let (r1, e1) = disk.flock w true in
      let w1 = (k.flock w fh.fd true).0 in
      let (st, f, z) = disk.fstat w1 in
      let merged = overwrite (old_bytes st.size (ok (slice (content w1) 0 st.size))) off text in
      let same = ap (λ old. overwrite old off text) (old_bytes_self (content w1) st.size z ∙ e1) in
      rw (r1, f, disk.pread w1 st.size 0)
        (flock-Stores sent (overwrite (content w) off text) false
          (write_all k fh sent merged (w1, cs))
          (subst (λ now. Stores sent now (write_all k fh sent merged (w1, cs))) same
            (write_all-Stores sent merged w1 cs)))

  write_transformed-Stores :
      (sent : Bytes) (off : ℕ) (text : Option Bytes) (w : k.World) (cs : Caches)
      → off ≤ length (content w)
      → Stores sent
          (written (content w) sent off text)
          (write_transformed k fh sent off text (w, cs))
  unfolding write_transformed written
  write_transformed-Stores sent off none w cs h = write_fd-Stores sent off w cs h
  write_transformed-Stores sent zero (some text) w cs h = write_all-Stores sent text w cs
  write_transformed-Stores sent (suc off) (some text) w cs h =
      by_false
        (λ (m : Action (State k) ℕ). Stores sent (overwrite (content w) (suc off) text) (m (w, cs)))
        (suc off == 0) _ _ (ground arith) (write_merged-Stores sent text (suc off) w cs)

  write-Stores :
      (r : Root) (sent : Bytes) (off : ℕ) (text : Option Bytes) (w : k.World) (cs : Caches)
      → fh.needs_transform ≡ true
      → off ≤ length (content w)
      → transform_to_host sent r.config.path_mappings r.config.dir_mappings ≡ done text
      → Stores sent (written (content w) sent off text) (write k r fh sent off (w, cs))
  unfolding write rcache_invalidate scache_invalidate bind_reply lift forget
  write-Stores r sent off text w cs t h e =
      by_true
        (λ (m : Action (State k) ℕ).
          Stores sent (written (content w) sent off text) (m (w, forget fh.source_path cs)))
        fh.needs_transform
        (lift (transform_to_host sent r.config.path_mappings r.config.dir_mappings)
          >>= write_transformed k fh sent off)
        _ t (rw e (write_transformed-Stores sent off text w (forget fh.source_path cs) h))

-- On a regular file that nobody else changes, a write within the file or at its end, whose data are
-- rewritten for the host to `text` or left alone, replies with the length of the data and leaves the
-- content that `written` describes.
pub write-written :
    (k : Kernel) (r : Root) (fh : FileHandle) (content : k.World → Bytes) (sent : Bytes) (off : ℕ)
    (text : Option Bytes) (w : k.World) (cs : Caches)
    → IsDisk k fh.fd content
    → fh.needs_transform ≡ true
    → off ≤ length (content w)
    → transform_to_host sent r.config.path_mappings r.config.dir_mappings ≡ done text
    → ((write k r fh sent off (w, cs)).0 ≡ ok (length sent % 2 ^ 32))
      × (content (write k r fh sent off (w, cs)).1.0 ≡ written (content w) sent off text)
unfolding Stores
write-written k r fh content sent off text w cs disk t h e =
    write-Stores k fh content disk r sent off text w cs t h e
