-- ===== src/Fuse/Node/Kernel.antt =====
-- What the file system asks of the operating system, its own state, and the calls as actions on it.
-- A `Kernel` is the system calls of Linux as package `syscall` gives them; an error is its number.
use ccbox.Common.{ℕ, Bool, Option, List, Bytes, Outcome, done, panic, timeout}
use ccbox.Fuse.Config.{Config}
use ccbox.Fuse.Cache.Read
use ccbox.Fuse.Cache.Skip
use ccbox.Fuse.Cache.Neg

-- The fields of `syscall.Stat_t` that the code reads; `is_reg` is `st.Mode&syscall.S_IFREG != 0`.
pub record Stat : Type 0 where
  pub is_reg : Bool
  pub size : ℕ
  pub mtime_sec : ℕ
  pub mtime_ns : ℕ

-- What `os.FileInfo` says of an entry.
pub record FileInfo : Type 0 where
  pub name : Bytes
  pub is_dir : Bool
  pub is_symlink : Bool

pub data Reply {ℓ} (A : Type ℓ) : Type ℓ where
  ok : A → Reply A
  err : ℕ → Reply A
  crash : Reply A

-- `fuse.FromContext`: the caller's user and group.
abbrev pub Caller : Type 0
Caller = Option (ℕ × ℕ)

pub record Kernel : Type 1 where
  pub World : Type 0
  pub now : World → ℕ
  pub caller : World → Caller
  pub lstat : World → Bytes → Reply Stat
  pub stat : World → Bytes → Reply Stat
  pub fstat : World → ℕ → Reply Stat
  pub pread : World → ℕ → ℕ → ℕ → Reply Bytes
  pub readdir : World → Bytes → Reply (List FileInfo)
  pub readlink : World → Bytes → ℕ → Reply Bytes
  pub access : World → Bytes → ℕ → Reply (Unit {0})
  pub open_file : World → Bytes → ℕ → ℕ → World × Reply ℕ
  pub close : World → ℕ → World
  pub dup : World → ℕ → World × Reply ℕ
  pub pwrite : World → ℕ → Bytes → ℕ → World × Reply ℕ
  pub ftruncate : World → ℕ → ℕ → World × Reply (Unit {0})
  pub truncate : World → Bytes → ℕ → World × Reply (Unit {0})
  pub flock : World → ℕ → Bool → World × Reply (Unit {0})
  pub fsync : World → ℕ → World × Reply (Unit {0})
  pub fdatasync : World → ℕ → World × Reply (Unit {0})
  pub fchown : World → ℕ → ℕ → ℕ → World × Reply (Unit {0})
  pub chown : World → Bytes → ℕ → ℕ → World × Reply (Unit {0})
  pub lchown : World → Bytes → Option ℕ → Option ℕ → World × Reply (Unit {0})
  pub chmod : World → Bytes → ℕ → World × Reply (Unit {0})
  pub utimes : World → Bytes → ℕ → ℕ → World × Reply (Unit {0})
  pub mkdir : World → Bytes → ℕ → World × Reply (Unit {0})
  pub unlink : World → Bytes → World × Reply (Unit {0})
  pub rmdir : World → Bytes → World × Reply (Unit {0})
  pub rename : World → Bytes → Bytes → World × Reply (Unit {0})
  pub symlink : World → Bytes → Bytes → World × Reply (Unit {0})
  pub link : World → Bytes → Bytes → World × Reply (Unit {0})
  pub to_lower : Bytes → Bytes

abbrev pub enoent : ℕ
enoent = 2

abbrev pub einval : ℕ
einval = 22

-- `CcboxRoot`: what does not change, without the tracer, and the caches.
pub record Root : Type 0 where
  pub source_dir : Bytes
  pub config : Config

pub record Caches : Type 0 where
  pub rcache : Read.ReadCache
  pub scache : Skip.SkipCache
  pub neg_cache : Neg.NegCache

-- `CcboxNode`: `path` is `n.Path(n.Root())`, which go-fuse keeps.
pub record Node : Type 0 where
  pub path : Bytes

pub record FileHandle : Type 0 where
  pub fd : ℕ
  pub needs_transform : Bool
  pub source_path : Bytes

-- A call: the state stays changed behind an error too.
abbrev pub Action : Type 0 → Type 0 → Type 0
Action S A = S → Reply A × S

module _ {S : Type 0} where
  abbrev pub pure : {A : Type 0} → A → Action S A
  pure a s = (ok a, s)

  abbrev pub fail : {A : Type 0} → ℕ → Action S A
  fail e s = (err e, s)

  unfoldable pub bind_reply : {A B : Type 0} → Reply A × S → (A → Action S B) → Reply B × S
  bind_reply (ok a, s) f = f a s
  bind_reply (err e, s) f = (err e, s)
  bind_reply (crash, s) f = (crash, s)

  infixl 5 ◌>>=◌ ◌>>◌
  abbrev pub ◌>>=◌ : {A B : Type 0} → Action S A → (A → Action S B) → Action S B
  ◌>>=◌ m f s = bind_reply (m s) f

  abbrev pub ◌>>◌ : {A B : Type 0} → Action S A → Action S B → Action S B
  m >> k = m >>= λ _. k

  -- `x, err := f(...)` with the error as a value.
  unfoldable pub reply_of : {A : Type 0} → Reply A × S → Reply (Reply A) × S
  reply_of (crash, s) = (crash, s)
  reply_of (r, s) = (ok r, s)

  abbrev pub attempt : {A : Type 0} → Action S A → Action S (Reply A)
  attempt m s = reply_of (m s)

  -- `defer`, with what it returns dropped.
  abbrev pub finally : {A : Type 0} → Action S A → Action S (Unit {0}) → Action S A
  finally m later s = let (r, s1) = m s in (r, (later s1).1)

  -- A result of the rewriters, which may panic.
  unfoldable pub lift : {A : Type 0} → Outcome A → Action S A
  lift (done a) s = (ok a, s)
  lift panic s = (crash, s)
  lift timeout s = (crash, s)

module _ (k : Kernel) where
  abbrev pub State : Type 0
  State = k.World × Caches

  -- A system call that only looks.
  abbrev pub look : {A : Type 0} → (k.World → Reply A) → Action State A
  look f (w, c) = (f w, (w, c))

  -- A system call that changes the world.
  abbrev pub call : {A : Type 0} → (k.World → k.World × Reply A) → Action State A
  call f (w, c) = let (w1, r) = f w in (r, (w1, c))

  abbrev pub caches : (Caches → Caches) → Action State (Unit {0})
  caches f (w, c) = (ok tt, (w, f c))

  -- `r.RCache.Lookup`
  unfoldable pub rcache_lookup : Bytes → Stat → Action State (Option Bytes)
  rcache_lookup path st (w, c) =
      let (rc, found) = Read.lookup c.rcache path st.mtime_sec st.mtime_ns in
      (ok found, (w, record c { rcache = rc }))

  unfoldable pub scache_lookup : Bytes → Stat → Action State Bool
  scache_lookup path st (w, c) = (ok (Skip.lookup c.scache path st.mtime_sec st.mtime_ns), (w, c))

  unfoldable pub neg_lookup : Bytes → Action State Bool
  neg_lookup path (w, c) = (ok (Neg.lookup c.neg_cache path (k.now w)), (w, c))

  unfoldable pub rcache_insert : Bytes → Stat → Bytes → Action State (Unit {0})
  rcache_insert path st content =
      caches (λ c. record c { rcache = Read.insert c.rcache path st.mtime_sec st.mtime_ns content })

  unfoldable pub scache_insert : Bytes → Stat → Action State (Unit {0})
  scache_insert path st =
      caches (λ c. record c { scache = Skip.insert c.scache path st.mtime_sec st.mtime_ns })

  unfoldable pub neg_insert : Bytes → Action State (Unit {0})
  neg_insert path (w, c) =
      (ok tt, (w, record c { neg_cache = Neg.insert c.neg_cache path (k.now w) }))

  unfoldable pub rcache_invalidate : Bytes → Action State (Unit {0})
  rcache_invalidate path = caches (λ c. record c { rcache = Read.invalidate c.rcache path })

  unfoldable pub scache_invalidate : Bytes → Action State (Unit {0})
  scache_invalidate path = caches (λ c. record c { scache = Skip.invalidate c.scache path })

  unfoldable pub neg_invalidate : Bytes → Action State (Unit {0})
  neg_invalidate path = caches (λ c. record c { neg_cache = Neg.invalidate c.neg_cache path })
