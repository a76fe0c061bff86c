-- ===== src/Fuse/Node/Renames.antt =====
-- What a rename leaves in the caches.
use ccbox.Common.{
  ℕ, ◌≡◌, refl, sym, false, Option, none, some, if◌then◌else◌, Bytes, equal, done, inl, inr,
  Bool-cases,
}
use mathlib.Core.Path.{subst}
use ccbox.Fuse.Config.{Config}
use ccbox.Fuse.Cache.Neg
use ccbox.Fuse.Node.Kernel.{
  Kernel, Stat, Root, Node, Caches, State, Action, bind_reply, call, lift, rcache_invalidate,
  scache_invalidate, neg_invalidate,
}
use ccbox.Fuse.Node.Tree.{source_path}
use ccbox.Fuse.Node.Change.{replace_content, rewrite_file, post_rename_transform, quietly, rename}
use ccbox.Fuse.Node.Faithful.{Files, IsFaithful}
use ccbox.Fuse.Node.Frame.{Keeps, bind_reply-Keeps, reply_of-Keeps, lift-Keeps, if-Keeps}
use ccbox.Fuse.Node.Writes.{forget, forget-IsFaithful, SameBut}

module _ (k : Kernel) where
  replace_content-Keeps : (fd : ℕ) (text : Option Bytes) → Keeps k (replace_content k fd text)
  unfolding replace_content
  replace_content-Keeps fd none s = refl
  replace_content-Keeps fd (some text) s =
      bind_reply-Keeps k _ _ refl
        (λ nw s. bind_reply-Keeps k _ _ (reply_of-Keeps k _ refl) (λ x s. refl))

  rewrite_file-Keeps : (r : Root) (fd : ℕ) (st : Stat) → Keeps k (rewrite_file k r fd st)
  unfolding rewrite_file
  rewrite_file-Keeps r fd st s =
      bind_reply-Keeps k _ _ refl
        (λ buf s. bind_reply-Keeps k _ _ (lift-Keeps k _ s) (λ text. replace_content-Keeps fd text))

  post_rename_transform-Keeps : (r : Root) (path : Bytes) → Keeps k (post_rename_transform k r path)
  unfolding post_rename_transform
  post_rename_transform-Keeps r path s = bind_reply-Keeps k _ _ refl (λ st.
      if-Keeps k _ _ _ (λ s. bind_reply-Keeps k _ _ refl (λ fd s. rewrite_file-Keeps r fd st s))
        (λ s. refl))

  quietly-Keeps : (m : Action (State k) (Unit {0})) → Keeps k m → Keeps k (quietly k m)
  unfolding quietly
  quietly-Keeps m h s = bind_reply-Keeps k _ _ (reply_of-Keeps k _ (h s)) (λ x s. refl)

  -- The caches behind a rename from one path to another.
  renamed : Bytes → Bytes → Caches → Caches
  unfolding forget
  renamed old_path new_path cs = record (forget new_path (forget old_path cs)) {
    neg_cache = Neg.invalidate cs.neg_cache new_path;
  }

  rename-renamed :
      (r : Root) (n : Node) (name : Bytes) (np : Node) (new_name old_path new_path : Bytes)
      (s : State k)
      → source_path r n name ≡ done old_path
      → source_path r np new_name ≡ done new_path
      → (rename k r n name np new_name 0 s).1.1 ≡ renamed old_path new_path s.1
  unfolding rename renamed forget rcache_invalidate scache_invalidate neg_invalidate bind_reply lift
  rename-renamed r n name np new_name old_path new_path (w, cs) e f =
      rw (e, f)
        (bind_reply-Keeps k (call k (λ v. k.rename v old_path new_path) _) _ refl (λ u.
          if-Keeps k _ _ _ (quietly-Keeps _ (post_rename_transform-Keeps r new_path)) (λ s. refl)))

-- The files as they are between the two paths: the new ones under `path`.
between : Bytes → Files → Files → Files
between path files files' p sec ns = if equal p path then files' p sec ns else files p sec ns

between-SameBut :
    (path : Bytes) (files files' : Files) → SameBut path files (between path files files')
unfolding between
between-SameBut path files files' p sec ns e = rw e refl

renamed-IsFaithful :
    (k : Kernel) (c : Config) (files files' : Files) (old_path new_path : Bytes) (cs : Caches)
    → ((p : Bytes) (sec ns : ℕ)
        → equal p old_path ≡ false
        → equal p new_path ≡ false
        → files' p sec ns ≡ files p sec ns)
    → IsFaithful c files cs
    → IsFaithful c files' (renamed k old_path new_path cs)
unfolding renamed between
renamed-IsFaithful k c files files' old_path new_path cs same h =
    let h1 =
      forget-IsFaithful c files (between old_path files files') old_path cs
        (between-SameBut old_path files files') h in
    let h2 =
      forget-IsFaithful c (between old_path files files') files' new_path (forget old_path cs)
        (λ p sec ns e. elim (Bool-cases (equal p old_path)) [
          | inl o ↦ rw o refl
          | inr o ↦ rw o (same p sec ns o e)
        ])
        h1 in
    record { contents = h2.contents; skips = h2.skips }

-- Where the caches hold what readers are to see, they still do behind a rename, whatever it replies and
-- however it changes the files under its two paths.
pub rename-IsFaithful :
    (k : Kernel) (r : Root) (files files' : Files) (n : Node) (name : Bytes) (np : Node)
    (new_name : Bytes) (old_path new_path : Bytes) (s : State k)
    → source_path r n name ≡ done old_path
    → source_path r np new_name ≡ done new_path
    → ((p : Bytes) (sec ns : ℕ)
        → equal p old_path ≡ false
        → equal p new_path ≡ false
        → files' p sec ns ≡ files p sec ns)
    → IsFaithful r.config files s.1
    → IsFaithful r.config files' (rename k r n name np new_name 0 s).1.1
rename-IsFaithful k r files files' n name np new_name old_path new_path s e f same h =
    subst (IsFaithful r.config files')
      (sym (rename-renamed k r n name np new_name old_path new_path s e f))
      (renamed-IsFaithful k r.config files files' old_path new_path s.1 same h)
