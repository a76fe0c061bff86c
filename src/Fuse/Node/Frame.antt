-- ===== src/Fuse/Node/Frame.antt =====
-- Calls that leave the caches alone.
use ccbox.Common.{◌≡◌, refl, ◌∙◌, Bool, true, false, if◌then◌else◌, Outcome, done, panic, timeout}
use ccbox.Fuse.Node.Kernel.{
  Kernel, Reply, ok, err, crash, Caches, State, Action, bind_reply, reply_of, lift,
}

module _ (k : Kernel) where
  -- The call leaves the caches as they are, whatever it replies.
  abbrev pub Keeps : {A : Type 0} → Action (State k) A → Type 0
  Keeps m = (s : State k) → (m s).1.1 ≡ s.1

  pub bind_reply-Keeps :
      {A B : Type 0} {cs : Caches} (p : Reply A × State k) (f : A → Action (State k) B)
      → p.1.1 ≡ cs
      → ((a : A) → Keeps (f a))
      → (bind_reply p f).1.1 ≡ cs
  unfolding bind_reply
  bind_reply-Keeps (ok a, s) f e h = h a s ∙ e
  bind_reply-Keeps (err x, s) f e h = e
  bind_reply-Keeps (crash, s) f e h = e

  pub reply_of-Keeps :
      {A : Type 0} {cs : Caches} (p : Reply A × State k) → p.1.1 ≡ cs → (reply_of p).1.1 ≡ cs
  unfolding reply_of
  reply_of-Keeps (ok a, s) e = e
  reply_of-Keeps (err x, s) e = e
  reply_of-Keeps (crash, s) e = e

  pub lift-Keeps : {A : Type 0} (o : Outcome A) → Keeps (lift o)
  unfolding lift
  lift-Keeps (done a) s = refl
  lift-Keeps panic s = refl
  lift-Keeps timeout s = refl

  pub if-Keeps :
      {A : Type 0} (b : Bool) (m n : Action (State k) A)
      → Keeps m
      → Keeps n
      → Keeps (if b then m else n)
  if-Keeps true m n h g = h
  if-Keeps false m n h g = g
