-- ===== src/Fuse/Transform/Total.antt =====
-- The rewriters return on every buffer.
use ccbox.Common.{
  ℕ, zero, suc, ◌≡◌, refl, Bool, true, false, none, some, List, [], ◌∷◌, arith, length, All, Bytes,
  done, timeout,
}
use ccbox.Fuse.Config.{PathMapping, DirMapping}
use ccbox.Fuse.DirMap.Total.{apply_dir_map-Returns}
use ccbox.Fuse.Scan.{Written, scan}
use ccbox.Fuse.Scan.Laws.{Advances, Leaves-Advances, Returns, scan-Returns}
use ccbox.Fuse.Transform.{
  finish, transform_to_container, container_hit, match_host, transform_to_host,
}
use ccbox.Fuse.Transform.Progress.{Sliceable, HasTarget, container_hit-Leaves, match_host-Leaves}

finish-Returns : (b : Bool) (dirs : List DirMapping) (w : Written) → Returns (finish b dirs w)
unfolding finish
finish-Returns b dirs (out, false) = (none, refl)
finish-Returns b dirs (out, true) =
    let (d, e) = apply_dir_map-Returns out dirs b in
    (elim d [ none ↦ some out | some x ↦ some x ], rw e)

container_hit-Advances :
    (ms : List PathMapping)
    → All Sliceable ms
    → (c : ℕ) (s : Bytes) → Advances (c ∷ s) (container_hit ms (c ∷ s))
container_hit-Advances ms w c s =
    let (h, e, l) = container_hit-Leaves c s ms w in rw e (Leaves-Advances c s h l)

-- `TransformToContainer` returns on every buffer, without a panic, if the text of every mapping of a
-- drive may be sliced behind the drive letter.
pub transform_to_container-Returns :
    (buf : Bytes) (ms : List PathMapping) (dirs : List DirMapping)
    → All Sliceable ms
    → Returns (transform_to_container buf ms dirs)
unfolding transform_to_container
transform_to_container-Returns [] ms dirs w = (none, refl)
transform_to_container-Returns (c ∷ s) [] dirs w = (none, refl)
transform_to_container-Returns (c ∷ s) (m ∷ ms) dirs w =
    let (r, e) =
      scan-Returns (length (c ∷ s)) (container_hit (m ∷ ms)) (c ∷ s)
        (container_hit-Advances (m ∷ ms) w) (omega arith) in
    rw e (finish-Returns true dirs r)

-- `TransformToHost` returns on every buffer, if no container path is empty.
pub transform_to_host-Returns :
    (buf : Bytes) (ms : List PathMapping) (dirs : List DirMapping)
    → All HasTarget ms
    → Returns (transform_to_host buf ms dirs)
unfolding transform_to_host
transform_to_host-Returns [] ms dirs w = (none, refl)
transform_to_host-Returns (c ∷ s) [] dirs w = (none, refl)
transform_to_host-Returns (c ∷ s) (m ∷ ms) dirs w =
    let (r, e) =
      scan-Returns (length (c ∷ s)) (λ t. done (match_host (m ∷ ms) t)) (c ∷ s)
        (λ d t.
          Leaves-Advances d t (match_host (m ∷ ms) (d ∷ t))
            (match_host-Leaves (length t) (m ∷ ms) (d ∷ t) w (omega arith)))
        (omega arith) in
    rw e (finish-Returns false dirs r)

-- If the first mapping's container path is empty, the loop of `TransformToHost` never gets past a
-- quote: no number of rounds is enough.
pub scan-match_host_stuck :
    (fuel : ℕ) (m : PathMapping) (ms : List PathMapping) (s : Bytes)
    → m.to ≡ []
    → scan fuel (λ t. done (match_host (m ∷ ms) t)) (b'"' ∷ s) ≡ timeout
unfolding scan match_host
scan-match_host_stuck zero m ms s h = refl
scan-match_host_stuck (suc fuel) m ms s h = rw (h, scan-match_host_stuck fuel m ms s h)
