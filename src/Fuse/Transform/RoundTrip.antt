-- ===== src/Fuse/Transform/RoundTrip.antt =====
-- What is written through the file system is read back: a JSON array of quoted paths below one
-- mapping's container path goes to the host's text and back.
use ccbox.Common.{
  ℕ, ◌≤◌, ◌≡◌, refl, ap, Bool, true, false, none, some, List, [], ◌∷◌, ◌++◌, arith, length,
  length-append, All, All-append, Bytes, strip_prefix, strip_prefix-append, done, ◌==◌, ==_iff,
  append_assoc,
}
use ccbox.Fuse.Config.{PathMapping, to_lower_byte, is_alpha}
use ccbox.Fuse.Scan.{Matcher}
use ccbox.Fuse.Scan.Laws.{Runs, Runs-nil, Runs-copy, Runs-rewrite}
use ccbox.Fuse.Transform.{
  or_else, match_drive, container_hit, transform_to_container, escape_seps, match_host,
  transform_to_host, finish,
}
use ccbox.Fuse.DirMap.{apply_dir_map}
use ccbox.Fuse.Transform.Paths.{
  IsPathByte, IsTail, escape_seps-append, extract_json_path-escape_seps, IsTail-path, span-tail,
  ends_to-tail, is_alpha-ne, drive_hit-append, container_hit_other, slice_from_two,
  replace_path-append,
}

abbrev pub container_path : Bytes → Bytes → Bytes
container_path t tail = b'/' ∷ (t ++ tail)

abbrev pub host_path : ℕ → Bytes → Bytes → Bytes
host_path d p tail = d ∷ b':' ∷ (escape_seps true p ++ escape_seps true tail)

-- The elements of an array and its end: `"path","path"]`.
abbrev pub elements : (Bytes → Bytes) → Bytes → List Bytes → Bytes
elements path x [] = b'"' ∷ (path x ++ b'"' ∷ b']' ∷ [])
elements path x (y ∷ ys) = b'"' ∷ (path x ++ b'"' ∷ b',' ∷ elements path y ys)

-- The JSON array `["path","path"]` with a path for each tail, of which there is one at least.
abbrev pub array : (Bytes → Bytes) → Bytes → List Bytes → Bytes
array path x xs = b'[' ∷ elements path x xs

length-path_rest : (path rest : Bytes) → length rest ≤ length (path ++ rest)
length-path_rest path rest = omega (arith, length-append path rest)

module _ (d : ℕ) (p t : Bytes) where
  abbrev pub drive_mapping : PathMapping
  drive_mapping = record {
    from = d ∷ b':' ∷ p;
    to = b'/' ∷ t;
    drive = to_lower_byte d;
    is_unc = false;
    is_wsl = false;
  }

  module _ (alpha : is_alpha d ≡ true) where
    strip_prefix_path :
        (tail rest : Bytes)
        → strip_prefix (b'/' ∷ t) (container_path t tail ++ rest) ≡ some (tail ++ rest)
    strip_prefix_path tail rest = rw append_assoc (strip_prefix-append (b'/' ∷ t) (tail ++ rest))

    match_host_path :
        (tail after : Bytes)
        → IsTail tail
        → match_host (drive_mapping ∷ []) (container_path t tail ++ b'"' ∷ after)
          ≡ some (host_path d p tail, b'"' ∷ after)
    unfolding match_host
    match_host_path tail after h = rw (
      strip_prefix_path tail (b'"' ∷ after),
      ends_to-tail tail after h,
      span-tail tail after h,
      is_alpha-ne d alpha,
    )

    match_drive_path :
        (tail after : Bytes)
        → All IsPathByte p
        → IsTail tail
        → match_drive
            (to_lower_byte d)
            ((escape_seps true p ++ escape_seps true tail) ++ b'"' ∷ after)
            (drive_mapping ∷ [])
          ≡ done (some (container_path t tail, b'"' ∷ after))
    unfolding match_drive or_else
    match_drive_path tail after hp h =
        let read =
          extract_json_path-escape_seps (p ++ tail) after
            (All-append IsPathByte p tail hp (IsTail-path tail h)) in
        rw (
          (==_iff (to_lower_byte d) _).1 refl,
          ← escape_seps-append true p tail,
          read,
          slice_from_two,
          replace_path-append p (b'/' ∷ t) tail (b'"' ∷ after) h,
        )

    container_hit_path :
        (tail after : Bytes)
        → All IsPathByte p
        → IsTail tail
        → container_hit (drive_mapping ∷ []) (host_path d p tail ++ b'"' ∷ after)
          ≡ done (some (container_path t tail, b'"' ∷ after))
    unfolding container_hit or_else
    container_hit_path tail after hp h =
        let path = escape_seps true p ++ escape_seps true tail in
        rw (
          drive_hit-append (drive_mapping ∷ []) d b':' b'"' path after alpha refl,
          match_drive_path tail after hp h,
          container_hit,
        )

    host_matcher : Matcher
    host_matcher s = done (match_host (drive_mapping ∷ []) s)

    match_host_other :
        (c : ℕ) (s : Bytes) → (c == b'/') ≡ false → match_host (drive_mapping ∷ []) (c ∷ s) ≡ none
    unfolding match_host
    match_host_other c s h = ground arith

    host_element :
        (tail after written : Bytes) (found : Bool)
        → IsTail tail
        → Runs host_matcher after (written, found)
        → Runs host_matcher
            (b'"' ∷ (container_path t tail ++ b'"' ∷ after))
            (b'"' ∷ (host_path d p tail ++ b'"' ∷ written), true)
    unfolding host_matcher
    host_element tail after written found h run =
        Runs-copy host_matcher b'"' _ _ true (ap done (match_host_other b'"' _ refl)) (
          Runs-rewrite host_matcher b'/' ((t ++ tail) ++ b'"' ∷ after) (host_path d p tail)
            (b'"' ∷ after) (b'"' ∷ written) found (ap done (match_host_path tail after h))
            (length-path_rest (t ++ tail) (b'"' ∷ after))
            (Runs-copy host_matcher b'"' after written found
              (ap done (match_host_other b'"' after refl)) run))

    host_Runs :
        (x : Bytes) (xs : List Bytes)
        → All IsTail (x ∷ xs)
        → Runs host_matcher (elements (container_path t) x xs) (elements (host_path d p) x xs, true)
    unfolding host_matcher
    host_Runs x [] h = host_element x (b']' ∷ []) (b']' ∷ []) false h.0 (
        Runs-copy host_matcher b']' [] [] false (ap done (match_host_other b']' [] refl))
          (Runs-nil host_matcher))
    host_Runs x (y ∷ ys) h =
        host_element x (b',' ∷ elements (container_path t) y ys)
          (b',' ∷ elements (host_path d p) y ys) true h.0
          (Runs-copy host_matcher b',' _ _ true (ap done (match_host_other b',' _ refl))
            (host_Runs y ys h.1))

    host_list-Runs :
        (x : Bytes) (xs : List Bytes)
        → All IsTail (x ∷ xs)
        → Runs host_matcher (array (container_path t) x xs) (array (host_path d p) x xs, true)
    unfolding host_matcher
    host_list-Runs x xs h =
        Runs-copy host_matcher b'[' _ _ true (ap done (match_host_other b'[' _ refl))
          (host_Runs x xs h)

    container_copy :
        (c : ℕ) (after written : Bytes) (found : Bool)
        → is_alpha c ≡ false
        → (c == b'\\') ≡ false
        → (c == b'/') ≡ false
        → Runs (container_hit (drive_mapping ∷ [])) after (written, found)
        → Runs (container_hit (drive_mapping ∷ [])) (c ∷ after) (c ∷ written, found)
    container_copy c after written found ha hb hs run =
        Runs-copy _ c after written found
          (container_hit_other (drive_mapping ∷ []) c after ha hb hs) run

    container_element :
        (tail after written : Bytes) (found : Bool)
        → All IsPathByte p
        → IsTail tail
        → Runs (container_hit (drive_mapping ∷ [])) after (written, found)
        → Runs
            (container_hit (drive_mapping ∷ []))
            (b'"' ∷ (host_path d p tail ++ b'"' ∷ after))
            (b'"' ∷ (container_path t tail ++ b'"' ∷ written), true)
    container_element tail after written found hp h run =
        let hit = container_hit (drive_mapping ∷ []) in
        let path = b':' ∷ (escape_seps true p ++ escape_seps true tail) in
        container_copy b'"' _ _ true (unfold is_alpha in refl) refl refl (
          Runs-rewrite hit d (path ++ b'"' ∷ after) (container_path t tail) (b'"' ∷ after)
            (b'"' ∷ written) found (container_hit_path tail after hp h)
            (length-path_rest path (b'"' ∷ after))
            (container_copy b'"' after written found (unfold is_alpha in refl) refl refl run))

    container_Runs :
        (x : Bytes) (xs : List Bytes)
        → All IsPathByte p
        → All IsTail (x ∷ xs)
        → Runs
            (container_hit (drive_mapping ∷ []))
            (elements (host_path d p) x xs)
            (elements (container_path t) x xs, true)
    container_Runs x [] hp h =
        container_element x (b']' ∷ []) (b']' ∷ []) false hp h.0
          (container_copy b']' [] [] false (unfold is_alpha in refl) refl refl (Runs-nil _))
    container_Runs x (y ∷ ys) hp h =
        container_element x (b',' ∷ elements (host_path d p) y ys)
          (b',' ∷ elements (container_path t) y ys) true hp h.0
          (container_copy b',' _ _ true (unfold is_alpha in refl) refl refl
            (container_Runs y ys hp h.1))

    container_list-Runs :
        (x : Bytes) (xs : List Bytes)
        → All IsPathByte p
        → All IsTail (x ∷ xs)
        → Runs
            (container_hit (drive_mapping ∷ []))
            (array (host_path d p) x xs)
            (array (container_path t) x xs, true)
    container_list-Runs x xs hp h =
        container_copy b'[' _ _ true (unfold is_alpha in refl) refl refl (container_Runs x xs hp h)

-- Under one mapping of a drive and no directory mapping, `TransformToHost` takes a JSON array of one or
-- more quoted paths at or below the mapping's container path to the array of the host's paths with
-- escaped backslashes, and `TransformToContainer` takes that back to the array of container paths. The
-- host's folder and what follows the container path have no quote, comma, closing brace or bracket,
-- backslash or byte that is white space in Latin-1.
pub transform-round_trip :
    (d : ℕ) (p t x : Bytes) (xs : List Bytes)
    → is_alpha d ≡ true
    → All IsPathByte p
    → All IsTail (x ∷ xs)
    → (transform_to_host (array (container_path t) x xs) (drive_mapping d p t ∷ []) []
        ≡ done (some (array (host_path d p) x xs)))
      × (transform_to_container (array (host_path d p) x xs) (drive_mapping d p t ∷ []) []
          ≡ done (some (array (container_path t) x xs)))
unfolding transform_to_host transform_to_container finish apply_dir_map host_matcher
transform-round_trip d p t x xs alpha hp h = (
  rw (host_list-Runs d p t alpha x xs h (length (array (container_path t) x xs)) (omega arith)),
  rw (
      container_list-Runs d p t alpha x xs hp h (length (array (host_path d p) x xs))
        (omega arith)),
)
