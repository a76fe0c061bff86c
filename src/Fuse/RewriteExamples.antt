-- ===== src/Fuse/RewriteExamples.antt =====
-- The theorems on the rewriters at concrete texts and mappings.
use ccbox.Common.{
  ◌≤◌, ◌≡◌, refl, false, some, [], ◌∷◌, All, arith, Bytes, codes, equal, done, timeout, length,
}
use ccbox.Fuse.Config.{
  PathMapping, DirMapping, max_mappings, is_alpha, to_lower_byte, parse_path_map,
}
use ccbox.Fuse.Config.Mappings.{
  IsParsed, parse_path_map-IsParsed, transform_to_container-parse_path_map,
}
use ccbox.Fuse.Scan.{scan}
use ccbox.Fuse.Scan.Laws.{Returns}
use ccbox.Fuse.DirMap.{apply_dir_map}
use ccbox.Fuse.DirMap.Total.{apply_dir_map-Returns}
use ccbox.Fuse.PathUtil.{translate_path_segments}
use ccbox.Fuse.PathUtil.Segments.{translate_path_segments-join}
use ccbox.Fuse.Transform.{
  transform_to_container, transform_to_host, match_host, in_path, escape_seps,
}
use ccbox.Fuse.Transform.Total.{transform_to_host-Returns, scan-match_host_stuck}
use ccbox.Fuse.Transform.RoundTrip.{transform-round_trip}

-- `C:/U` is `/c`.
abbrev drive_c : PathMapping
drive_c = record {
  from = codes "C:/U";
  to = codes "/c";
  drive = b'c';
  is_unc = false;
  is_wsl = false;
}

abbrev container_text : Bytes
container_text = codes "[\"/c/a\"]"

abbrev host_text : Bytes
host_text = codes "[\"C:\\\\U\\\\a\"]"

abbrev encoded : DirMapping
encoded = record { container_name = codes "-D-x"; native_name = codes "D--x" }

abbrev no_target : PathMapping
no_target = record { from = codes "C:/x"; to = []; drive = b'c'; is_unc = false; is_wsl = false }

transform-round_trip_example :
    (transform_to_host container_text (drive_c ∷ []) [] ≡ done (some host_text))
    × (transform_to_container host_text (drive_c ∷ []) [] ≡ done (some container_text))
unfolding in_path is_alpha to_lower_byte escape_seps
transform-round_trip_example =
    transform-round_trip b'C' (codes "/U") (codes "c") (codes "/a") [] refl
      ((refl, refl), ((refl, refl), tt)) ((refl, ((refl, refl), tt)), tt)

transform_to_host-Returns_example : Returns (transform_to_host container_text (drive_c ∷ []) [])
transform_to_host-Returns_example =
    transform_to_host-Returns container_text (drive_c ∷ []) [] (omega arith, tt)

transform_to_container-parse_path_map_example :
    Returns (transform_to_container host_text (parse_path_map (codes "C:/U:/c")) [])
transform_to_container-parse_path_map_example =
    transform_to_container-parse_path_map host_text (codes "C:/U:/c") []

parse_path_map-IsParsed_example :
    All IsParsed (parse_path_map (codes "C:/U:/c"))
    × (length (parse_path_map (codes "C:/U:/c")) ≤ max_mappings)
parse_path_map-IsParsed_example = parse_path_map-IsParsed (codes "C:/U:/c")

scan-match_host_stuck_example :
    scan 9 (λ t. done (match_host (no_target ∷ []) t)) (codes "\"a\"") ≡ timeout
scan-match_host_stuck_example = scan-match_host_stuck 9 no_target [] (codes "a\"") refl

apply_dir_map-Returns_example : Returns (apply_dir_map (codes "\"p/-D-x/s\"") (encoded ∷ []) false)
apply_dir_map-Returns_example = apply_dir_map-Returns (codes "\"p/-D-x/s\"") (encoded ∷ []) false

translate_path_segments-join_example :
    translate_path_segments (codes "/p/-D-x") (encoded ∷ []) ≡ done (codes "/p/D--x")
unfolding equal
translate_path_segments-join_example =
    translate_path_segments-join (encoded ∷ []) (codes "p" ∷ codes "-D-x" ∷ [])
      (((refl, refl), ((refl, refl), ((refl, refl), ((refl, refl), tt)))), tt)
      (((refl, refl), tt), (((refl, refl), ((refl, refl), ((refl, refl), ((refl, refl), tt)))), tt))
