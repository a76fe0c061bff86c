-- ===== src/Fuse/TransformTests.antt =====
-- Runs of the rewriters, as in internal/fuse/transform_test.go.
use ccbox.Common.{◌≡◌, refl, List, [], some, codes, done}
use ccbox.Fuse.Config.{PathMapping, parse_path_map}
use ccbox.Fuse.Transform.{transform_to_container, transform_to_host}

abbrev maps : List PathMapping
unfolding parse_path_map
maps = parse_path_map (codes "C:/Users/x/.claude:/ccbox/.claude;//srv/share:/share;/mnt/d/G:/D/G")

to_container_runs :
    transform_to_container
      (codes
        "{\"a\":\"c:\\\\Users\\\\x\\\\.claude\\\\p\",\"b\":\"\\\\\\\\srv\\\\share\\\\q\", /mnt/d/G/z}")
      maps
      []
    ≡ done (some (codes "{\"a\":\"/ccbox/.claude/p\",\"b\":\"/share/q\", /D/G/z}"))
unfolding transform_to_container parse_path_map
to_container_runs = refl

to_host_runs :
    transform_to_host (codes "{\"a\":\"/ccbox/.claude/p\"}") maps []
    ≡ done (some (codes "{\"a\":\"C:\\\\Users\\\\x\\\\.claude\\\\p\"}"))
unfolding transform_to_host parse_path_map
to_host_runs = refl
