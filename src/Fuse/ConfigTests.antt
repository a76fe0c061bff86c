-- ===== src/Fuse/ConfigTests.antt =====
-- Runs of the configuration parser, as in internal/fuse/config_test.go.
use ccbox.Common.{◌≡◌, refl, [], ◌∷◌, true, false, codes}
use ccbox.Fuse.Config.{parse_path_map, parse_extensions}

parse_drive :
    parse_path_map (codes " C:\\Users\\x\\:/ccbox ;; /mnt/d/G:/D/G")
    ≡ record {
      from = codes "C:/Users/x";
      to = codes "/ccbox";
      drive = b'c';
      is_unc = false;
      is_wsl = false;
    }
      ∷ record {
        from = codes "/mnt/d/G";
        to = codes "/D/G";
        drive = b'd';
        is_unc = false;
        is_wsl = true;
      }
      ∷ []
unfolding parse_path_map
parse_drive = refl

parse_exts : parse_extensions (codes "md, .txt") ≡ codes ".md" ∷ codes ".txt" ∷ []
unfolding parse_extensions
parse_exts = refl
