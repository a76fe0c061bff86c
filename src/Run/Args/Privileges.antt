-- ===== src/Run/Args/Privileges.antt =====
-- The privileges of the container.
use ccbox.Run.Host.{Host}
use ccbox.Run.Args.Lacks.{Lacks}
