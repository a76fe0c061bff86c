-- ===== src/Lib.antt =====
-- ccbox runs Claude Code in a container. It prepares an image for a language stack, builds the
-- arguments of `docker run`, and mounts the user's configuration through a FUSE file system that
-- rewrites host paths in JSON files to container paths when they are read and back when they are
-- written. A terminal interface, the bridge, shows the containers that run.
--
-- Parts, files and the code they model. Operations keep the code's names in snake case.
--   Common                tests, lists, byte strings and the results of loops
--   Fuse.Config           internal/fuse/config.go: PathMapping, DirMapping, Config, parsePathMap,
--                         parseDirMap, parseExtensions; Fuse.Config.Load: ParseConfig, NeedsTransform
--   Fuse.Scan             the loop of the rewriters, one position at a time
--   Fuse.Transform        internal/fuse/transform.go: TransformToContainer, TransformToHost
--   Fuse.DirMap           internal/fuse/dirmap.go: ApplyDirMap
--   Fuse.PathUtil         internal/fuse/pathutil.go: GetSourcePath, translatePathSegments
--   Fuse.Cache            internal/fuse/cache.go: ReadCache, SkipCache, NegCache
--   Fuse.QuickScan        internal/fuse/quickscan.go: QuickScanHasMappings
--   Fuse.Node             internal/fuse/node.go: Kernel has the system calls as a parameter and the
--                         calls as actions on the world and the caches; Handle has the calls on open
--                         files, Tree those that look, Change those that change nodes; History runs
--                         them one after the other
--   Detect                internal/detect/detector.go: Patterns and Defs have the tables and what a
--                         directory answers (`Directory`, a parameter), Project has DetectProjectType
--   Stacks                internal/config/stacks.go: the stacks, their parents and search
--   Images                internal/run/phases.go: ensureImages, pullImage, buildImage, over the
--                         Docker SDK (`Daemon`, a parameter), and the FROM lines of
--                         internal/generate/dockerfile.go
--   Paths                 internal/paths/paths.go: the conversion of host paths
--   Run                   internal/run/args.go, env.go, mounts.go: BuildDockerRunConfig over what the
--                         host answers (`Host`, a parameter); internal/platform/platform.go;
--                         Run.Naming: GetContainerName of internal/config/config.go
--   Pipeline              internal/run/phases.go: Execute, DetectAndReportStack, executeContainer, over
--                         `Machine`, which joins the parameters above with the start of the docker
--                         program; ValidateProjectPath of internal/paths/paths.go
--   Cli                   internal/config/file.go (Config) and internal/cli/run.go (Flags): what a
--                         command line and the configuration files ask for; the parsing by pflag and
--                         the reading of a file are parameters
--   Bridge                internal/bridge/model.go, update.go: BridgeModel and Update
--
-- How they meet. Run resolves the project's path with Paths, names the image as Images does, and
-- passes the mappings to the container in CCBOX_PATH_MAP and CCBOX_DIR_MAP, which Fuse.Config reads.
-- Fuse.Transform rewrites under those mappings and ends with Fuse.DirMap. A read of Fuse.Node asks
-- the skip cache, the read cache and the quick scan before it rewrites, and a write takes its path
-- out of both caches before it rewrites for the host; Fuse.PathUtil gives the path behind each node.
-- Detect recommends a stack of Stacks, and Images follows its parents. Pipeline joins Detect, Images
-- and Run, and Cli makes its options. The bridge stands alone: its commands are data here.
--
-- Texts are lists of bytes, and a position in a buffer is the list of the bytes from there on. Code
-- that can panic or loop has the result `Outcome`. The loops of the rewriters run on as much fuel as
-- the buffer has bytes, since every round reads at least one; the loop that collapses slashes has as
-- much as the path has bytes, since every round drops one. The sequence number of the read cache
-- wraps at 64 bits. Regular expressions are written out as the tests that they make. A method under a
-- mutex is one step. The indices of the arrays that are filled in turn are natural numbers.
--
-- Not modelled: the mount, statfs and the tracer of the file system (NewCcboxFS and Statfs of
-- internal/fuse/node.go, internal/fuse/trace.go, cmd/ccbox-fuse), which hand data on; the
-- dependencies (internal/detect/deps.go), the Docker SDK (internal/docker), the texts of the build
-- files (internal/generate), the other commands of internal/cli, and output, voice, clipboard, git
-- and upgrade, which call other programs.
pub mod Common
pub mod Fuse
pub mod Detect
pub mod Stacks
pub mod Images
pub mod Paths
pub mod Run
pub mod Pipeline
pub mod Cli
pub mod Bridge
