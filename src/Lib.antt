-- ===== src/Lib.antt =====
-- A verification library for the RBLN container toolkit, which makes Rebellions NPUs usable in
-- containers: it discovers libraries, tools and device nodes on a host, generates CDI specs from
-- them (Container Device Interface, read by containerd, CRI-O and Docker), and keeps the specs up
-- to date with a daemon.
--
-- How the parts interact. The discoverers give a `DiscoveryResult`. The generator
-- (internal/cdi/generator.go) makes of it, the configuration (internal/config) and the topology
-- (internal/topology) the NPU spec and the RDS spec. In a container the hook updates the linker's
-- cache (internal/ldconfig). The installer (internal/installer) configures a runtime, writes the
-- specs and restarts the runtime (internal/restart), under a PID lock. The daemon
-- (internal/daemon) takes a PID lock, serves its health, and runs the watcher, which polls the
-- fingerprints of the driver's libraries (internal/discover/umdfingerprint.go) and regenerates
-- the specs when they change. The command rbln-ctk-daemon (cmd/rbln-ctk-daemon) puts these together: it
-- takes the lock, installs the hook, generates the specs, configures and restarts a runtime that is not
-- ready, runs the daemon, and removes the specs at the end.
--
-- The files, each under the source it models:
--   Daemon/State       internal/daemon/state.go: `TransitionTo`, `CanTransitionTo`, `IsTerminal`; the
--                      state of the machine is a `State`. Runs of calls in State/Runs.
--   Daemon/Watcher     internal/daemon/watcher.go: `NewWatcher`, `baseline`, `tick`, `Run` (`loop`),
--                      `Status`; the record `Watcher` holds the fields of the struct and the calls
--                      of the status hook. Watcher/Diff on `versionsDiffer`, Watcher/Applied and
--                      Watcher/Run on runs.
--   Daemon/Health      internal/daemon/health.go: the setters and the three handlers. Health/Answers.
--   Daemon/Config      internal/daemon/config.go: defaults and `Validate`. Config/Validation.
--   Daemon/PidLock     internal/daemon/daemon.go (`acquirePIDLock`, `releasePIDLock`) and
--                      internal/installer/lock.go: a step relation between the system calls of
--                      competing processes. PidLock/Exclusion.
--   Daemon/Lifecycle   internal/daemon/daemon.go: `Run`, its signal handler, `doCleanup`, `setState`;
--                      the threads are lists of actions on one `Daemon`. Lifecycle/Fields follows
--                      single fields through the actions, Lifecycle/Shutdown is about whole runs whose
--                      signal comes behind the startup,
--                      Lifecycle/EarlySignal about the interleavings of the two threads.
--   Config             internal/config/types.go and defaults.go; Config/Loader is loader.go and
--                      options.go (Priority).
--   Discover           internal/discover/types.go; Discover/SoLink is `GetSoLink` of soname.go.
--                      Discover/BuildId and Discover/Fingerprint are umdfingerprint.go: the parser of
--                      the build-id notes over bytes (Safety, Encoding, RoundTrip), and the probe, over a record
--                      `Files` for the file system (Snapshot). Discover/Libraries is library.go
--                      (Dependencies), Discover/Nodes device.go and tool.go (Listing), both over a
--                      record HostFiles for the host and the ELF reader; Discover/Roots maps the
--                      paths between the searched root, the host and a container, and
--                      Discover/FirstWins is the loop with a map of what was seen;
--                      Discover/Elf is elf.go, the search for the dependencies of a library (Scan on one
--                      file, Ends on the loop, Reached on its result);
--                      Discover/Distribution is paths.go, with `strings.ToLower` as a parameter.
--   Topology           internal/topology/resolver.go: the resolvers without the native library.
--   Cdi                internal/cdi/generator.go: Cdi/Spec the types it fills in, Cdi/Device the
--                      classes and numbers of devices, Cdi/Entries the device entries, Cdi/Edits the
--                      common edits, Cdi/Fold `foldCommonEditsIntoEmptyDevices`, Cdi/Generator
--                      `Generate` and `GenerateRDS`; the theorems in the modules below them.
--                      Cdi/Writer is writer.go, as the calls made on the temporary file (Watched,
--                      Atomic and Outcome on what they leave); Cdi/Validator is validator.go (Names,
--                      Generated); Cdi/Setup is internal/cdi/setup: discovery and generation, and in
--                      Emission the writing of both specs (Parts, Published).
--   Runtime            internal/runtime. Runtime/Disk the files and the calls on them, with errors by
--                      path; Runtime/Document the trees that TOML and JSON are decoded into;
--                      Runtime/SpecDir `containsCleanPath`; Runtime/Backup `backupFile`, its return and
--                      the write of a new configuration (Copies, Written, Restored);
--                      Runtime/Containerd configure.go and containerd_config.go (Enable and
--                      Untouched on the document, Configured, Ready and Restore on runs); Runtime/Crio configure.go and
--                      crio_config.go (Precedence, DropIn); Runtime/Docker configure.go (Enable, Ready);
--                      Runtime/Configurator the choice by runtime (Ready); Runtime/Detect detect.go
--                      and `DetectRuntimeWithOptions`; Runtime/Version version.go.
--   Restart            internal/restart: modes, defaults, restarters and the retry loop. Retries.
--   Installer          internal/installer/setup.go and cleanup.go: `Setup` and `Cleanup` give the
--                      steps taken on a `Site`. Steps on their order and results, Plans on the paths and
--                      modes.
--   Ldconfig           internal/ldconfig/ldconfig.go: the runner and its arguments (Arguments), and
--                      the file that it writes (Directories).
--   Hook               internal/oci/state.go; Hook/Symlinks is cmd/rbln-cdi-hook/create_symlinks.go
--                      (Folders on the directories made, Created) over a tree of nodes by path, and Hook/LdCache update_ldcache.go.
--   Command            cmd. Command/Paths the paths of the daemon in cmd/rbln-ctk-daemon/root.go
--                      (Watched), Command/Setup `setup` and `doCleanup` (Again) and Command/Daemon
--                      `runDaemon` (Ended, Removed), over a `Machine` with three stores, one for the specs, one for
--                      the files of the runtime, one for the binaries, since they are different
--                      directories; Command/Flags the options of the `runtime` commands in runtime.go,
--                      docker.go, containerd.go and crio.go; Command/Configure
--                      `executeRuntimeConfigure` of cmd/rbln-ctk/runtime.go (Consent).
--   Prelude            the numbers, texts, lists, maps and sorting that the parts share.
--   Tests              the theorems applied to concrete inputs.
--
-- Conventions. A Go map is an association list with one entry for each key (`Dict`). An error is
-- an Option of its text, or `none` for success; a value or an error is a `Result`. The TOML, JSON
-- and YAML codecs are parameters; where a theorem needs a round trip, it is the hypothesis `IsToml`
-- or `IsJson`, which is by value, as go-toml and encoding/json promise it. What Go reads
-- from outside (files, clock, callbacks, the prober) is an argument: `Observation`, `Host`. Go's
-- `int` and `time.Duration` are `ℤ` where they are only compared. Loops are structural recursion
-- on the list that they walk; `GetSoLink` has the length of the name as fuel, since each turn
-- shortens it by at least one character, and the parser of the build-id notes has the length of
-- its data and one, since each turn takes at least twelve bytes. The retry loop of a restart
-- counts down the attempts left. The search for dependencies has as many turns as there are files that a
-- needed name can be found at, and one: each file enters its queue at most once. A number of `w` bits keeps its wrap-around (`% 2 ^ w`).
--
-- Not modelled: log lines; the HTTP server and the JSON and YAML encodings; the native librbln-ml
-- bindings (third_party/go-rbln-ml) and `LoadOrFallback` around them; the parser of the ldd command's
-- output and the reader of the linker's cache; cobra and viper, so that the values of the flags are arguments, and
-- the commands `cdi` and `info`, which call the loader, the generator and the output formatter in a row; the output
-- formatter; `--force`, which signals another process, and the errors of the file system while the PID
-- lock is taken. What a watcher or a cleanup does to the specs beyond the shutdown timeout is an argument, a
-- list of events in any order. A path in a container is a text: links among the directories above it are not followed.
pub mod Prelude
pub mod Daemon
pub mod Config
pub mod Discover
pub mod Topology
pub mod Restart
pub mod Hook
pub mod Command
pub mod Runtime
pub mod Installer
pub mod Ldconfig
pub mod Cdi
pub mod Tests
