-- ===== src/Lib.antt =====
-- Verification of HPK: the Kubernetes kubelet that runs pods as processes of a host (Go).
--
-- The kubelet (internal/provider) receives pods from Kubernetes, creates them (podhandler), and learns
-- of their progress from files that the processes write into the control directory of the pod. File
-- events (internal/compute/events) and a periodic reconciliation both load the saved pod, recompute its
-- status from the control files, save it and notify Kubernetes. Deletion reads the process ids from the
-- same files and signals the processes (internal/compute/runtime). The network daemons forward packets
-- between a TAP interface and a socket (internal/netutil).
--
-- Files, with the code that they model:
--   Base and children   what the code uses of Go's strings, strconv, path/filepath, sort and maps, on
--                       bytes; integers with their wrap-around
--   Endpoint            internal/compute/endpoint/paths.go: the paths of control files
--   Pod                 the parts of corev1.Pod that the code reads and writes, as records
--   Expansion           pkg/expansion/expand.go (Expand, tryReadVariableName, MappingFuncFor); Callers:
--                       pkg/container/helpers.go
--   JobId               internal/compute/runtime/idtype.go (FormatProcessJobID, ParseProcessJobID)
--   Netutil             internal/netutil/copy.go (ForwardTapToSocket, CopyFromSocketToTap,
--                       ActiveConnHolder)
--   Conditions          pkg/crdtools/pod-conditions.go, and PodError of internal/compute/errors.go
--   Containers          SyncContainerStatuses of internal/compute/podhandler/container.go, and the
--                       readers of podStatus.go
--   Classifier, Status  UpdateStatusFromRuntime and its Classifier, of
--                       internal/compute/podhandler/podStatus.go
--   Security            internal/compute/podhandler/securitycontext.go
--   Identity            internal/compute/runtime/cancel.go: isProcessDead, GetProcessStartTime and
--                       verifyProcessIdentity
--   Cancel              internal/compute/runtime/cancel.go (KillPodProcessesWithTimeout)
--   Processes           internal/compute/podhandler/podhandler.go: the resolution of process ids, and
--                       DeletePod
--   Provider            internal/provider/provider.go: ownership, UpdatePod, DeletePod, GetPods and
--                       reconcileNonTerminalPods
--   Events              processEvent of internal/compute/events/listener.go, and ParseControlFilePath
--                       of internal/compute/endpoint/paths.go
--   Queue               Push and Listen of internal/compute/events/listener.go, as a step relation
--   Services            internal/compute/podhandler/envvars.go: the variables of the services
--   Image               internal/compute/image/pull.go: ParseImageName, ResolveLocal, Pull (Concurrent:
--                       several goroutines, as a step relation), CleanupTempFiles, the progress reports
--   Pause               cmd/hpk-pause/main.go, the process that runs the containers of a pod. Tracker:
--                       the tracked processes; Lifecycle: main from its signal handler on, as a step
--                       relation; EnvFile: the environment file; Arguments, Execution: executeContainer
--                       and handleInitContainers; Dns, Preparation: prepareContainers
--   Creation            CreatePod of internal/compute/podhandler/podhandler.go with its steps in order;
--                       Building: buildContainer of container.go; Saving: SavePodToFile
--   Volumes             internal/compute/podhandler/volumes.go. Claims: PersistentVolumeClaimSource;
--                       Downward: DownwardAPIVolumeSource with CollectData of volume/downwardapi;
--                       HostPath: volume/hostpath; Payload: volume/configmap and volume/secret;
--                       Projections: collectData of volume/projected; Mounting: mountVolumeSource
-- The module of a component holds its definitions, in the order of the code; its children hold the
-- proofs, named for what they prove, and its Examples holds runs on concrete inputs.
--
-- State and surroundings. A function of the code is a function here; where the code changes an object
-- that it is given, the model returns the changed object. What the code gets from outside is an
-- argument: a file is a function from the attempt to the outcome of the read (Containers.Disk), the
-- operating system a record of its answers (Identity.Os), the time a number, a saved pod an Option
-- (the JSON behind it is left out). The host of a creation, of a pull and of the pause process is a
-- record that has one field for each answer (Creation.Host, Image.Surroundings, Pause.Execution.Host).
-- What the code does to the outside is part of the result: signals and pauses (Cancel.Effect), packets
-- (Netutil.Effect), steps of a deletion (Processes.DeleteStep), the pod that is notified. Log lines
-- are left out. An error is a constructor of the result.
--
-- Loop bounds. Expand has one round more than there are bytes, since each round moves the cursor on; the
-- copy loop has one more than there are bytes, since each round takes the four bytes of a length; a
-- polling loop has one round for each 50 ms of its deadline, and two more. In each case a theorem shows
-- that the bound is not met. The attempts of retry.OnError, which is an argument, are numbered; that there
-- are at most ten, or four, is a hypothesis on it (Volumes.Retries) that a function of Volumes.Examples
-- satisfies.
--
-- Two components meet at a file: hpk-pause writes the exit code of a container (Pause.Execution), and the
-- kubelet reads it (Containers). Pause.Handover composes the two. The mounts are computed both by the
-- kubelet (Creation.Building) and by hpk-pause (Pause.Arguments).
--
-- mountVolumeSource (Volumes.Mounting) is what gives the answers on which the creation of a pod depends;
-- the two are not composed.
--
-- Not modelled: the retries of projected volumes, the evaluation of the script templates, the request
-- of hpk-pause for its pod, the set-up of namespaces by cmd/hpktainer and cmd/hpk-net-daemon, the
-- calls of the CNI plugins, the parsing of flags, and the copies of code of other projects (the atomic
-- writer, the volume helpers, the field paths, the log reader, the file poller). Text is bytes; white
-- space and letters are ASCII. Setenv and Unsetenv do not fail for the names that the code passes, nor
-- does the removal of a temporary file. A grace period so long that its duration overflows 63 bits is
-- outside the model of DeletePod.
pub mod Base
pub mod Endpoint
pub mod Pod
pub mod Expansion
pub mod JobId
pub mod Netutil
pub mod Conditions
pub mod Containers
pub mod Classifier
pub mod Status
pub mod Security
pub mod Identity
pub mod Cancel
pub mod Processes
pub mod Provider
pub mod Events
pub mod Queue
pub mod Volumes
pub mod Services
pub mod Image
pub mod Pause
pub mod Creation
