-- ===== src/Lib.antt =====
-- The two controllers of the AITrigram operator, for model repositories and for inference engines, with
-- the storage, workload and configuration code below them.
--
-- A ModelRepository names a model and the storage for it. Its controller picks a storage class, creates
-- a claim, records in the status what volume the claim was bound to, and runs one download job for
-- every revision. An LLMEngine serves models: once every repository that it refers to is ready, its
-- controller looks for GPUs, makes a read-only copy of each repository's volume with a claim in the
-- engine's namespace, and applies for each model a deployment and a service, for vLLM also a config map.
-- It records on each repository which engines refer to it; a repository that an engine refers to is not
-- deleted.
--
-- The files, and the code they are about (paths from the repository's root):
--   Api, Api/Repository, Api/Engine: the custom resources, api/v1/modelrepository_types.go and
--     api/v1/llmengine_types.go, with the fields that the modelled code reads or writes. Api/Decode:
--     UnmarshalJSON of a reference. Api/Sample: resources for the tests.
--   Names/Hash: hashString of internal/controller/modelrepository_controller.go.
--   Names/Truncated: TruncatedName of internal/controller/storage/llmengine_storage.go with its callers,
--     ComponentName of internal/controller/adapters/llmengine_utils.go, and the name by which
--     internal/controller/llmengine_controller.go reads a deployment.
--   Names/Jobs, Names/Jobs/Prefix, Names/Collisions: generateJobName of
--     internal/controller/modelrepository_controller.go.
--   Storage/Discovery: internal/controller/storage/discovery.go. Storage/Discovery/Choice: which class
--     is chosen.
--   Storage/Backend: extractBackendFromPV and extractNodeNameFromPV of
--     internal/controller/storage/storage_sc.go. Storage/Node:
--     internal/controller/storage/storage_utils.go.
--   Storage/ReadOnly and the modules below it: buildReadOnlyPVSpec of
--     internal/controller/storage/llmengine_storage.go, and it after extractBackendFromPV.
--   Provider, Provider/Claims, Provider/Status, Provider/Status/Pinned, Provider/Readiness:
--     StorageClassProvider of internal/controller/storage/storage_sc.go, and
--     internal/controller/storage/provider.go.
--   JobAdapter: internal/controller/component/job_adapters.go and job_component.go.
--   Cluster: the API server. An action (M) reads answers from an environment and lengthens the history
--     of calls; an answer may depend on the whole history, and nothing is assumed of it. Cluster/Issues:
--     which calls an action may issue. Cluster/Objects, Cluster/Workloads: the built-in kinds of
--     objects. Cluster/Sample: an empty cluster, for the tests.
--   Library: the functions of other modules that the code calls, as a record of parameters, with their
--     documented behaviour as hypotheses. Library/Sample: an instance of it, for the tests.
--   RepositoryController: internal/controller/modelrepository_controller.go. Status: syncStatus,
--     setCondition, deriveModelRepoPhase, updateRevisionStatus. Revisions, Revisions/Loop:
--     reconcileRevisions, reconcileRevision, createDownloadJob, handleJobStatus, updateOverallPhase.
--     Deletion: handleDeletion. Reconcile: Reconcile, reconcileStorage, updateStorageStatus. The modules
--     named Keeps, here and below Provider, are about the calls that leave the claims alone.
--   VllmConfig: BuildVLLMConfig, ConvertArgsToVLLMConfig, createNestedMap and recursiveMerge of
--     internal/controller/adapters/llmengine_utils.go.
--   EngineAdapters, EngineAdapters/Environment: the other functions of
--     internal/controller/adapters/llmengine_utils.go. Deployments, Services: AdaptDeployment,
--     AdaptService and AdaptVLLMConfigMap of internal/controller/adapters/llmengine_deployment_adapter.go,
--     llmengine_service_adapter.go and llmengine_configmap_adapter.go.
--   EngineStorage: EnsureLLMEngineStorage and CleanupLLMEngineStorage of
--     internal/controller/storage/llmengine_storage.go.
--   EngineWorkload: the component of an engine and a model, its builder and NewModelComponent
--     (internal/controller/component/builder.go, internal/controller/adapters/llmengine_component.go).
--     Reconcile: internal/controller/component/workload.go. Reconcile/Plan: the same as a list of
--     manifests that are applied in order, which is its abstract view. Reconcile/Builds,
--     Reconcile/Model: from what the manifests are built, and a run of them.
--   EngineController: internal/controller/llmengine_controller.go. Status: syncStatus, setNotReady,
--     deriveLLMEnginePhase. Gpu: validateGPUAvailability. References: updateReferencedEngines,
--     modelRepositoryToLLMEngine. Deletion: handleDeletion. Loops: fetchModelRepositories and the loops
--     of Reconcile over the repositories. Reconcile: Reconcile.
--   Base: lists, byte strings, maps, Boolean tests and results.
--
-- Names are byte strings, since Go's slices and len count bytes. A slice that is out of range is `none`,
-- a panic. A hash is a number below 2 ^ 32, and the eight steps by which it is printed in hexadecimal
-- are enough for it; twenty steps print a number in decimal, enough for every 64-bit one. A map is an
-- association list with unique keys; where Go iterates over one, the order is that of the list. A set of
-- names that is sorted afterwards is kept sorted. Provisioners are compared in lower case as ASCII. A
-- volume has exactly one source, as the API server demands. A loop over a list is structural recursion.
-- The template of a deployment has one container with one port, as the embedded ones have; an amount of
-- an extended resource is a whole number, and a count of GPUs a natural one, as the schema of an
-- engine sets its minimum to one. ParseFloat, json.Unmarshal and yaml.Marshal are parameters.
--
-- Not modelled: logging, the manager's set-up and cmd/main.go, the embedded manifests and scripts (a
-- parameter), generated code, the texts of errors inside a condition's message, the pointer identity of
-- a repository beyond the revision status that the loop writes through, and the
-- helpers of the end-to-end tests.
pub mod Base
pub mod Api
pub mod Names
pub mod Storage
pub mod Cluster
pub mod Library
pub mod Provider
pub mod JobAdapter
pub mod RepositoryController
pub mod EngineAdapters
pub mod VllmConfig
pub mod EngineStorage
pub mod EngineWorkload
pub mod EngineController
