-- ===== src/Lib.antt =====
-- A verification library for the backend of Honeygen (backend/internal), which generates decoy files
-- from a world model, stores them, serves them, and records who looks at them.
--
-- The parts and how they interact. The generation service runs a job: a worker asks a provider for each
-- entry of a manifest, writes the rendered file with the file store and records it with the asset
-- repository, while the job store keeps the state of the job. Deployments serve the directory of a job;
-- reported requests are stored as events that name the asset at their path.
--
--   Prelude, Text, Path      shared names, Go's package strings on code points, Go's package path
--   Json                     encoding/json as the backend uses it, on documents as trees
--   Storage                  storage/filesystem.go; Storage.Os is what the package os does to a disk
--   Database                 the rows and tables of db/migrations.go; Database.Table has the statements
--   Config                   config/config.go
--   WorldModels              worldmodels/types.go: the document; WorldModels.Payload is the validation of
--                            worldmodels/service.go, WorldModels.Catalog its operations, WorldModels.Rows
--                            worldmodels/repository.go
--   Jobs                     generation/jobs.go
--   Assets                   assets/repository.go; Assets.Tree is Tree
--   Deployments              deployments/repository.go and deployments/manager.go; Deployments.Api is
--                            api/deployments.go
--   Generation               generation/service.go; Generation.Launch is Run,
--                            Generation.Worker runJob, Generation.Answers and Generation.Requests the
--                            prompts and the cleaning of answers; Generation.Planner and
--                            Generation.Templates are generation/planner.go
--   Events                   events/service.go and events/repository.go
--   AssetApi                 api/assets.go; AssetApi.Upload is the upload of a file
--   Witnesses                the theorems at concrete inputs
--
-- How the code is represented. A method takes the state that it works on (a Disk, a Db, a World of
-- both, a Manager) and returns its result with the state that it leaves; Go's error results are
-- Result. Names are those of the source in lower case: (*JobStore).SetCompleted is
-- Jobs.set_completed. Texts are lists of code points. Numbers are natural numbers, and a negative
-- limit or offset acts as 0 does; a setting that may be negative is a signed ℤ. A context is live or
-- done, and a database answers or is down; neither changes inside one method, but for DeleteAsset,
-- Run, runJob and the upload of a file, where each call has its own context, and for Start, whose
-- context may end while a server is started. A call of the operating system may fail, and a write or
-- the removal of a directory that fails may have done a part of its work. The rows of a table are a
-- list, and a statement acts on it at once; transactions are one step. The JSON columns of jobs,
-- assets and events hold decoded values, that of a world model its text.
--
-- Bounds. listAllForTree runs on fuel, one round for each row that is asked for and one more, and the
-- theorem about it shows that this is enough. All other loops go down a list.
--
-- Parameters. The checksum, the provider, the renderer, the ids that are drawn, the enricher, LIKE,
-- the directories and ports of the host; the parsing and printing of JSON text and of numbers,
-- math/rand and sort.Slice, strings.ToLower, the tables of MIME types, html.UnescapeString, the
-- environment and the configuration file. Where a theorem needs what their documentation says, it is
-- a hypothesis with that name.
--
-- Not modelled: the other HTTP handlers and the wiring with the admin sessions, the protocol servers
-- with their telemetry, the sorting of the asset tree, schema upgrades, IP intelligence, rendering
-- and the front end. They are input and output, adapters of third-party packages, or not yet
-- translated.
pub mod Prelude
pub mod Text
pub mod Path
pub mod Json
pub mod Storage
pub mod Config
pub mod Database
pub mod WorldModels
pub mod Jobs
pub mod Assets
pub mod Deployments
pub mod Generation
pub mod Events
pub mod AssetApi
pub mod Witnesses
