-- ===== src/Lib.antt =====
-- deb-s3-go keeps an APT repository in an object store. This library models its core and proves
-- what keeps a repository intact.
--
-- The parts of the program, and the files that model them:
--
--   Base               Go's strings (lists of bytes), errors, maps, path.Clean, path.Join, path.Base
--                      and path.Dir, strconv; Base/Paths/ has the laws of cleaned paths, Base/Runes
--                      reads and writes the runes of UTF-8.
--   Storage/Keys       internal/storage/store.go: JoinKey, normalizePrefix, logicalKey.
--   Storage/Objects    the same file: options, object infos, and the Store interface as a record of
--                      operations on a state. An operation gives a result and the state it leaves,
--                      also when it fails.
--   Storage/Memory     internal/storage/memory.go: Get, Head, Put, Delete, DeleteIfMatch, Copy, List.
--                      Contents is the abstract view, a partial map from physical keys to contents.
--   Storage/Service    the s3API interface of internal/storage/s3.go: requests and answers.
--   Storage/S3         internal/storage/s3.go: Get, Head, Put, Delete, DeleteIfMatch, Copy, List.
--   Storage/Stages     runs that read first and change what is stored in one last stage.
--   Storage/Events     a store that keeps a log of the changes it is asked for, with their contents
--                      and options, and of those it refuses; it wraps any store.
--   Storage/Contexts   a store used by a command whose context may be cancelled, and the same store
--                      under context.WithoutCancel.
--   Apt/Control        internal/apt/control.go: paragraphs, their index, and ParseParagraph.
--   Apt/Fields         internal/apt/package_render.go: writeField and its helpers.
--   Apt/Dependency     internal/apt/dependency.go: ParseDependencies, normalizeDependency.
--   Apt/Package        internal/apt/package.go: ParsePackage, FullVersion, RepositoryFilename.
--   Apt/Rendering      internal/apt/package_render.go: Render.
--   Apt/Manifest       internal/apt/manifest.go: Add, DeletePackage, ParsePackages, Render.
--   Apt/Publishing     internal/apt/manifest_publish.go and manifest_retrieve.go.
--   Apt/Release        internal/apt/release.go, and MissingManifests.
--   Apt/Release/Publish  internal/apt/release_publish.go, metadata_publish.go, release_retrieve.go.
--   Lock               internal/lock/lock.go: Acquire, Current, Release.
--   Maintenance        internal/maintenance/maintenance.go: Verify, Clean.
--   Deb/Ar             internal/deb/ar.go: Next, over the bytes of a file.
--   Deb/Reader         internal/deb/reader.go: ReadPackage, ReadPackageFile.
--   Signing            internal/signing/gpg.go: ParseOptions, Sign.
--   Config             internal/config/config.go: Validate, ValidateArchitecture.
--   Cli                internal/cli/commands.go and flags.go: withRepositoryLock, and the options
--                      that flags turn into. Cli/Output has the checks before a command, what list
--                      prints and the exit code; Cli/Commands has the eight commands.
--   Manage             internal/manage/manage.go: Copy, Delete.
--   Upload             internal/upload/upload.go: ExpandFiles, Upload.
--   Query              internal/query/query.go: List, Show, Exists.
--   Examples           concrete inputs at which the theorems are applied.
--
-- How they interact: commands retrieve a release and its manifests through a Store, change them as
-- values, and publish them in stages. The functions that do so take the Store as a parameter, so
-- that one definition runs on the in-memory store and on its traced version. The lock is one object
-- of the store, created only if absent and deleted only with its ETag.
--
-- State and time: a Go pointer that a function changes is a value that it returns. Each operation
-- of the in-memory store holds its mutex and is one step; what others do between two requests of
-- Acquire or Release is a function in the model. The loop of Acquire runs on fuel, which a bound
-- on the attempts gives: one round for each attempt and one that ends it. The loop over the pages
-- of an S3 listing runs on fuel, one round for each page; the loop over the members of an ar
-- archive on the length of the file, since each call of Next takes a header from it
-- (Deb/Ar/Finite). The other loops are recursion on their list. Numbers are natural numbers;
-- counts and durations of the lock are 64-bit words with their wrap-around.
--
-- From outside come, as parameters: digests, gzip, local files, the signer, the JSON coder, random
-- tokens and user names, the clock, and the errors of a context. Strings of error messages have no
-- formatted values. Text is ASCII where the code asks for letters, digits or white space, but for
-- the gpg options, which are runes. The paths of local files are Unix paths. Callbacks that only
-- report progress are left out.
--
-- Not modelled: the declaration of commands and flags over cobra, what commands print besides the
-- output of list and show, and the making of the SDK client. Decompression, tar, gpg, globbing and
-- the S3 service are parameters.
pub mod Base
pub mod Storage
pub mod Apt
pub mod Lock
pub mod Maintenance
pub mod Query
pub mod Manage
pub mod Upload
pub mod Deb
pub mod Signing
pub mod Config
pub mod Cli
pub mod Examples
