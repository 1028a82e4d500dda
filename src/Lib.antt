-- ===== src/Lib.antt =====
-- Verification of wp-packages, a Composer repository for the plugins and themes of WordPress.org.
-- A pipeline (cmd/wppackages) discovers packages and their changes (internal/wporg), writes them to
-- the packages table (internal/packages), and brings the files that Composer reads (internal/composer)
-- to an object store (internal/deploy); a web server (internal/http) shows the same table. The
-- libraries internal/version and internal/composer are used by both.
--
-- What models what:
--   Version (internal/version/normalize.go): Normalize, IsValid with its pattern, NormalizeVersions,
--     preferRawVersion, FilterNewerThan, Compare, IsStable, Latest. Regex is the matcher of patterns.
--   Limits/Login (internal/http/login_rate_limit.go): the limiter of login attempts as a state that
--     allow, record_failure and record_success change; the clock is an argument.
--   Packages (internal/packages/package.go): the rows of the packages table and the statements that
--     write them (UpsertPackage, UpsertShellPackage, their batches, DeactivatePackage,
--     MarkPermanentlyClosed, ReactivatePackage, MarkPackagesChanged, BackfillTrunkRevisions) or select
--     them (GetPackagesNeedingUpdate, GetDirtyPackages, GetDeactivatedDeployedPackages,
--     GetAllPackages). A table is a list of rows; Op is one write of it.
--   Composer (internal/composer/format.go) and Composer/Files (serialize.go): names, version entries
--     and the p2 files of a package.
--   Deploy/Bulk (internal/deploy/cleanup.go), Deploy/Sync (sync.go, and the retries of r2.go) and
--     Deploy/Local (local.go): the deletion of deactivated packages' files in bulk, the
--     synchronization of the object store, and promotion, rollback and cleanup of local builds.
--   Packages/Published (internal/packages/published_times.go): MergePublishedTimes,
--     ResetPublishedTimes and BackfillPublishedTimes.
--   Svn (internal/wporg/svn.go): Listing is parseSVNHTML, Log is parseSVNLog, Tags is TagChanges and
--     Paths what it reads of a path.
--   Discover (cmd/wppackages/cmd/discover.go): the scan of the changelog (markChangedFromSVNLog), which
--     composes Svn, Packages/Published and Packages; Batches is discoverFromSVN and
--     runBackfillRevisions.
--   Build (internal/repository/builder.go): Build, from the rows to a directory of files.
--   Changes (internal/http/changes.go, and persistMetadataChanges and the removal of old rows in
--     cmd/wppackages/cmd/build.go): the feed of what the builds changed.
--   Auth (internal/auth/user.go and session.go, handleLogin of internal/http/admin_auth.go): users,
--     sessions, and the login, which composes them with Limits/Login.
--   Negotiate (internal/http/negotiate/negotiate.go): Parse and Preferred.
--   Telemetry (internal/telemetry/ingest.go and aggregate.go): RecordInstall, LookupPackageID and
--     AggregateInstalls, a statement at a time, each of which may fail.
--   Base and Text are shared: lists, maps, texts, and the functions of Go's strings and strconv.
--
-- How the model stands to the code. Texts are lists of Unicode code points, a Go map with string keys
-- is an association list (a loop over the map follows the list), times are numbers of seconds, of
-- nanoseconds in Limits and of milliseconds in Changes, a nullable value is an option, and an error is a
-- missing result. A mutex makes a call one step; the goroutines of a synchronization and of a bulk
-- deletion run one after the other. Parameters stand for code outside the repository: the JSON codec,
-- fmt's decimals, CRC-32, MD5 and SHA-256, the object store's client, and whether a statement or a call
-- of the file system succeeds.
-- Fuel: the retries of a store call have the code's number of attempts; the scan of the changelog has
-- the current revision, since its cursor advances in every round; a round of the backfill of
-- revisions goes back by at least one revision, so that the revision it starts at is enough.
--
-- Not modelled: case folding beyond ASCII, JSON syntax and the order of an object's fields, the order
-- and LIMIT of the update query, errors of the database other than those named, cancellation and
-- waiting times; the HTTP handlers and templates, images, the blog, the clients of WordPress.org and
-- Packagist, configuration and migrations, which are I/O or glue; and, of the program's own logic, the
-- middleware of content negotiation, the rate limit of the API, closure reports and status checks.
pub mod Base
pub mod Text
pub mod Regex
pub mod Version
pub mod Limits
pub mod Packages
pub mod Composer
pub mod Deploy
pub mod Telemetry
pub mod Svn
pub mod Discover
pub mod Changes
pub mod Build
pub mod Negotiate
pub mod Auth
