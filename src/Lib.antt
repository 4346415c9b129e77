-- ===== src/Lib.antt =====
-- The control plane of DSX: deploy/cloudflare, a Cloudflare worker over a D1 database, which places
-- tenants on nodes, hands operations to the agents of the nodes, and records what they report.
--
-- Parts. An administrator creates tenants and provisioning jobs (src/provisioning.ts), which are
-- placed on a node at once; requests trials (src/trials.ts); retries failed jobs
-- (src/provisioningRetry.ts); and requests clean-ups (src/cleanup.ts). The agent of a node claims
-- work under a lease and reports on it (src/nodeOperations.ts, src/cleanupOperations.ts). A
-- scheduled run expires trials and queues their clean-ups (src/trialExpiration.ts), which agents
-- claim and report likewise (src/trialCleanupOperations.ts) and an administrator retries
-- (src/trialCleanupAdmin.ts). A trial is converted into a production tenant in three requests:
-- it is asked for and approved (src/trialConversion.ts), which queues a provisioning job, and placed
-- on a node (src/productionPlacement.ts); a scheduled run makes conversions follow their jobs
-- (src/trialConversionReconcile.ts). A ready test environment is backed up (src/backups.ts): its
-- agent prepares three files (src/backupOperations.ts), uploads them and has them verified
-- (src/backupUploadOperations.ts). The routes meet only in the database.
--
-- Files, with paths under deploy/cloudflare:
--   Base, Text, Json, Time, Table    shared data: results that end early, UTF-16 text and the
--                                    patterns, JSON values, times and settings, rows by key,
--                                    ORDER BY and LIMIT
--   Db                               the tables and the words of their CHECKs (migrations/*.sql)
--   Http                             readJson, bearerToken, isAdmin, authenticateNode, json
--   Provisioning/Machine             TRANSITIONS, canTransitionProvisioningState, retryMode
--   Provisioning/Inputs, Tenants,    parseTenantInput, parseProvisioningJobInput, createTenant,
--     Jobs, Placement                listTenants, createProvisioningJob, listProvisioningJobs,
--                                    getProvisioningJob, selectPlacementNode
--   Provisioning/Retry               handleProvisioningRetryRoute
--   Provisioning/DatabaseName,       expectedDatabaseName, buildProvisionOperationPayload,
--     Results                        parseOperationResult
--   Provisioning/Operations          markExpiredLeases, claimNextOperation, reportOperationResult
--   Provisioning/Effects, Protocol,  proofs: what the batches leave, the steps of the protocol,
--     Replay, Reports, Claimed,      requests sent twice, accepted reports, claims and retries,
--     Names                          database names
--   Cleanup/Jobs                     cleanup.ts
--   Cleanup/Operations, Report       cleanupOperations.ts
--   Cleanup/Effects, Protocol,       proofs: what the batches leave, the steps of the protocol,
--     Requests, Outcomes             accepted requests, claims and reports
--   Trials/Inputs, Hostname,         parseTrialRequestInput, trialHostname, createTrial,
--     Requests                       listTrials
--   Trials/Expiration, Reconciling,  trialExpiration.ts, and proofs about a run and about a
--     Replay                         request sent twice
--   Trials/Cleanup                   trialCleanupOperations.ts, trialCleanupAdmin.ts
--   Conversions/Slug, Inputs         productionSlugForConversion, the parsers of requests, approvals
--                                    and placements
--   Conversions/Requests, Approval,  listConversions, createConversion,
--     Placement, Reconcile           approveCleanProductionConversion, placeProduction,
--                                    trialConversionReconcile.ts
--   Conversions/Slugs, Effects,      proofs: slugs, what the batches leave, approvals and placements
--     Approved, Placed, Replay,      that are made, requests sent twice, routes that leave
--     Untouched, Protocol,           conversions alone, the steps of the protocol, rounds of the
--     Agreement, Mirror              reconciliation
--   Backups/Jobs                     backups.ts
--   Backups/Results, Operations,     backupOperations.ts
--     Report
--   Backups/Uploads                  backupUploadOperations.ts
--   Backups/Created, Replay,         proofs: requests and reports sent twice, what a prepared report
--     Protocol                       contains, what the batches leave of a backup and of its artifacts, the
--                                    steps of the protocol
--   Tests                            concrete inputs
--
-- State. `Db` is a record of tables, each a list of rows. A handler takes the database and returns a
-- response and the database after it. The statements of `env.DB.batch` are one update, `none` where
-- a constraint is violated, which is answered by 500 and rolled back; statements outside a batch are
-- updates of their own. An early return is `err` in `Result`. The ids and secrets that the platform
-- draws, and the time, are arguments of a handler; one instant serves the whole request. SHA-256 and
-- JSON.parse are fields of `Env`.
--
-- Numbers. Times are milliseconds, whose order is that of the ISO texts in the tables. A setting is
-- unset, a whole number, minus infinity, or NaN or infinity; a fraction of a second of
-- NODE_OFFLINE_SECONDS is not kept. Numbers in JSON are natural; placement compares ratios crosswise
-- and capacities in bytes, which is what doubles do below 2^53. Loops run over lists that a query
-- returned, so that no fuel is needed.
--
-- Text. A text is a list of UTF-16 units. toLowerCase is exact where the lower case is ASCII, and
-- localeCompare on ids is the order of code units.
--
-- Not modelled: the ids of event rows; foreign keys, which hold for rows that were just read; checks
-- on the length of payloads and error codes; the matching of URL paths; the listing of templates;
-- the parts of the worker that are not named above (restores, enrolment, alerts); the web application
-- and the node agent.
pub mod Backups
pub mod Base
pub mod Cleanup
pub mod Conversions
pub mod Db
pub mod Http
pub mod Json
pub mod Provisioning
pub mod Table
pub mod Tests
pub mod Text
pub mod Time
pub mod Trials
