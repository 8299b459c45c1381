-- ===== src/Lib.antt =====
-- K8s Panel, a web panel for Kubernetes clusters: its state store, the guards around it, and its
-- tests on requests, as functional programs with their theorems.
--
-- The parts and how they interact. A handler of internal/httpapi checks the session of the
-- administrator (internal/auth), counts failures to sign in, and calls the service of
-- internal/platform. The service tests the request (internal/domain), reads and changes the store of
-- clusters, repositories, operations and audit events (internal/store), and reaches a cluster
-- through a gateway that it caches; a governor bounds how much runs at a time.
--
--   Base        lists, options, texts, Go maps and integers that the other files share. A Go string
--               is the list of its code points, its length in bytes that of its UTF-8 encoding.
--   Domain      internal/domain/models.go and errors.go: the stored records, the sentinel errors,
--               `Result` for a value or an error, `Failure` for an error that may be nil. A time is
--               a number, 0 the zero time.
--   Store       internal/store/file.go. Items: the loops over slices. History: trimOperationHistory,
--               trimAuditHistory, limitSlice. Changes: the next state that each writing method
--               computes (CreateCluster, ..., TransitionOperation). Disk: persist as the sequence
--               of its system calls, of which any may fail. File: commit, and a method as one step
--               from memory and disk to memory and disk. Open: Open and its reconciliations.
--               Listing: the lists that are shown, newest first.
--   Governor    internal/resourceguard/governor.go: New, Snapshot, TryAcquire, the release, and
--               Acquire as a list of its rounds. The operations on float64 are a parameter, with
--               what is used of them as a law.
--   Sessions    internal/auth/session.go: NewSessionManager, Login, Authenticate, Logout. SHA-256,
--               the random token and the verifier of passwords are parameters.
--   Limiter     internal/httpapi/rate_limit.go: the limiter of failures to sign in.
--   Cache       internal/platform/gateway_cache.go: Get in two steps, since it gives up its lock
--               while it builds, and as a whole, a list of the rounds of its loop; then Invalidate,
--               Reconcile and Close. A gateway is a number, and each operation returns the gateways
--               that it retires.
--   Names       internal/domain/validation.go: the regular expressions, written as tests on code
--   Validation  points, and the tests on names and requests, which give the first error or none.
--               Access: access resources and reviews. Origins: clusters and repositories, with
--               url.ParseRequestURI as a parameter.
--   Versions    internal/kubernetes/version_skew.go: the parser of versions, the classification of
--               a node by its distance from the server.
--   Operations  internal/platform/operations.go: executeOperation and CancelOperation on the store,
--               with what other goroutines do between two of their calls as an argument;
--               operationErrorCode; Submissions: createAndEnqueueOperation and the queue.
--   Platform    internal/platform/service.go. A panel is the governor of reads, the cache and the
--               store. Reads: the 52 methods that read a cluster (Summary, Nodes, ...), a query for
--               each call of a gateway, and Serve as a dispatch on the query. Clusters: CreateCluster,
--               testClusterConnection, RotateClusterCredentials, SetClusterEnabled, DeleteCluster;
--               what others do to the panel between two calls of a method is an argument, and so
--               are the cipher and the answers of the cluster. Watched: Secrets,
--               PodLogs and ReviewServiceAccountAccess, which are audited, and ClusterCapabilities.
--               Locks: the locks of targets, which others see while credentials are rotated. Repositories: the methods of repositories.go, the check of a
--               repository being an argument.
--   Kubernetes  internal/kubernetes: the lists that are read page by page (priority_class.go,
--               runtime_class.go, csi_driver.go, certificate_signing_request.go), and the metadata
--               of their items. HTTP and encoding/json are parameters.
--   Outbound    internal/outbound/policy.go: the policy on addresses, and what DialContext dials. The
--               packages net, net/netip and net/url, the resolver and the dialer are parameters.
--   Secure      internal/secure/cipher.go: SealString and OpenString. AES-GCM, base64 and the random
--               source are parameters, with the laws of their packages.
--   Http        internal/httpapi/responses.go: writeError and writeInvalidJSON, whose answers are
--               values. How encoding/json writes them is not modelled.
--   Tests       concrete runs.
--
-- Concurrency: a method that holds a lock throughout is one step, and a run is a list of steps in
-- the order in which the lock is taken. What the operating system, the clock and other libraries
-- answer is an argument of the step.
--
-- Bounds and fuel: the eviction of the cache recurs on fuel, as many rounds as there are entries, since
-- each round removes one; a list that is read page by page recurs on the number of pages left, which
-- is the bound of its loop. The generation of a cluster in the cache
-- is a 64-bit number that wraps around. Other `int` values of the source are lengths and limits, far
-- below their bound, and are natural numbers.
--
-- Not modelled: the readers of internal/kubernetes other than those above, what a gateway does with a
-- query, Helm, what the check of a chart repository reads, the HTTP routes, configuration, the hashing of passwords, and
-- the web interface; of the parts above, ListClusters, the reads of Helm releases and the snapshots that are only shown. Of the
-- operations: the tests and look-ups before one is created, the locks that they take, the
-- cancellation of contexts, and the calls of a cluster that a job makes, of which only the error
-- counts.
pub mod Base
pub mod Domain
pub mod Store
pub mod Governor
pub mod Sessions
pub mod Limiter
pub mod Cache
pub mod Names
pub mod Validation
pub mod Versions
pub mod Operations
pub mod Http
pub mod Platform
mod Tests
pub mod Kubernetes
pub mod Outbound
pub mod Secure
