-- ===== src/Lib.antt =====
-- A model of the Go part of secure-dev (SecureOps): a platform that runs security scanners on a
-- project, brings what they report into one canonical form, relates the findings to one another,
-- and decides by a policy whether a build may pass.
--
-- The parts and the files that model them (paths from the repository's root):
--   Scanners, Scanners/Registry   internal/scanners/scanner.go, target.go, registry.go: what an
--     adapter declares, and the selection of adapters for a scan.
--   Scans                         internal/scans/scan.go: the record of a scan, its state machine, and
--     the end state that the results of its scanners imply. Lifecycle and Coverage prove its laws.
--   Scans/Create                  internal/scans/create.go: the request for a scan; its three regular
--     expressions are functions on characters. Selected and Canonical prove its law.
--   Normalization                 internal/normalization: Severity (severity.go), Fix (fix.go), Finding
--     (finding.go, threatintel.go), Dedup (dedup.go), Fingerprint (fingerprint.go).
--   Correlation                   internal/correlation: Buckets, Links, Reports and Engine
--     (correlation.go, link.go), Escalation (issue.go), Deployment and Calendar (deployment.go).
--     Grouping, Reference, Shared, Justified and Pairs prove the laws of the engine.
--   Policies                      internal/policies: policy.go, Validate, and Evaluate (evaluate.go).
--     Gate, Counts and Monotone prove the laws of the gate.
--   Projects                      internal/projects/project.go: a project's declared context, Slug
--     (slugs) and Create (the input that makes a project).
--   Risk                          internal/risk: Factors and Assess (risk.go), Weights and its Digest
--     (weights.go), Explain (explain.go).
--   Remediation                   internal/remediation: kinds and actions (action.go), Group and
--     Statements (group.go), Plan (remediation.go).
--   Queue                         internal/queue/queue.go and memory.go: jobs and their queue.
--   Worker                        internal/worker/runner.go, and the types of
--     internal/scanexec/scanexec.go: Ingest (one scanner's outcome), Persist (findings, correlation,
--     risk and the gate) and Run (executeJob). Fair and Settled prove how a job ends.
--   ScanExec                      internal/scanexec/inprocess.go: a scan in the worker's own process;
--     Reported proves what it reports of its scanners.
--   Findings                      internal/findings/transition.go: a person's change of a finding's
--     status, on a store that is a parameter; Tables says what PostgreSQL documents of its calls.
--     Judged and Atomic prove its law.
--   Auth                          internal/auth/role.go and scope.go: roles and project scopes;
--     Tokens (auth.go): the configured credentials and the authentication of a request.
--   Config                        internal/config/config.go: how a list is read from the environment.
--   Users/Sessions                internal/users/session.go: session tokens.
--   Netguard                      internal/netguard/netguard.go: the addresses that a scan may reach.
--     Mapped and Public prove its laws.
--   Prelude                       lists, Boolean tests, the parts of Go's packages strings, path and
--     sort that the program uses, and the interface of float64.
--   Examples                      runs of the theorems on concrete data.
--
-- How they interact: a scan selects its adapters from the registry and records what each of them did;
-- the adapters' findings are identified by Fingerprint, merged by Dedup and related by Correlation;
-- Risk scores them in the context that Projects declares; Remediation ranks the work by that score;
-- the gate counts the findings and reads the score and the scan's coverage. Worker runs these stages
-- for one job of the queue, in this order, and records the scan's end.
--
-- How the code is rendered:
--   - a Go string type with named constants is a data type with a constructor for each constant and
--     `other t` for any other text, since a conversion can make a value of it from any text;
--   - an error is a value, beside the state that the caller then sees, or a constructor of the result
--     type of the operation; error texts are left out where they only repeat the arguments;
--   - a map is an association list. Where Go's order of iteration over a map could show, the code
--     sorts, and so does the model; a set is a list in which each member stands once;
--   - sort.SliceStable, sort.Slice and sort.Strings are one stable insertion sort (Prelude/Sort);
--   - upper and lower case are those of ASCII, with U+0130 and U+212A, whose lower case is ASCII, and
--     U+0131 and U+017F, whose upper case is;
--   - an instant is a number, 0 being Go's zero time; in Correlation it counts nanoseconds;
--   - float64 is a parameter (Prelude/Float): its operations carry no laws, and a theorem that needs
--     one has it as a hypothesis;
--   - the SHA-256 digests of a fingerprint, of the weights and of a token, the HMAC of a session, the
--     stores, the fetcher, the resolver and the parsers of the adapters are parameters, and so is the
--     executor to Worker;
--   - a job's run is the list of the calls that it makes on the stores; the log, the instants that it
--     passes on, and panics, from which the worker's loop recovers, are left out.
--
-- Bounds: the digits of a number are written with n + 1 steps (Prelude/Text), which suffice because
-- each step divides by ten. IsBlocked's call of itself is bounded by two steps (Netguard), which
-- suffice because the IPv4 form of an address has no other form. Every other loop is structural
-- recursion on a list or a text.
--
-- Not modelled: the stores (SQL) but for the change of a finding's status, Redis, the worker's loop
-- with its goroutines and timeouts, the Kubernetes executor, the HTTP API, the adapters' decoding of
-- their tools' output, processes and containers, and most of the configuration. They are input and output around the parts above, or wait for a later extension.
pub mod Prelude
pub mod Scanners
pub mod Scans
pub mod Normalization
pub mod Risk
pub mod Config
pub mod Correlation
pub mod Policies
pub mod Projects
pub mod Remediation
pub mod Findings
pub mod Queue
pub mod Worker
pub mod ScanExec
pub mod Auth
pub mod Users
pub mod Netguard
pub mod Examples
