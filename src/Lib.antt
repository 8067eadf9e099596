-- ===== src/Lib.antt =====
-- Verification library of diverge: capability tokens of agent tasks, their stores, the budgets of
-- agent tasks, the graph of service dependencies, the comparison of replayed answers, and the quota
-- of environments.
--
-- Parts and files.
--
-- Base: lists, texts as lists of bytes, 64-bit integers, hexadecimal and decimal texts, maps, and
-- results. Texts stand for Go strings and byte slices; a Go map is a function from keys, or a list
-- of keys where the program ranges over it.
--
-- Auth (pkg/auth): a token is a chain of caveats under a chained HMAC.
--   Auth/Types     the types of auth.go and macaroon.go, and the record `Go` of the functions of
--                  Go's standard library that are parameters: float64, HMAC-SHA256, filepath.Match,
--                  strings.TrimSpace, strings.ToLower and json.Unmarshal
--   Auth/Mint      Mint (`mint`) and Attenuate (`attenuate`) of macaroon.go
--   Auth/Caveats   evaluateCaveat
--   Auth/Verify    Verify (`verify`, and `verify_macaroon` behind decoding)
--   Auth/Extract   VerifyAndExtract (`verify_and_extract`, `extract_macaroon` behind decoding)
--   Auth/Models    MatchesAllowedModel and allowedModelPatternNarrows
--   Auth/Labels    label values and Secret names of store.go
--   Auth/Memory    InMemoryTokenStore of store.go, and the table that it implements (Auth/Table)
--   Auth/Secrets   KubernetesSecretTokenStore of store.go, over a record `Api` of the cluster
-- The other files of Auth hold proofs: Signatures (the HMAC chain), Soundness (Verify), Attenuation,
-- Needs and Minted (tokens fresh from Mint), Narrowing, Extraction, Extracted and Effective (the claims of
-- VerifyAndExtract), Tiers (model patterns), and Revocation (the Secret store).
--
-- Auth/Small is a small instance of `Go` for the tests.
--
-- Meter (internal/server/llm_meter.go): the budgets of agent tasks. It checks tokens by Auth.
--   Meter/Task       the attempt that counts a request against an AgentTask (`meter_task`)
--   Meter/Handler    reading the request: token, usage, model
--   Meter/Serve      ServeHTTP (`serve_http`), over records of the token store and the task API
-- Meter/Count, Meter/Saved and Meter/Safety hold proofs.
--
-- Topology (pkg/topology/graph.go): ServiceGraph with its forward and reverse edges.
--   Topology/Sets    Go sets of strings and package sort
--   Topology/Graph   ServiceGraph and its operations
--   Topology/Paths   AllIngressPaths
--   Topology/Discover  CompositeDiscoverer and StaticDiscoverer (pkg/topology/discover.go and
--                    pkg/topology/discover_static.go), which build graphs and merge them
-- The other files of Topology hold proofs: Invariant and Preserved (well-formed graphs), Keys,
-- Merge, Extends and Union (Merge), Neighbors, Ingress, Trails and Complete (AllIngressPaths),
-- Discovered and Declared (the discoverers).
--
-- Replay (pkg/replay/diff.go): ComparePayloads of a recorded and a replayed answer.
--   Replay/Types     ContractDiff, DiffOptions, JSON values, and the record `Std` of what the code uses of
--                    Go's library
--   Replay/Media     the media types
--   Replay/Frames    the frames of gRPC and Connect: unwrapEnvelopeFrames, unwrapJSONEnvelopeFrames,
--                    hasValidEnvelopeFrameSequence
--   Replay/Json      diffJSONValues
--   Replay/Wire      parseProtoWireMessage, over a record of package protowire
--   Replay/WireDiff  diffProtoWireMessages
--   Replay/Schema    descriptors and messages of package protoreflect
--   Replay/Describe  describeProtoFieldDescriptor, protoFieldPresent
--   Replay/Reflect   compareDynamicProtoMessages, diffReflectedProtoMessages, diffReflectedProtoMaps
--   Replay/Compare   ComparePayloads and what it chooses between
-- Framing, Unwrap and Sequence hold the proofs on frames, Same, Clauses, Equal and Reflexive those on
-- JSON, WireSelf, ReflectSelf and Parse those on Protobuf, and Unchanged that on ComparePayloads.
--
-- Controller (internal/controller): environments.
--   Controller/Types   environments and conditions, and the record `Cluster` of what the code calls
--   Controller/Status  derivePhase of environment_status.go
--   Controller/Limits  the limits of a namespace and the choice of victims in environment_quota.go
--   Controller/Quota   reconcileNamespaceQuota of environment_quota.go
--   Controller/EnvVars mergeEnvVars and validateEnvVarMapping of environment_status.go
-- Oldest, Victims and Admission hold the proofs on the quota, Phases those on derivePhase, Merged
-- those on EnvVars.
--
-- State and errors. A token store and a graph are records that operations take and return. Errors
-- are values of Base/Errors' Result; a sentinel error is a constructor, and the text wrapped around
-- it is left out. The time is an argument, in seconds. An expiry is kept by its Unix seconds, and two
-- expiries are ordered as Before orders them, by the int64 that time.Unix wraps. Random bytes are an
-- argument of `mint`.
--
-- Bounds. MatchesAllowedModel calls itself on the patterns of a tier, and no such pattern names a
-- tier, so two levels are enough. The depth-first search of AllIngressPaths has one level for each
-- service of the graph and one more; a path holds each service once. The search stops at 100 paths. The
-- loops over frames and over the fields of a Protobuf message have the length of the buffer as fuel:
-- a frame takes five bytes or more, a field one or more.
--
-- Not modelled: JSON encoding, the mutexes of the stores (operations are sequential), log output,
-- Validate of the graph, the Prometheus discoverer and the
-- cache of graphs, and the reconcilers around the quota. Retries on conflict are parameters.
-- A lock of the meter is a function on the state that stands for what other requests do meanwhile.
pub mod Base
pub mod Auth
pub mod Controller
pub mod Meter
pub mod Replay
pub mod Topology
