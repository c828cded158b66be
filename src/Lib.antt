-- ===== src/Lib.antt =====
-- A verification library for wavefront, an edge proxy that serves a client's frozen contract from a
-- current upstream. A bundle (internal/bundle) holds contracts by version, route and method, with
-- transforms between versions. For a request, the proxy (internal/server) checks the envelope,
-- negotiates the contract that the version header names (internal/negotiate), decodes protobuf into
-- JSON (internal/adapter), runs the request transforms of the contract's chain
-- (internal/transform), calls the upstream, and turns the answer back by the response transforms
-- and the codec, or into a typed failure (internal/wireerror).
--
-- Files, with the code that they model:
--   Base                 shared names, Go's error results, lists, integers, texts (package strings,
--                        strconv.Atoi) and maps as association lists
--   Json                 JSON value trees and the interface of encoding/json
--   Headers              net/http's Header as an association list with canonical keys
--   Transform/Path       internal/transform/path.go: ParsePath, Path.String
--   Transform/Walk       internal/transform/walk.go: walkLeaves, walkLeavesEnsureObjects
--   Transform/Apply      internal/transform/transform.go: apply, coerce, the four verbs
--   Wireerror            internal/wireerror/wireerror.go, errorproto.go; Wireerror/Write: Write
--   Bundle               internal/bundle/bundle.go: Contract, Bundle, Lookup, LookupRoute
--   Bundle/Contracts     validateContract
--   Bundle/Ops           toOps, and validatePathAgainstMessage of pathvalidate.go
--   Bundle/Resolution    loadResolution behind the decoder, resolutionSelectors
--   Bundle/Chains        resolveChains
--   Runtime              what is used of the standard library and of protobuf, as parameters
--   Adapter              internal/adapter/adapter.go
--   Negotiate            internal/negotiate/negotiate.go
--   Server/Request       internal/server/http.go: the header functions
--   Server/Proxy         the handler up to the upstream request
--   Server/Respond       the dispatch on the upstream's status
--   Server/Handle        the whole handler, its deferred function and the preflight
--   Bundle/Install, Load internal/bundle/bundle.go: applyResolution, and Load on decoded layers, with
--                        protodesc.NewFiles as a parameter
--   Bundle/Merge         internal/bundle/bundle.go: mergeDescriptors
--   Bundle/Collisions    internal/bundle/bundle.go: checkPackageCollisions
--   Server/StatusLine    internal/server/stdlib_boundary.go: parseStatusLine
--   Server/Boundary      internal/server/stdlib_boundary.go: connState, markHandlerSeen, sniffingConn
--   Server/Recover       internal/server/recover.go: Recover, responseTracker
--   Config               internal/config/config.go: Load, OpsAddr
--   Bundlegen/Schema     internal/bundlegen/bundlegen.go: schema; drift.go: primitiveType, zeroForSchema
--   Bundlegen/Drift      internal/bundlegen/drift.go: matchCaseRenames, matchAmbiguousPairs; Draft:
--                        draftDirection, draftShim
--   Tracing              internal/tracing/traceparent.go, exporter.go: ParseTraceparent, StartSpan,
--                        enqueue, run, Shutdown
--   Examples             concrete runs
--
-- The state of the handler is the record Session, which each phase passes on; a call of `fail` is a
-- value with the session of that moment; and the upstream is a function from requests to outcomes.
-- In-place changes of JSON maps return the changed tree. A map is a list whose first entry of a key
-- counts, and where the source ranges over one, the list has the order of the iteration. The walk
-- over a chain runs on fuel, two more than the contracts of the index: each round meets a version
-- that it had not met. What runs concurrently is a step relation: the callbacks of net/http on all
-- connections (Server/Boundary/Lifecycle), and the requests that end spans beside the worker that
-- exports them (Tracing/Exporter).
--
-- Not modelled: reading the directories of a bundle; metrics and listeners of internal/server;
-- internal/bundlegen but for the drafter; the OTLP encoder and the HTTP export of internal/tracing;
-- internal/probe; cmd. YAML and JSON texts,
-- protobuf, media types, reason phrases and the network belong to other code and are parameters.
pub mod Base
pub mod Json
pub mod Wireerror
pub mod Transform
pub mod Bundle
pub mod Headers
pub mod Runtime
pub mod Adapter
pub mod Negotiate
pub mod Config
pub mod Server
pub mod Tracing
pub mod Bundlegen
pub mod Examples
