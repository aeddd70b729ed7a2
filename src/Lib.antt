-- ===== src/Lib.antt =====
-- CLIProxy Portal admits the model requests of a team to one upstream proxy. This development
-- models the code that protects the host from too many or too large requests, the code that
-- removes a sentence from the instructions of a request on its way, and the code that records
-- what users and models said.
--
-- Parts and files (paths from the repository's root):
-- - internal/resourcecontrol/policy.go, external.go: ResourceControl/Policy has `Policy`,
--   `DefaultPolicy` and `Validate`; ResourceControl/Metrics has a sample, `UsedMiB`, `Fresh` and
--   `applyExternalMetrics`.
-- - internal/resourcecontrol/history.go: ResourceControl/History has the ring of 361 ten-second
--   peaks, `add`, `validHistoryPoint`, `RestoreHistory` and `History`; History/Segments and
--   History/Ring relate it to a list, History/Order to the order of times.
-- - internal/resourcecontrol/controller.go: ResourceControl/Controller has the state,
--   `SetPolicy`, `event`, `Record` and `Snapshot`; ResourceControl/Monitor has `UpdateMetrics`;
--   ResourceControl/Admission has `AcquireRequest`, `ModelDone`, `Finish` and `RecordStatus`;
--   ResourceControl/Audit has `FlushEvents`.
-- - The same file's goroutines: ResourceControl/Interleaving. The mutex makes an operation one
--   step, save that `eventWithStatus` gives it up while it sends; the calls that run meanwhile
--   are part of the call, so that a schedule is a tree of calls.
-- - internal/gateway/resource_websocket.go: Gateway/Websocket has `Write`, `Read`, `reject` and
--   `endFrame`; Websocket/Bytewise compares `Write` with a machine that takes one byte at a time,
--   Websocket/Stream says what the connection below receives, and Websocket/Messages which frames
--   pass.
-- - internal/gateway/resource_control.go: Gateway/Body has `prepareResourceBody` and
--   `observedResourceBody`, with Body/Limits and Body/Observed; Gateway/Serve has `serveHTTP`,
--   with Serve/Cleanup.
-- - internal/gateway/server_timing.go: Gateway/Timing has the connection's times, `Read`, `Write`
--   and the hook on `ConnState`, with Timing/Order.
-- - internal/service/usage_timings.go: Service/TimingCache has `putUsageTimingSnapshot`, with
--   TimingCache/Bounds.
-- - internal/gateway/identity_json_stream.go: Gateway/Identity/Scanner has the methods of
--   `identityJSON` that read (Scanner/Moves, Scanner/Numbers and Scanner/Values follow where they
--   go), Identity/Fields has `content`, `messages` and `processCandidates`, Identity/Patches has
--   `scanIdentityJSON` and `applyIdentityPatches`, with Patches/Ends and Patches/Keeps.
-- - internal/gateway/identity_text_stream.go: Identity/Runes has `identityRunes`, Identity/Text
--   has `identitySentenceEnd`, `locateIdentityMatch` and `scanIdentityText`, with Runes/Reads and
--   Text/Halting.
-- - internal/gateway/identity_spool.go and codex_identity.go: Identity/Spool has the encoding of
--   a span, Identity/Compat has `decodeIdentitySpool`, `isDialoguePath`
--   (internal/gateway/proxy.go) and `applyCodexIdentityCompatibility`, with Compat/Outcome and
--   Compat/Faults.
-- - internal/gateway/structured.go: Gateway/Structured has the records of a text, of a call and
--   of a result and the removal of media, Structured/Requests the items of requests and of
--   responses that are one JSON document, with Structured/Clean, Structured/Recorded and
--   Structured/Private.
-- - internal/httpserver/limiter.go: Httpserver/Limiter has `Allow` and `Reset`, with
--   Limiter/Window.
-- - Common has the tests, lists, integers and association maps that these share, and Common/Float
--   the interface of float64.
-- - ResourceControl/Tests, Gateway/Tests, Gateway/Identity/Tests, Gateway/Structured/Tests,
--   Httpserver/Tests and Service/Tests run the definitions.
--
-- Conventions: a time is the number of nanoseconds since Go's zero time, which is 0. Go's int and
-- int64 are integers without overflow, for counts that stay far below 2 ^ 63; the uint64 counters
-- of events wrap around at 2 ^ 64. float64 is a parameter, `Float64`, and no theorem assumes a
-- law of it. Go's `map[string]int` is an association list in which a missing user reads 0. A
-- lease is its place in the list of all leases, and its two `sync.Once` are flags. Time itself is
-- an argument of each operation. A file is the list of its bytes. The regular expressions and the
-- tables of characters of Gateway/Identity are the parameter `Tables`, of which some theorems
-- assume that the qualifier matches no empty text; strings.ToLower, strings.TrimSpace and
-- json.Marshal are the parameter `Strings` of Gateway/Structured, of which none assumes anything.
--
-- Bounds and fuel: the loop of `Write` has as much fuel as it has bytes, and each round consumes
-- one at least; Websocket/Bytewise shows it equal to a recursion on the bytes, which needs none.
-- `FlushEvents` runs on the list of the sink's answers, one for each round; the inner loop takes
-- at most 64 events. The loop that makes room in Service/TimingCache has as much fuel as there
-- are scopes, and each round drops one. In Gateway/Identity the loop over an object or an array
-- has as much fuel as there are bytes left, and one more; `skip` recurs on the levels of nesting
-- that the limit of 10000 leaves; the loop of `scanIdentityText` has as much fuel as there are
-- bytes before the end of the sentence, and one more, and each match of the qualifier takes it
-- further.
--
-- Not modelled: the samplers of /proc and of cgroups, the timers of `Run`, `runAudit` and
-- `runHistory`, the history sink, the records of a response that is a stream, and the rest of the
-- portal (accounts, pages, store, backup, upstream client, gateway proxy).
pub mod Common
pub mod Gateway
pub mod Httpserver
pub mod ResourceControl
pub mod Security
pub mod Service
pub mod Store
