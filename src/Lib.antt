-- ===== src/Lib.antt =====
-- messq: a persistent message queue broker. A publisher appends messages to a stream; a consumer of the
-- stream fetches them under a lease, and acks, naks, terms or extends each delivery with a token that
-- names the stream, the consumer, the message, the attempt and the consumer's generation. Deliveries
-- whose lease runs out are swept: redelivered by the retry schedule, or copied to a dead-letter stream.
-- The planners of internal/queue are pure and decide; the commands of internal/store load rows inside a
-- transaction, call the planners and write what they decide.
--
-- Which file models which part:
--   Common and below: numbers, bytes, lists, Go's results, decimals. int64 sums, differences and
--     products wrap around (add64, sub64, mul64); counters that the code never makes negative
--     (sequence numbers, attempts, generations, lengths) are natural numbers.
--   Errs: internal/errs/errs.go, the error classes.
--   Model: internal/model/match.go, the naive matcher.
--   Subject: internal/subject/subject.go. Grammar is ParseSubject, ParsePattern, ParseSet, classify;
--     Match is Pattern.Match and Set.Match; Name is ValidateStreamName and its kin; Utf8 is what the
--     package uses of unicode/utf8.
--   Queue.Types, Queue.Consumer: internal/queue/consumer.go. Queue.Backoff: backoff.go. Queue.Token:
--     token.go (ParseToken, Token.String). Queue.Settle: settle.go (PlanSettle and the four verbs).
--     Queue.Sweep: sweep.go (DecideSweep). Queue.Retention: retention.go (PlanEviction, SelectBlame,
--     DetectClockJump). Queue.Disk: disk.go (NextDiskState). Queue.Dlq: dlq.go. Queue.Dead: dead.go.
--     Queue.Config: config.go and name.go. Queue.Update: update.go (ValidateUpdate). Queue.Publish:
--     publish.go (ValidatePublish, ValidateMsgID, ValidateTraceIDToken).
--   Auth: internal/auth. Pattern: pattern.go. Role: role.go. Principal: principal.go. Registry:
--     registry.go and the tokens of file.go. TokenFile: Parse and parseToken of file.go.
--   Store.Rows: the tables messages and deliveries of internal/store/migrations/0001_init.sql, one
--     stream and one consumer at a time, as lists in the order of the primary key. Store.Fetch: topUp
--     and fetchHold of internal/store/fetch.go. Store.Claim: claimReady of the same file.
--     Store.Settle: applyOne of internal/store/settle.go, and loadSettleConsumer, applyAction and the
--     rejection limiter of settle_impl.go. Store.Sweep: loadSweepPolicy and the writes of
--     SweepCmd.Apply of sweep.go.
--   Store.Writer: internal/store/writer.go and solo.go. Command is Cmd, CmdErr, applyCommand, and
--     maybeCmdErr of commands.go; Database is what the writer calls of database/sql, as an interface
--     with laws; Commit is commitBatch, doomed, doomedCommit, latch, failAll, batchNow; Serial is what
--     a batch promises; Assemble is run, takeBatch and commitSolo.
--   Store.Streams: the rows of one stream name. Publish is publishTx of publish.go and the batch of
--     commands.go; Admin is createStreamCmd, deleteStreamCmd, reapChunkCmd, sweepDedupCmd of the same
--     file, resumeSeq and configDiff of streams.go, and reapResumeCmd of delete.go. Patch is update.go and
--     updateStreamCmd of commands.go. Numbers runs create, publish, update, delete, the sweep of dedup keys
--     and the resumption of a deletion in any order.
--   Store.Dead: DLQSink of internal/store/dead.go, on the messages of the origin and the rows of the
--     dead-letter stream. Provenance is ProvenanceHeaders of internal/queue/dlq.go and mergeCopyHeaders;
--     Sink is DLQSink as the sink that a sweep is given.
--   Store.Consumers: the commands of internal/store/consumer.go on the rows of one consumer's name. Start
--     is resolveStartPosition and what it calls, Shrink is shrinkDeliveries, Seek is seekCmd of seek.go.
--   Store.Lifecycle: a stream and one consumer of it, with the commands above as steps (Steps), and what
--     CheckConsumerInvariants of internal/store/invariants_consumer.go audits of the cursor, of the
--     messages of rows and their subjects, and of generations. Messages has the guarded delete of
--     retention.go; Published and Moves have what a publish and a seek of the modules above change for
--     the consumer.
--   Modules below a component hold its lemmas and theorems; modules called Examples run the code on
--     concrete inputs.
--
-- Instants are nanoseconds since the epoch as an integer; Time.UnixMilli rounds down. A text is
-- the list of its bytes. A jitter, the dead sink of a settle, the marshalling and parsing of stored
-- headers, formatRFC3339MS, Duration.String, the ids that are drawn, strings.TrimSpace, strings.Fields,
-- the decoding of hexadecimal, EncodeHeaders, SHA-256 and the product of floats in the disk guard's
-- recovery threshold are parameters. Header keys stand in their canonical form. The SQL statements
-- are functions on the lists. A failure of the database is modelled in the writer alone, as an
-- answer of its calls: begin, savepoint, release and rollback change nothing that is durable, and
-- a commit that fails has had its whole effect or none; closing the pool and rolling back do not
-- fail. Metrics, the texts of errors and the details of events are left out. The other streams of
-- a database show in one place, the name that differs in letter case from one that is created.
--
-- Fuel: the walk over a pattern's tokens is bounded by the 32 tokens that the grammar allows, as in the
-- code; decoding of runes, the matcher's loops and the truncation loop run on the length of the text,
-- of which each round takes a byte at least. The writer's loop has one turn for each command at most,
-- and the chunks of a deletion are at most as many as its messages, plus one. The loop that shortens
-- the headers of a copy has three rounds, since each but the last drops one of two keys.
--
-- Not modelled: HTTP, the command line, files, sockets, the contexts of the writer's callers, the
-- scan for expired rows, the rendering of token files, the retirement of rows above a lowered
-- max_deliver, the statistics of consumers and the parsing of start positions.
pub mod Common
pub mod Errs
pub mod Model
pub mod Subject
pub mod Queue
pub mod Auth
pub mod Store
