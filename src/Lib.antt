-- ===== src/Lib.antt =====
-- pocket-settlement-monitor: a service that follows the settlement events of a Pocket Network node,
-- stores them in SQLite, counts them for Prometheus and reports them to Discord.
--
-- The parts, in the order in which an event passes through them:
--   * subscriber/: receives the blocks of a WebSocket, decodes the settlement events among their events,
--     reports gaps between heights. Subscriber/Types is types.go and what is read of poktroll's messages,
--     Subscriber/Decoder is decoder.go, Subscriber/Receive is receiveLoop and emitBlockEvents of
--     subscriber.go, Subscriber/Connection is Run with its reconnections, Subscriber/Delay is NextDelay.
--   * processor/collector.go: gathers the messages of a height (Processor/Collector; its client is any
--     BlockProcessor, an interface with a state of its own).
--   * processor/: ProcessBlock filters (Processor/Filter is filter.go), converts (Processor/Coins and
--     Processor/Convert are converter.go, Processor/Batch is the loop of processor.go), correlates
--     (Processor/Correlate), stores, dispatches to metrics, reporter and notifier (Processor/Pipeline).
--   * processor/reporter.go: NewReporter and ReportBlock (Processor/Reporter), with aggregateBlock
--     (Processor/Aggregate), and RecalculateSummariesForRange (Processor/Recalculate).
--   * store/: models.go is Store/Models, schema.sql is Store/Tables, and sqlite.go is Store/Insert
--     (InsertBlockEvents), Store/Summaries (reads and upserts of the summary tables), Store/Period (the
--     SELECTs of a period) and Store/Retention (RunRetentionCleanup). query.go, the queries of the
--     command line, is Store/Query.
--   * notify/: notifier.go is Notify/Notifier (NotifyBlock and the channel), Notify/Breakdown and
--     Notify/Sender (the retries and the goroutine that sends); discord.go is Notify/Embeds, where a
--     payload is the values that its texts print, with Notify/Texts and Notify/Format for the texts.
--     Notify holds the settings of config/config.go that the notifiers read.
--   * cmd/: findFirstBlockAtOrAfter of height_resolver.go is Cmd/Search, its client, what --from and --to
--     resolve to, is Cmd/Resolve; the range, the fetches and the loop of RunIfNeeded in backfiller.go are
--     Cmd/Backfill, RunIfNeeded as a whole is Cmd/Startup, and BackfillRange, the recovery of a gap, is
--     Cmd/Recover. The command runBackfill of cmd_backfill.go is Cmd/Command. The commands of
--     cmd_query*.go are Cmd/Query, their columns and cells Cmd/Cells, and output.go is Cmd/Output.
--   * config/: the defaults and Validate of config.go are Config, suppliers.go is Config/Suppliers.
--   * metrics/: labels.go and the recording methods of metrics.go are Metrics; its callback for state
--     changes and handleReady of server.go are in Subscriber/Connection.
--
-- State is passed explicitly: `Exec S A` of Prelude/Exec takes a state and returns a result or an error
-- beside the new state. Store/Db is the database: its tables, and a list that says of each coming
-- statement whether the engine fails at it; a transaction that ends with an error puts the tables back.
-- Store/WellFormed is the invariant of the tables.
--
-- An int64 is its bit pattern, a number below 2 ^ 64, and its sums wrap (Prelude/Words). A time is the
-- nanoseconds since Go's zero time, and a timestamp column, whose text is compared, its whole seconds: the
-- texts are taken to be in UTC and of the years 0 to 9999. A Go map that is only read by key is an
-- association list, one that is walked a list in some order. All loops are structural recursion but
-- one, the search for a height, which has fuel for one turn per height of its range, enough as each turn
-- narrows the range. A `select` is a list of inputs in any order.
--
-- Arguments stand for code from elsewhere: ParseTypedEvent and the message names, float64, the names of
-- expiration reasons, the random generator, the answers of Discord, url.Parse, the keys' file,
-- secp256k1 and bech32, and the layouts of times. A JSON object is given as its columns and values, and a
-- table's or a CSV's row as its cells.
--
-- Not modelled: the RPC client, the posts of the notifier of operations, the reading of the
-- configuration, the rest of the command line, the HTTP server, and logging. The timers of the select
-- loops are inputs that may come at any time.
pub mod Prelude
pub mod Store
pub mod Subscriber
pub mod Metrics
pub mod Config
pub mod Notify
pub mod Processor
pub mod Cmd
pub mod Examples
