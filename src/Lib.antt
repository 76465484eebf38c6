-- ===== src/Lib.antt =====
-- SCGRep: how a sensor centre counts the messages of the WIS2 Global Brokers and checks what the
-- Global Replay services replay. The program is the Python package scgrep/.
--
-- The parts and their files:
-- * Store (scgrep/redis_store.py, RedisStore): broker messages, replayed messages and fetched
--   messages in Redis. Redis.antt is the interface of the server with the documented behaviour of
--   the commands that the store sends, and Memory.antt an implementation of it, which shows that
--   the laws can hold. Store.store_message, count_messages and so on are the methods of the same
--   names; each takes the database and returns the new one. Store/Baseline states what the baseline
--   is, as a function of the arrivals alone.
-- * Commands (scgrep/redis_store.py): the calls of the threads on one store, as a sequence of steps,
--   broker messages and replayed messages (scgrep/mqtt_client.py) and the messages that fetches
--   read (scgrep/replay_tester.py). The interleavings of the threads are the merges of their
--   sequences; a count is specified as a function of the sequence alone.
-- * Registry (scgrep/replay_registry.py): the channels of the tests that are waiting, and their
--   counters. Counters are addressed by number in a heap, since the fetch keeps its counter after
--   it has been unregistered. Registry/Activity has what several threads do to it as a sequence of
--   events; handle_replay is one of them, although it counts after it has released the lock.
-- * Message (scgrep/mqtt_client.py, MessageHandler): the callback of a message, over the store and
--   the registry.
-- * Mqtt (scgrep/mqtt_client.py, MqttManager): which brokers are connected to, with which
--   subscriptions and which security. Mqtt/Connection has the connections over time, as a relation
--   whose steps are the callbacks of the clients and the connections that start begins.
-- * Fetch (scgrep/replay_tester.py): Fetch/Sync is sync_fetch and _process_features, Fetch/Async is
--   async_fetch, Fetch/Subscriptions is _validate_subscriptions, Fetch/Integer is int() on the
--   values that the program reads.
-- * Cycle (scgrep/test_cycle.py): run_cycle, as the list of the writes of the metrics, with
--   _number_matched_from and _publish. Metrics (scgrep/metrics.py) is what the writes do to the
--   series: apply_write is what prometheus_client documents of inc and set.
-- * Service (scgrep/main.py): _wait_for_redis, Scheduler.run and the exit codes of main. The
--   attempts and the rounds are lists, which say when a ping answers, how long a cycle takes and
--   how late a wait returns.
-- * Purge (scripts/purge_logs.py): the lines that purge keeps. The test for a decimal digit of
--   Unicode, which is what the pattern's \d asks, is an argument.
-- * Report (scripts/replay_loss_report.py): what the report counts in a log, minute by minute, for
--   the sources of single messages. Report/Pattern has the regular expressions as pieces, and
--   Report/Lines the patterns beside the lines that the program logs. Summary is the mode that
--   reads what the cycles logged; the value of a decimal digit of Unicode is an argument there.
-- * History (scripts/restart_history.py): what main prints of the events that collect returns.
-- * Config (scgrep/config.py): BrokerConfig.from_url and Config.from_env.
-- * Util (scgrep/util.py): the helpers, with the exceptions that they raise as values of Fault.
-- * Prelude, Text, Result, Json and Libs: numbers, lists, texts and JSON values as the parts use
--   them. Fixtures holds the values that the Tests modules run on.
--
-- How they interact: the network thread calls on_message, which writes to the store and, for a
-- replayed message, to the registry. A fetch reads the registry's counter (async_fetch) or writes
-- the pages that it reads to the store (sync_fetch). A cycle counts the baselines, clears the
-- counts of the cycle before, starts the fetches and publishes what the store counts for them. The
-- configuration says which brokers the manager connects to.
--
-- Conventions:
-- * A text is its list of code points. Times since 1970 are whole microseconds (ℤ, where the
--   program has floats). Instants of the monotonic clock are whole microseconds (ℕ), and a delay is
--   the difference of two of them (ℤ): that of async_fetch may be negative, since the channel is
--   registered before the fetch reads the clock.
-- * Libs holds paho's topic_matches_sub, datetime.fromisoformat, urlparse, urljoin, json.loads,
--   str.lower, strftime and repr as functions of which nothing is assumed; urljoin, like urlparse, may
--   raise ValueError. int() reads the digits of ASCII only.
-- * The server answers every command, and no key expires between two calls of one sequence; keys
--   that begin with scgrep:msg: hold strings, which only the store writes.
-- * The HTTP service and the clock of a synchronous fetch are the record Service, whose world each
--   call may change. What happens beside an asynchronous fetch is the record Environment: the
--   events at the registry (deliveries, and what other fetches register and unregister) and the
--   clock's readings in each round of the waiting loop. A list of rounds that
--   ends too early gives `none`; a round that reads the deadline is enough, as the theorem on
--   totality says.
-- * The fetches of a cycle run in parallel. What each of them returns, and the database at the
--   moment when its result is collected, are arguments of run_cycle (the record Answer), for every
--   pair of a topic and a service; the theorems on Commands take that database as what the calls of
--   all threads leave. The sleep up to the instant of publication is left out.
-- * The bound of 10000 pages is the program's own.
--
-- Not modelled: the set-up of the logs in scgrep/main.py beyond the format of a line, the HTTP server
-- of the metrics, the log lines other than those that the loss report reads, the script
-- replay_arrival_profile.py, the patterns of restart_history.py, printing and the reading of files,
-- connection errors of Redis and the threads of the MQTT client.
pub mod Prelude
pub mod Text
pub mod Result
pub mod Json
pub mod Libs
pub mod Util
pub mod Redis
pub mod Memory
pub mod Store
pub mod Summary
pub mod Registry
pub mod Message
pub mod Fetch
pub mod Config
pub mod Mqtt
pub mod Commands
pub mod Cycle
pub mod History
pub mod Metrics
pub mod Service
pub mod Purge
pub mod Report
pub mod Fixtures
