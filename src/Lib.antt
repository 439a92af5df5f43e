-- ===== src/Lib.antt =====
-- A model of yarilo-loadtest, a load generator for mail servers. The command line (main.go) builds
-- a list of accounts, a source of messages and one protocol driver; the shared driver runs the
-- driver's function on many workers until a bound is reached; every operation is reported to a
-- collector, whose summary is printed.
--
-- Which file models what:
--   * Recipients: the address lists of the command line (main.go: splitList, expandRecipients,
--     splitTrailingNumber, splitCount). Recipients/Expand describes the lists by a grammar.
--   * Corpus: what a driver asks for messages (internal/corpus/corpus.go: Source). Corpus/Mbox is
--     the replay of an mbox file (mbox.go), Corpus/Generator the generator (corpus.go);
--     Mbox/Arrival is about the messages of a replay as Lmtp sends them.
--   * Lmtp: the delivery driver (internal/lmtp/lmtp.go), the whole of Deliver over the network.
--     Lmtp/Commands is about its commands, Lmtp/Delivery about whole deliveries, Lmtp/Counted about
--     what the summary says of them.
--   * Pop3: the POP3 driver (internal/pop3drv/pop3.go), the whole of Session over the network;
--     Pop3/Status is about status lines, Pop3/Commands about commands, Pop3/Conversation about whole
--     sessions.
--   * Imap/Profile: the command mix (internal/imapdrv/commands.go); Profile/Written is about how a
--     mix is written. Imap/View: a session's state and its view of the mailbox
--     (internal/imapdrv/session.go); Imap/View/Server is a server's mailbox, and Imap/View/Floor
--     sets the view beside it. Imap/Step: the choice of a session's next command
--     (internal/imapdrv/driver.go: step, rangeCmd); Step/Filling is about the course of choices and
--     Step/Window about ranges. Imap/Client: the client behind its dial
--     (client.go), with Client/Response for answers and Client/Literal for the literals in them,
--     Client/Append for APPEND, Client/Quoted for names, Client/Fuel for its loop, Client/Plain for
--     what it reports and Client/Rest for what it leaves alone. Imap/Session: the driver and its
--     sessions (driver.go: New, Prepare, connect, step, doSelect, run, RunClient); Session/Settings
--     holds the configuration and New, Session/Prepare holds Prepare; Session/Samples is about the
--     reports, Session/Setup about New, Session/Staying, Session/Entering and Session/Dials about
--     the connections.
--   * Jmap: the JMAP driver (internal/jmapdrv/jmap.go); Jmap/Settings holds the configuration,
--     Jmap/Calls its requests and Jmap/Checks the reading of answers; Jmap/Replies is about answers,
--     Jmap/Posting, Jmap/Discovery and Jmap/Credentials about the requests and the session
--     resource.
--   * Stallwatch: the stall watch (internal/stallwatch/stallwatch.go); Stallwatch/Settings holds
--     the configuration, Stallwatch/Api its requests to the cluster, Stallwatch/Cluster what it
--     makes of the answers, Stallwatch/Capture one capture; Stallwatch/Rate is about its rate limit.
--   * CommandLine: what main.go makes of its flags (messageSource, runLMTP, runPOP3, runJMAP,
--     runIMAP) and its exit status; it uses the drivers' configurations. CommandLine/Whole is the
--     course of main: the plan, the steps of the workers (Driver), their reports (Stats), the
--     summary and what is printed; Whole/Clean and Whole/Status are about the status.
--   * Driver: the bounds of a run and its workers (internal/driver/driver.go).
--   * Stats: the collector and its summary (internal/stats/stats.go). Stats/Table: the summary as
--     a table (WriteTable); Table/Order, Table/Names and Table/Rows are about the order of its rows;
--     Stats/Sessions is about the reports of sessions. Stats/Live: the live table
--     (internal/stats/live.go), which reads the summary at each tick; Live/Names, Live/Columns,
--     Live/Summed, Live/Errors and Live/Counts are about its rows and columns.
--   * Net: a connection as a state (what the server sends, what was written, how reading ends),
--     and the monad of session code; Net/Dial is what the drivers dial, Net/Script is about
--     conversations that go well, Net/Moves about what session code keeps. Text: the functions of
--     Go's strings and strconv that the code calls; Text/Joined is about lists joined by commas.
--     Base: names and lemmas that all modules share.
--
-- Conventions. A string is its list of bytes. An int that can leave its range is reduced modulo 2
-- ^ 64 where the source computes it, and a counter of type uint64 likewise; sizes and counts of
-- what is in memory are natural numbers. An error is a value of the component's own type that
-- holds what the text of the source's error shows. A mutex is the order in which the calls come;
-- in Driver the steps of the goroutines are a list of events, so that a statement about every list
-- is one about every interleaving.
--
-- Fuel. The loops over lines of a connection take one more round than the bytes still to come:
-- every round takes a byte at least. The filler takes as many rounds as bytes are wanted, since
-- each adds one at least.
--
-- Parameters, being code of others: math/rand, the ratio test and the printed date (Platform in
-- Corpus/Generator, with the documented bound of Intn), the texts of floating-point numbers
-- (Format in Stats/Table), the floating-point place of a percentile (Floats in Stats, with the
-- exactness of products by 0 and 1 and the monotony of multiplication), the texts of errors of
-- other packages (Texts in Imap/Client), JSON, base64 and URLs (Packages in Jmap), and files, the
-- environment, patterns, the clock, HTTP and JSON of the stall watch (System, Event and Web in
-- Stallwatch). The messages of an IMAP session come from a Source, the interface of Corpus. What a
-- network answers (Network in Net/Dial), the connections that are dialled and the rounds in which
-- a context ends are lists. White space is that of ASCII.
--
-- Not modelled: the handshake of TLS, deadlines, the redirects that net/http follows behind a
-- request, the JSON of a summary, and the signals, the logging and the parsing of flags of main.go.
pub mod Base
pub mod Text
pub mod Recipients
pub mod Corpus
pub mod Net
pub mod Stats
pub mod Lmtp
pub mod Imap
pub mod Driver
pub mod Pop3
pub mod Jmap
pub mod Stallwatch
pub mod CommandLine
