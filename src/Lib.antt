-- ===== src/Lib.antt =====
-- Verification of tuicast, a Go library that drives text user interfaces over a terminal session:
-- it emulates the terminal, speaks Telnet to the host, encodes keys, matches screens against
-- expectations and records what the host sent.
--
-- How the parts interact. A session reads host bytes through a transport stream
-- (telnet/stream.go), feeds them to a terminal (ansi/terminal.go, through the byte parser of
-- parsing/parser.go), records them (flightrecorder.go), and tests the terminal's snapshot
-- (screen.go) against matchers (matcher.go). Keys (key.go) are encoded by the terminal and written
-- to the stream.
--
-- Which file models what.
-- - Prelude and its children: Boolean tests, lists, integers, and the loops that write to a slice.
-- - Screen: cells, the cursor and the snapshot, with CellAt, Line and Text of screen.go.
-- - Ansi/State: the record Terminal, with New, Resize and Snapshot, and the helpers of the handlers.
--   The pointer to the active buffer is a value of Active, and every write through it names the
--   buffer. A nil slice of cells is the empty list.
-- - Ansi/Edit: scrolling, erasing, inserting and deleting. Ansi/Print: print, combining characters
--   and wide cells. Ansi/Modes: reset, the modes and the alternate screen. Ansi/Rendition: SGR.
-- - Ansi/Control: the handlers of the parser's events, Write, DrainEvents and SetAnswerback.
-- - Ansi/Describe: the text of an unsupported sequence, with strconv.Itoa and strings.ToValidUTF8.
-- - Ansi/Rows: scrolling, and inserting and deleting lines, read cell by cell.
-- - Ansi/Valid, Ansi/Revision and Ansi/StyleOnly: the terminal's invariant, the revision as the
--   witness of change, and what SGR leaves alone. A caller's calls are values of Call.
-- - Telnet/Stream and Telnet/Protocol: the stream, its protocol machine and its methods. The network
--   is a script of what its coming writes, reads and close meet: a write may be short or fail.
-- - Telnet/Connector: the connector and the connection that permits one session
--   (telnet/connector.go).
-- - Telnet/Writing, Telnet/Negotiation, Telnet/Delivery: what reaches the wire, what is negotiated,
--   and what the other end reads.
-- - Parsing: the byte parser's Write, protectString and restorePlaceholders (parsing/parser.go);
--   Parsing/Strings follows UTF-8 text through a control string.
-- - Recorder: the flight recorder; Recorder/Eviction and Recorder/Bounds compare it with the whole
--   history of a session.
-- - Keys and Keys/Encode: key presses and the bytes that they send.
-- - Events: the events of a session, its subscribers and the count of unsupported sequences
--   (session.go); Events/History and Events/Subscribers follow them over a whole session.
-- - Session: a session over a stream and a terminal (session.go), with Send, Press, Resize and
--   Close; Session/Reader: the read loop. A channel that is replaced when it is closed is a count of
--   those that were closed. Session/Heard is what there is to see of a session: what comes of the
--   host's output and of the sizes asked for, without locks, errors and channels, against which
--   Session/Calls runs the operations; Session/Closing and Session/Answerback run the operations
--   one after another; Session/Waiting is the step relation of WaitFor beside the reader, Send,
--   Resize and Close, where a step is what a goroutine does between two locks.
-- - Workbench: recordings and their manager (workbench/recording.go), over a driver whose controls
--   are an interface; Workbench/Replay replays, Workbench/Modifiers names modifiers and reads the
--   names back. Workbench/Trace compares a recording with what a user did, and Workbench/Leases
--   counts the controls that are granted and held.
-- - Controls: the exclusive control of a session that the driver server grants (driver/control.go),
--   and what opening and closing does to the server's maps (driver/server.go). Controls/Exclusive
--   counts the controls for the Workbench; Controls/Steps, Controls/Held and Controls/Until follow a
--   control through whatever the server and its clients do.
-- - Server: the server, its connections and their sessions (server.go, connection.go);
--   Server/Openers runs them in any order.
-- - Matcher: matchers and their serializable specifications; Matcher/Expectation is the
--   description that they are compared with: what a specification means by its connectives, over
--   the tests of the matchers without children.
--
-- Numbers. Positions and sizes are natural numbers where the code keeps them from being negative,
-- and a subtraction that the code guards with max(0, ...) stops at 0. A caller's width, height,
-- row and column, and an OSC command's number, are integers. The revision and the count of dropped
-- bytes wrap at 2^64, and a window's size is sent as two bytes each. Sizes of int are not bounded.
--
-- Fuel. writeBytes takes as many rounds as there are bytes at most, since each round that goes on
-- takes a byte or more. The loop of SGR takes as many rounds as there are parameters, since each
-- round leaves a larger index, and its search for the end of a colon form stops at the last of
-- them. Itoa divides at most as often as its number is large. All other loops are structural.
--
-- Not modelled: mutexes (each method is one step, but for those of Session/Waiting), the byte
-- parser of charmbracelet/x/ansi, which decides the events that the handlers get (in Parsing it
-- is a parameter, of which one says how its strings end), and its StringWidth, a parameter;
-- unicode.ToUpper, a parameter; the texts of error messages and of matchers' descriptions; of a
-- session, WaitForStable and WaitForIdle, which go by the clock, and Screens; the guards of
-- Connect and NewSession before the transport is called, the memory and SSH transports, the
-- driver but for its controls, the user interface, the MCP server, the reference application, the
-- command line programs and the client libraries.
pub mod Prelude
pub mod Telnet
pub mod Screen
pub mod Ansi
pub mod Recorder
pub mod Keys
pub mod Matcher
pub mod Parsing
pub mod Events
pub mod Session
pub mod Workbench
pub mod Controls
pub mod Server
