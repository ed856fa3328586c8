-- ===== src/Lib.antt =====
-- go-signal is a Signal client: a library over a third-party protocol library, a command line, and
-- servers that programs use it through. Its own logic stands in internal/signal (what a message
-- may hold, what a poll has come to, how a connection is kept), internal/store (the tables of its
-- database), internal/app (recipients, the inbox) and internal/mcp (the tools of `mcp serve`).
-- A receive loop takes events from the client, keeps them in the inbox's table and reduces polls
-- from what is kept; a send goes through the resolution of its recipients, the allowlist, the
-- user's confirmation and the check of the request.
--
-- The files, each of which says which code it is about:
--   Base, Std   the lists, options, tests and strings that all share, and Go's unicode/utf8,
--               encoding/base64 and strconv as far as the code uses them.
--   Uuid        the third-party UUID library, an interface with what the checks use.
--   Types, Events   internal/signal/types.go, events.go and the files of single kinds of content:
--               the records, and the closed sum of incoming events.
--   Request     SendRequest.Check of internal/signal/send.go and the checks of poll_check.go,
--               pin_check.go, stories_send.go, sticker.go and styles.go; Request/Kinds the theorem.
--   Poll        ReducePoll of internal/signal/poll_reduce.go: State (PollState), Creation and
--               Observe (the two passes over the events), Reduce (the tally); the proofs are in
--               Validation, Tally, Retained, Order, Counting, Outcome, Lifecycle, Retention,
--               Relevance and Authority.
--   Reconnect   internal/signal/reconnect.go: Policy (backoff) and Supervisor, a state machine
--               whose steps are what ends a wait of the Go code; the proofs are in Backoff,
--               Progress and Reports.
--   Inbox       Table is internal/store/inbox.go, with Order and Marks about it; Classify and
--               Receive (with Growth and Receiving) are Run of internal/app/inbox.go, Receipts (with
--               Batches and Reading) internal/app/receipts.go and MarkRead, Pages (with Windows,
--               Split and Paging) List and its cursors, Entries (with Lookups) markReadEntries and
--               Message.
--   Pins        internal/app/pin_list.go: the pins of a chat, reduced from a snapshot of its inbox,
--               in Observation, Reducer and Listing, with Observed about them.
--   Counters    internal/store/poll_counters.go: the vote counter of each poll; Own is
--               internal/signal/poll_counters.go.
--   Policy      Targets is internal/app/recipient.go (with Resolving about it), Arguments the forms
--               of recipients, groups, references and allowlists in arguments, Allowlist
--               internal/app/policy.go (with Allowing, and Naming about whom an entry names).
--   Send        what goes out: Content and Deliver are the send of internal/app/send.go with its
--               stages in sendPreparedContent's order (with Delivery, Outcomes and Results about
--               them), StyleArguments, Prepare, Mentions and Message the checks and the content of a
--               message (styles.go, send.go, content.go, sticker.go), Emoji react.go, Pinning
--               pins.go (with PinGroups), PollChecks and Polling polls.go (with Voting), Receipt
--               viewed_receipts.go (with ReceiptChecks). Refusals is about all of them. The client is a
--               record of functions: what it answers may depend on what it was given before.
--   Groups      internal/signal/groups.go and its files of single changes: State, Members
--               (additions, removals, creation; Named is about whom they name), Changes (roles and
--               bans, with Promoting and Banning), Settings (with Updating), Leaving (with AdminCounts,
--               Promotions and Remaining) and Accepting.
--   Store       Rows (tables with a key), Timers (chat_timers.go, contacts.go, sticker_packs.go of
--               internal/store, with TimerLaws) and Projections (poll_projections.go, with Seeding,
--               PollKeys, Writing, Gathering and Reduced). Poll.Evidence and Poll.Encoding give it
--               the evidence of an event, and Poll.Show is internal/app/poll_show.go.
--   Identities  Trust is internal/signal/identity.go (with Numbers), Table the identities and their
--               pending updates of internal/store (with Trusting).
--   Names       internal/app/names.go and the names of internal/signal/contacts.go (with Labels);
--               Book is the names that an event needs and their reload.
--   Confirm     internal/mcp/confirm.go: the calls that wait for the user.
--   Tests       runs of the definitions, and the theorems at concrete inputs.
--
-- Go's int64, uint64 and uint32 are natural numbers, with their bounds written out where the code
-- reaches them (Poll.Observe, Reconnect.Policy, Inbox.Table, Counters, Groups.Changes, and the
-- timestamps of Send.Deliver). A string is its bytes, a time the nanoseconds since Go's zero time, a
-- map a list in the order that a walk of it takes. A Go error is a value; where errors are joined,
-- there is one. Loops go over lists (that of Run over the turns of its select: an event, or the end
-- of its context), and the supervisor goes over the acts of its environment. Two
-- loops have fuel: seed_from of Store.Projections takes one turn more than the inbox has rows, since
-- each turn but the last passes at least one, and blocks_from of Identities.Trust as many as the
-- number has bytes, since each drops five. Theorems say that both suffice.
--
-- Parameters are the client and what it answers, the directory of users, the UUID library, Unicode's
-- tables of letters and of printable characters, the decoder of images, the reading of files, the
-- encoding of events with its hash, what receipts reach the server, and what the store fails to do.
--
-- Not modelled: the protocol library and the code that only calls it, files, locks, accounts and
-- recovery of the store, the requests to the group server, profiles, stories' audiences, downloads,
-- the import of accounts, the JSON of events, printing and flags, and concurrency: each operation
-- runs by itself, as under the locks of the code.
mod Base
pub mod Std
pub mod Send
pub mod Store
pub mod Types
pub mod Events
pub mod Uuid
pub mod Request
pub mod Poll
pub mod Reconnect
pub mod Groups
pub mod Identities
pub mod Inbox
pub mod Counters
pub mod Policy
pub mod Confirm
pub mod Names
pub mod Pins
mod Tests
