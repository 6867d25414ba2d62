-- ===== src/Lib.antt =====
-- A model of mekamb-chat, an end-to-end encrypted messenger: the backend on Cloudflare Workers
-- (server/src) and the logic of the browser client (web/src/lib), with theorems on what they do.
--
-- The program. Clients seal envelopes and leave them in the mailbox of a user, a Durable Object that
-- hands them to each device of the user and forgets what all have read. A second object orders the commits
-- of a group, and a third limits rates. Accounts are made and entered by OPAQUE and a one-time code,
-- which can be changed after a reauthentication; a device may keep a lasting session by a refresh token
-- that changes with each use. A directory lists devices and hands out their one-time key packages, and
-- delivery tokens, each spent once, let a sender in without a name. The routes of the Worker check who
-- may call which of these. The client's messenger drives the core of MLS: it seals and opens messages,
-- changes the members of a group, each time after the server grants the epoch, and saves the core's state.
-- The client keeps one connection with its mailbox, retries envelopes that fail, collects receipts, sets up
-- calls between browsers, keeps the history in a vault, lays out the thread and draws the QR code by which
-- another device is brought in.
--
-- The files.
--   Common/*            lists, texts, maps in insertion order, signed numbers
--   Server/Inbox        server/src/inbox.ts, `UserInbox`: tables as lists of rows, one function per
--                       method; Inbox/Wire the bytes on a socket, Inbox/Counting the query that counts
--                       readers, Inbox/Invariant, Inbox/Migration and Inbox/Known the invariants, Inbox/Acknowledge what
--                       is deleted, Inbox/Trace histories of calls, Inbox/NoLoss the
--                       envelopes that wait
--   Server/Relay        server/src/group.ts, `GroupRelay`
--   Server/RateLimit    server/src/ratelimit.ts, `RateLimiter`
--   Server/Auth         server/src/auth.ts, session.ts, totp.ts: Auth/State the tables, Auth/Register,
--                       Auth/Login and Auth/Lasting the routes, Auth/History sequences of requests
--   Server/TotpChange   server/src/auth.ts, the routes under /totp/change; TotpChange/Effects and
--                       TotpChange/Reauthentication sequences of their requests, TotpChange/Admission who may start a change
--   Server/Routes       server/src/index.ts with middleware.ts and `verifyToken` of crypto.ts;
--                       Routes/Access and Routes/Deposits what gets through
--   Server/Attachments  server/src/attachments.ts, Attachments/Cleaning what is deleted
--   Server/Passkeys     server/src/webauthn.ts: challenges, keys and the login by a passkey;
--                       Passkeys/SingleUse and Passkeys/Admission histories of its requests
--   Server/Directory    server/src/directory.ts: devices and key packages
--   Server/Tokens       server/src/tokeny.ts: spending of delivery tokens
--   Web/Connection      web/src/lib/polaczenie.ts, `polaczZeSkrzynka` as a step function on events
--   Web/Receipts        web/src/lib/potwierdzenia.ts, `Zbieracz` and `wyzszyStan`
--   Web/Envelopes       web/src/lib/koperty.ts
--   Web/History         web/src/lib/historia.ts: the operations on stored conversations; History/Merging
--                       the merging of two devices, History/Union and History/MergedMarks what it gives
--   Web/Echoes, Web/Requests, Web/Vanishing
--                       web/src/lib/echa.ts, prosby.ts and blokady.ts, znikanie.ts
--   Web/Messenger       web/src/lib/messenger.ts: the core, the network and exceptions; Messenger/Mailboxes
--                       the sending of envelopes, Messenger/Packing bytes, Messenger/Commits the changes of a
--                       group, Messenger/Sending and Messenger/Receiving messages; Messenger/Ensures,
--                       TidySteps, SavedFirst and Traces what the journal shows, Messenger/RoundTrips
--   Web/Calls           web/src/lib/calls.ts: `PeerLink`, with Calls/Room `Call`; Calls/Keeps, Verified,
--                       Candidates and Glare its signals
--   Web/DeliveryTokens  web/src/lib/tokeny.ts, with DeliveryTokens/Stock
--   Web/Refusals, Web/Direct
--                       web/src/lib/relay.ts, rozmowy.ts
--   Web/Pairing         web/src/lib/parowanie.ts; Pairing/Invitation the code, Pairing/Progress the report
--   Web/Thread          web/src/lib/watek.ts, `ulozWatek`
--   Web/Qr/*            web/src/lib/qr.ts: Field and Correction the Reed-Solomon code, Versions and
--                       Stream the data bytes, Interleave the codewords, Grid, Patterns, Information and
--                       Zigzag the matrix, Penalty the choice of the mask; Reading, Separating, Symbol
--                       and Decoding a reader of the standard, FieldLaws, Multiplication, Roots,
--                       Codeword, Smallest, Filling, RoundTrip, Alignment, Places, Room, Codewords,
--                       Distance and Best the theorems; Scanner a reader by the standard alone, Expected
--                       and Scanning that it reads what is written
--   Web/Frame           the taking apart of a mailbox frame (web/src/Czat.tsx) and the acknowledgement
--   Protocol            the two sides together: MailboxFrames what the server writes and the client reads,
--                       Epochs, Claims, Quiet and NoFork members that race for the epochs of a group
--   Tests               runs on concrete states
--
-- How state is modelled. A table is the list of its rows and a statement of SQL is a function on it;
-- a JavaScript map is an association list in the order of insertion. An operation takes the state,
-- its arguments, the time `now` in milliseconds and the random values that it draws, and gives the new
-- state and its answer. A Durable Object serves one call at a time, so that a history is a list of
-- calls; a request to the routes of the Worker is taken as one step as well. Exceptions are `none`; in the
-- messenger an operation keeps the state that it had reached when it threw, as an `Outcome` with a state,
-- and in a call a step says whether it ended without one. The messenger's journal records its calls of the
-- core, savings and envelopes. Requests that the source makes at once (`Promise.all`) are made one after
-- another; the refilling of tokens that starts after an envelope is left, and the queue in which envelopes
-- are handled, are taken as separate operations. Saving to the vault and the sending of a call's signal are
-- taken to succeed. Where a signal can come between the parts of an offer, the parts are two steps;
-- the handling of one signal by `przyjmij`, with the candidates that it gives over, is one step, although the
-- source lets other signals in where it waits for the connection.
--
-- Parameters. OPAQUE, the cipher of secrets, the TOTP library, the signature of access tokens and the
-- hash of refresh tokens are fields of `Services`; the check of a delivery token is an argument; the
-- WebAuthn library is `Verifier`; the calendar and the formats of dates are the fields of `Calendar`,
-- the printing of numbers and the order of texts in the merging of histories those of `Platform`. The
-- messenger's core and network are a `Platform` of its own over any states, with nothing taken for granted
-- but that, in the race for epochs, claims go to the route of the server; a connection between browsers
-- is `Peer`; base64, escaping and the reading of addresses are `Browser`; the server's signature, base64
-- and check of delivery tokens are `Crypto`. The runtime's sockets, timers and alarms come in as events.
--
-- Numbers. All are natural numbers. Times and ids do not reach 2 ^ 53, where the source's numbers
-- would lose precision; the id on a socket is taken modulo 2 ^ 64 by its eight bytes. The limiter's
-- floating-point tokens are counted in exact parts of a token. Fuel is used in three places: the decimal
-- digits in Web/Frame have one more than the number, which is enough as each digit divides it by ten, and
-- the loop that fills up a byte in Web/Qr/Stream has eight rounds, of which seven are enough; the
-- cutting of identifiers in Web/Messenger/Packing has as many rounds as there are bytes, and each takes sixteen.
-- A JavaScript shift by a negative count is written out modulo 32, and the percentage of dark modules
-- in the penalty of a QR code is an exact quotient. Names are compared character by character, which on
-- the letters, digits and signs of a user name is the order of the source.
--
-- Not modelled: in the messenger, files, the opening and restoring of an account and the publishing
-- of key packages; in calls, media, the camera and the statistics; on the server, CORS, the signing of
-- tokens, the issuing of delivery tokens, reports and the credentials of call servers; the drawing of a
-- QR matrix as an SVG path; the vault and the requests over HTTP, the user interface with its names,
-- lists and preferences, and the code in Rust and Kotlin (core, opaque, transport, android).
pub mod Common
pub mod Server
pub mod Web
pub mod Protocol
pub mod Tests
