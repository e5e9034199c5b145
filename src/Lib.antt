-- ===== src/Lib.antt =====
-- XeronMX, a backup mail exchanger: a model of the parts that decide what happens to a message.
--
-- The server in internal/smtpd takes mail for the configured domains, files a row in the SQLite
-- table of internal/store and a body in the spool of internal/blob. The server in
-- internal/submission takes mail from signed-in users: it asks the limiter of internal/ratelimit
-- before it checks a password, and books the recipients in the month's account of the domain.
-- Workers in internal/sender claim rows that are due, deliver them and record the outcome. The
-- probes of internal/health decide whether a domain's primary is up, which the claims ask for, and
-- pull the retries of a domain forward when it comes back. All of them record events, which
-- internal/webhook reads in the order of their ids and files for the subscriptions, and tell
-- internal/alert, which announces outages that last.
--
-- Files and what they model:
--   Prelude       no Go source: native numbers, lists, tests shared by all files
--   Text, Unicode byte strings (Equality: proofs), and the functions of Go's strings package that want
--                 Unicode tables
--   Store/Time    internal/store/store.go formatTime: instants and the order of their texts
--   Store/Types   the rows: Message, Domain, PrimaryStatus, Event and the tables as lists (Db)
--   Store/Queue   internal/store/queue.go and the quarantine of filters.go, a function a statement;
--                 Rows (lemmas on one statement), Ops (statements as steps), Lifecycle, Retention,
--                 Returning, Claims, Bounds (proofs)
--   Store/Domains internal/store/domains.go and recipients.go; Probing (proofs)
--   Store/Usage   internal/store/sendlimit.go; Accounting (proofs)
--   Store/Users, Store/SmtpUsers
--                 internal/store/users.go: the accounts of the web interface with their sessions,
--                 and those of submission; Rows, Admins, Sessions (proofs)
--   Store/Webhooks internal/store/webhooks.go and the event ids of meta.go
--   World         the database, the spool (internal/blob Put, Get, Delete), events, filter counts and
--                 counters that the daemons share; Keeps (lemmas)
--   Blob          internal/blob: the encrypted file behind Put and Get, Seal and Unseal; Chunks, Roundtrip
--                 (proofs)
--   Ratelimit     internal/ratelimit; Keys, Lines, Calls (lemmas), Window (proofs)
--   Netlimit      internal/netlimit; Limits (proofs)
--   Smtp          go-smtp's error replies as the handlers build them
--   Mailutil      internal/mailutil: hop count, subject, trace header; Tokens, Folding (proofs)
--   Filter, Spam  internal/filter, internal/spam: content rules (First: proofs), what is made of rspamd's
--                 answer
--   Authres       internal/authres: the result header and whether it authenticates the sender
--   Smtpd         internal/smtpd: newSession, Mail, Rcpt, Reset; Data (the DATA command); Replies,
--                 Accept, Delivery (proofs)
--   Submission    internal/submission: newSession, Auth, Mail, Rcpt, Reset; Data (the DATA command);
--                 Replies, Delivery, Sessions (proofs)
--   Sender        internal/sender/outbound.go transmit; Direct (sendDirect, directTo, lookupMX), Deliver
--                 (internal/sender/sender.go deliver, settle, bounce, maintain); Tally, Partition,
--                 Bounces, Settled, Released, Bodies (proofs)
--   Health        internal/health: checkAll, primaryKey, apply; Grouping, Recovery, Rows, Rounds
--                 (proofs)
--   Webhook       internal/webhook: the reading loop, the attempts and their delays; Filing,
--                 Draining, Attempts, Rows, Rounds, Settling (proofs)
--   Alert         internal/alert/alert.go: which alerts are queued; Log (lemmas), Spacing, Outages (proofs)
--   Totp          internal/totp: the checking of a one-time password; Replay (proofs)
--   Examples      in each part: tests, and the theorems at concrete values
--
-- A statement of SQL is a function on the list of rows. A handler is a function of its inputs, the
-- session and the world; what it asks of the outside (clock, random id, DNS, checkers) and which of
-- its calls fail are fields of an input record, which a theorem quantifies over. AES-GCM and HKDF,
-- HMAC-SHA1, the check of a password and the Unicode tables are parameters.
-- Texts are lists of bytes. Numbers are natural: counts, sizes and times of the source are
-- int64 that it never makes negative, and sums stay below 2^63 for times before the year 2262.
-- The recursions are on lists and digits but for two, which run on fuel: the decimal digits of an
-- int64, at most 19, and the chunks of an encrypted file, each of which takes a byte at least, so
-- that a round more than there are bytes is enough.
--
-- Not modelled: the HTTP API, configuration, the cluster, the web interface and the
-- commands; signing and sealing of messages, the loop that claims batches, relays and routes; the
-- network, TLS and the SMTP dialogue of go-smtp; the loops that wait for a tick. The spool in World
-- holds bodies as they are, and their encryption stands apart from it. Log lines are left out. Of an
-- event the free-form data is left out.
mod Prelude
pub mod Text
pub mod Unicode
pub mod Store
pub mod World
pub mod Smtp
pub mod Mailutil
pub mod Filter
pub mod Spam
pub mod Smtpd
pub mod Sender
pub mod Authres
pub mod Ratelimit
pub mod Submission
pub mod Webhook
pub mod Health
pub mod Netlimit
pub mod Blob
pub mod Alert
pub mod Totp
