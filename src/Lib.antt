-- ===== src/Lib.antt =====
-- Verification of Marginalis, a server that keeps notes in AsciiDoc and offers them to
-- browsers, to a REST interface and to clients of the Model Context Protocol (MCP).
--
-- The program is a workspace of Rust crates. crates/marginalis-domain has the data of notes,
-- identities and the limits of their input. crates/marginalis-application has the use cases
-- over repositories that are traits, among them the application of a patch to a note.
-- crates/marginalis-sqlite implements the repositories by SQL statements in transactions. The
-- other crates are the transport (marginalis-web, marginalis-contract), the AsciiDoc analysis,
-- the archive and the process. A request passes through the transport to a use case, which
-- reads and writes through a repository; every transaction either commits or leaves the
-- database as it was.
--
-- Which file models which part:
--
-- - Patch and the files below it: crates/marginalis-application/src/notes/patch.rs. Patch/Hunk
--   has the data, Patch/Parse has `parse_patch`, Patch/Apply has `apply_note_patch`, with its
--   loops as recursion on the hunks and on the lines.
-- - Mcp and the files below it: crates/marginalis-sqlite/src/mcp.rs. Mcp/Store has the tables,
--   Mcp/Registration the operations that register clients and issue authorization codes,
--   Mcp/Exchange the exchange of a code, Mcp/Tokens those on access and refresh tokens.
--   Mcp/Calls has the histories: `run` performs any sequence of the calls, each as one
--   transaction, and a call that fails is rolled back.
-- - Principals: crates/marginalis-sqlite/src/principal.rs. Domain/Identity:
--   crates/marginalis-domain/src/model/identity.rs. Domain/Policy: the limits of
--   crates/marginalis-domain/src/policy.rs.
-- - Notes and the files below it: the notes of crates/marginalis-sqlite/src/notes.rs,
--   note_acl.rs, note_history.rs and note_reviews.rs, over the tables of schema.sql.
--   Notes/Store has the tables with the checks on a row of notes and the view `note_access`;
--   Notes/Rows restores a note from its row; Notes/History appends the revision that every
--   change records; Notes/Mutations has the creation of a note and the conditional update that
--   the other changes begin with, Notes/Updates the changes of a note that is not deleted,
--   Notes/Removal its restoration and its final removal, which fails as a whole where `ON
--   DELETE RESTRICT` keeps an attachment that a revision shows, each a function to the store
--   after its commit or to the error after which it is rolled back; Notes/Reading has the
--   queries of one note and of the list of notes. Notes/Calls has the histories of
--   transactions, and Notes/Recorded says what the recorded revisions tell of a note, whose
--   history may begin later than with its first revision when it was migrated or imported.
--   Notes/Commands has the data and the ports of the use cases of
--   crates/marginalis-application/src/notes/commands.rs, which are in Notes/Saving and
--   Notes/PatchCommand; their calls of the repository are separate transactions, so each is
--   given the store that it finds.
-- - Sync and the files below it: crates/marginalis-sqlite/src/note_sync.rs. Sync/Pages has the
--   tables of cursors and of the projection, and `sync_notes_page`; the loops that fill a page
--   are one function, `fill`, over the rows that the query of the phase finds.
-- - Domain/Notes and Domain/Words: crates/marginalis-domain/src/model/note.rs and `Revision` of
--   model.rs: notes, reviews, and the enumerations with their words.
-- - Webhook and the files below it: crates/marginalis-sqlite/src/webhooks.rs,
--   crates/marginalis-application/src/webhooks.rs and
--   crates/marginalis-application/src/webhooks. Webhook/Store has the tables, Webhook/Claims
--   the claim of due deliveries and the record of an attempt, Webhook/Owned what an owner does
--   to a subscription, Webhook/Delivery the wait after a failure and the tick of the worker,
--   which takes the sender and the JSON text of an event as parameters. Webhook/Claimed and
--   Webhook/Exclusive are on one claim and on claims that follow each other, Webhook/Calls has
--   the histories. Webhook/Destination is webhooks/destination.rs with the parser of URLs as a
--   parameter, Webhook/Address the addresses that it accepts; Webhook/Blocks and
--   Webhook/Outside describe the same addresses by tables of blocks. Webhook/UseCases is
--   webhooks.rs, the use cases of owners on an existing subscription.
-- - Tables: SQL tables as lists of rows, with SELECT, UPDATE, DELETE, and INSERT under a
--   primary key. Tables/Keys: that no two rows have the same key.
-- - Text: strings as lists of Unicode scalar values; Text/Split, Text/Numbers, Text/Words: the
--   operations of `str` that the code uses. Prelude: tests on numbers, lists over the native
--   numbers, and `Result` with the bind that stands for `?`.
--
-- Numbers, bounds and fuel. Rust's `usize` is taken as 64 bits wide: numbers of patch headers
-- are refused from 2^64 on, as `str::parse` does. Times are natural numbers of Unix
-- milliseconds, though the code has `i64`: times before 1970 are outside the model. The loop of
-- `parse_patch` over hunks runs on fuel that is the number of lines; each hunk takes at least
-- its header, so the fuel never runs out before the lines do. Everything else is structural
-- recursion.
--
-- Parameters. `hash_token` (SHA-256) and the URL parser of the `url` crate are parameters, and
-- no law of theirs is assumed: hashes may even collide, except where a theorem says that no two
-- rows have the same hash, which the primary keys of the schema ensure. The validation of
-- AsciiDoc (`NoteContent`), the diagnostics of citations and the ids of a note's attachments
-- are the fields of `Ports`, with no law assumed. The ids that SQLite gives to new rows are
-- arguments of the operations.
--
-- What is not modelled. Failures of the database itself, other than a refused primary key,
-- CHECK or foreign key, have no place in the model: such a call changes nothing. Foreign keys
-- and the CHECK constraints of the schema are modelled for notes, their revisions and their
-- permissions, not for the tables of tokens and webhooks; nor is the deletion of expired rows
-- of tokens. The triggers that write `domain_changes` and the tables of synchronisation from
-- those of notes are not modelled, and neither are the graph and the addition of attachments.
-- Ids are held as the texts that the code writes, tags as the list that their JSON encodes, and
-- a column that a CHECK restricts to the words of an enumeration as the enumeration. Messages
-- of errors are left out, and errors are their kinds. Concurrency is the order of whole
-- transactions, which SQLite serialises. The transport, the AsciiDoc analysis, the archive, the
-- bibliography and the web pages are not modelled.
pub mod Prelude
pub mod Text
pub mod Domain
pub mod Mcp
pub mod Notes
pub mod Patch
pub mod Principals
pub mod Sync
pub mod Tables
pub mod Webhook
