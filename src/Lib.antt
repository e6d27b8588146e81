-- ===== src/Lib.antt =====
-- The flood-reporting backend. Its local services are a marketplace in which a customer of a flooded
-- area files a service request, providers quote on it, the customer selects one, the provider
-- confirms (the qualified match, which costs a fee from prepaid credit) and the job moves on to its
-- completion, or ends by a cancellation, a refund or a lapse. Credit comes from a welcome grant, from
-- PromptPay top-ups that a Stripe webhook confirms, and from operators. Its SOS requests go from a
-- device in need to a community helper who accepts one and carries it through. Its reports are
-- incidents on a map, that other devices confirm or declare over and that moderation may hide.
--
-- The parts, and the files that model them (Go paths from the repository's root):
-- Base        numbers, Go strings as lists of code points, integers, float64 as a parameter.
-- Apperr      internal/domain/apperr: the errors that the modelled use cases build.
-- LocalService  internal/domain/localservice: Provider (provider.go), Request and Offer
--   (request.go), Wallet and Packages (wallet.go). Lifecycle and Steps are the abstract lifecycle,
--   Packages.Parsed the properties of the parsing.
-- Postgres    internal/adapters/outbound/postgres/localservice_repository.go on a Store of tables:
--   Ledger (applyLedger), Providers, Requests (with lockRequest), Matching (SelectOffer,
--   RejectSelection), Accepting (AcceptOffer), Jobs (CurrentMatch, TransitionJob, Cancel), Topups.
--   The parameter records (SelectOfferParams, CancelParams, ...) are those of
--   internal/ports/ports.go. Each repository method is one function from the tables to an Ended: a
--   commit of new tables or a rollback, with its result. The Ends modules say how each transaction
--   can end; Balance, Frames, Moves, Others and Posts say what each one leaves alone; Writes lists all
--   writes with the guards that the service checks; Invariants holds what every sequence of writes
--   keeps; Fee, Refund, Acceptance, Repeats and Settled are about single methods.
-- Service     internal/application/localservice: Program (a use case as a sequence of repository
--   calls), Views (roleOf, view, GetRequest), Customers and Working (service.go), Payments
--   (wallet.go). Laws shows each use case to call the repository as Writes allows, and Interleaving lets
--   any number of them run at once; Access, Privacy, Webhooks, Retries, Quota and Profiles are about the
--   answers of single use cases.
-- Program     how every use case runs: programs of repository calls on any type of tables, transactions
--   and runs alone; Program.Server: runs of many at once. Service.Program, Sos.Service and
--   Report.Service are its instances.
-- Sos         internal/domain/sos (Request, Helpers), the SOS repository
--   internal/adapters/outbound/postgres/sos_repository.go (Tables, Nearby) and
--   internal/application/sos (Service, Helping). Writes and Invariants are the counterpart of
--   Postgres.Writes and Postgres.Invariants; Interleaving, Access, Race and Rescue are about the use
--   cases.
-- Report      internal/domain/report: Kinds and Input (report.go, confirmation.go, reaction.go), Details
--   (details.go), Lifecycle (lifecycle.go); internal/domain/moderation: Complaint; the repositories
--   internal/adapters/outbound/postgres/report_repository.go (Tables, Confirm, Filter) and
--   moderation_repository.go (Moderation), which share the tables; internal/application/report (Service,
--   Browse) and internal/application/moderation (Review). Writes and Invariants are as above;
--   Interleaving, Resend, Hidden and Visible are about the use cases.
-- Examples    concrete runs, and the theorems applied to them.
--
-- How the code is read:
-- * A transaction is atomic: it holds the row locks that its SELECT ... FOR UPDATE takes until it
--   commits. Between the calls of one use case the calls of others may come, so a decision that a
--   use case makes on an earlier read may be stale; the repository decides again under the lock.
-- * Rows are found by the first that passes a WHERE clause and updated wherever it passes. The
--   constraints that can refuse a write are part of it: primary keys (of the issues, which nothing reads
--   back, not), the unique indexes, the CHECKs
--   of the ledger and of the top-ups, the range of an integer column of the ledger
--   (migrations/000011_local_services.up.sql, 000012_promptpay_topups.up.sql). The foreign keys, but for
--   a reaction to a report that is gone, and the failure of a connection are not modelled; a CHECK of
--   any other table that the validation of the use case implies is not repeated.
-- * The events of a request are kept in the order of their insertion, which is that of their bigserial
--   id; a listing sorts them by their time, and by that order where the times are equal. The offers of
--   a request carry their provider, but not the distance.
-- * An identifier (UUID) is a number and a fresh one is an argument. An idempotency key is the pair
--   of its event and its id. Times and durations are integers of nanoseconds, the clock's reading is
--   an argument. Amounts are integers; a policy and the packages are bounded by their validation, far
--   from the range of int. An error's message is its fixed text, without the values that some
--   messages quote; a validation error keeps the names of its fields.
-- * Stripe, the UUID library and the users table are arguments: the result of ParseWebhook and of
--   CreatePromptPay, uuid.Parse, UUID.String, the display names.
-- * Every function is structurally recursive; there is no fuel.
--
-- Not modelled: the listings of the local services (browsing, nearby requests, dashboards), the grid of
-- Aggregate and the operators' queue of moderation, whose results are averages and groups for display;
-- logging, the HTTP handlers, configuration, the other subsystems (routes, follow, official flood data,
-- image cleanup, announcements, cctv, donations, sessions) and the clients of outside services.
pub mod Base
pub mod Apperr
pub mod Program
pub mod LocalService
pub mod Postgres
pub mod Service
pub mod Sos
pub mod Report
pub mod Examples
