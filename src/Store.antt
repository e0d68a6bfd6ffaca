-- ===== src/Store.antt =====
-- internal/store: the database as a record of tables, each a list of rows, and what a statement
-- takes from outside the process.
--
-- The driver and the server behind it are not modelled. An operation of the store may fail as a
-- whole, as `Io.fails` says, which stands for any error that the driver reports: a transaction is
-- then rolled back, so that the tables are as before. A violated UNIQUE or PRIMARY KEY constraint is
-- such an error too, and is computed from the tables. `Io.now` is the clock, read once in a request.
pub mod Io
pub mod Clients
pub mod AuthCodes
pub mod RefreshTokens
pub mod Devices
pub mod DeviceCodes
pub mod Jtis
pub mod Sessions
pub mod Pats
pub mod AuthRequests
pub mod Users
pub mod PasswordTokens
pub mod Mfa
pub mod Sweep
