-- ===== src/SupDem.antt =====
-- hw1/supdemserv.c: the supply and demand server.
pub mod Word
pub mod State
pub mod Text
pub mod Match
pub mod Queue
pub mod Slots
pub mod Watch
pub mod Listing
pub mod Scan
pub mod Parse
pub mod Session
pub mod Serve
pub mod Server
pub mod Agent
pub mod Owners
pub mod Notifier
pub mod Tester
mod Tests
mod InputTests
mod ScriptTests
mod AgentTests
mod OwnerTests
mod NotifierTests
