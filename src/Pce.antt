-- ===== src/Pce.antt =====
-- internal/pce: the objects of the Illumio PCE and the client.
pub mod Objects
pub mod Interfaces
pub mod Client
pub mod Traffic
pub mod RuleSearch
pub mod Http
