-- ===== src/Api.antt =====
-- The verbs of src/wifiAp.c: those that set, those that read, and the table of all.
pub mod Asked
pub mod Setters
pub mod Getters
pub mod Table
pub mod Reports
pub mod Calls
pub mod Refused
pub mod Answers
pub mod Verbs
pub mod Reach
pub mod Serves
pub mod Served
