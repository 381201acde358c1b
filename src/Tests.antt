-- ===== src/Tests.antt =====
-- Runs of the model on concrete inputs, and the theorems at inputs that meet their hypotheses.
mod Encoding
mod Journal
mod Covenants
mod NameStates
mod Padding
mod Urkel
mod Header
mod Chainwork
mod Mining
