-- ===== src/Tests.antt =====
-- Runs of the model on concrete inputs, and for each theorem with hypotheses an input at which they
-- hold.
mod Data
mod Protocol
mod Recast
mod Cf
mod Update
mod Services
mod Startup
mod Setup
mod Dbstore
