-- ===== src/Examples.antt =====
-- The theorems at concrete inputs.
mod Text
mod Cases
mod Loading
mod Contact
mod Decisions
mod Parking
mod Calls
mod Work
mod Money
mod Numbers
mod Segments
mod Intake
mod Shares
mod Provider
mod Agents
mod Batch
