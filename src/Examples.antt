-- ===== src/Examples.antt =====
-- Concrete runs at which the theorems of the development are applied.
mod SafetyCases
mod HubCases
mod NodeCases
mod LinkCases
mod VoiceCases
mod Bounded
mod LimbCases
mod TxCases
mod PackCases
mod FlightCases
mod OrchCases
mod XrceCases
