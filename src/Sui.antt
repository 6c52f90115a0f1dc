-- ===== src/Sui.antt =====
-- The client's side of the competition on Sui: charts, rankings and rounds.
mod Chart
mod Rankings
mod Forest
mod Examples
