-- ===== src/Liquidity.antt =====
mod Records
mod Classify
mod Series
mod Conservation
mod Owners
mod Outstanding
mod Unspent
mod Spenders
mod Boundary
mod Summary
mod WindowLaws
mod Fin
mod Totals
mod FinLaws
mod Samples
