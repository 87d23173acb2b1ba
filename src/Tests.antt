-- ===== src/Tests.antt =====
-- Tests of the model on concrete inputs, and the instances at which the theorems apply.
pub mod Writers
mod TxTests
mod RxTests
mod LivenessTests
mod AgentTests
pub mod Codec
pub mod Guest
mod SessionTests
pub mod EndsTests
mod AccountTests
mod ObedienceTests
mod ErrorTests
mod MessagesTests
mod ReportTests
