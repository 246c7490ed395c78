-- ===== src/Tests.antt =====
-- Concrete libraries, which show that what is assumed of them can be met, and each theorem at a
-- concrete input.
mod Libraries
mod Inputs
mod Stopping
mod Examples
mod ControllerExamples
mod OrderExamples
mod RunExamples
mod ChangeExamples
mod NodeExamples
