-- ===== src/Examples.antt =====
-- Runs of the model at concrete inputs.
mod Fixtures
mod SelectionExamples
mod MainchainExamples
mod CandidateExamples
mod CommitteeExamples
mod SessionExamples
mod McHashExamples
mod NativeTokenExamples
mod RewardExamples
mod SearchExamples
mod BlockExamples
mod TokenExamples
mod PlutusExamples
mod FollowerExamples
mod AriadneExamples
mod OffchainExamples
