-- ===== src/Tests.antt =====
-- Tests of the definitions, and each property at a concrete input.
mod Samples
mod StoreExamples
mod WireExamples
mod NetExamples
mod ArrivalExamples
mod ShellExamples
mod NodeExamples
mod SampleExamples
mod NetworkExamples
