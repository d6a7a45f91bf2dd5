-- ===== src/Strings.antt =====
-- The text helpers of workflow-step-by-step/src/util/StringUtil.cc, over lists of bytes.
pub mod Codec
pub mod Split
pub mod Strip
