-- ===== src/Tools.antt =====
-- The tool layer, `ZygiskAIRuntime/ai_analyzer/tools`: the specification of a tool and the table.
pub mod Spec
pub mod Specs
pub mod Handlers
