-- ===== src/TypeGenerator.antt =====
-- The type names of mcf_tools/types_generator: their trees, their parser, and the checks of a
-- definition's types.
pub mod TypeExpr
pub mod Parser
pub mod Namespaces
pub mod Validity
