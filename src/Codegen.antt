-- ===== src/Codegen.antt =====
-- The generator of Python scripts, web/libs/pythonCodegen.ts: a strategy becomes the text of a script.
-- `Spec` has the strategy and its words, `Expressions` the conditions as Python expressions, `Grammar`
-- the Python grammar that those use, `Script` the script.
pub mod Spec
pub mod Keys
pub mod Expressions
pub mod Grammar
pub mod Script
pub mod Compiled
pub mod Tests
