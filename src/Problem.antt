-- ===== src/Problem.antt =====
-- quantum_problem_compiler.py and qubo_translation.py: optimisation problems and their QUBO matrices.
pub mod Num
pub mod Compiler
pub mod Translator
pub mod Terms
pub mod Energy
pub mod Sums
pub mod Total
mod Tests
