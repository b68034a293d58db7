-- ===== src/Float.antt =====
-- Python's `float`, as the program uses it. There are no floats in the language of these files, so
-- the type and its operations are a parameter, an instance of `Float`. `Float.Laws` says what the
-- proofs need of it, and `Float.Whole` meets those laws with whole numbers.
pub mod Defs
pub mod Laws
pub mod Folds
pub mod Rounding
pub mod Whole
unfoldable pub use Defs.*
