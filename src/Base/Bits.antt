-- ===== src/Base/Bits.antt =====
-- Laws of `&` and `|` at variables: binary digits, and flags of one bit.
mod Step
mod Digit
mod Field
mod Mask
pub use Step.{bit_or_step, bit_and_step}
pub use Digit.*
pub use Field.*
pub use Mask.*
