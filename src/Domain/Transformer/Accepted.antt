-- ===== src/Domain/Transformer/Accepted.antt =====
-- What the methods of `BMLTransformer` leave when they accept their operands.
pub mod Literals
pub mod Rms
pub mod StageLoops
pub mod Staged
pub mod Matmul
pub mod Tensor
pub mod Op
pub mod Softmax
