-- ===== src/Logical.antt =====
-- rust/core/src/serde/logical_plan: the conversions of data types, schemas, scalar values,
-- expressions and logical plans to the messages of rust/core/proto/ballista.proto and back.
pub mod Arrow
pub mod Messages
pub mod Types
pub mod Scalars
pub mod Functions
pub mod Exprs
pub mod Plans
