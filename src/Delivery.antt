-- ===== src/Delivery.antt =====
-- Message delivery: internal/message. `Policy` is the decision, `World` what the handler reads and
-- does, `Inputs` the facts that it gathers, `Pipeline` the handler; the other children are what they
-- guarantee.
pub mod Policy
pub mod World
pub mod Inputs
pub mod Pipeline
pub mod Decisions
pub mod Stages
pub mod Gathering
pub mod Staging
pub mod Safety
pub mod Tests
