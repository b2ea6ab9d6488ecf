-- ===== src/Transform.antt =====
-- The views of the tables of predictors (transformations/*.py).
pub mod Names
pub mod Frame
pub mod Base
pub mod Views
