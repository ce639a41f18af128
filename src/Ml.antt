-- ===== src/Ml.antt =====
-- ml-intelligence-03/ml: the learning side, a module for each part.
pub mod Bandit
pub mod Classifier
pub mod Features
pub mod Forest
pub mod Flywheel
pub mod Lstm
pub mod Pipeline
pub mod Retrainer
pub mod Serving
