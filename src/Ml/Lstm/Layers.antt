-- ===== src/Ml/Lstm/Layers.antt =====
-- The two layers of ml-intelligence-03/ml/models/lstm.py, one after the other.
use nimbus_net.Prelude.{List, [], ◌∷◌}
use nimbus_net.Ml.Lstm.{Numpy, LstmCell, Lstm, forward}

module _ {Vec Mat : Type 0} (np : Numpy Vec Mat) where
  -- One layer over a whole sequence: its last state, and what it puts out at each step.
  pub run_layer : LstmCell Vec Mat → List Vec → Vec × Vec → Vec × Vec
  run_layer cell [] s = s
  run_layer cell (x ∷ xs) s = run_layer cell xs (forward np cell x s)

  pub outputs : LstmCell Vec Mat → List Vec → Vec × Vec → List Vec
  outputs cell [] s = []
  outputs cell (x ∷ xs) s = (forward np cell x s).0 ∷ outputs cell xs (forward np cell x s)
