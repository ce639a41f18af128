-- ===== src/Ml/Lstm.antt =====
-- ml-intelligence-03/ml/models/lstm.py: the recurrent network over a flow's last feature vectors.
-- The arithmetic of arrays is numpy's: a `Numpy` says what its operations give. A probability is a
-- whole number of millionths. A pickled file is read back as it was written. The random weights that
-- are for tests only are not modelled.
pub mod Window
pub mod Layers
pub mod Files
use nimbus_net.Prelude.{
  ℕ, zero, suc, ◌+◌, ◌-◌, ◌*◌, ◌/◌, String, Bool, true, false, Option, none, some, List, [], ◌∷◌,
  ◌++◌, length, ltb, if◌then◌else◌, map,
}
use nimbus_net.Prelude.Fractions.{Ratio}
use nimbus_net.Ml.Features.{FeatureVector, n_features}
use nimbus_net.Ml.Flywheel.{
  FaultType, unknown, network_latency, packet_loss, region_partition, congestion, syn_flood,
  cascading,
}

-- The operations on arrays that the module uses. `shift` is `x - x.max()`, `share` is `e / e.sum()`,
-- `clip` is that to [-88, 88], `rows n` the first length of an array.
pub record Numpy (Vec Mat : Type 0) : Type 0 where
  pub array : List Ratio → Vec
  pub zeros : ℕ → Vec
  pub dot : Mat → Vec → Vec
  pub add : Vec → Vec → Vec
  pub mul : Vec → Vec → Vec
  pub slice : ℕ → ℕ → Vec → Vec
  pub tanh : Vec → Vec
  pub exp : Vec → Vec
  pub negate : Vec → Vec
  pub clip : Vec → Vec
  pub add_one : Vec → Vec
  pub invert : Vec → Vec
  pub shift : Vec → Vec
  pub share : Vec → Vec
  pub size : Vec → ℕ
  pub argmax : Vec → ℕ
  pub item : Vec → ℕ → ℕ

pub record LstmCell (Vec Mat : Type 0) : Type 0 where
  pub w : Mat
  pub u : Mat
  pub b : Vec

pub record Lstm (Vec Mat : Type 0) : Type 0 where
  pub seq_len : ℕ
  pub hidden_size : ℕ
  pub n_classes : ℕ
  pub lstm1 : Option (LstmCell Vec Mat)
  pub lstm2 : Option (LstmCell Vec Mat)
  pub w_out : Option Mat
  pub b_out : Option Vec
  pub window : List (List Ratio)
  pub trained_at : Option ℕ
  pub training_sequences : ℕ
  pub version_hash : String

-- `FaultType(i)`; `none` is the ValueError.
unfoldable pub fault_type_of : ℕ → Option FaultType
fault_type_of zero = some unknown
fault_type_of (suc zero) = some network_latency
fault_type_of (suc (suc zero)) = some packet_loss
fault_type_of (suc (suc (suc zero))) = some region_partition
fault_type_of (suc (suc (suc (suc zero)))) = some congestion
fault_type_of (suc (suc (suc (suc (suc zero))))) = some syn_flood
fault_type_of (suc (suc (suc (suc (suc (suc zero)))))) = some cascading
fault_type_of _ = none

abbrev pub drop {ℓ} : {A : Type ℓ} → ℕ → List A → List A
drop zero xs = xs
drop (suc n) [] = []
drop (suc n) (x ∷ xs) = drop n xs

abbrev pub replicate {ℓ} : {A : Type ℓ} → ℕ → A → List A
replicate zero x = []
replicate (suc n) x = x ∷ replicate n x

-- `deque(maxlen=n)` after it took in these elements.
unfoldable pub keep_last {ℓ} : {A : Type ℓ} → ℕ → List A → List A
keep_last n xs = drop (length xs - n) xs

module _ {Vec Mat : Type 0} where
  abbrev pub new_lstm : ℕ → ℕ → ℕ → Lstm Vec Mat
  new_lstm seq_len hidden_size n_classes = record {
    seq_len = seq_len;
    hidden_size = hidden_size;
    n_classes = n_classes;
    lstm1 = none;
    lstm2 = none;
    w_out = none;
    b_out = none;
    window = [];
    trained_at = none;
    training_sequences = 0;
    version_hash = "";
  }

  unfoldable pub push : List Ratio → Lstm Vec Mat → Lstm Vec Mat
  unfolding keep_last
  push v m = record m { window = keep_last m.seq_len (m.window ++ v ∷ []) }

  unfoldable pub reset : Lstm Vec Mat → Lstm Vec Mat
  reset m = record m { window = [] }

  abbrev pub is_loaded : Lstm Vec Mat → Bool
  is_loaded m = elim m.lstm1 [ none ↦ false | some c ↦ true ]

-- The window with zeros in front, up to the length of a sequence.
unfoldable pub padded : ℕ → List (List Ratio) → List (List Ratio)
padded seq_len window =
    if ltb (length window) seq_len
    then replicate (seq_len - length window) (replicate n_features (record { num = 0; den = 1 }))
      ++ window
    else window

module _ {Vec Mat : Type 0} (np : Numpy Vec Mat) where
  unfoldable pub sigmoid : Vec → Vec
  sigmoid x = np.invert (np.add_one (np.exp (np.negate (np.clip x))))

  unfoldable pub softmax : Vec → Vec
  softmax x = np.share (np.exp (np.shift x))

  abbrev pub hidden_of : LstmCell Vec Mat → ℕ
  hidden_of c = np.size c.b / 4

  -- The new hidden state and the new cell state.
  unfoldable pub forward : LstmCell Vec Mat → Vec → Vec × Vec → Vec × Vec
  unfolding sigmoid
  forward cell x (h, c) =
      let n = hidden_of cell in
      let gates = np.add (np.add (np.dot cell.w x) (np.dot cell.u h)) cell.b in
      let i = sigmoid (np.slice 0 n gates) in
      let f = sigmoid (np.slice n (2 * n) gates) in
      let g = np.tanh (np.slice (2 * n) (3 * n) gates) in
      let o = sigmoid (np.slice (3 * n) (4 * n) gates) in
      let c_new = np.add (np.mul f c) (np.mul i g) in (np.mul o (np.tanh c_new), c_new)

  -- The loop over the sequence: both layers move at each step.
  unfoldable pub run_layers :
      LstmCell Vec Mat → LstmCell Vec Mat → List Vec → Vec × Vec → Vec × Vec → Vec × Vec
  run_layers cell1 cell2 [] s1 s2 = s2
  run_layers cell1 cell2 (x ∷ xs) s1 s2 =
      let s1' = forward cell1 x s1 in run_layers cell1 cell2 xs s1' (forward cell2 s1'.0 s2)

  abbrev pub at_rest : ℕ → Vec × Vec
  at_rest n = (np.zeros n, np.zeros n)

  -- The output layer, at the last hidden state.
  unfoldable pub readout : Mat → Vec → Vec → Option (FaultType × ℕ)
  unfolding softmax fault_type_of
  readout w_out b_out h =
      let probs = softmax (np.add (np.dot w_out h) b_out) in
      elim (fault_type_of (np.argmax probs)) [
        | none ↦ none
        | some t ↦ some (t, np.item probs (np.argmax probs))
      ]

  -- The part of `predict` behind the test of the window's length, with weights in all four places.
  unfoldable pub classify_window :
      LstmCell Vec Mat → LstmCell Vec Mat → Mat → Vec → Lstm Vec Mat → Option (FaultType × ℕ)
  unfolding padded run_layers readout
  classify_window cell1 cell2 w_out b_out m =
      let seq = map np.array (padded m.seq_len m.window) in
      let rest = at_rest m.hidden_size in
      readout w_out b_out (run_layers cell1 cell2 seq rest rest).0

  -- The prediction and its confidence; `none` where it raises: without weights, or with weights
  -- that are there in part.
  unfoldable pub predict : Lstm Vec Mat → Option (FaultType × ℕ)
  unfolding classify_window
  predict m = elim m.lstm1 [
    | none ↦ none
    | some cell1 ↦ if ltb (length m.window) 2 then some (unknown, 1000000) else elim m.lstm2 [
      | none ↦ none
      | some cell2 ↦ elim m.w_out [
        | none ↦ none
        | some w ↦ elim m.b_out [ none ↦ none | some b ↦ classify_window cell1 cell2 w b m ]
      ]
    ]
  ]
