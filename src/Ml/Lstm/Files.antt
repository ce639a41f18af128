-- ===== src/Ml/Lstm/Files.antt =====
-- The file of weights of ml-intelligence-03/ml/models/lstm.py.
use nimbus_net.Prelude.{ℕ, ◌≡◌, ◌⊎◌, arith, String, Option, none, some, inl, inr}
use nimbus_net.Ml.Lstm.{LstmCell, Lstm, new_lstm, reset}

-- The pickled dict. `version` is a constant that is never read.
pub record Payload (Vec Mat : Type 0) : Type 0 where
  pub seq_len : ℕ
  pub hidden_size : ℕ
  pub n_classes : ℕ
  pub lstm1_w : Option Mat
  pub lstm1_u : Option Mat
  pub lstm1_b : Option Vec
  pub lstm2_w : Option Mat
  pub lstm2_u : Option Mat
  pub lstm2_b : Option Vec
  pub w_out : Option Mat
  pub b_out : Option Vec
  pub trained_at : Option ℕ
  pub training_sequences : ℕ
  pub version_hash : String

module _ {Vec Mat : Type 0} where
  abbrev pub w_of : Option (LstmCell Vec Mat) → Option Mat
  w_of none = none
  w_of (some c) = some c.w

  abbrev pub u_of : Option (LstmCell Vec Mat) → Option Mat
  u_of none = none
  u_of (some c) = some c.u

  abbrev pub b_of : Option (LstmCell Vec Mat) → Option Vec
  b_of none = none
  b_of (some c) = some c.b

  -- `LSTMCell(W, U, b)`; `none` is the AttributeError of a `b` that is None.
  abbrev pub cell_of : Option Mat → Option Mat → Option Vec → Option (LstmCell Vec Mat)
  cell_of (some w) (some u) (some b) = some (record { w = w; u = u; b = b })
  cell_of _ _ _ = none

  unfoldable pub save : Lstm Vec Mat → Payload Vec Mat
  save m = record {
    seq_len = m.seq_len;
    hidden_size = m.hidden_size;
    n_classes = m.n_classes;
    lstm1_w = w_of m.lstm1;
    lstm1_u = u_of m.lstm1;
    lstm1_b = b_of m.lstm1;
    lstm2_w = w_of m.lstm2;
    lstm2_u = u_of m.lstm2;
    lstm2_b = b_of m.lstm2;
    w_out = m.w_out;
    b_out = m.b_out;
    trained_at = m.trained_at;
    training_sequences = m.training_sequences;
    version_hash = m.version_hash;
  }

  unfoldable pub load : Payload Vec Mat → Option (Lstm Vec Mat)
  load p =
      let bare : Lstm Vec Mat = record (new_lstm p.seq_len p.hidden_size p.n_classes) {
        trained_at = p.trained_at;
        training_sequences = p.training_sequences;
        version_hash = p.version_hash;
      } in
      elim p.lstm1_w [
        | none ↦ some bare
        | some w ↦ elim (cell_of (some w) p.lstm1_u p.lstm1_b) [
          | none ↦ none
          | some cell1 ↦ elim (cell_of p.lstm2_w p.lstm2_u p.lstm2_b) [
            | none ↦ none
            | some cell2 ↦ some (record bare {
              lstm1 = some cell1;
              lstm2 = some cell2;
              w_out = p.w_out;
              b_out = p.b_out;
            })
          ]
        ]
      ]

  -- The weights are there in all places or in none.
  abbrev pub IsWhole : Lstm Vec Mat → Type 0
  IsWhole m =
      ((m.lstm1 ≡ none) × (m.lstm2 ≡ none) × (m.w_out ≡ none) × (m.b_out ≡ none))
      ⊎ ((c1 : LstmCell Vec Mat) × (c2 : LstmCell Vec Mat) × (m.lstm1 ≡ some c1)
          × (m.lstm2 ≡ some c2))

  -- A network that is saved and loaded again is the network, with an empty window.
  pub load-save : (m : Lstm Vec Mat) → IsWhole m → load (save m) ≡ some (reset m)
  unfolding load save reset
  load-save m (inl (a, b, c, d)) = ground arith
  load-save m (inr (c1, c2, a, b)) = ground arith
