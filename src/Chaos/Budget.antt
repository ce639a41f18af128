-- ===== src/Chaos/Budget.antt =====
-- chaos-ci-gate-06/ci/budget_enforcer.py: the error budget's go or no-go for a deployment.
-- A percentage is a number of thousandths of a percent (no budget is consumed below 0, and a NaN in
-- the file is not modelled). What the three readings of the state file and the query give comes in
-- `Sources`.
pub mod Gate
use nimbus_net.Prelude.{
  ℕ, Bool, true, false, ◌&&◌, Option, none, some, List, [], ◌∷◌, leb, ltb, if◌then◌else◌, not,
}
use nimbus_net.Prelude.Int.{ℤ, pos, ◌-ℤ◌}

abbrev pub freeze_threshold : ℕ
freeze_threshold = 80000

abbrev pub warn_threshold : ℕ
warn_threshold = 60000

abbrev pub critical_threshold : ℕ
critical_threshold = 95000

pub data Decision : Type 0 where
  allow warn_only freeze : Decision

-- The four texts of `reason`, each with the percentage that it quotes.
pub data Reason : Type 0 where
  critical_exceeded freeze_exceeded approaching healthy : ℕ → Reason

pub record BudgetStatus : Type 0 where
  pub consumed_pct : ℕ
  pub remaining_pct : ℤ
  pub window_days : ℕ
  pub incidents_this_window : ℕ
  pub last_incident_ts : ℕ
  pub frozen : Bool
  pub warn : Bool
  pub critical : Bool
  pub decision : Decision
  pub reason : Reason

-- An entry of the JSON object: `data.get(key, 0)`, and `float` or `int` of it, which may raise.
pub data Entry : Type 0 where
  missing unusable : Entry
  number : ℕ → Entry

-- `none` is a file that cannot be opened or parsed.
pub record StateFile : Type 0 where
  pub consumed_pct : Entry
  pub incidents_30d : Entry
  pub last_incident_ts : Entry

-- What the Prometheus query comes to: an exception, no result, or a value.
pub data Answer : Type 0 where
  unreachable no_result : Answer
  value : ℕ → Answer

-- The file as each of the three readings finds it, if it exists then.
pub record Sources : Type 0 where
  pub first_read : Option (Option StateFile)
  pub second_read : Option (Option StateFile)
  pub third_read : Option (Option StateFile)
  pub prometheus : Answer

-- The number that a reading gives, if it gives one.
unfoldable pub entry_of : (StateFile → Entry) → Option (Option StateFile) → Option ℕ
entry_of field none = none
entry_of field (some none) = none
entry_of field (some (some f)) = elim (field f) [
  | missing ↦ some 0
  | unusable ↦ none
  | number n ↦ some n
]

abbrev or_zero : Option ℕ → ℕ
or_zero none = 0
or_zero (some n) = n

unfoldable pub read_consumed_pct : Sources → ℕ
unfolding entry_of
read_consumed_pct s = elim (entry_of (λ f. f.consumed_pct) s.first_read) [
  | some n ↦ n
  | none ↦ elim s.prometheus [ unreachable ↦ 0 | no_result ↦ 0 | value n ↦ n ]
]

unfoldable pub read_incident_count : Sources → ℕ
unfolding entry_of
read_incident_count s = or_zero (entry_of (λ f. f.incidents_30d) s.second_read)

unfoldable pub read_last_incident_ts : Sources → ℕ
unfolding entry_of
read_last_incident_ts s = or_zero (entry_of (λ f. f.last_incident_ts) s.third_read)

unfoldable pub check : Sources → BudgetStatus
unfolding read_incident_count read_last_incident_ts
check s =
    let consumed = read_consumed_pct s in
    let frozen = leb freeze_threshold consumed in
    let warn = leb warn_threshold consumed && ltb consumed freeze_threshold in
    let critical = leb critical_threshold consumed in
    record {
      consumed_pct = consumed;
      remaining_pct = pos 100000 -ℤ pos consumed;
      window_days = 30;
      incidents_this_window = read_incident_count s;
      last_incident_ts = read_last_incident_ts s;
      frozen = frozen;
      warn = warn;
      critical = critical;
      decision =
          if critical then freeze else if frozen then freeze else if warn then warn_only else allow;
      reason =
          if critical
          then critical_exceeded consumed
          else if frozen
          then freeze_exceeded consumed
          else if warn
          then approaching consumed
          else healthy consumed;
    }

abbrev pub is_freeze : Decision → Bool
is_freeze allow = false
is_freeze warn_only = false
is_freeze freeze = true

-- The answer of `gate`, and the statuses that the SRE is paged with.
unfoldable pub gate : Sources → Bool × List BudgetStatus
unfolding check
gate s =
    let status = check s in
    (not (is_freeze status.decision), if status.critical then status ∷ [] else [])
