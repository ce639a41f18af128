-- ===== src/Contracts/Startup.antt =====
-- When the contracts of integration-07/hardening/contract_validator.py let the system start.
use nimbus_net.Prelude.{
  ℕ, ◌+◌, ◌≡◌, ◌↔◌, refl, arith, String, Bool, true, false, List, [], ◌∷◌, All, if◌then◌else◌,
}
use nimbus_net.Contracts.{
  Severity, fatal, error, warn, Contract, Tally, count_failure, Site, SchemaFile, absent,
  unreadable, fields, answered, mem, minus, is_empty, is_ok, required_fields,
  check_ebpf_telemetry_bus, check_ml_fsm_severity_enum, check_fsm_states_cover_runbooks,
  check_chaos_label_schema_matches_ml, contracts, run_contracts, tally_of, validate_all, exit_code,
}

severity_enum_holds : (s : Site) → is_ok (check_ml_fsm_severity_enum s) ≡ true
unfolding check_ml_fsm_severity_enum
severity_enum_holds s = refl

runbooks_covered : (s : Site) → is_ok (check_fsm_states_cover_runbooks s) ≡ true
unfolding check_fsm_states_cover_runbooks
runbooks_covered s = refl

labels_match : (s : Site) → is_ok (check_chaos_label_schema_matches_ml s) ≡ true
unfolding check_chaos_label_schema_matches_ml
labels_match s = refl

-- What the schema file must be for the first contract.
abbrev pub HasFields : SchemaFile → Type 0
HasFields absent = Unit
HasFields unreadable = ⊥
HasFields (fields exported) = All (λ (x : String). mem x exported ≡ true) required_fields

minus_empty :
    (xs ys : List String)
    → (is_empty (minus xs ys) ≡ true) ↔ All (λ (x : String). mem x ys ≡ true) xs
unfolding minus
minus_empty [] ys = (λ h. tt, λ h. refl)
minus_empty (x ∷ xs) ys =
    (λ h. ground (arith, (minus_empty xs ys).0), λ h. ground (arith, (minus_empty xs ys).1))

ok_if_empty :
    (m : List String)
    → (is_ok (if is_empty m then answered true [] else answered false m) ≡ true)
      ↔ (is_empty m ≡ true)
ok_if_empty [] = (λ h. refl, λ h. refl)
ok_if_empty (x ∷ xs) = (λ h. cc, λ h. cc)

telemetry_holds : (s : Site) → (is_ok (check_ebpf_telemetry_bus s) ≡ true) ↔ HasFields s.schema
unfolding check_ebpf_telemetry_bus
telemetry_holds s = schema_holds s.schema
  where
    schema_holds :
        (f : SchemaFile)
        → (is_ok (check_ebpf_telemetry_bus (record s { schema = f })) ≡ true) ↔ HasFields f
    schema_holds absent = (λ h. tt, λ h. refl)
    schema_holds unreadable = (λ h. cc, λ h. absurd h)
    schema_holds (fields exported) =
        let missing = minus_empty required_fields exported in
        let ok = ok_if_empty (minus required_fields exported) in
        (λ h. missing.0 (ok.0 h), λ h. ok.1 (missing.1 h))

-- How many of the contracts are fatal and fail.
abbrev fatal_weight : Severity → ℕ
fatal_weight fatal = 1
fatal_weight error = 0
fatal_weight warn = 0

unfoldable fatal_among : List Contract → Site → ℕ
fatal_among [] s = 0
fatal_among (c ∷ cs) s =
    let rest = fatal_among cs s in (if is_ok (c.check s) then 0 else fatal_weight c.severity) + rest

failure_counted :
    (ok : Bool) (v : Severity) (t : Tally)
    → (if ok then t else count_failure v t).fatal_count
      ≡ (if ok then 0 else fatal_weight v) + t.fatal_count
failure_counted true v t = omega arith
failure_counted false fatal t = omega arith
failure_counted false error t = omega arith
failure_counted false warn t = omega arith

run_contracts-fatal :
    (cs : List Contract) (s : Site) (t : Tally)
    → (run_contracts cs s t).fatal_count ≡ fatal_among cs s + t.fatal_count
unfolding run_contracts fatal_among
run_contracts-fatal [] s t = omega arith
run_contracts-fatal (c ∷ cs) s t =
    let first = failure_counted (is_ok (c.check s)) c.severity t in
    let rest =
      run_contracts-fatal cs s (if is_ok (c.check s) then t else count_failure c.severity t) in
    ground (arith, first, rest)

fatal_failures :
    (s : Site) → (tally_of s).fatal_count ≡ (if is_ok (check_ebpf_telemetry_bus s) then 0 else 1)
unfolding tally_of contracts fatal_among
fatal_failures s =
    let counted =
      run_contracts-fatal contracts s
        (record { fatal_count = 0; error_count = 0; warn_count = 0 }) in
    ground (arith, counted, severity_enum_holds s, runbooks_covered s, labels_match s)

-- The system starts exactly if the schema of the telemetry is not there or exports every field that
-- the scoring needs, whatever else fails, and whether `fail_on_fatal` is set or not: the other three
-- fatal contracts compare constants that agree, and errors and warnings do not stop it.
pub validate_all_iff :
    (fail_on_fatal : Bool) (s : Site)
    → ((validate_all fail_on_fatal s ≡ true) ↔ HasFields s.schema)
      × ((exit_code s ≡ 0) ↔ HasFields s.schema)
unfolding validate_all exit_code
validate_all_iff fail_on_fatal s =
    let first = telemetry_holds s in
    let failures = fatal_failures s in
    (
      (λ h. first.0 (ground arith), λ h. ground (arith, first.1 h)),
      (λ h. first.0 (ground arith), λ h. ground (arith, first.1 h)),
    )
