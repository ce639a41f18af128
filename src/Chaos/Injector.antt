-- ===== src/Chaos/Injector.antt =====
-- chaos-ci-gate-06/injection/qdisc_injector.py: fault injection through tc, and the thread that
-- monitors a session.
--
-- Instants and durations are milliseconds. Percentages are thousandths of a percent. Sessions are
-- shared between threads, so they live on a heap; a session's id is its place there. The clock
-- only moves forward: a reading may take some time (`drift`), and a sleep takes its time and some
-- more (`delay`). The monitor's wakes happen while the main thread sleeps: `wakes n` says how many
-- there are during the n-th sleep. tc is outside the program: `tc n there c` is whether the n-th
-- command c succeeds, where `there` is whether its interface has a root qdisc then; without `has_tc`
-- the program tc is missing, and running it raises. `writes_label p` is whether the label of session
-- p can be written.
pub mod Profiles
mod State
pub mod Sessions
pub mod Waiting
use nimbus_net.Prelude.{
  ℕ, zero, suc, ◌+◌, ◌-◌, ◌*◌, max, String, Bool, true, false, ◌&&◌, ◌||◌, not, ◌⊎◌, inl, inr,
  Option, none, some, List, [], ◌∷◌, ◌++◌, ltb, ◌==◌, str_eq, if◌then◌else◌, Dict, lookup,
}
use Profiles.{FaultType, bandwidth_cap, combined, FaultProfile, fault_profiles}
pub use State.*

unfoldable pub update : ℕ → InjectionSession → (ℕ → InjectionSession) → ℕ → InjectionSession
update p s h q = if p == q then s else h q

abbrev pub set_session : ℕ → InjectionSession → Rig → Rig
set_session p s r = record r { heap = update p s r.heap }

abbrev pub command_count : List Tc → ℕ
command_count [] = 0
command_count (c ∷ cs) = suc (command_count cs)

abbrev part_if : Bool → NetemPart → List NetemPart
part_if b p = if b then p ∷ [] else []

abbrev pub is_bandwidth_cap : FaultType → Bool
is_bandwidth_cap bandwidth_cap = true
is_bandwidth_cap _ = false

abbrev pub is_combined : FaultType → Bool
is_combined combined = true
is_combined _ = false

-- `cmd_parts` behind the first; the jitter stands only behind a delay.
unfoldable pub netem_parts : FaultProfile → List NetemPart
netem_parts p =
    (if ltb 0 p.latency_ms
      then delay p.latency_ms ∷ part_if (ltb 0 p.jitter_ms) (jitter p.jitter_ms)
      else [])
    ++ (part_if (ltb 0 p.loss_pct) (loss p.loss_pct)
        ++ (part_if (ltb 0 p.corrupt_pct) (corrupt p.corrupt_pct)
            ++ (part_if (ltb 0 p.reorder_pct) (reorder (max p.latency_ms 10) p.reorder_pct)
                ++ (part_if (ltb 0 p.duplicate_pct) (duplicate p.duplicate_pct)
                    ++ part_if (is_combined p.fault_type) (delay_loss p.latency_ms p.loss_pct)))))

abbrev pub started : String → FaultProfile → ℕ → InjectionSession
started name p now = record {
  profile_name = name;
  profile = some p;
  start_time = now;
  end_time = 0;
  active = true;
  samples = 0;
  healing_triggered = false;
  healing_latency_ms = 0;
  resolution = unresolved;
}

abbrev pub chosen : String → Option FaultProfile → Option FaultProfile
chosen name none = lookup name fault_profiles
chosen name (some p) = some p

abbrev pub cleared : Resolution → Resolution
cleared unresolved = manual_clear
cleared healed = healed
cleared timeout = timeout
cleared manual_clear = manual_clear
cleared error = error

abbrev pub duration_of : Option FaultProfile → ℕ
duration_of none = 0
duration_of (some p) = p.duration_seconds

abbrev pub is_over : Resolution → Bool
is_over healed = true
is_over timeout = true
is_over _ = false

abbrev pub is_healed : Resolution → Bool
is_healed healed = true
is_healed _ = false

-- The current session, if it is active.
unfoldable pub active_session : Rig → Option ℕ
active_session r = elim r.current [
  | none ↦ none
  | some p ↦ if (r.heap p).active then some p else none
]

abbrev pub iface_of : Tc → String
iface_of (del iface) = iface
iface_of (tbf iface rate) = iface
iface_of (netem iface parts) = iface

abbrev pub adds : Tc → Bool
adds (del iface) = false
adds (tbf iface rate) = true
adds (netem iface parts) = true

abbrev pub set_qdisc : String → Bool → (String → Bool) → String → Bool
set_qdisc iface there q j = if str_eq iface j then there else q j

module _ (e : Env) where
  unfoldable pub clock : Rig → ℕ × Rig
  clock r = (r.time, record r { time = r.time + e.drift r.reads; reads = r.reads + 1 })

  -- `false` is the RuntimeError of a command that failed, or the FileNotFoundError if tc is missing,
  -- which is not ignored.
  unfoldable pub run_tc : Tc → Bool → Rig → Bool × Rig
  run_tc c ignore_errors r =
      let fine = e.tc (command_count r.commands) (r.qdiscs (iface_of c)) c in
      if e.dry_run then (true, r) else if not e.has_tc then (false, r) else (
        fine || ignore_errors,
        record r {
          commands = r.commands ++ c ∷ [];
          qdiscs = if fine then set_qdisc (iface_of c) (adds c) r.qdiscs else r.qdiscs;
        },
      )

  abbrev pub iface_for : FaultProfile → String
  iface_for p = if str_eq p.interface "" then e.interface else p.interface

  unfoldable pub apply_qdisc : FaultProfile → Rig → Bool × Rig
  unfolding run_tc netem_parts
  apply_qdisc p r =
      let iface = iface_for p in
      let (deleted, r1) = run_tc (del iface) true r in
      if not deleted
      then (false, r1)
      else if is_bandwidth_cap p.fault_type && ltb 0 p.bandwidth_kbps
      then run_tc (tbf iface p.bandwidth_kbps) false r1
      else run_tc (netem iface (netem_parts p)) false r1

  -- The part of `inject` behind its checks. A session whose tc command fails stays active.
  unfoldable pub start_session : String → FaultProfile → Rig → (InjectError ⊎ ℕ) × Rig
  unfolding clock
  start_session name p r =
      let (now, r1) = clock r in
      let r2 = record r1 {
        heap = update r1.next (started name p now) r1.heap;
        next = r1.next + 1;
        current = some r1.next;
      } in
      let (fine, r3) = apply_qdisc p r2 in (if fine then inr r1.next else inl tc_failed, r3)

  unfoldable pub inject : String → Option FaultProfile → Rig → (InjectError ⊎ ℕ) × Rig
  inject name profile r = elim (active_session r) [
    | some p ↦ (inl already_active, r)
    | none ↦ elim (chosen name profile) [
      | none ↦ (inl unknown_profile, r)
      | some p ↦ start_session name p r
    ]
  ]

  -- The first component is `none` where it raises: tc is missing, or the label cannot be written.
  unfoldable pub clear : Rig → Option (Option ℕ) × Rig
  unfolding clock run_tc update
  clear r = elim (active_session r) [
    | none ↦ (some none, r)
    | some p ↦
        let (now, r1) = clock r in
        let ended = record (r.heap p) { active = false; end_time = now } in
        let s = record ended { resolution = cleared ended.resolution } in
        let (deleted, r2) = run_tc (del e.interface) true (set_session p ended r1) in
        let r3 = set_session p s r2 in
        if not deleted
        then (none, r2)
        else if not (e.writes_label p)
        then (none, r3)
        else (some (some p), record r3 { labels = r3.labels ++ (p, s) ∷ [] })
  ]

  -- One wake of the monitor of session p: a sample, or the end of the session. The thread of a
  -- session that has ended does nothing; an exception ends the thread.
  unfoldable pub monitor_wake : ℕ → ℕ → Rig → Rig
  unfolding clock
  monitor_wake p duration_s r =
      let (now, r1) = clock r in
      let s = r.heap p in
      let sampled = set_session p (record s { samples = s.samples + 1 }) r1 in
      let ended =
        (clear (
          set_session p
            (record s { resolution = healed; healing_latency_ms = (clock r1).0 - s.start_time })
            (clock r1).1)).1 in
      if not s.active
      then r1
      else if ltb now (s.start_time + duration_s * 1000)
      then sampled
      else ended

  unfoldable pub monitor_wakes : ℕ → ℕ → ℕ → Rig → Rig
  monitor_wakes zero p duration_s r = r
  monitor_wakes (suc n) p duration_s r = monitor_wakes n p duration_s (monitor_wake p duration_s r)

  -- `time.sleep(seconds)` while session p is monitored.
  unfoldable pub sleep : ℕ → ℕ → Rig → Rig
  sleep seconds p r =
      let r1 = record r {
        time = r.time + seconds * 1000 + e.delay r.sleeps;
        sleeps = r.sleeps + 1;
      } in
      monitor_wakes (e.wakes r.sleeps) p (duration_of (r1.heap p).profile) r1

  -- `wait_for_healing` on fuel, one for each turn of the loop and one for its end.
  unfoldable pub wait_until : ℕ → ℕ → ℕ → Rig → Option Bool × Rig
  unfolding clock
  wait_until zero p deadline r = (none, r)
  wait_until (suc fuel) p deadline r =
      let (now, r1) = clock r in
      let s = r1.heap p in
      let rest = wait_until fuel p deadline (sleep 1 p r1) in
      if ltb now deadline
      then (if s.healing_triggered && is_over s.resolution
          then (some (is_healed s.resolution), r1)
          else rest)
      else (some false, set_session p (record s { resolution = timeout }) r1)

  unfoldable pub wait_for_healing : ℕ → ℕ → Rig → Option Bool × Rig
  wait_for_healing p timeout_s r =
      wait_until (timeout_s + 2) p ((r.heap p).start_time + timeout_s * 1000) r
