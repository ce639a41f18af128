-- ===== src/Chaos/Injector/State.antt =====
-- The sessions of chaos-ci-gate-06/injection/qdisc_injector.py, and what the injector reads and
-- changes.
use nimbus_net.Prelude.{ℕ, String, Bool, Option, List}
use nimbus_net.Chaos.Injector.Profiles.{FaultProfile}

-- The parts of a netem command, and the commands that are run.
pub data NetemPart : Type 0 where
  delay jitter loss corrupt duplicate : ℕ → NetemPart
  reorder delay_loss : ℕ → ℕ → NetemPart

pub data Tc : Type 0 where
  del : String → Tc
  tbf : String → ℕ → Tc
  netem : String → List NetemPart → Tc

pub data Resolution : Type 0 where
  unresolved healed timeout manual_clear error : Resolution

pub record InjectionSession : Type 0 where
  pub profile_name : String
  pub profile : Option FaultProfile
  pub start_time : ℕ
  pub end_time : ℕ
  pub active : Bool
  pub samples : ℕ
  pub healing_triggered : Bool
  pub healing_latency_ms : ℕ
  pub resolution : Resolution

pub data InjectError : Type 0 where
  already_active unknown_profile tc_failed : InjectError

pub record Env : Type 0 where
  pub drift : ℕ → ℕ
  pub delay : ℕ → ℕ
  pub wakes : ℕ → ℕ
  pub has_tc : Bool
  pub tc : ℕ → Bool → Tc → Bool
  pub writes_label : ℕ → Bool
  pub interface : String
  pub dry_run : Bool

-- `qdiscs` is the kernel's: whether an interface has a root qdisc. `labels` are the records written for the flywheel, with the session's place.
pub record Rig : Type 0 where
  pub time : ℕ
  pub reads : ℕ
  pub sleeps : ℕ
  pub commands : List Tc
  pub qdiscs : String → Bool
  pub heap : ℕ → InjectionSession
  pub next : ℕ
  pub current : Option ℕ
  pub labels : List (ℕ × InjectionSession)
