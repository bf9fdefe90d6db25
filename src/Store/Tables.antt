-- ===== src/Store/Tables.antt =====
-- The tables of the state database (src/store.rs: `create_v3_tables`). A table is a map from its
-- primary key to the other columns. A column of type TEXT whose values are literals of the source
-- is a data type; 64-bit integers that are counters or times are natural numbers.
use termux_stacks.Prelude.{ℕ, Bool, true, false, Option, none, some, ◌==◌}
use termux_stacks.Ordered.Key.{Text}
use termux_stacks.Ordered.Map.{BTreeMap}
use termux_stacks.Manifest.Literal.{ℤ}

pub data Desired : Type 0 where
  running stopped : Desired

-- `observed_state` of a service, and that of a stack.
pub data Observed : Type 0 where
  preparing starting running stopping stopped failed restarting unknown : Observed

-- `effect_phase` of a service, and `phase` of an operation and of its part for a service.
pub data Phase : Type 0 where
  intent logs_prepared install_invoked installed : Phase
  start_intent start_invoked starting running committed : Phase
  stop_intent stop_invoked stopped shutdown_proven exited : Phase
  restart_stop_intent restart_stop_invoked restart_start_invoked : Phase
  backoff restart_invoked restart_starting already_running : Phase
  failed_pre_effect failed unknown : Phase

pub data RootfsState : Type 0 where
  preparing installed absent unknown : RootfsState

pub data Role : Type 0 where
  candidate current retired : Role

-- `outcome`, where it is not NULL.
pub data Ending : Type 0 where
  success failure : Ending

pub record StackRow : Type 0 where
  pub desired_state : Desired
  pub observed_state : Observed
  pub manifest : Text
  pub manifest_base : Text
  pub committed_revision : ℕ
  pub created_at : ℕ
  pub updated_at : ℕ

-- `current_alias` and `current_generation` are one column here: a CHECK of the table has them NULL
-- together.
pub record ServiceRow : Type 0 where
  pub active : Bool
  pub config_json : Text
  pub desired_state : Desired
  pub observed_state : Observed
  pub current : Option (Text × ℕ)
  pub effect_phase : Phase
  pub session_id : Option ℕ
  pub child_pid : Option ℕ
  pub child_starttime : Option ℕ
  pub boot_id : Option Text
  pub last_exit_code : Option ℤ
  pub last_exit_signal : Option ℤ
  pub restart_attempts : ℕ
  pub restart_window_started_at : Option ℕ
  pub next_restart_at : Option ℕ
  pub stdout_log_path : Text
  pub stderr_log_path : Text
  pub created_at : ℕ
  pub updated_at : ℕ

pub record GenerationRow : Type 0 where
  pub alias : Text
  pub image : Text
  pub state : RootfsState
  pub role : Role
  pub created_at : ℕ
  pub updated_at : ℕ

pub record Operation : Type 0 where
  pub stack_name : Text
  pub operation : Text
  pub phase : Phase
  pub candidate_manifest : Option Text
  pub manifest_base : Option Text
  pub candidate_revision : Option ℕ
  pub target_service : Option Text
  pub outcome : Option Ending
  pub error : Option (Text × Text)
  pub response_json : Option Text
  pub created_at : ℕ
  pub updated_at : ℕ

pub record OperationService : Type 0 where
  pub stack_name : Text
  pub ordinal : ℕ
  pub phase : Phase
  pub outcome : Option Ending
  pub candidate_config_json : Option Text
  pub generation : Option ℕ
  pub error : Option (Text × Text)

-- A service by its stack and its name.
abbrev pub ServiceKey : Type 0
ServiceKey = Text × Text

pub record Database : Type 0 where
  pub stacks : BTreeMap Text StackRow
  pub services : BTreeMap ServiceKey ServiceRow
  -- by service and generation
  pub generations : BTreeMap (ServiceKey × ℕ) GenerationRow
  -- by request identifier
  pub operations : BTreeMap Text Operation
  -- by request identifier and service
  pub operation_services : BTreeMap (Text × Text) OperationService

-- Comparisons of columns of a fixed vocabulary.
abbrev pub is_running : Desired → Bool
is_running Desired.running = true
is_running Desired.stopped = false

abbrev pub observed_code : Observed → ℕ
observed_code Observed.preparing = 0
observed_code Observed.starting = 1
observed_code Observed.running = 2
observed_code Observed.stopping = 3
observed_code Observed.stopped = 4
observed_code Observed.failed = 5
observed_code Observed.restarting = 6
observed_code Observed.unknown = 7

infix 50 ◌is◌
abbrev pub ◌is◌ : Observed → Observed → Bool
a is b = observed_code a == observed_code b

abbrev pub is_unknown_phase : Phase → Bool
is_unknown_phase Phase.unknown = true
is_unknown_phase _ = false

abbrev pub is_backoff : Phase → Bool
is_backoff Phase.backoff = true
is_backoff _ = false

abbrev pub is_candidate : Role → Bool
is_candidate Role.candidate = true
is_candidate _ = false

abbrev pub is_current : Role → Bool
is_current Role.current = true
is_current _ = false

abbrev pub is_installed : RootfsState → Bool
is_installed RootfsState.installed = true
is_installed _ = false

-- `outcome IS NOT 'success'`, which holds of NULL too.
abbrev pub is_success : Option Ending → Bool
is_success (some Ending.success) = true
is_success _ = false

abbrev pub is_failure : Option Ending → Bool
is_failure (some Ending.failure) = true
is_failure _ = false

-- `IS NULL`.
abbrev pub is_null {ℓ} : {A : Type ℓ} → Option A → Bool
is_null none = true
is_null (some a) = false

abbrev pub is_preparing : RootfsState → Bool
is_preparing RootfsState.preparing = true
is_preparing _ = false

abbrev pub is_absent : RootfsState → Bool
is_absent RootfsState.absent = true
is_absent _ = false

abbrev pub is_failed_pre_effect : Phase → Bool
is_failed_pre_effect Phase.failed_pre_effect = true
is_failed_pre_effect _ = false

abbrev pub is_restart_invoked : Phase → Bool
is_restart_invoked Phase.restart_invoked = true
is_restart_invoked _ = false

abbrev pub is_shutdown_proven : Phase → Bool
is_shutdown_proven Phase.shutdown_proven = true
is_shutdown_proven _ = false

abbrev pub is_restart_stop_intent : Phase → Bool
is_restart_stop_intent Phase.restart_stop_intent = true
is_restart_stop_intent _ = false

abbrev pub is_restart_stop_invoked : Phase → Bool
is_restart_stop_invoked Phase.restart_stop_invoked = true
is_restart_stop_invoked _ = false
