-- ===== src/Alarms/Types.antt =====
-- internal/ems/fcaps/alarms/types.go and events.go, and `Alarm` of internal/ems/domain/types.go.
-- A `time.Time` is its nanoseconds since the zero time.
use lte_element_manager.Prelude.{ℕ, ◌≡◌, ◌↔◌, String, Bool, true, ◌&&◌, arith, ◌==◌, Eq, string_eq}

abbrev pub event_type_communications_alarm : String
event_type_communications_alarm = "CommunicationsAlarm"

abbrev pub event_type_processing_error_alarm : String
event_type_processing_error_alarm = "ProcessingErrorAlarm"

abbrev pub event_type_quality_of_service_alarm : String
event_type_quality_of_service_alarm = "QualityOfServiceAlarm"

abbrev pub event_type_equipment_alarm : String
event_type_equipment_alarm = "EquipmentAlarm"

abbrev pub severity_critical : String
severity_critical = "CRITICAL"

abbrev pub severity_major : String
severity_major = "MAJOR"

abbrev pub severity_minor : String
severity_minor = "MINOR"

abbrev pub severity_warning : String
severity_warning = "WARNING"

abbrev pub severity_cleared : String
severity_cleared = "CLEARED"

abbrev pub probable_cause_lan_error : String
probable_cause_lan_error = "LAN_ERROR"

abbrev pub probable_cause_software_error : String
probable_cause_software_error = "SOFTWARE_ERROR"

abbrev pub probable_cause_threshold_crossed : String
probable_cause_threshold_crossed = "THRESHOLD_CROSSED"

abbrev pub probable_cause_equipment_malfunc : String
probable_cause_equipment_malfunc = "EQUIPMENT_MALFUNCTION"

abbrev pub probable_cause_communications_fail : String
probable_cause_communications_fail = "COMMUNICATIONS_FAILURE"

abbrev pub status_active : String
status_active = "active"

abbrev pub status_cleared : String
status_cleared = "cleared"

-- `domain.Alarm`
pub record Alarm : Type 0 where
  pub code : String
  pub message : String
  pub severity : String
  pub alarm_id : String
  pub managed_object_instance : String
  pub event_type : String
  pub probable_cause : String
  pub perceived_severity : String
  pub specific_problem : String

pub record Key : Type 0 where
  pub component : String
  pub code : String

abbrev pub key_beq : Key → Key → Bool
key_beq a b = a.component == b.component && a.code == b.code

pub key_beq_iff : (a b : Key) → (key_beq a b ≡ true) ↔ (a ≡ b)
key_beq_iff a b =
    ground (arith, string_eq.beq_iff a.component b.component, string_eq.beq_iff a.code b.code)

instance abbrev pub key_eq : Eq Key
key_eq = record { beq = key_beq; beq_iff = key_beq_iff }

-- `Record`
pub record AlarmRecord : Type 0 where
  pub key : Key
  pub alarm_id : String
  pub managed_object_instance : String
  pub event_type : String
  pub probable_cause : String
  pub perceived_severity : String
  pub specific_problem : String
  pub message : String
  pub severity : String
  pub status : String
  pub first_seen : ℕ
  pub last_seen : ℕ
  pub count : ℕ  -- uint64

pub record Event : Type 0 where
  pub at : ℕ
  pub component : String
  pub health : String
  pub alarm : Alarm
  pub status : String
  pub count : ℕ  -- uint64
