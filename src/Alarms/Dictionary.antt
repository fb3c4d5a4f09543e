-- ===== src/Alarms/Dictionary.antt =====
-- internal/ems/fcaps/alarms/dictionary.go: the alarm dictionary and the normal form of an alarm.
pub mod Complete
use lte_element_manager.Prelude.{
  String, ◌||◌, Option, none, some, List, [], ◌∷◌, if◌then◌else◌, ◌==◌, string_eq,
}
use lte_element_manager.Prelude.Text.{trim_space, to_lower, contains}
use lte_element_manager.Prelude.Map.{Map, lookup}
use lte_element_manager.Alarms.Types.{
  Alarm, event_type_communications_alarm, event_type_processing_error_alarm,
  event_type_quality_of_service_alarm, probable_cause_communications_fail, probable_cause_lan_error,
  probable_cause_software_error, probable_cause_threshold_crossed, severity_cleared,
  severity_critical, severity_major, severity_minor, severity_warning,
}

abbrev pub alarm_s1_down : String
alarm_s1_down = "Alarm_S1_Down"

abbrev pub alarm_s1_interface_down : String
alarm_s1_interface_down = "Alarm_S1_Interface_Down"

abbrev pub alarm_nas_signaling_loss : String
alarm_nas_signaling_loss = "Alarm_NAS_Signaling_Loss"

abbrev pub alarm_nas_security_mismatch : String
alarm_nas_security_mismatch = "Alarm_NAS_Security_Mismatch"

abbrev pub alarm_nas_parsing_failure : String
alarm_nas_parsing_failure = "Alarm_NAS_Parsing_Failure"

abbrev pub alarm_rrc_protocol_error : String
alarm_rrc_protocol_error = "Alarm_RRC_Protocol_Error"

abbrev pub alarm_rrc_connection_rejection : String
alarm_rrc_connection_rejection = "Alarm_RRC_Connection_Rejection"

abbrev pub alarm_core_service_reject : String
alarm_core_service_reject = "Alarm_Core_Service_Reject"

abbrev pub alarm_paging_capacity_exceeded : String
alarm_paging_capacity_exceeded = "Alarm_Paging_Capacity_Exceeded"

abbrev pub alarm_rlc_max_retransmissions : String
alarm_rlc_max_retransmissions = "Alarm_RLC_Max_Retransmissions"

abbrev pub alarm_low_throughput : String
alarm_low_throughput = "Alarm_Low_Throughput"

abbrev pub alarm_low_throughput_active_users : String
alarm_low_throughput_active_users = "Alarm_Low_Throughput_Active_Users"

abbrev pub alarm_low_sinr : String
alarm_low_sinr = "Alarm_Low_SINR"

abbrev pub alarm_bad_signal_condition : String
alarm_bad_signal_condition = "Alarm_Bad_Signal_Condition"

abbrev pub alarm_high_bler : String
alarm_high_bler = "Alarm_High_BLER"

abbrev pub alarm_radio_link_failure_storm : String
alarm_radio_link_failure_storm = "Alarm_Radio_Link_Failure_Storm"

abbrev pub alarm_rf_interference_detected : String
alarm_rf_interference_detected = "Alarm_RF_Interference_Detected"

abbrev pub alarm_ue_inactivity_cleanup : String
alarm_ue_inactivity_cleanup = "Alarm_UE_Inactivity_Cleanup"

abbrev pub alarm_bearer_congestion : String
alarm_bearer_congestion = "Alarm_Bearer_Congestion"

abbrev pub alarm_power_headroom_critical : String
alarm_power_headroom_critical = "Alarm_Power_Headroom_Critical"

abbrev pub alarm_uds_disconnected : String
alarm_uds_disconnected = "Alarm_UDS_Disconnected"

abbrev pub alarm_srs_enb_process_down : String
alarm_srs_enb_process_down = "Alarm_SrsENB_ProcessDown"

abbrev pub alarm_netconf_down : String
alarm_netconf_down = "Alarm_Netconf_Down"

abbrev pub alarm_generic_ems : String
alarm_generic_ems = "Alarm_EMS_Generic"

pub record Definition : Type 0 where
  pub alarm_id : String
  pub event_type : String
  pub probable_cause : String
  pub perceived_severity : String
  pub specific_problem : String

-- `Dictionary`
unfoldable pub dictionary : Map String Definition
dictionary =
    (
      alarm_s1_down,
      record {
        alarm_id = alarm_s1_down;
        event_type = event_type_communications_alarm;
        probable_cause = probable_cause_communications_fail;
        perceived_severity = severity_critical;
        specific_problem = "S1AP connectivity is down";
      },
    )
    ∷ (
      alarm_s1_interface_down,
      record {
        alarm_id = alarm_s1_interface_down;
        event_type = event_type_communications_alarm;
        probable_cause = probable_cause_communications_fail;
        perceived_severity = severity_critical;
        specific_problem = "S1 interface to MME is down";
      },
    )
    ∷ (
      alarm_nas_signaling_loss,
      record {
        alarm_id = alarm_nas_signaling_loss;
        event_type = event_type_communications_alarm;
        probable_cause = probable_cause_communications_fail;
        perceived_severity = severity_major;
        specific_problem = "NAS signalling messages are dropped or failed";
      },
    )
    ∷ (
      alarm_nas_security_mismatch,
      record {
        alarm_id = alarm_nas_security_mismatch;
        event_type = event_type_processing_error_alarm;
        probable_cause = probable_cause_software_error;
        perceived_severity = severity_major;
        specific_problem = "Unknown NAS security header was observed";
      },
    )
    ∷ (
      alarm_nas_parsing_failure,
      record {
        alarm_id = alarm_nas_parsing_failure;
        event_type = event_type_processing_error_alarm;
        probable_cause = probable_cause_software_error;
        perceived_severity = severity_critical;
        specific_problem = "NAS message parsing failed";
      },
    )
    ∷ (
      alarm_rrc_protocol_error,
      record {
        alarm_id = alarm_rrc_protocol_error;
        event_type = event_type_processing_error_alarm;
        probable_cause = probable_cause_software_error;
        perceived_severity = severity_major;
        specific_problem = "RRC protocol failure was reported";
      },
    )
    ∷ (
      alarm_rrc_connection_rejection,
      record {
        alarm_id = alarm_rrc_connection_rejection;
        event_type = event_type_communications_alarm;
        probable_cause = probable_cause_threshold_crossed;
        perceived_severity = severity_minor;
        specific_problem = "RRC connection requests are being rejected";
      },
    )
    ∷ (
      alarm_core_service_reject,
      record {
        alarm_id = alarm_core_service_reject;
        event_type = event_type_communications_alarm;
        probable_cause = probable_cause_communications_fail;
        perceived_severity = severity_major;
        specific_problem = "Core network rejected UE service request";
      },
    )
    ∷ (
      alarm_paging_capacity_exceeded,
      record {
        alarm_id = alarm_paging_capacity_exceeded;
        event_type = event_type_communications_alarm;
        probable_cause = probable_cause_threshold_crossed;
        perceived_severity = severity_major;
        specific_problem = "Paging queue capacity was exceeded";
      },
    )
    ∷ (
      alarm_rlc_max_retransmissions,
      record {
        alarm_id = alarm_rlc_max_retransmissions;
        event_type = event_type_quality_of_service_alarm;
        probable_cause = probable_cause_threshold_crossed;
        perceived_severity = severity_major;
        specific_problem = "RLC maximum retransmission threshold reached";
      },
    )
    ∷ (
      alarm_uds_disconnected,
      record {
        alarm_id = alarm_uds_disconnected;
        event_type = event_type_communications_alarm;
        probable_cause = probable_cause_lan_error;
        perceived_severity = severity_critical;
        specific_problem = "srsRAN metrics UDS is disconnected";
      },
    )
    ∷ (
      alarm_srs_enb_process_down,
      record {
        alarm_id = alarm_srs_enb_process_down;
        event_type = event_type_processing_error_alarm;
        probable_cause = probable_cause_software_error;
        perceived_severity = severity_critical;
        specific_problem = "srsENB process is not running";
      },
    )
    ∷ (
      alarm_low_sinr,
      record {
        alarm_id = alarm_low_sinr;
        event_type = event_type_quality_of_service_alarm;
        probable_cause = probable_cause_threshold_crossed;
        perceived_severity = severity_major;
        specific_problem = "UL SINR threshold crossed";
      },
    )
    ∷ (
      alarm_bad_signal_condition,
      record {
        alarm_id = alarm_bad_signal_condition;
        event_type = event_type_quality_of_service_alarm;
        probable_cause = probable_cause_threshold_crossed;
        perceived_severity = severity_warning;
        specific_problem = "Radio signal quality is below acceptable threshold";
      },
    )
    ∷ (
      alarm_high_bler,
      record {
        alarm_id = alarm_high_bler;
        event_type = event_type_quality_of_service_alarm;
        probable_cause = probable_cause_threshold_crossed;
        perceived_severity = severity_major;
        specific_problem = "BLER threshold crossed";
      },
    )
    ∷ (
      alarm_low_throughput,
      record {
        alarm_id = alarm_low_throughput;
        event_type = event_type_quality_of_service_alarm;
        probable_cause = probable_cause_threshold_crossed;
        perceived_severity = severity_major;
        specific_problem = "Throughput threshold crossed";
      },
    )
    ∷ (
      alarm_low_throughput_active_users,
      record {
        alarm_id = alarm_low_throughput_active_users;
        event_type = event_type_quality_of_service_alarm;
        probable_cause = probable_cause_threshold_crossed;
        perceived_severity = severity_major;
        specific_problem = "Low throughput while RRC users are connected";
      },
    )
    ∷ (
      alarm_radio_link_failure_storm,
      record {
        alarm_id = alarm_radio_link_failure_storm;
        event_type = event_type_quality_of_service_alarm;
        probable_cause = probable_cause_threshold_crossed;
        perceived_severity = severity_critical;
        specific_problem = "Radio link failures are increasing rapidly";
      },
    )
    ∷ (
      alarm_rf_interference_detected,
      record {
        alarm_id = alarm_rf_interference_detected;
        event_type = event_type_quality_of_service_alarm;
        probable_cause = probable_cause_threshold_crossed;
        perceived_severity = severity_major;
        specific_problem = "RF interference is detected on uplink control channel";
      },
    )
    ∷ (
      alarm_ue_inactivity_cleanup,
      record {
        alarm_id = alarm_ue_inactivity_cleanup;
        event_type = event_type_quality_of_service_alarm;
        probable_cause = probable_cause_threshold_crossed;
        perceived_severity = severity_warning;
        specific_problem = "UE inactivity releases are growing abnormally";
      },
    )
    ∷ (
      alarm_bearer_congestion,
      record {
        alarm_id = alarm_bearer_congestion;
        event_type = event_type_quality_of_service_alarm;
        probable_cause = probable_cause_threshold_crossed;
        perceived_severity = severity_minor;
        specific_problem = "Bearer queue is congested";
      },
    )
    ∷ (
      alarm_power_headroom_critical,
      record {
        alarm_id = alarm_power_headroom_critical;
        event_type = event_type_quality_of_service_alarm;
        probable_cause = probable_cause_threshold_crossed;
        perceived_severity = severity_warning;
        specific_problem = "UE power headroom is critical";
      },
    )
    ∷ (
      alarm_netconf_down,
      record {
        alarm_id = alarm_netconf_down;
        event_type = event_type_communications_alarm;
        probable_cause = probable_cause_lan_error;
        perceived_severity = severity_major;
        specific_problem = "NETCONF server is down";
      },
    )
    ∷ (
      alarm_generic_ems,
      record {
        alarm_id = alarm_generic_ems;
        event_type = event_type_processing_error_alarm;
        probable_cause = probable_cause_software_error;
        perceived_severity = severity_major;
        specific_problem = "EMS internal fault";
      },
    )
    ∷ []

-- `firstNonEmpty`
unfoldable pub first_non_empty : List String → String
first_non_empty [] = ""
first_non_empty (v ∷ rest) = if trim_space v == "" then first_non_empty rest else trim_space v

-- `normalizeSeverity`
unfoldable pub normalize_severity : String → String
normalize_severity sev =
    let s = to_lower (trim_space sev) in
    if s == "critical"
    then severity_critical
    else if s == "major"
    then severity_major
    else if s == "minor"
    then severity_minor
    else if s == "warning" || s == "warn"
    then severity_warning
    else if s == "cleared" || s == "clear"
    then severity_cleared
    else ""

-- `canonicalCode`
unfoldable pub canonical_code : String → String → String
canonical_code component code =
    let c = to_lower (trim_space component) in
    if c == "uds"
    then alarm_uds_disconnected
    else if c == "netconf"
    then alarm_netconf_down
    else if contains code "PROCESS"
    then alarm_srs_enb_process_down
    else if contains code "NETWORK"
    then alarm_s1_down
    else code

-- `def := Dictionary[key]`, the zero definition for a key that is not there.
abbrev pub no_definition : Definition
no_definition = record {
  alarm_id = "";
  event_type = "";
  probable_cause = "";
  perceived_severity = "";
  specific_problem = "";
}

abbrev pub or_none : Option Definition → Definition
or_none none = no_definition
or_none (some def) = def

pub generic_definition : Definition
unfolding dictionary
generic_definition = or_none (lookup alarm_generic_ems dictionary)

abbrev pub or_generic : Option Definition → String → Definition
or_generic none code = record generic_definition { alarm_id = code }
or_generic (some def) code = def

normalize_with : String → String → Alarm → String → Definition → Alarm
normalize_with component managed_object alarm code def =
    let perceived = first_non_empty (
      alarm.perceived_severity ∷ def.perceived_severity ∷ normalize_severity alarm.severity ∷ []) in
    let problem =
      first_non_empty (alarm.specific_problem ∷ alarm.message ∷ def.specific_problem ∷ []) in
    record {
      code = code;
      message = first_non_empty (alarm.message ∷ problem ∷ []);
      severity = first_non_empty (alarm.severity ∷ to_lower perceived ∷ []);
      alarm_id = first_non_empty (alarm.alarm_id ∷ def.alarm_id ∷ code ∷ []);
      managed_object_instance =
          first_non_empty (alarm.managed_object_instance ∷ managed_object ∷ component ∷ []);
      event_type = first_non_empty (alarm.event_type ∷ def.event_type ∷ []);
      probable_cause = first_non_empty (alarm.probable_cause ∷ def.probable_cause ∷ []);
      perceived_severity = perceived;
      specific_problem = problem;
    }

abbrev pub code_of : String → Alarm → String
code_of component alarm =
    canonical_code component
      (if trim_space alarm.code == "" then alarm_generic_ems else trim_space alarm.code)

-- `Normalize`
unfoldable pub normalize : String → String → Alarm → Alarm
unfolding normalize_with
normalize component managed_object alarm =
    let code = code_of component alarm in
    normalize_with component managed_object alarm code (or_generic (lookup code dictionary) code)

abbrev pub plain_or_generic : Option Definition → Definition
plain_or_generic none = generic_definition
plain_or_generic (some def) = def

-- `NewThresholdAlarmWithSeverity`; the source does not use its argument `value`.
unfoldable pub new_threshold_alarm_with_severity : String → String → String → String → Alarm
new_threshold_alarm_with_severity code moi problem severity =
    let def = plain_or_generic (lookup code dictionary) in
    let msg = if problem == "" then def.specific_problem else problem in
    let normalized = normalize_severity severity in
    let perceived = if normalized == "" then def.perceived_severity else normalized in
    record {
      code = code;
      message = msg;
      severity = to_lower perceived;
      alarm_id = code;
      managed_object_instance = moi;
      event_type = def.event_type;
      probable_cause = def.probable_cause;
      perceived_severity = perceived;
      specific_problem = msg;
    }
