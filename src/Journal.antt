-- ===== src/Journal.antt =====
-- crates/wm-host/src/journal.rs: the records of the requests that a group has received. Timestamps
-- are numbers of milliseconds.
pub mod Filter
mod Tests
use wiremirage.Prelude.Text.{Str}
use wiremirage.Prelude.{ℕ, Bool, Option, List}

pub record RequestEnvelope : Type 0 where
  pub method : Str
  pub path : Str
  pub headers : List (Str × Str)
  pub body : Str
  pub body_truncated : Bool
  pub original_body_size : ℕ

pub record ResponseEnvelope : Type 0 where
  pub status : ℕ
  pub headers : List (Str × Str)
  pub body : Str
  pub body_truncated : Bool
  pub original_body_size : ℕ

pub record HandlerLogEntry : Type 0 where
  pub level : Str
  pub message : Str
  pub timestamp : ℕ

pub record ResourceUsage : Type 0 where
  pub fuel_consumed : ℕ
  pub memory_peak_bytes : ℕ
  pub wall_clock_ms : ℕ

pub record JournalRecord : Type 0 where
  pub id : Str
  pub number : ℕ
  pub trace_id : Option Str
  pub group_id : Str
  pub group_name : Str
  pub route_id : Str
  pub route_number : ℕ
  pub matched_pattern : Str
  pub request : RequestEnvelope
  pub response : ResponseEnvelope
  pub path_params : List (Str × Str)
  pub query : List (Str × Str)
  pub handler_logs : List HandlerLogEntry
  pub duration_ms : ℕ
  pub resources : ResourceUsage
  pub error : Option Str
  pub dropped_response_headers : List Str
  pub created_at : ℕ

pub data UnmatchedNearMissReason : Type 0 where
  method_mismatch : (expected_methods : List Str) → (got : Str) → UnmatchedNearMissReason
  prefix_match : (segment_index : ℕ) → (expected got : Str) → UnmatchedNearMissReason

pub record UnmatchedNearMiss : Type 0 where
  pub route : Str
  pub route_path : Str
  pub route_methods : List Str
  pub reason : UnmatchedNearMissReason

pub record UnmatchedRecord : Type 0 where
  pub id : Str
  pub number : ℕ
  pub group_id : Str
  pub group_name : Str
  pub trace_id : Option Str
  pub created_at : ℕ
  pub request : RequestEnvelope
  pub near_misses : List UnmatchedNearMiss

pub data JournalEvent : Type 0 where
  handled : JournalRecord → JournalEvent
  unmatched : UnmatchedRecord → JournalEvent
