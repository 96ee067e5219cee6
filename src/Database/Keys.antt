-- ===== src/Database/Keys.antt =====
-- The keys of more than one column, with the test that their columns are equal.
use runner_observability.Base.{
  ℕ, String, ◌≡◌, ◌↔◌, Bool, true, ◌&&◌, Eq, ◌==◌, string_eq, number_eq, arith, eq_iff,
}

pub record JobKey : Type 0 where
  pub repository : String
  pub workflow_run_id : ℕ
  pub run_attempt : ℕ
  pub job_id : ℕ

pub record IncidentKey : Type 0 where
  pub resource_kind : String
  pub resource_id : String
  pub condition : String

pub record WatermarkKey : Type 0 where
  pub runner_id : String
  pub producer_id : String
  pub producer_epoch : String

abbrev same_job : JobKey → JobKey → Bool
same_job a b =
    a.repository == b.repository
    && a.workflow_run_id == b.workflow_run_id
    && a.run_attempt == b.run_attempt
    && a.job_id == b.job_id

pub same_job_iff : (a b : JobKey) → (same_job a b ≡ true) ↔ (a ≡ b)
same_job_iff a b = ground (arith, eq_iff a.repository b.repository)

instance abbrev pub job_key_eq : Eq JobKey
job_key_eq = record { agree = same_job; agree_iff = same_job_iff }

abbrev same_incident : IncidentKey → IncidentKey → Bool
same_incident a b =
    a.resource_kind == b.resource_kind
    && a.resource_id == b.resource_id
    && a.condition == b.condition

pub same_incident_iff : (a b : IncidentKey) → (same_incident a b ≡ true) ↔ (a ≡ b)
same_incident_iff a b = ground (
  arith,
  eq_iff a.resource_kind b.resource_kind,
  eq_iff a.resource_id b.resource_id,
  eq_iff a.condition b.condition,
)

instance abbrev pub incident_key_eq : Eq IncidentKey
incident_key_eq = record { agree = same_incident; agree_iff = same_incident_iff }

abbrev same_watermark : WatermarkKey → WatermarkKey → Bool
same_watermark a b =
    a.runner_id == b.runner_id
    && a.producer_id == b.producer_id
    && a.producer_epoch == b.producer_epoch

pub same_watermark_iff : (a b : WatermarkKey) → (same_watermark a b ≡ true) ↔ (a ≡ b)
same_watermark_iff a b = ground (
  arith,
  eq_iff a.runner_id b.runner_id,
  eq_iff a.producer_id b.producer_id,
  eq_iff a.producer_epoch b.producer_epoch,
)

instance abbrev pub watermark_key_eq : Eq WatermarkKey
watermark_key_eq = record { agree = same_watermark; agree_iff = same_watermark_iff }
