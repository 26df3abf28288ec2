-- ===== src/Investigation/Evidence.antt =====
-- investigation_orchestrator.py: `_evidence` and `aggregate_evidence`.
use Prim.Native.String.{◌++◌ as ◌+◌}
use trade_sentry.Prelude.{
  String, true, Option, none, some, List, [], ◌∷◌, ◌++◌, map, length, if◌then◌else◌,
}
use trade_sentry.Prelude.Text.{show_nat}
use trade_sentry.Compliance.Model.{ComplianceFinding, ComplianceResult, is_material}
use trade_sentry.Dna.{TransactionDna, ConflictRecord, ConflictSeverity}
use trade_sentry.CrossIbu.Model.{exact, nothing, CrossIbuMatch}
use trade_sentry.Fraud.{
  PriceSignal, VesselStatus, EntityStatus, SanctionsStatus, PriceBenchmarkResult,
  VesselVerificationResult, EntityVerificationResult, EntityScreenResult, SanctionsScreeningResult,
}
use trade_sentry.Prelude.Decimal.{Decimal}
use trade_sentry.Investigation.Model.{
  InvestigationState, EvidenceRecord, info, advisory, review, material, high, Detail, text, flag,
  texts, score, millionths, absent, finding_evidence, ToolSelectionPlan,
}
use trade_sentry.Investigation.World.{World}
use trade_sentry.Investigation.Calls.{Step, quiet, timeline}
use trade_sentry.Investigation.Nodes.{level_value}

abbrev pub price_value : PriceSignal → String
price_value PriceSignal.normal = "NORMAL"
price_value PriceSignal.review = "REVIEW"
price_value PriceSignal.significant_anomaly = "SIGNIFICANT_ANOMALY"
price_value PriceSignal.data_unavailable = "DATA_UNAVAILABLE"

abbrev pub vessel_value : VesselStatus → String
vessel_value VesselStatus.consistent = "CONSISTENT"
vessel_value VesselStatus.anomaly = "ANOMALY"
vessel_value VesselStatus.data_unavailable = "DATA_UNAVAILABLE"

abbrev pub entity_value : EntityStatus → String
entity_value EntityStatus.verified = "VERIFIED"
entity_value EntityStatus.unverified = "UNVERIFIED"
entity_value EntityStatus.suspicious = "SUSPICIOUS"

abbrev pub sanctions_value : SanctionsStatus → String
sanctions_value SanctionsStatus.no_match = "NO_MATCH"
sanctions_value SanctionsStatus.possible_match = "POSSIBLE_MATCH"
sanctions_value SanctionsStatus.confirmed_source_match = "CONFIRMED_SOURCE_MATCH"
sanctions_value SanctionsStatus.data_unavailable = "DATA_UNAVAILABLE"

abbrev conflict_value : ConflictSeverity → String
conflict_value ConflictSeverity.material = "MATERIAL"
conflict_value ConflictSeverity.advisory = "ADVISORY"

abbrev flag_evidence : TransactionDna → String → EvidenceRecord
flag_evidence dna field_name = record {
  source = "transaction_dna";
  finding_type = "LOW_CONFIDENCE_FIELD";
  severity = advisory;
  summary = "Low-confidence extraction requires attention: " + field_name;
  structured_detail = ("field_name", text field_name) ∷ ("human_attention", flag true) ∷ [];
  evidence_ref = "dna://" + (dna.transaction_id + ("/confidence/" + field_name));
}

abbrev conflict_evidence : TransactionDna → ConflictRecord → EvidenceRecord
conflict_evidence dna c = record {
  source = "transaction_dna";
  finding_type = "DOCUMENT_CONFLICT";
  severity = review;
  summary = "Conflicting structured document evidence: " + c.field_name;
  structured_detail =
      ("field_name", text c.field_name)
      ∷ ("document_a_id", text c.document_a_id)
      ∷ ("document_b_id", text c.document_b_id)
      ∷ ("conflict_severity", text (conflict_value c.severity))
      ∷ [];
  evidence_ref = "dna://" + (dna.transaction_id + ("/conflict/" + c.field_name));
}

abbrev dna_evidence : Option TransactionDna → List EvidenceRecord
dna_evidence none = []
dna_evidence (some dna) =
    map (flag_evidence dna) dna.confidence_flags ++ map (conflict_evidence dna) dna.conflicts

abbrev plan_evidence : String → Option ToolSelectionPlan → List EvidenceRecord
plan_evidence case_id none = []
plan_evidence case_id (some plan) =
    record {
      source = "fraud_triage";
      finding_type = "TOOL_SELECTION";
      severity = info;
      summary = plan.reasoning;
      structured_detail =
          ("run_price_benchmark", flag plan.run_price_benchmark)
          ∷ ("run_vessel_verification", flag plan.run_vessel_verification)
          ∷ ("run_entity_verification", flag plan.run_entity_verification)
          ∷ ("run_sanctions", flag plan.run_sanctions)
          ∷ ("reasoning", text plan.reasoning)
          ∷ [];
      evidence_ref = "investigation://" + (case_id + "/triage");
    }
    ∷ []

abbrev pub compliance_evidence : ComplianceFinding → EvidenceRecord
compliance_evidence f = record {
  source = f.rule_id;
  finding_type = "UCP_COMPLIANCE";
  severity = if is_material f.severity then material else review;
  summary = f.ucp_article + (": " + (f.field_name + " discrepancy"));
  structured_detail =
      ("rule_id", text f.rule_id)
      ∷ ("ucp_article", text f.ucp_article)
      ∷ ("expected", text f.expected)
      ∷ ("actual", text f.actual)
      ∷ ("evidence", finding_evidence f.evidence)
      ∷ [];
  evidence_ref = "db://compliance/" + f.finding_id;
}

abbrev findings_of : Option ComplianceResult → List ComplianceFinding
findings_of none = []
findings_of (some r) = r.findings

abbrev match_ref : CrossIbuMatch → String
match_ref m = elim m.evidence_ref [ none ↦ "match://" + m.match_id | some r ↦ r ]

abbrev pub match_evidence : CrossIbuMatch → EvidenceRecord
match_evidence m = record {
  source = "cross_ibu_check";
  finding_type = "CROSS_IBU_MATCH";
  severity = elim m.match_level [ exact ↦ high | nothing ↦ info | _ ↦ review ];
  summary = m.explanation;
  structured_detail =
      ("match_level", text (level_value m.match_level))
      ∷ ("similarity_score", millionths m.similarity_score)
      ∷ ("matched_fields", texts m.matched_fields)
      ∷ ("thresholds_note", text "Prototype demo values — not regulatory standards")
      ∷ [];
  evidence_ref = match_ref m;
}

abbrev maybe_score : Option Decimal → Detail
maybe_score none = absent
maybe_score (some d) = score d

abbrev price_evidence : String → Option PriceBenchmarkResult → List EvidenceRecord
price_evidence case_id none = []
price_evidence case_id (some r) =
    record {
      source = "price_benchmark";
      finding_type = "PRICE_SIGNAL";
      severity = elim r.signal [
        | PriceSignal.significant_anomaly ↦ high
        | PriceSignal.review ↦ review
        | _ ↦ info
      ];
      summary = "Price benchmark signal: " + price_value r.signal;
      structured_detail =
          ("signal", text (price_value r.signal))
          ∷ ("deviation_from_p50_pct", maybe_score r.deviation_from_p50_pct)
          ∷ ("data_source", text r.data_source)
          ∷ ("caveats", texts r.caveats)
          ∷ [];
      evidence_ref = "tool://price_benchmark/" + case_id;
    }
    ∷ []

abbrev vessel_evidence : String → Option VesselVerificationResult → List EvidenceRecord
vessel_evidence case_id none = []
vessel_evidence case_id (some r) =
    record {
      source = "vessel_verification";
      finding_type = "VESSEL_SIGNAL";
      severity = elim r.verification_result [ VesselStatus.anomaly ↦ review | _ ↦ info ];
      summary = "Vessel verification: " + vessel_value r.verification_result;
      structured_detail =
          ("verification_result", text (vessel_value r.verification_result))
          ∷ ("data_source", text r.data_source)
          ∷ ("caveats", texts r.caveats)
          ∷ [];
      evidence_ref = "tool://vessel_verification/" + case_id;
    }
    ∷ []

abbrev entity_evidence : String → EntityVerificationResult → EvidenceRecord
entity_evidence case_id e = record {
  source = "entity_verification";
  finding_type = "ENTITY_SIGNAL";
  severity = elim e.verification_status [ EntityStatus.verified ↦ info | _ ↦ review ];
  summary = "Entity verification: " + entity_value e.verification_status;
  structured_detail =
      ("normalized_name", text e.normalized_name)
      ∷ ("verification_status", text (entity_value e.verification_status))
      ∷ ("data_source", text e.data_source)
      ∷ ("caveats", texts e.caveats)
      ∷ [];
  evidence_ref = "tool://entity_verification/" + case_id;
}

abbrev screen_evidence : String → EntityScreenResult → EvidenceRecord
screen_evidence case_id e = record {
  source = "sanctions_screening";
  finding_type = "SANCTIONS_SIGNAL";
  severity = elim e.match_status [
    | SanctionsStatus.confirmed_source_match ↦ high
    | SanctionsStatus.possible_match ↦ review
    | _ ↦ info
  ];
  summary = "Sanctions screening: " + sanctions_value e.match_status;
  structured_detail =
      ("match_status", text (sanctions_value e.match_status))
      ∷ ("match_score", score e.match_score)
      ∷ ("data_source", text e.data_source)
      ∷ ("human_determination_required", flag true)
      ∷ [];
  evidence_ref = "tool://sanctions_screening/" + case_id;
}

abbrev screened_of : Option SanctionsScreeningResult → List EntityScreenResult
screened_of none = []
screened_of (some r) = r.screened_entities

unfoldable pub evidence_of : InvestigationState → List EvidenceRecord
evidence_of s =
    dna_evidence s.transaction_dna
    ++ (plan_evidence s.case_id s.tool_selection_plan
        ++ (map compliance_evidence (findings_of s.compliance_result)
            ++ (map match_evidence s.cross_ibu_matches
                ++ (price_evidence s.case_id s.price_benchmark
                    ++ (vessel_evidence s.case_id s.vessel_verification
                        ++ (map (entity_evidence s.case_id) s.entity_verifications
                            ++ map (screen_evidence s.case_id)
                                (screened_of s.sanctions_result)))))))

unfoldable pub aggregate_evidence : World → InvestigationState → Step
unfolding evidence_of
aggregate_evidence w s =
    let evidence = evidence_of s in
    quiet (record s {
      evidence = evidence;
      timeline =
          timeline w s "aggregate_evidence" "COMPLETED"
            ("Created " + (show_nat (length evidence) + " evidence records"));
    })
