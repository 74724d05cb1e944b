-- ===== src/Agent/Evidence.antt =====
-- The evidence catalog of strategy/paper_agent.py: `_evidence_item`, `_lineage_anchor` and
-- `_snapshot_evidence`, and the evidence that counts as unavailable data.
use kronos_stock.Common.{
  String, List, [], ◌∷◌, ◌++◌, Bool, true, false, not, none, some, if◌then◌else◌, map, filter,
}
use kronos_stock.Common.Text.{one_of, sorted_names}
use kronos_stock.Features.Records.{Group, group_order, EngineFeature, SymbolFeatureOutput}
use kronos_stock.Features.Eligibility.{rows_of}
use kronos_stock.Agent.Records.{
  group_text, status_text, Lineage, EvidenceKind, feature, group_contribution, data_gap,
  request_lineage, EvidenceBody, Evidence,
}
use kronos_stock.Agent.Boundary.{Boundary}

module _ {V : Type 0} (env : Boundary V) where
  -- `_evidence_item`
  unfoldable pub evidence_item : EvidenceBody V → Evidence V
  evidence_item body = record { body = body; id = env.evidence_id body }

  -- A body of which only the status and the time are known.
  abbrev pub bare_body : Lineage → EvidenceKind → String → String → EvidenceBody V
  bare_body lineage kind status as_of = record {
    kind = kind;
    lineage = lineage;
    feature_name = none;
    feature_group = none;
    source_feature_group = none;
    status = status;
    as_of = as_of;
    value = none;
    unit = none;
    missing_reason = none;
    contribution_bps = none;
    cap_bps = none;
  }

  -- `_lineage_anchor`
  unfoldable pub lineage_anchor : Lineage → Evidence V
  unfolding evidence_item
  lineage_anchor lineage =
      evidence_item (bare_body lineage request_lineage "LINEAGE" lineage.available_data_cutoff)

  unfoldable pub feature_evidence : Lineage → Group → EngineFeature V → Evidence V
  unfolding evidence_item
  feature_evidence lineage g f =
      evidence_item (record (bare_body lineage feature (status_text f.status) f.source_as_of.text) {
        feature_name = some f.name;
        feature_group = some (group_text g);
        source_feature_group = some f.source_feature_group;
        value = f.value;
        unit = f.unit;
        missing_reason = f.missing_reason;
      })

  -- The evidence of the groups, in order: their features, then their contribution.
  unfoldable pub groups_evidence : SymbolFeatureOutput V → Lineage → List Group → List (Evidence V)
  unfolding evidence_item feature_evidence
  groups_evidence output lineage [] = []
  groups_evidence output lineage (g ∷ gs) =
      let group = output.groups g in
      map (feature_evidence lineage g) group.features
      ++ evidence_item
          (record (bare_body lineage group_contribution "AGGREGATED"
            output.available_data_cutoff.text) {
              feature_group = some (group_text g);
              contribution_bps = some group.contribution_bps;
              cap_bps = some group.cap_bps;
            })
        ∷ groups_evidence output lineage gs

  unfoldable pub gap_evidence : SymbolFeatureOutput V → Lineage → String → Evidence V
  unfolding evidence_item
  gap_evidence output lineage name =
      evidence_item
        (record (bare_body lineage data_gap "MISSING" output.available_data_cutoff.text) {
          feature_name = some name;
          feature_group = some "unavailable";
          missing_reason = some "unavailable at the data cutoff";
        })

  -- The names, each once.
  unfoldable pub distinct : List String → List String
  distinct [] = []
  distinct (n ∷ ns) = if one_of n ns then distinct ns else n ∷ distinct ns

  -- `_snapshot_evidence`
  unfoldable pub snapshot_evidence : SymbolFeatureOutput V → Lineage → List (Evidence V)
  unfolding groups_evidence gap_evidence distinct
  snapshot_evidence output lineage =
      let seen = map (λ f. f.name) (rows_of output.groups group_order) in
      let listed =
        output.missing_required ++ output.missing_optional ++ output.stale_required
        ++ output.license_blocked in
      groups_evidence output lineage group_order
      ++ map (gap_evidence output lineage)
          (sorted_names (distinct (filter (λ n. not (one_of n seen)) listed)))

-- `_GAP_STATUSES`
abbrev pub gap_statuses : List String
gap_statuses =
    "MISSING" ∷ "STALE" ∷ "MISSING_REQUIRED" ∷ "MISSING_OPTIONAL" ∷ "LICENSE_BLOCKED" ∷ []

module _ {V : Type 0} where
  unfoldable pub is_gap : Evidence V → Bool
  is_gap e = elim e.body.kind [
    | data_gap ↦ true
    | feature ↦ one_of e.body.status gap_statuses
    | _ ↦ false
  ]

  -- `_unavailable_evidence_ids`, with their items
  unfoldable pub unavailable_evidence : List (Evidence V) → List (Evidence V)
  unavailable_evidence catalog = filter is_gap catalog

  -- The item of a feature or of a group.
  abbrev pub is_substantive : Evidence V → Bool
  is_substantive e = elim e.body.kind [ feature ↦ true | group_contribution ↦ true | _ ↦ false ]
