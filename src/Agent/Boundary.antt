-- ===== src/Agent/Boundary.antt =====
-- What strategy/paper_agent.py takes from Python's library and from other modules: arithmetic,
-- `json.loads`, digests of canonical JSON, the searches of its regular expressions, and
-- `_canonical_output_id`. Also `_validate_prose`.
use kronos_stock.Common.{
  String, List, [], ◌∷◌, Bool, ◌||◌, ◌&&◌, leb, Option, Result, raise_if, any,
}
use kronos_stock.Common.Time.{codes}
use kronos_stock.Symbols.{Symbol, s005930, s000660}
use kronos_stock.Features.Records.{NumberOps, SymbolFeatureOutput}
use kronos_stock.Agent.Json.{Json, PythonNumbers}
use kronos_stock.Agent.Records.{Identity, Holdings, EvidenceBody, ProposalError, forbidden_prose}

-- What comes of `json.loads`: a value, a `ValueError`, or a `RecursionError`.
pub data Loaded (V : Type 0) : Type 0 where
  parsed : Json V → Loaded V
  not_json : Loaded V
  nested_too_deep : Loaded V

pub record Boundary (V : Type 0) : Type 0 where
  pub numbers : PythonNumbers V
  pub votes : NumberOps V
  pub zero : V
  pub hundred : V
  pub loads : String → Loaded V
  -- `deepcopy` of the value raises a `RecursionError`
  pub copies_too_deep : Json V → Bool
  pub canonical_output_id : SymbolFeatureOutput V → String
  -- the SHA-256 of the snapshot's canonical JSON, `none` if it cannot be serialized
  pub snapshot_sha256 : SymbolFeatureOutput V → Option String
  -- `_UNSERIALIZABLE_SNAPSHOT_SHA256`
  pub unserializable_sha256 : String
  -- of the identity, the run, the decision, the snapshot's hash, the cutoff, the holdings and the
  -- cap on the target
  pub request_binding_sha256 :
      Identity → String → String → String → String → Holdings V → V → String
  pub evidence_id : EvidenceBody V → String
  -- `_PROSE_COMPARISON.search` and `_PROSE_INVENTED_CLAIM.search`
  pub finds_comparison : String → Bool
  pub finds_invented_claim : String → Bool
  -- the second text is in the first, both of them case-folded
  pub contains_folded : String → String → Bool

-- `_OTHER_SYMBOL_IDENTITIES`
abbrev pub other_identities : Symbol → List String
other_identities s005930 = "000660" ∷ "SK하이닉스" ∷ "에스케이하이닉스" ∷ []
other_identities s000660 = "005930" ∷ "삼성전자" ∷ []

-- `_PROSE_NUMERIC_TOKEN.search`
unfoldable pub finds_numeric_token : String → Bool
finds_numeric_token s =
    any (λ c. (leb b'0' c && leb c b'9') || (leb 65296 c && leb c 65305)) (codes s)

module _ {V : Type 0} (env : Boundary V) where
  unfoldable pub is_forbidden : Symbol → String → Bool
  is_forbidden symbol s =
      env.finds_comparison s
      || any (env.contains_folded s) (other_identities symbol)
      || env.finds_invented_claim s
      || finds_numeric_token s

  -- `_validate_prose`
  unfoldable pub validate_prose : List String → Symbol → Result ProposalError (Unit {0})
  validate_prose texts symbol = raise_if (any (is_forbidden symbol) texts) forbidden_prose
