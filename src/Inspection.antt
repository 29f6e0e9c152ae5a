-- ===== src/Inspection.antt =====
-- pkg/inspection/inspector.go: the search of a response for what must not leave. The texts of a match
-- are bytes: of one that is cut short, a character that is cut in two is left out whole.
pub mod Agreement
use Prim.Native.String
use nullfield.Prelude.{
  ℕ, zero, suc, ◌+◌, String, Bool, true, false, not, List, [], ◌∷◌, ◌++◌, map, Option, none, some,
  ◌==◌, if◌then◌else◌, ◌+++◌, ltb, any, length, join, split_on,
}
use nullfield.Regexp.{Regexp}

-- `Finding`
pub record Finding : Type 0 where
  pub category : String
  pub pattern : String
  pub matched : String
  pub severity : String

-- `rule`
pub record InspectionRule (Re : Type 0) : Type 0 where
  pub category : String
  pub severity : String
  pub pattern : Re
  pub label : String

-- `Inspector`
pub record Inspector (Re : Type 0) : Type 0 where
  pub rules : List (InspectionRule Re)

-- `Config`
pub record InspectorConfig : Type 0 where
  pub detect_credentials : Bool
  pub detect_pii : Bool
  pub detect_prompt_leak : Bool
  pub detect_internal_paths : Bool
  pub custom_patterns : List String

-- `DefaultConfig`
abbrev pub default_config : InspectorConfig
default_config = record {
  detect_credentials = true;
  detect_pii = true;
  detect_prompt_leak = true;
  detect_internal_paths = true;
  custom_patterns = [];
}

-- `Summarize`: the categories in the order in which they come, where Go's order is left open
unfoldable pub stars : ℕ → String
stars zero = ""
stars (suc n) = "*" +++ stars n

unfoldable pub count_category : String → List Finding → ℕ
count_category c [] = 0
count_category c (f ∷ fs) =
    let rest = count_category c fs in if f.category == c then suc rest else rest

unfoldable pub categories : List Finding → List String → List String
categories [] seen = []
categories (f ∷ fs) seen =
    let known = any (λ c. c == f.category) seen in
    let rest = categories fs (f.category ∷ seen) in if known then rest else f.category ∷ rest

unfoldable pub summarize : List Finding → String
unfolding categories count_category stars split_on join
summarize [] = "no sensitive content detected"
summarize (f ∷ fs) = join ", " (
    map (λ c. join " " (split_on b'_' c) +++ ": " +++ stars (count_category c (f ∷ fs)))
      (categories (f ∷ fs) []))

module _ {Re : Type 0} (re : Regexp Re) where
  abbrev pub builtin : String → String → String → String → InspectionRule Re
  builtin category severity pattern label = record {
    category = category;
    severity = severity;
    pattern = re.must_compile pattern;
    label = label;
  }

  -- `credentialRules`
  abbrev pub credential_rules : List (InspectionRule Re)
  credential_rules =
      builtin "credential" "CRITICAL" "-----BEGIN\\s+(?:\\w+\\s+)?PRIVATE KEY-----"
        "private_key_header"
      ∷ builtin "credential" "CRITICAL"
          "(?i)(?:password|passwd|secret|api[_-]?key|auth[_-]?token|access[_-]?token|private[_-]?key)\\s*[:=]\\s*[\"']?[^\\s\"']{8,}"
          "credential_assignment"
      ∷ builtin "credential" "HIGH" "(?:sk|pk|ak|rk)-[a-zA-Z0-9]{20,}" "api_key_pattern"
      ∷ builtin "credential" "HIGH" "(?i)bearer\\s+[a-zA-Z0-9._\\-]{20,}" "bearer_token"
      ∷ builtin "credential" "HIGH"
          "(?i)(?:aws|gcp|azure)[_-](?:secret|key|token)[_-]?\\w*\\s*[:=]\\s*\\S+"
          "cloud_credential"
      ∷ []

  -- `piiRules`
  abbrev pub pii_rules : List (InspectionRule Re)
  pii_rules =
      builtin "pii" "HIGH" "\\b\\d{3}-\\d{2}-\\d{4}\\b" "ssn_pattern"
      ∷ builtin "pii" "MEDIUM" "\\b[A-Za-z0-9._%+\\-]+@[A-Za-z0-9.\\-]+\\.[A-Z|a-z]{2,}\\b"
          "email_address"
      ∷ builtin "pii" "MEDIUM" "\\b(?:\\d{4}[- ]?){3}\\d{4}\\b" "credit_card_pattern"
      ∷ []

  -- `promptLeakRules`
  abbrev pub prompt_leak_rules : List (InspectionRule Re)
  prompt_leak_rules =
      builtin "prompt_leak" "HIGH"
        "(?i)(?:system\\s+prompt|you\\s+are\\s+an?\\s+(?:AI|assistant|model)|instructions?:\\s*(?:you|do\\s+not|never|always))"
        "system_prompt_fragment"
      ∷ builtin "prompt_leak" "MEDIUM"
          "(?i)(?:respond\\s+only\\s+with|do\\s+not\\s+reveal|never\\s+disclose|keep\\s+(?:this|these)\\s+(?:secret|private|confidential))"
          "instruction_leak"
      ∷ []

  -- `internalPathRules`
  abbrev pub internal_path_rules : List (InspectionRule Re)
  internal_path_rules =
      builtin "internal_path" "HIGH" "/var/run/secrets/kubernetes" "k8s_sa_path"
      ∷ builtin "internal_path" "MEDIUM" "/etc/(?:shadow|passwd|ssl/private|teleport|nullfield)"
          "sensitive_etc_path"
      ∷ builtin "internal_path" "MEDIUM" "(?i)(?:\\w+\\.svc\\.cluster\\.local|kubernetes\\.default)"
          "k8s_internal_dns"
      ∷ builtin "internal_path" "MEDIUM" "(?:\\d{1,3}\\.){3}\\d{1,3}:\\d{4,5}" "internal_ip_port"
      ∷ []

  -- The loop of `New`: a pattern that does not compile is passed over.
  unfoldable pub custom_rules : List String → List (InspectionRule Re)
  custom_rules [] = []
  custom_rules (p ∷ ps) =
      let rest = custom_rules ps in
      elim (re.compile p) [
        | none ↦ rest
        | some r ↦ record { category = "custom"; severity = "HIGH"; pattern = r; label = p } ∷ rest
      ]

  abbrev pub rules_if : Bool → List (InspectionRule Re) → List (InspectionRule Re)
  rules_if wanted rules = if wanted then rules else []

  -- `New`
  unfoldable pub new : InspectorConfig → Inspector Re
  unfolding custom_rules
  new cfg = record {
    rules =
        rules_if cfg.detect_credentials credential_rules
        ++ (rules_if cfg.detect_pii pii_rules
            ++ (rules_if cfg.detect_prompt_leak prompt_leak_rules
                ++ (rules_if cfg.detect_internal_paths internal_path_rules
                    ++ custom_rules cfg.custom_patterns)));
  }

  abbrev pub shortened : String → String
  shortened m = if ltb 100 (String.len m) then String.slice m 0 100 +++ "..." else m

  abbrev pub finding_of : InspectionRule Re → String → Finding
  finding_of r m = record {
    category = r.category;
    pattern = r.label;
    matched = shortened m;
    severity = r.severity;
  }

  -- `Inspect`
  unfoldable pub inspect_rules : List (InspectionRule Re) → String → List Finding
  inspect_rules [] content = []
  inspect_rules (r ∷ rules) content =
      map (finding_of r) (re.find_all r.pattern content (some 3)) ++ inspect_rules rules content

  abbrev pub inspect : Inspector Re → String → List Finding
  inspect i content = inspect_rules i.rules content

  -- The loop of `Redact`
  unfoldable pub redact_rules : List (InspectionRule Re) → String → String → String × ℕ
  redact_rules [] content replacement = (content, 0)
  redact_rules (r ∷ rules) content replacement =
      let hit = re.is_match r.pattern content in
      let rest =
        redact_rules rules (if hit then re.replace_all r.pattern content replacement else content)
          replacement in
      (rest.0, (if hit then length (re.find_all r.pattern content none) else 0) + rest.1)

  -- `Redact`
  abbrev pub redact : Inspector Re → String → String → String × ℕ
  redact i content replacement =
      redact_rules i.rules content (if replacement == "" then "[REDACTED]" else replacement)

  -- `HasSensitiveContent`
  unfoldable pub has_sensitive_content : Inspector Re → String → Bool
  has_sensitive_content i content = any (λ r. re.is_match r.pattern content) i.rules
