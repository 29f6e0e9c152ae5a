-- ===== src/ExtAuthz/Server/Total.antt =====
-- `Check` of pkg/extauthz/server.go, and the pointers that it follows.
use nullfield.Prelude.{
  ℕ, ◌≡◌, refl, sym, ◌∙◌, ap, ◌⊎◌, inl, inr, String, Bool, true, false, List, Option, none, some,
  ◌==◌, arith, if◌then◌else◌, Option-cases, Bool-cases,
}
use nullfield.Api.{Rule}
use nullfield.Identity.{Identity, Run}
use nullfield.Mcp.{ToolsCallParams}
use nullfield.Policy.Rules.{new_rule_engine}
use nullfield.Audit.{AuditEvent}
use nullfield.Gates.{Gates, Clock}
use nullfield.ExtAuthz.{CheckResponse}
use nullfield.ExtAuthz.Translate.{
  Codec, CheckRequest, HttpAttributes, Translated, bare, attest_source, attest_header, with_tool,
  body_truncated, body_of, parse_mcp_tools_call, translate_attributes, translate,
}
use nullfield.ExtAuthz.Decide.{Server, Decided}
use nullfield.ExtAuthz.Decide.Total.{Whole, decide-Settles}
use nullfield.ExtAuthz.Server.{with_run, decision_event, report, reported, check_translated, check}

-- A request that no verifier has seen has no run.
abbrev RunFree : Translated → Type 0
RunFree t = t.policy.run ≡ none

attest_source-RunFree : (t : Translated) → RunFree t → RunFree (attest_source t)
unfolding attest_source
attest_source-RunFree t e = elim (Bool-cases (t.raw_principal == "")) [
  | inl same ↦ rw same e
  | inr other ↦ rw other e
]

attest_header-RunFree : (t : Translated) → RunFree t → RunFree (attest_header t)
unfolding attest_header
attest_header-RunFree t e = ground arith

with_tool-RunFree :
    (o : Option (ToolsCallParams × String)) (t : Translated) → RunFree t → RunFree (with_tool o t)
unfolding with_tool
with_tool-RunFree none t e = e
with_tool-RunFree (some (tc, method)) t e = e

-- What `Translate` answers: an error, or a request that has no run.
abbrev Plain : Option Translated × Option String → Type 0
Plain r = ((e : String) × (r.1 ≡ some e)) ⊎ ((t : Translated) × (r ≡ (some t, none)) × RunFree t)

translate_attributes-Plain :
    (codec : Codec) (req : CheckRequest) (attrs : HttpAttributes)
    → Plain (translate_attributes codec req attrs)
unfolding translate_attributes bare
translate_attributes-Plain codec req attrs =
    let out : Translated = attest_header (attest_source (bare codec req attrs)) in
    let call = parse_mcp_tools_call codec.json (body_of attrs) in
    if-Plain (body_truncated codec attrs.size attrs.headers (body_of attrs)) _
      (some (with_tool call out), none) (inl (_, refl))
      (inr (
        with_tool call out,
        refl,
        with_tool-RunFree call out (
            attest_header-RunFree (attest_source (bare codec req attrs))
              (attest_source-RunFree (bare codec req attrs) refl)),
      ))
  where
    if-Plain :
        (b : Bool) (x y : Option Translated × Option String)
        → Plain x
        → Plain y
        → Plain (if b then x else y)
    if-Plain true x y h k = h
    if-Plain false x y h k = k

translate-Plain : (codec : Codec) (req : CheckRequest) → Plain (translate codec req)
unfolding translate
translate-Plain codec req = elim (Option-cases req.http) [
  | inl e ↦ rw (e, translate) (inl (_, refl))
  | inr (attrs, e) ↦ rw (e, translate) (translate_attributes-Plain codec req attrs)
]

RunFree-Whole : (t : Translated) → RunFree t → Whole t
RunFree-Whole t free = record {
  identified = λ run e. absurd (none-ne-some run (sym free ∙ e));
  attested = λ run e. absurd (none-ne-some run (sym free ∙ e));
}
  where
    none-ne-some : (run : Run) → ¬ (◌≡◌ {A = Option Run} none (some run))
    none-ne-some run e = ground arith

with_run_total :
    (run : Option Run) (id : Option Identity) (e : AuditEvent)
    → ((r : Run) → run ≡ some r → (i : Identity) × (id ≡ some i))
    → (e' : AuditEvent) × (with_run run id e ≡ some e')
unfolding with_run
with_run_total none id e w = (e, refl)
with_run_total (some run) id e w = let (i, is) = w run refl in rw is (_, refl)

module _ {Ast Program : Type 0} (s : Server Ast Program) where
  report_total : (o : Decided) → Whole o.translated → (r : _) × (report s o ≡ some r)
  unfolding report
  report_total o w =
      let (e, is) =
        with_run_total o.translated.policy.run o.translated.policy.identity (decision_event s o)
          w.identified in
      rw (is, report) (_, refl)

  check_translated_total :
      (rules : List Rule)
      → s.engine ≡ new_rule_engine s.cel rules
      → (g : Gates) (r : Option Translated × Option String) (now : ℕ) (clock : Clock) → Plain r
      → (a : Gates × List AuditEvent × CheckResponse) × (check_translated s g r now clock ≡ some a)
  unfolding check_translated reported
  check_translated_total rules built g (out, e) now clock (inl (m, is)) = rw is (_, refl)
  check_translated_total rules built g r now clock (inr (t, is, free)) =
      let (o, decided, whole) = decide-Settles s rules built g t now clock (RunFree-Whole t free) in
      let (a, reports) = report_total o whole in
      (a, ap (λ x. check_translated s g x now clock) is ∙ ap (reported s) decided ∙ reports)

  -- With an engine that `NewRuleEngine` built from rules, `Check` answers every request, whatever the
  -- gates, the parameters and the clock: no nil pointer is followed.
  pub check_total :
      (rules : List Rule)
      → s.engine ≡ new_rule_engine s.cel rules
      → (codec : Codec) (g : Gates) (req : CheckRequest) (now : ℕ) (clock : Clock)
      → (a : Gates × List AuditEvent × CheckResponse) × (check s codec g req now clock ≡ some a)
  unfolding check
  check_total rules built codec g req now clock =
      check_translated_total rules built g (translate codec req) now clock
        (translate-Plain codec req)
