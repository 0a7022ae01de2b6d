-- ===== src/Tools/Gate.antt =====
-- kairo_kernel/tools/registry.py: `AuthorizationGate`, with the policy of kairo_kernel/tools/policy.py. A result holds a
-- value or an error, so a classification without either does not occur.
mod Examples
use Prim.Native.String.{◌++◌ as append_text}
use py_tui_kairo.Common.{
  ℕ, ◌≡◌, ◌≢◌, ◌∙◌, ◌↔◌, ◌⊎◌, inl, inr, eq_iff, ap, sym, subst, refl, Bool, true, false, not, ◌&&◌,
  ◌||◌, Option, none, some, List, [], ◌∷◌, String, str_eq, arith, if◌then◌else◌,
}
use py_tui_kairo.Contracts.Enums.{
  AuthorizationMode, OperationScope, ToolExecutionStatus, mode_value, scope_value,
}
use py_tui_kairo.Contracts.Content.{ContentBlock}
use py_tui_kairo.Contracts.Errors.{KernelResult, success, failure}
use py_tui_kairo.Contracts.Tools.{ToolInvocation, ToolExecutionContext, ToolResult}

unfoldable pub is_authorized : AuthorizationMode → OperationScope → Bool
is_authorized AuthorizationMode.yolo scope = true
is_authorized AuthorizationMode.auto OperationScope.internal = true
is_authorized _ _ = false

-- `AuthorizationMode(text)`, none for its ValueError
unfoldable pub mode_of : String → Option AuthorizationMode
mode_of text =
    if str_eq text "manual"
    then some AuthorizationMode.manual
    else if str_eq text "auto"
    then some AuthorizationMode.auto
    else if str_eq text "yolo"
    then some AuthorizationMode.yolo
    else none

-- What the gate ends with: the tool's `execute` is awaited, or a result is returned without it.
pub data GateEnd : Type 0 where
  executes : GateEnd
  rejects : ToolResult → GateEnd

unfoldable pub rejected : ToolInvocation → ℕ → ℕ → String → GateEnd
rejected i started finished message = rejects (record {
  tool_call_id = i.tool_call_id;
  name = i.name;
  status = ToolExecutionStatus.rejected;
  content = ContentBlock.text_block message ∷ [];
  started_at = started;
  finished_at = finished;
  error_message = message;
})

unfoldable pub check_mode :
    ToolInvocation → ℕ → ℕ → Bool → OperationScope → Option AuthorizationMode → GateEnd
unfolding rejected is_authorized
check_mode i started finished approved_once scope none =
    rejected i started finished "Unknown authorization mode."
check_mode i started finished approved_once scope (some mode) =
    if not approved_once && not (is_authorized mode scope)
    then rejected i started finished (
        append_text (mode_value mode)
          (append_text " mode does not authorize " (append_text (scope_value scope) " scope.")))
    else executes

-- `classified` is what the tool's `classify` returned; the times are those of the two clock reads.
unfoldable pub execute :
    ToolInvocation → ToolExecutionContext → KernelResult OperationScope → ℕ → ℕ → Bool → GateEnd
unfolding check_mode mode_of rejected
execute i context (failure e) started finished approved_once = rejected i started finished e.message
execute i context (success scope) started finished approved_once =
    check_mode i started finished approved_once scope (mode_of context.authorization_mode)

-- The mode's text by what it lets through: yolo every call, auto an internal or an approved one, manual an approved one.
abbrev pub Permitted : String → Bool → OperationScope → Type 0
Permitted mode approved_once scope =
    (mode ≡ "yolo")
    ⊎ (((mode ≡ "auto") × ((approved_once ≡ true) ⊎ (scope ≡ OperationScope.internal)))
        ⊎ ((mode ≡ "manual") × (approved_once ≡ true)))

is_authorized-auto :
    (scope : OperationScope)
    → (is_authorized AuthorizationMode.auto scope ≡ true) ↔ (scope ≡ OperationScope.internal)
unfolding is_authorized
is_authorized-auto OperationScope.internal = ((λ h. refl), λ h. refl)
is_authorized-auto scope = ((λ h. cc), λ h. cc)

check_mode-executes :
    (i : ToolInvocation) (started finished : ℕ) (a : Bool) (scope : OperationScope)
    (mode : AuthorizationMode)
    → (check_mode i started finished a scope (some mode) ≡ executes)
      ↔ ((a ≡ true) ⊎ (is_authorized mode scope ≡ true))
unfolding check_mode rejected
check_mode-executes i started finished a scope mode = ((λ h. ground arith), λ h. ground arith)

check_mode-unknown :
    (i : ToolInvocation) (started finished : ℕ) (a : Bool) (scope : OperationScope)
    → check_mode i started finished a scope none ≢ executes
unfolding check_mode rejected
check_mode-unknown i started finished a scope = λ h. cc

mode_of-cases :
    (text : String)
    → ((text ≡ "yolo") × (mode_of text ≡ some AuthorizationMode.yolo))
      ⊎ (((text ≡ "auto") × (mode_of text ≡ some AuthorizationMode.auto))
          ⊎ (((text ≡ "manual") × (mode_of text ≡ some AuthorizationMode.manual))
              ⊎ ((text ≢ "yolo") × (text ≢ "auto") × (text ≢ "manual") × (mode_of text ≡ none))))
unfolding mode_of
mode_of-cases text = ground (arith, eq_iff text "yolo", eq_iff text "auto", eq_iff text "manual")

module _ (i : ToolInvocation) (started finished : ℕ) (a : Bool) (scope : OperationScope) where
  check_mode-yolo :
      (text : String)
      → text ≡ "yolo"
      → (check_mode i started finished a scope (some AuthorizationMode.yolo) ≡ executes)
        ↔ Permitted text a scope
  unfolding is_authorized
  check_mode-yolo text e = (
    (λ h. inl e),
    λ h. (check_mode-executes i started finished a scope AuthorizationMode.yolo).1 (inr refl),
  )

  check_mode-auto :
      (text : String)
      → text ≡ "auto"
      → (check_mode i started finished a scope (some AuthorizationMode.auto) ≡ executes)
        ↔ Permitted text a scope
  check_mode-auto text e =
      let runs = check_mode-executes i started finished a scope AuthorizationMode.auto in
      let covers = is_authorized-auto scope in
      (
        (λ h. ground (arith, runs.0 h, covers.0)),
        λ h. runs.1 (ground (arith, covers.1, eq_iff "auto" "yolo", eq_iff "auto" "manual", e, h)),
      )

  check_mode-manual :
      (text : String)
      → text ≡ "manual"
      → (check_mode i started finished a scope (some AuthorizationMode.manual) ≡ executes)
        ↔ Permitted text a scope
  unfolding is_authorized
  check_mode-manual text e =
      let runs = check_mode-executes i started finished a scope AuthorizationMode.manual in
      (
        (λ h. ground (arith, runs.0 h)),
        λ h. runs.1 (ground (arith, eq_iff "manual" "yolo", eq_iff "manual" "auto")),
      )

  check_mode-other :
      (text : String)
      → text ≢ "yolo"
      → text ≢ "auto"
      → text ≢ "manual"
      → (check_mode i started finished a scope none ≡ executes) ↔ Permitted text a scope
  check_mode-other text y u n =
      ((λ h. absurd (check_mode-unknown i started finished a scope h)), λ h. ground arith)

-- A call whose tool classified it is executed exactly if the context's mode is "yolo", or it is "auto" and the call is
-- approved once or has the internal scope, or it is "manual" and the call is approved once.
pub gate_decides :
    (i : ToolInvocation) (context : ToolExecutionContext) (started finished : ℕ) (a : Bool)
    (scope : OperationScope)
    → (execute i context (success scope) started finished a ≡ executes)
      ↔ Permitted context.authorization_mode a scope
unfolding execute
gate_decides i context started finished a scope =
    let text = context.authorization_mode in
    let goal : Option AuthorizationMode → Type 0 =
      λ o. (check_mode i started finished a scope o ≡ executes) ↔ Permitted text a scope in
    elim (mode_of-cases text) [
      | inl (e, m) ↦ subst goal (sym m) (check_mode-yolo i started finished a scope text e)
      | inr (inl (e, m)) ↦ subst goal (sym m) (check_mode-auto i started finished a scope text e)
      | inr (inr (inl (e, m))) ↦
          subst goal (sym m) (check_mode-manual i started finished a scope text e)
      | inr (inr (inr (y, u, n, m))) ↦
          subst goal (sym m) (check_mode-other i started finished a scope text y u n)
    ]
