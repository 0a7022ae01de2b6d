-- ===== src/Engine/Turns/Steady.antt =====
-- Streams and compaction keep what a run's invariants are about.
use py_tui_kairo.Common.{ℕ, refl, Bool, Option, none, some, List, [], ◌∷◌, String}
use py_tui_kairo.Contracts.Enums.{ErrorCode, ProviderStreamKind}
use py_tui_kairo.Contracts.Content.{ContentBlock, Message}
use py_tui_kairo.Contracts.Errors.{KernelResult, success, failure}
use py_tui_kairo.Contracts.Providers.{
  ProviderFailure, ProviderStreamEvent, ProviderUsage, ProviderProfile,
}
use py_tui_kairo.Engine.Turns.Machine.{
  M, Ports, StreamItem, event, stream_raises, raise, modify, uses,
}
use py_tui_kairo.Engine.Turns.Keeps.{Keeps}
use py_tui_kairo.Engine.Turns.Stable.{Core, Stable, At, modify-At, at_rules}
use py_tui_kairo.Engine.Turns.Stream.{
  StreamResult, Reading, Turn, goes_on, returns, emit_if, handle_call, handle_usage, handle_kind,
  handle_event, guarded_event, read_stream, go_on, or_fail, add_usage, log_request, provider_round,
}
use py_tui_kairo.Engine.Turns.Compaction.{
  check_round, check_failure, count_compression, fail, summarise, check_fit, estimate, trimmed,
  too_long, do_compact, compact,
}

module _ {P : Ports → Core → Type 0} ⦃st : Stable P⦄ where
  emit_if-At :
      (b : Bool) (m action : String) (c : List ContentBlock) → Keeps (At P) (emit_if b m action c)
  unfolding emit_if
  emit_if-At b m action c = search at_rules

  handle_call-At : (o : _) (l : Reading) → Keeps (At P) (handle_call o l)
  unfolding handle_call
  handle_call-At none l = search at_rules
  handle_call-At (some c) l = search at_rules

  handle_usage-At : (o : Option ProviderUsage) (l : Reading) → Keeps (At P) (handle_usage o l)
  unfolding handle_usage
  handle_usage-At none l = search at_rules
  handle_usage-At (some u) l = search (at_rules, modify-At (add_usage u) (λ r. refl))

  handle_kind-At :
      (d : Bool) (action : String) (k : ProviderStreamKind) (e : ProviderStreamEvent) (l : Reading)
      → Keeps (At P) (handle_kind d action k e l)
  unfolding handle_kind
  handle_kind-At d action ProviderStreamKind.content e l = search (at_rules, emit_if-At)
  handle_kind-At d action ProviderStreamKind.reasoning e l = search (at_rules, emit_if-At)
  handle_kind-At d action ProviderStreamKind.tool_call e l = handle_call-At e.tool_call l
  handle_kind-At d action ProviderStreamKind.usage e l = handle_usage-At e.usage l
  handle_kind-At d action ProviderStreamKind.completed e l = search at_rules
  handle_kind-At d action ProviderStreamKind.failed e l = search at_rules

  handle_event-At :
      (d : Bool) (action : String) (e : ProviderStreamEvent) (l : Reading)
      → Keeps (At P) (handle_event d action e l)
  unfolding handle_event
  handle_event-At d action e l = search (at_rules, handle_kind-At)

  guarded_event-At :
      (d : Bool) (action : String) (e : ProviderStreamEvent) (l : Reading)
      → Keeps (At P) (guarded_event d action e l)
  unfolding guarded_event
  guarded_event-At d action e l = record { at = λ s h. (handle_event-At d action e l).at s h }

  go_on-At :
      (k : Reading → M StreamResult) (t : Turn)
      → ((l : Reading) → Keeps (At P) (k l))
      → Keeps (At P) (go_on k t)
  go_on-At k (goes_on l) h = h l
  go_on-At k (returns r) h = search at_rules

  read_stream-At :
      (d : Bool) (action : String) (items : List StreamItem) (l : Reading)
      → Keeps (At P) (read_stream d action items l)
  unfolding read_stream
  read_stream-At d action [] l = search at_rules
  read_stream-At d action (stream_raises m b ∷ items) l = search at_rules
  read_stream-At d action (event e ∷ items) l =
      search (at_rules, guarded_event-At, go_on-At, read_stream-At d action items) depth 8

  pub or_fail-At : {A : Type 0} (r : KernelResult A) → Keeps (At P) (or_fail r)
  unfolding or_fail
  or_fail-At (success a) = search at_rules
  or_fail-At (failure e) = search at_rules

  log_request-At :
      (p : ProviderProfile) (ms : List Message) (role : String)
      → Keeps (At P) (modify (log_request p ms role))
  log_request-At p ms role = modify-At (log_request p ms role) (λ r. refl)

  pub provider_round-At :
      (ms : List Message) (role : String) (d : Bool) (action : String)
      → Keeps (At P) (provider_round ms role d action)
  unfolding provider_round
  provider_round-At ms role d action =
      search (at_rules, or_fail-At, read_stream-At, log_request-At) depth 12

  pub fail-At : {A : Type 0} (c : ErrorCode) (m o : String) → Keeps (At P) (fail c m o {A = A})
  unfolding fail raise
  fail-At c m o = record { at = λ s h. h }

  check_failure-At : (o : Option ProviderFailure) → Keeps (At P) (check_failure o)
  unfolding check_failure
  check_failure-At none = search at_rules
  check_failure-At (some f) = search at_rules

  pub check_round-At : (m : String) (r : StreamResult) → Keeps (At P) (check_round m r)
  unfolding check_round
  check_round-At m r = search (at_rules, check_failure-At)

  summarise-At : (source retained : List Message) → Keeps (At P) (summarise source retained)
  unfolding summarise
  summarise-At [] retained = search at_rules
  summarise-At (m ∷ source) retained =
      search
        (
          at_rules,
          provider_round-At,
          check_round-At,
          fail-At,
          modify-At count_compression (λ r. refl),
        )
        depth 20

  check_fit-At : (b : Bool) (n : ℕ) → Keeps (At P) (check_fit b n)
  unfolding check_fit
  check_fit-At b n = search (at_rules, fail-At)

  estimate-At : (ms : List Message) → Keeps (At P) (estimate ms)
  unfolding estimate uses
  estimate-At ms = record { at = λ s h. record { holds = h.holds } }

  trimmed-At : (b : Bool) (ms : List Message) → Keeps (At P) (trimmed b ms)
  unfolding trimmed uses
  trimmed-At b ms = record { at = λ s h. record { holds = h.holds } }

  too_long-At : (ms : List Message) → Keeps (At P) (too_long ms)
  unfolding too_long uses
  too_long-At ms = record { at = λ s h. record { holds = h.holds } }

  do_compact-At : (b : Bool) (ms : List Message) → Keeps (At P) (do_compact b ms)
  unfolding do_compact
  do_compact-At b ms =
      search (at_rules, summarise-At, trimmed-At, estimate-At, check_fit-At) depth 12

  pub compact-At : (b : Bool) (ms : List Message) → Keeps (At P) (compact b ms)
  unfolding compact
  compact-At b ms = search (at_rules, too_long-At, do_compact-At)
