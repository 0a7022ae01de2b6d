-- ===== src/Runtime/Interactions/Examples.antt =====
-- A request that offers an approval until time 10, and two responses.
use py_tui_kairo.Common.{
  ℕ, max, ◌≤◌, ◌≢◌, ◌⊎◌, ◌≡◌, refl, Bool, true, false, none, some, List, [], ◌∷◌, String, str_eq,
  length, get_elem?, ap,
}
use py_tui_kairo.Common.Dict.{get, put, UniqueKeys}
use py_tui_kairo.Contracts.Enums.{InteractionKind, InteractionAction}
use py_tui_kairo.Contracts.Errors.{success}
use py_tui_kairo.Contracts.Interactions.{
  InteractionRequest, InteractionResponse, InteractionReceipt, offered,
}
use py_tui_kairo.Runtime.Interactions.{
  InteractionBroker, Call, Future, BrokerStep, open_call, respond_at, accepted, raised, new_broker,
  open_request, wake, answer, respond_to, respond, step, run, is_due, done, set_future,
}
use py_tui_kairo.Runtime.Interactions.FailClosed.{Granted, grants_only_offered}
use py_tui_kairo.Runtime.Interactions.Retention.{keys, terminal_bounded}
use py_tui_kairo.Runtime.Interactions.Once.{Late, answered_once}
use py_tui_kairo.Runtime.Interactions.Expired.{late_response_raises}

abbrev ask : InteractionRequest
ask = record {
  interaction_id = "i";
  turn_id = "t";
  session_id = "s";
  kind = InteractionKind.tool_approval;
  prompt = "run?";
  choices =
      record { action = InteractionAction.approve_once; label = "yes"; destructive = false }
      ∷ record { action = InteractionAction.reject; label = "no"; destructive = false }
      ∷ [];
  expires_at = some 10;
  safe_default = InteractionAction.reject;
}

abbrev yes : InteractionResponse
yes = record {
  interaction_id = "i";
  turn_id = "t";
  action = InteractionAction.approve_once;
  text = "";
}

abbrev empty : String → Bool
empty text = str_eq text ""

abbrev asked : InteractionBroker
asked = record (new_broker 1) {
  pending = ("i", 0) ∷ [];
  calls = record { request = ask; future = Future.waiting } ∷ [];
}

abbrev answered_call : Call
answered_call = record { request = ask; future = Future.answered yes }

abbrev settled : InteractionBroker
settled = record asked { calls = answered_call ∷ [] }

abbrev approval : List BrokerStep
approval = open_call ask ∷ respond_at 5 yes ∷ []

approved : run empty approval (new_broker 1) ≡ settled
unfolding run step open_request respond respond_to answer is_due get put offered
approved = refl

returned : (wake answered_call false (run empty approval (new_broker 1))).0 ≡ some yes
unfolding wake
returned = refl

called : get_elem? (run empty approval (new_broker 1)).calls 0 ≡ some answered_call
called = ap (λ (b : InteractionBroker). get_elem? b.calls 0) approved

grants_only_offered_example : Granted ask yes
grants_only_offered_example =
    grants_only_offered empty approval 1 0 answered_call false yes called returned

terminal_bounded_example :
    (length (run empty approval (new_broker 1)).terminal_order ≤ max 1 1)
    × ((run empty approval (new_broker 1)).terminal_order
        ≡ keys (run empty approval (new_broker 1)).terminal)
    × UniqueKeys (run empty approval (new_broker 1)).terminal
terminal_bounded_example = terminal_bounded empty approval 1

receipt : InteractionReceipt
receipt = record { interaction_id = "i"; turn_id = "t"; accepted = true }

first_response : respond empty 5 yes asked ≡ (accepted receipt, settled)
unfolding respond respond_to answer is_due get offered receipt
first_response = refl

-- Afterwards the same answer is tried again, and another request is opened.
abbrev other : InteractionRequest
other = record ask { interaction_id = "j" }

abbrev afterwards : List BrokerStep
afterwards = respond_at 6 yes ∷ open_call other ∷ []

answered_once_example :
    let later = run empty afterwards settled in
    (i : ℕ) × (c : Call) × (get "i" asked.pending ≡ some i)
    × (get_elem? asked.calls i ≡ some c)
    × (done c.future ≡ false)
    × (get_elem? later.calls i ≡ some (set_future (Future.answered yes) c))
    × ((wake (set_future (Future.answered yes) c) false later).0 ≡ some yes)
    × (Late (respond empty 7 yes later).0 ⊎ (get "i" later.pending ≢ some i))
answered_once_example =
    answered_once empty 5 7 false yes yes receipt asked settled afterwards first_response

opened : open_request ask (new_broker 1) ≡ (success 0, asked)
unfolding open_request get put
opened = refl

due : is_due 11 (some 10) ≡ true
unfolding is_due
due = refl

late_response_raises_example :
    let (outcome, after) = respond empty 11 yes settled in
    let woken = (wake answered_call false after).1 in
    (outcome ≡ raised)
    × (get_elem? after.calls 0 ≡ some answered_call)
    × ((wake answered_call false after).0 ≡ some yes)
    × (get "i" woken.pending ≡ none)
    × (get "i" woken.terminal ≡ none)
    × ((open_request ask woken).0 ≡ success (length woken.calls))
late_response_raises_example =
    late_response_raises empty 5 11 0 ask ask yes yes receipt false (new_broker 1) asked settled
      opened first_response refl refl refl due
