-- ===== src/Messaging/Senders/Tests.antt =====
-- Two callers that send to one queue.
use blocks_genesis_py.Prelude.{ℕ, String, false, List, [], ◌∷◌, some, ◌≡◌, refl}
use blocks_genesis_py.Prelude.Dict.{get, insert, pop}
use blocks_genesis_py.Messaging.Senders.{
  queue_sender, topic_sender, resending, kind_of, Event, calls, answers, closes, run, new_client,
}
use blocks_genesis_py.Messaging.Senders.Owned.{send_exclusive}
use blocks_genesis_py.Messaging.Senders.Driven.{Fits}
use blocks_genesis_py.Messaging.Senders.Driven.Steps.{IsDriven, sender-IsDriven}

abbrev orders : List String
orders = "orders" ∷ []

abbrev failed_once : List Event
failed_once = calls 0 "orders" ∷ calls 1 "orders" ∷ answers 0 false ∷ closes 0 ∷ []

second_sender :
    (run orders [] failed_once (new_client orders [])).callers 0
    ≡ resending "orders"
        (some (record { number = 0; kind = queue_sender }))
        (record { number = 1; kind = queue_sender })
unfolding run new_client get insert pop
second_sender = refl

topic_by_default : kind_of orders [] "news" ≡ topic_sender
unfolding kind_of
topic_by_default = refl

send_exclusive_example :
    let s = run orders [] failed_once (new_client orders []) in
    (◌≡◌ {A = ℕ} 0 0) × (get s.held "orders" ≡ some 0)
unfolding run new_client get insert pop
send_exclusive_example = send_exclusive orders [] failed_once 0 0 "orders" refl refl

sender-IsDriven_example :
    let s = run orders [] failed_once (new_client orders []) in
    IsDriven orders [] s × Fits s.senders s.built (s.callers 0)
sender-IsDriven_example = sender-IsDriven orders [] failed_once 0
