-- ===== src/Cache/Subscriptions/Tests.antt =====
-- One channel and its handlers.
use blocks_genesis_py.Prelude.{true, false, List, [], ◌∷◌, ◌++◌, some, ◌≡◌, refl}
use blocks_genesis_py.Prelude.Dict.{get, insert, pop, EveryEntry}
use blocks_genesis_py.Cache.Subscriptions.{
  listening, attribute_error, Event, subscribes, unsubscribes, delivers, disposes, disposes_async,
  unsubscribe_async, dispose_async, step, run, new_client,
}
use blocks_genesis_py.Cache.Subscriptions.Heard.{StaysSilent}
use blocks_genesis_py.Cache.Subscriptions.Silent.{unsubscribed_silent}
use blocks_genesis_py.Cache.Subscriptions.Leaked.{resubscribed_leaks}

abbrev in_use : List Event
in_use = subscribes true "updates" (some 7) ∷ delivers 0 "m" false ∷ []

handled_once : (run in_use new_client).handled ≡ (7, "updates", "m") ∷ []
unfolding run insert
handled_once = refl

-- Another channel is heard when the first one is unsubscribed.
abbrev in_use_by_others : List Event
in_use_by_others = delivers 0 "late" false ∷ delivers 1 "other" false ∷ []

abbrev two_channels : List Event
two_channels = subscribes true "updates" (some 7) ∷ subscribes true "news" (some 8) ∷ []

other_heard :
    (run (two_channels ++ unsubscribes "updates" ∷ in_use_by_others) new_client).handled
    ≡ (8, "news", "other") ∷ []
unfolding run insert get pop
other_heard = refl

unsubscribed_silent_example :
    StaysSilent "updates" in_use_by_others
      (run (two_channels ++ unsubscribes "updates" ∷ []) new_client)
unfolding get insert step
unsubscribed_silent_example =
    unsubscribed_silent two_channels in_use_by_others "updates" (refl, (refl, tt)) refl tt

abbrev closing_down : List Event
closing_down = unsubscribes "updates" ∷ disposes_async ∷ delivers 0 "m" false ∷ []

resubscribed_leaks_example :
    (run
        (subscribes true "updates" (some 7) ∷ subscribes true "updates" (some 8) ∷ closing_down)
        new_client).tasks
      0
    ≡ listening "updates" 7
unfolding EveryEntry
resubscribed_leaks_example =
    resubscribed_leaks new_client "updates" 7 8 closing_down tt refl (refl, tt)

-- After a handler has raised, neither unsubscribing nor disposing returns.
abbrev after_error : List Event
after_error = subscribes true "updates" (some 7) ∷ delivers 0 "m" true ∷ []

unsubscribe_raises : (unsubscribe_async "updates" (run after_error new_client)).0 ≡ attribute_error
unfolding run unsubscribe_async get insert
unsubscribe_raises = refl

dispose_raises : (dispose_async (run after_error new_client)).0 ≡ attribute_error
unfolding run dispose_async get insert
dispose_raises = refl

-- A disposal that only forgets the handlers leaves the task, which the next one does not reach.
disposed_twice :
    (run (subscribes true "updates" (some 7) ∷ disposes ∷ disposes_async ∷ []) new_client).tasks 0
    ≡ listening "updates" 7
unfolding run insert
disposed_twice = refl
