-- ===== src/Examples/Store.antt =====
-- Events, queues, the value store, the configuration, the recorder's queue and the clock.
use flux_mcf.Prelude.{
  ℕ, ◌+◌, ◌-◌, String, ◌≡◌, inr, refl, not, ◌&&◌, ◌||◌, Option, none, some, List, [], ◌∷◌, ◌++◌,
  length, drop, any_of, keep_if, nat_beq, ◌==◌, string_eq, if◌then◌else◌, ok, arith,
}
use flux_mcf.World.{World}
use flux_mcf.Events.{active, expired, notify_events}
use flux_mcf.Events.Notify.{reports_expired, notify_events_lem}
use flux_mcf.ValueQueue.Bounds
use flux_mcf.ValueQueue.Bounds.{IsBounded}
use flux_mcf.ValueQueue.History.{
  receive_all, receive_all-eq-last, put_in, take_out, serve, serve_fifo,
}
use flux_mcf.Prelude.Dict.{lookup}
use flux_mcf.ValueStore.{ValueStore, new_store, set_value, get_value, receivers_of, write_value}
use flux_mcf.ValueStore.Registration
use flux_mcf.ValueStore.Registration.{IsOnce, count}
use flux_mcf.ValueStore.Delivery.{deliver, set_value_lem, set_value-Delivered, set_value_effect}
use flux_mcf.ValueStore.Refinement.{
  Request, sets, gets, adds_receiver, answer_all, serve_all, contents, serve_all-refines,
}
use flux_mcf.QueueDelivery.{queue_receivers, copies, queue-set_value}
use flux_mcf.Config.{leaf, dict, Fields, nil, field, get, load_all, read_config}
use flux_mcf.Config.Merge.{IsFields, leaf_at, decided, leaf-read_config}
use flux_mcf.Recorder.Queue.Labels
use flux_mcf.Recorder.Queue.Labels.{Labelled, serve-Labelled}
use flux_mcf.Clock.{Datetime}
use flux_mcf.Examples.Samples.{world, store}

notify_events_lem_example :
    (active 1 (notify_events 1 world)
      ≡ (any_of (λ e. nat_beq e 1) (1 ∷ 2 ∷ []) && not (expired 1 world) || active 1 world))
    × (((notify_events 1 world).queues 1).events ≡ (
        if any_of (reports_expired world) (1 ∷ 2 ∷ [])
        then keep_if (λ e. not (expired e world)) (1 ∷ 2 ∷ [])
        else 1 ∷ 2 ∷ []))
notify_events_lem_example = notify_events_lem 1 1 world

abbrev ops : List (ℕ × Bounds.QueueOp ℕ)
ops =
    (1, Bounds.receives "a" 8)
    ∷ (1, Bounds.pops)
    ∷ (2, Bounds.receives "a" 9)
    ∷ (1, Bounds.sets_maxlen 1)
    ∷ []

apply_all-IsBounded_example : IsBounded ((Bounds.apply_all ops world).queues 1)
apply_all-IsBounded_example = Bounds.apply_all-IsBounded 1 ops world (inr (omega arith))

abbrev received : List (ℕ × String)
received = (5, "a") ∷ (6, "b") ∷ (8, "a") ∷ []

receive_all-eq-last_example :
    ((receive_all 1 ((8, "a") ∷ []) world).queues 1).queue ≡ drop (length received - 2) received
receive_all-eq-last_example =
    receive_all-eq-last 1 ((8, "a") ∷ []) world (omega arith) (omega arith)

serve_fifo_example :
    (serve 2 (put_in 8 "b" ∷ take_out ∷ []) world).1
      ++ ((serve 2 (put_in 8 "b" ∷ take_out ∷ []) world).0.queues 2).queue
    ≡ (7, "a") ∷ (8, "b") ∷ []
serve_fifo_example = serve_fifo 2 (put_in 8 "b" ∷ take_out ∷ []) world refl

empty-IsOnce : IsOnce (new_store {V = ℕ})
unfolding lookup
empty-IsOnce = record { for_all_topics = λ j. omega arith; for_key = λ j i. omega arith }

abbrev registrations : List (Registration.StoreOp ℕ)
registrations =
    Registration.adds "a" 2
    ∷ Registration.adds "b" 1
    ∷ Registration.writes "a" 3
    ∷ Registration.adds "a" 2
    ∷ []

set_value-Delivered_example :
    (st' : ValueStore ℕ) × (set_value queue_receivers "a" (some 8) (store, world)
      ≡ ok (
        st',
        deliver queue_receivers (store.all_topic_receivers ++ receivers_of "a" store) "a" 8 world,
      ))
    × ((j : String) → get_value j st' ≡ (if "a" == j then some 8 else get_value j store))
set_value-Delivered_example = set_value-Delivered queue_receivers "a" 8 store world

abbrev after_set : World ℕ
after_set = deliver queue_receivers (2 ∷ 1 ∷ 2 ∷ []) "a" 8 world

set_value_effect_example :
    (get_value "a" (write_value "a" 8 store).0
      ≡ (if ◌==◌ {K = String} "a" "a" then some 8 else get_value "a" store))
    × (receivers_of "a" (write_value "a" 8 store).0 ≡ receivers_of "a" store)
    × ((write_value "a" 8 store).0.all_topic_receivers ≡ store.all_topic_receivers)
unfolding lookup
set_value_effect_example =
    set_value_effect queue_receivers "a" "a" 8 store (write_value "a" 8 store).0 world after_set
      (set_value_lem queue_receivers "a" 8 store world)

queue-set_value_example :
    (after_set.queues 2).queue
    ≡ (world.queues 2).queue
      ++ copies (count 2 store.all_topic_receivers + count 2 (receivers_of "a" store)) (8, "a")
unfolding lookup
queue-set_value_example =
    queue-set_value 2 "a" 8 store (write_value "a" 8 store).0 world after_set refl
      (set_value_lem queue_receivers "a" 8 store world)

abbrev base : Fields ℕ
base = field "log" (dict (field "level" (leaf 1) (field "size" (leaf 2) nil))) nil

abbrev over : Fields ℕ
over = field "log" (dict (field "level" (leaf 5) nil)) nil

abbrev load : String → Option (Fields ℕ)
load path = if path == "first" then some base else if path == "third" then some over else none

base-IsFields : IsFields base
unfolding IsFields get
base-IsFields = (refl, (refl, tt, (refl, tt, tt)), tt)

over-IsFields : IsFields over
unfolding IsFields get
over-IsFields = (refl, (refl, tt, tt), tt)

leaf-read_config_example :
    leaf_at
      ("log" ∷ "level" ∷ [])
      (read_config (λ d n. d) load "c" ("first" ∷ "second" ∷ "third" ∷ []))
    ≡ decided
        ("log" ∷ "level" ∷ [])
        none
        (load_all (λ d n. d) load "c" ("first" ∷ "second" ∷ "third" ∷ []))
unfolding load_all
leaf-read_config_example =
    leaf-read_config (λ d n. d) load "c" ("first" ∷ "second" ∷ "third" ∷ []) ("log" ∷ "level" ∷ [])
      (base-IsFields, (over-IsFields, tt))

abbrev accesses : List (Labels.Access ℕ)
accesses = Labels.receives 1 "a" 5 ∷ Labels.receives 2 "b" 6 ∷ Labels.pops ∷ []

serve-Labelled_example : Labelled (λ t. 3) accesses
serve-Labelled_example = serve-Labelled (λ t. 3) accesses

abbrev late : Datetime
late = record { secs = 10; microsecond = 800000 }

abbrev early : Datetime
early = record { secs = 11; microsecond = 100000 }

-- two writes, a refused one, and what is read between them
abbrev requests : List (Request ℕ)
requests =
    sets "a" (some 8)
    ∷ adds_receiver "b" 1
    ∷ gets "a"
    ∷ sets "a" none
    ∷ gets "b"
    ∷ sets "b" (some 9)
    ∷ gets "b"
    ∷ []

serve_all-refines_example :
    serve_all queue_receivers requests (store, world)
    ≡ answer_all requests (contents queue_receivers (store, world))
serve_all-refines_example = serve_all-refines queue_receivers requests (store, world)
