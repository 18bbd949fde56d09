-- ===== src/Events/Notify.antt =====
-- What triggering does to the events, and a notification to the list of events of the queue.
use flux_mcf.Prelude.{
  ℕ, ◌≡◌, refl, ap, ap₂, fun_ext, ◌∙◌, Bool, true, false, not, ◌&&◌, ◌||◌, Option, none, some, List,
  [], ◌∷◌, keep_if, any_of, nat_beq, nat_beq_iff, if◌then◌else◌, arith,
}
use flux_mcf.World.{World, Event, EventClass, plain, value_received, ValueQueue}
use flux_mcf.Events.{
  trigger, trigger_as, plain_trigger, trace_activation, active, expired, truthy, notify_all,
  notify_events,
}

-- The class of an event decides whether its `trigger` reports that it is expired.
abbrev pub reports : EventClass → Bool
reports plain = true
reports (value_received q g) = false

module _ {V : Type 0} where
  queues-trace_activation :
      (q : ℕ) (g : Option ℕ) (w : World V) → (trace_activation q g w).queues ≡ w.queues
  unfolding trace_activation
  queues-trace_activation q none w = refl
  queues-trace_activation q (some g) w = refl

  events-trace_activation :
      (q : ℕ) (g : Option ℕ) (w : World V) → (trace_activation q g w).events ≡ w.events
  unfolding trace_activation
  events-trace_activation q none w = refl
  events-trace_activation q (some g) w = refl

  queues-trigger_as :
      (c : EventClass) (e : ℕ) (w : World V) → (trigger_as c e w).0.queues ≡ w.queues
  unfolding trigger_as plain_trigger
  queues-trigger_as plain e w = ground arith
  queues-trigger_as (value_received q g) e w =
      ground (arith, queues-trace_activation q g (plain_trigger e w).0)

  events-trigger_as :
      (c : EventClass) (e : ℕ) (w : World V)
      → (trigger_as c e w).0.events ≡ (plain_trigger e w).0.events
  unfolding trigger_as
  events-trigger_as plain e w = refl
  events-trigger_as (value_received q g) e w = events-trace_activation q g (plain_trigger e w).0

  pub queues-trigger : (e : ℕ) (w : World V) → (trigger e w).0.queues ≡ w.queues
  unfolding trigger
  queues-trigger e w = queues-trigger_as (w.events e).class e w

  events-trigger : (e : ℕ) (w : World V) → (trigger e w).0.events ≡ (plain_trigger e w).0.events
  unfolding trigger
  events-trigger e w = events-trigger_as (w.events e).class e w

  pub active-trigger :
      (e j : ℕ) (w : World V)
      → active j (trigger e w).0 ≡ (if nat_beq e j && not (expired e w) then true else active j w)
  unfolding active expired plain_trigger
  active-trigger e j w =
      ap (λ (f : ℕ → Event). (f j).flag) (events-trigger e w) ∙ ground (arith, nat_beq_iff e j)

  pub expired-trigger : (e j : ℕ) (w : World V) → expired j (trigger e w).0 ≡ expired j w
  unfolding expired plain_trigger
  expired-trigger e j w =
      ap (λ (f : ℕ → Event). (f j).expired) (events-trigger e w) ∙ ground (arith, nat_beq_iff e j)

  pub class-trigger :
      (e j : ℕ) (w : World V) → ((trigger e w).0.events j).class ≡ (w.events j).class
  unfolding plain_trigger
  class-trigger e j w =
      ap (λ (f : ℕ → Event). (f j).class) (events-trigger e w) ∙ ground (arith, nat_beq_iff e j)

  pub result-trigger :
      (e : ℕ) (w : World V) → truthy (trigger e w).1 ≡ (reports (w.events e).class && expired e w)
  unfolding trigger trigger_as plain_trigger expired
  result-trigger e w = ground arith

  pub queues-notify_all : (es : List ℕ) (w : World V) → (notify_all es w).0.queues ≡ w.queues
  unfolding notify_all
  queues-notify_all [] w = refl
  queues-notify_all (e ∷ es) w = queues-notify_all es (trigger e w).0 ∙ queues-trigger e w

  pub expired-notify_all :
      (es : List ℕ) (j : ℕ) (w : World V) → expired j (notify_all es w).0 ≡ expired j w
  unfolding notify_all
  expired-notify_all [] j w = refl
  expired-notify_all (e ∷ es) j w = expired-notify_all es j (trigger e w).0 ∙ expired-trigger e j w

  pub active-notify_all :
      (es : List ℕ) (j : ℕ) (w : World V)
      → active j (notify_all es w).0
        ≡ (any_of (λ e. nat_beq e j) es && not (expired j w) || active j w)
  unfolding notify_all
  active-notify_all [] j w = refl
  active-notify_all (e ∷ es) j w = ground (
    arith,
    active-notify_all es j (trigger e w).0,
    active-trigger e j w,
    expired-trigger e j w,
    nat_beq_iff e j,
  )

  -- an event that is expired and says so when it is triggered
  abbrev pub reports_expired : World V → ℕ → Bool
  reports_expired w e = reports (w.events e).class && expired e w

  reports_expired-trigger :
      (e j : ℕ) (w : World V) → reports_expired (trigger e w).0 j ≡ reports_expired w j
  reports_expired-trigger e j w = rw (class-trigger e j w, expired-trigger e j w)

  any_of-trigger :
      (es : List ℕ) (e : ℕ) (w : World V)
      → any_of (reports_expired (trigger e w).0) es ≡ any_of (reports_expired w) es
  any_of-trigger [] e w = refl
  any_of-trigger (j ∷ es) e w = ap₂ ◌||◌ (reports_expired-trigger e j w) (any_of-trigger es e w)

  pub result-notify_all :
      (es : List ℕ) (w : World V) → (notify_all es w).1 ≡ any_of (reports_expired w) es
  unfolding notify_all
  result-notify_all [] w = refl
  result-notify_all (e ∷ es) w =
      ap₂ ◌||◌ (result-trigger e w) (result-notify_all es (trigger e w).0 ∙ any_of-trigger es e w)

  keep_if-notify_all :
      (es xs : List ℕ) (w : World V)
      → keep_if (λ e. not ((notify_all es w).0.events e).expired) xs
        ≡ keep_if (λ e. not (expired e w)) xs
  unfolding expired
  keep_if-notify_all es xs w =
      ap (λ (p : ℕ → Bool). keep_if p xs) (fun_ext (λ e. ap not (expired-notify_all es e w)))

  active-notify_events :
      (q j : ℕ) (w : World V)
      → active j (notify_events q w)
        ≡ (any_of (λ e. nat_beq e j) (w.queues q).events && not (expired j w) || active j w)
  unfolding notify_events active
  active-notify_events q j w = ground (arith, active-notify_all (w.queues q).events j w)

  events-notify_events :
      (q : ℕ) (w : World V)
      → ((notify_events q w).queues q).events ≡ (
          if any_of (reports_expired w) (w.queues q).events
          then keep_if (λ e. not (expired e w)) (w.queues q).events
          else (w.queues q).events)
  unfolding notify_events
  events-notify_events q w =
      let es = (w.queues q).events in
      let same = ap (λ (f : ℕ → ValueQueue V). (f q).events) (queues-notify_all es w) in
      rw (← result-notify_all es w, ← keep_if-notify_all es es w)
        (ground (arith, nat_beq_iff q q, same))

  -- A notification activates exactly the registered events that are not expired, and leaves the
  -- flags of all others as they were. It takes the expired events off the list if one of them is a
  -- plain event, and leaves the list as it was if none is: a `ValueReceivedEvent` does not report
  -- that it is expired.
  pub notify_events_lem :
      (q j : ℕ) (w : World V)
      → let es = (w.queues q).events in
        (active j (notify_events q w)
          ≡ (any_of (λ e. nat_beq e j) es && not (expired j w) || active j w))
        × (((notify_events q w).queues q).events
            ≡ (if any_of (reports_expired w) es then keep_if (λ e. not (expired e w)) es else es))
  notify_events_lem q j w = (active-notify_events q j w, events-notify_events q w)

  -- all of a queue but its list of events
  abbrev pub Kept : ValueQueue V → ValueQueue V → Type 0
  Kept a b =
      (a.maxlen ≡ b.maxlen)
      × (a.queue ≡ b.queue)
      × (a.expired ≡ b.expired)
      × (a.trace_generator ≡ b.trace_generator)
      × (a.last_receive_topic ≡ b.last_receive_topic)
      × (a.last_receive_time ≡ b.last_receive_time)

  pub notify_events-Kept :
      (q k : ℕ) (w : World V) → Kept ((notify_events q w).queues k) (w.queues k)
  unfolding notify_events
  notify_events-Kept q k w =
      let es = (w.queues q).events in
      let at_q = ap (λ (f : ℕ → ValueQueue V). f q) (queues-notify_all es w) in
      let at_k = ap (λ (f : ℕ → ValueQueue V). f k) (queues-notify_all es w) in
      ground (arith, nat_beq_iff q k, at_q, at_k)
