-- ===== src/Remote/Configuration.antt =====
-- The rules that `configure_remote_services` of mcf_py/mcf_remote/remote_service_config.py adds to a
-- service. A key of a dictionary is absent, None, or
-- there; queue_length and blocking are a number and a flag where they are there.
use flux_mcf.Prelude.{
  ℕ, String, Bool, Option, none, some, List, [], ◌∷◌, Result, ok, raise, assertion_error, key_error,
  ◌>>=◌,
}
use flux_mcf.Remote.Service.{Service, add_send_rule, add_receive_rule}

pub data Key (A : Type 0) : Type 0 where
  absent null : Key A
  present : A → Key A

-- `r.get(key, default)`
abbrev pub get : {A : Type 0} → Key A → Option A → Option A
get absent default = default
get null default = none
get (present a) default = some a

-- `r[key]`
abbrev pub required : {A : Type 0} → Option A → Result A
required none = raise key_error
required (some a) = ok a

pub record SendConfig : Type 0 where
  pub topic_local : Key String
  pub topic_remote : Key String
  pub queue_length : Option ℕ
  pub blocking : Option Bool

pub record ReceiveConfig : Type 0 where
  pub topic_local : Key String
  pub topic_remote : Key String

-- The local and the remote topic of a rule.
unfoldable pub rule_topics : Key String → Key String → Result (String × Option String)
rule_topics local_key remote_key =
    let topic_remote = get remote_key (get local_key none) in
    elim (get local_key topic_remote) [
      | none ↦ raise assertion_error
      | some topic_local ↦ ok (topic_local, topic_remote)
    ]

module _ {V : Type 0} where
  unfoldable pub configure_send_rules : List SendConfig → Service V → Result (Service V)
  unfolding rule_topics
  configure_send_rules [] s = ok s
  configure_send_rules (r ∷ rest) s = do
    (topic_local, topic_remote) ← rule_topics r.topic_local r.topic_remote
    queue_len ← required r.queue_length
    blocking ← required r.blocking
    s' ← add_send_rule topic_local topic_remote queue_len blocking s
    configure_send_rules rest s'

  unfoldable pub configure_receive_rules : List ReceiveConfig → Service V → Result (Service V)
  unfolding rule_topics
  configure_receive_rules [] s = ok s
  configure_receive_rules (r ∷ rest) s = do
    (topic_local, topic_remote) ← rule_topics r.topic_local r.topic_remote
    s' ← add_receive_rule topic_local topic_remote s
    configure_receive_rules rest s'

  -- the body of the loop over the services, for a new service
  unfoldable pub configure_rules :
      List SendConfig → List ReceiveConfig → Service V → Result (Service V)
  unfolding configure_send_rules configure_receive_rules
  configure_rules sends receives s = do
    s' ← configure_send_rules sends s
    configure_receive_rules receives s'
