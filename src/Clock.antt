-- ===== src/Clock.antt =====
-- The clock readings of mcf_py: `now_micros` of mcf_py/mcf_core/helpers.py and `_now_micros` of
-- mcf_py/mcf_core/value_store.py. A `datetime` is its whole seconds since the epoch and its
-- `microsecond` attribute, so that `timestamp() * 1e6` is the exact number of microseconds; the
-- rounding of the floats on the way is not modelled.
use flux_mcf.Prelude.{ℕ, ◌+◌, ◌*◌, ◌<◌, ◌≡◌, ◌↔◌, arith}

pub record Datetime : Type 0 where
  pub secs : ℕ
  pub microsecond : ℕ

pub record IsDatetime (d : Datetime) : Type 0 where
  pub below : d.microsecond < 1000000

-- `int(timestamp() * 1e6)`
abbrev pub timestamp_micros : Datetime → ℕ
timestamp_micros d = d.secs * 1000000 + d.microsecond

-- mcf_core/helpers.py
unfoldable pub now_micros : Datetime → ℕ
now_micros d = timestamp_micros d + d.microsecond

-- mcf_core/value_store.py
unfoldable pub store_now_micros : Datetime → ℕ
store_now_micros d = d.secs * 1000000 + d.microsecond

-- Of an instant and one in the next second, the value store's reading of the later one is the
-- larger. The helper's reading goes backwards exactly if the earlier instant is more than half a
-- second further into its second, since it adds the microseconds twice.
now_micros_backwards :
    (c d : Datetime)
    → IsDatetime c
    → IsDatetime d
    → d.secs ≡ c.secs + 1
    → (store_now_micros c < store_now_micros d)
      × ((now_micros d < now_micros c) ↔ (500000 + d.microsecond < c.microsecond))
unfolding now_micros store_now_micros
now_micros_backwards c d hc hd next =
    let below = hc.below in (omega arith, (λ h. omega arith, λ h. omega arith))
