-- ===== src/Kcp/RoundTripInfo/Bounds.antt =====
-- How far the estimates of the round trip can go.
use xray_core_python.Prelude.{ℕ, ◌+◌, ◌*◌, ◌/◌, ◌≤◌, ◌<◌, ◌≡◌, min, max, arith}
use xray_core_python.Kcp.RoundTripInfo.{RoundTripInfo, smooth, raw_rto, update}

-- The estimates stay below the 10 s that a measured round trip may take, and so does the floor.
pub record IsSane (info : RoundTripInfo) : Type 0 where
  pub variation_small : info.variation ≤ 10000
  pub srtt_small : info.srtt ≤ 10000
  pub min_rtt_small : info.min_rtt ≤ 10000

smooth-IsSane :
    (rtt : ℕ) {info : RoundTripInfo} → rtt < 10000 → IsSane info → IsSane (smooth rtt info)
unfolding smooth
smooth-IsSane rtt h v = ground arith

-- A round trip below 10 s, the only ones that are measured, keeps estimates of at most 10 s so: the
-- new timeout is at most 12.5 s and at least 5/4 of the smoothed time, and the time of the update
-- is noted.
pub update_bounds :
    (rtt current : ℕ) {info : RoundTripInfo}
    → rtt < 10000
    → IsSane info
    → let info' = update rtt current info in
      IsSane info'
      × (info'.rto ≤ 12500)
      × (info'.srtt * 5 / 4 ≤ info'.rto)
      × (info'.updated_timestamp ≡ current)
unfolding update raw_rto
update_bounds rtt current h v = ground (arith, smooth-IsSane rtt h v)

-- Once a round trip was measured, a new one below 10 s leaves the smoothed time at the floor at
-- least, at most the largest of the floor, the measure and the old value, and less than the smaller
-- of the last two by no more than the rounding, 1 ms.
pub update_srtt :
    (rtt current : ℕ) {info : RoundTripInfo}
    → rtt < 10000
    → IsSane info
    → 0 < info.srtt
    → let info' = update rtt current info in
      (info.min_rtt ≤ info'.srtt)
      × (info'.srtt ≤ max info.min_rtt (max rtt info.srtt))
      × (min rtt info.srtt ≤ info'.srtt + 1)
unfolding update smooth
update_srtt rtt current h v p = ground arith
