-- ===== src/Kcp/RoundTripInfo.antt =====
-- xray-go/transport/internet/kcp/connection.go, RoundTripInfo: the retransmission timeout from
-- the measured round trips, in uint32 arithmetic.
pub mod Bounds
use xray_core_python.Prelude.{ℕ, ◌+◌, ◌-◌, ◌*◌, ◌/◌, ◌%◌, ◌^◌, ltb, ◌==◌, if◌then◌else◌, u32, sub32}

pub record RoundTripInfo : Type 0 where
  pub variation : ℕ
  pub srtt : ℕ
  pub rto : ℕ
  pub min_rtt : ℕ
  pub updated_timestamp : ℕ

pub update_peer_rto : ℕ → ℕ → RoundTripInfo → RoundTripInfo
update_peer_rto rto current info =
    if ltb (sub32 current info.updated_timestamp) 3000
    then info
    else record info { updated_timestamp = current; rto = rto }

-- The branch of `Update` that sets `srtt` and `variation`.
smooth : ℕ → RoundTripInfo → RoundTripInfo
smooth rtt info =
    if info.srtt == 0
    then record info { srtt = rtt; variation = rtt / 2 }
    else let delta = if ltb rtt info.srtt then sub32 info.srtt rtt else sub32 rtt info.srtt in
      let variation = u32 (u32 (3 * info.variation) + delta) / 4 in
      let srtt = u32 (u32 (7 * info.srtt) + rtt) / 8 in
      record info {
        variation = variation;
        srtt = if ltb srtt info.min_rtt then info.min_rtt else srtt;
      }

raw_rto : RoundTripInfo → ℕ
raw_rto info =
    if ltb info.min_rtt (u32 (4 * info.variation))
    then u32 (info.srtt + u32 (4 * info.variation))
    else u32 (info.srtt + info.variation)

unfoldable pub update : ℕ → ℕ → RoundTripInfo → RoundTripInfo
unfolding smooth raw_rto
update rtt current info =
    if ltb 0x7FFFFFFF rtt
    then info
    else let info' = smooth rtt info in
      let rto = raw_rto info' in
      let capped : ℕ = if ltb 10000 rto then 10000 else rto in
      record info' { rto = u32 (capped * 5) / 4; updated_timestamp = current }
