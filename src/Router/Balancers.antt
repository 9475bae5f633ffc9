-- ===== src/Router/Balancers.antt =====
-- xray-go/app/router/balancing.go: balancers, and the strategy that takes outbounds in turn.
-- The other strategies and the outbound manager's selection are functions.
use xray_core_python.Prelude.{
  ℕ, zero, suc, ◌+◌, ◌%◌, Bool, true, Option, none, some, List, [], ◌∷◌, ◌==◌, if◌then◌else◌,
  length, same_bytes,
}

-- `RoundRobinStrategy` with its index, or another strategy.
pub data Strategy : Type 0 where
  round_robin : ℕ → Strategy
  other_strategy : (List (List ℕ) → List ℕ) → Strategy

pub record Balancer : Type 0 where
  pub selectors : List (List ℕ)
  pub strategy : Strategy
  pub fallback_tag : List ℕ
  pub override : List ℕ

-- The outbounds that an observatory does not report as dead: one without a report is taken as alive.
abbrev pub is_alive : List ℕ → List (List ℕ × Bool) → Bool
is_alive tag [] = true
is_alive tag ((t, alive) ∷ status) =
    let rest = is_alive tag status in if same_bytes t tag then alive else rest

abbrev pub alive_tags : List (List ℕ × Bool) → List (List ℕ) → List (List ℕ)
alive_tags status [] = []
alive_tags status (t ∷ ts) =
    let rest = alive_tags status ts in if is_alive t status then t ∷ rest else rest

abbrev pub tag_at : ℕ → List (List ℕ) → List ℕ
tag_at i [] = []
tag_at zero (t ∷ ts) = t
tag_at (suc i) (t ∷ ts) = tag_at i ts

-- `RoundRobinStrategy.PickOutbound`: the tag, and the next index. The report is none without an
-- observatory. In it, the last entry of a tag comes first.
unfoldable pub pick_in_turn : Option (List (List ℕ × Bool)) → List (List ℕ) → ℕ → List ℕ × ℕ
pick_in_turn report tags index = turn (known report)
  where
    known : Option (List (List ℕ × Bool)) → List (List ℕ)
    known none = tags
    known (some status) = alive_tags status tags

    turn : List (List ℕ) → List ℕ × ℕ
    turn [] = ([], index)
    turn (t ∷ ts) = let n = length (t ∷ ts) in (tag_at (index % n) (t ∷ ts), (index + 1) % n)

abbrev pub run_strategy :
    Option (List (List ℕ × Bool)) → Strategy → List (List ℕ) → List ℕ × Strategy
run_strategy report (round_robin index) tags =
    let (tag, next) = pick_in_turn report tags index in (tag, round_robin next)
run_strategy report (other_strategy pick) tags = (pick tags, other_strategy pick)

-- A tag, or the fallback for an empty one, or an error.
abbrev pub or_fallback : List ℕ → Balancer → Option (List ℕ)
or_fallback tag b =
    if length tag == 0
    then (if length b.fallback_tag == 0 then none else some b.fallback_tag)
    else some tag

-- `Balancer.PickOutbound`, with what the manager selects, which is none for an error.
unfoldable pub pick_outbound :
    Option (List (List ℕ × Bool)) → Option (List (List ℕ)) → Balancer → Option (List ℕ) × Balancer
pick_outbound report none b = (or_fallback [] b, b)
pick_outbound report (some candidates) b =
    let (tag, next) = run_strategy report b.strategy candidates in
    if length b.override == 0
    then (or_fallback tag b, record b { strategy = next })
    else (or_fallback b.override b, b)

-- A balancer of the configuration, with the strategy that its settings of the least load give.
pub record BalancingRule : Type 0 where
  pub tag : List ℕ
  pub outbound_selector : List (List ℕ)
  pub strategy_name : List ℕ
  pub fallback : List ℕ
  pub least_load : Option (List (List ℕ) → List ℕ)

-- The names of the strategies, in lower case.
abbrev pub round_robin_name : List ℕ
round_robin_name = b'r' ∷ b'o' ∷ b'u' ∷ b'n' ∷ b'd' ∷ b'r' ∷ b'o' ∷ b'b' ∷ b'i' ∷ b'n' ∷ []

abbrev pub least_ping_name : List ℕ
least_ping_name = b'l' ∷ b'e' ∷ b'a' ∷ b's' ∷ b't' ∷ b'p' ∷ b'i' ∷ b'n' ∷ b'g' ∷ []

abbrev pub least_load_name : List ℕ
least_load_name = b'l' ∷ b'e' ∷ b'a' ∷ b's' ∷ b't' ∷ b'l' ∷ b'o' ∷ b'a' ∷ b'd' ∷ []

abbrev pub random_name : List ℕ
random_name = b'r' ∷ b'a' ∷ b'n' ∷ b'd' ∷ b'o' ∷ b'm' ∷ []

abbrev pub balancer_with : BalancingRule → Option Strategy → Option Balancer
balancer_with br none = none
balancer_with br (some s) = some (record {
  selectors = br.outbound_selector;
  strategy = s;
  fallback_tag = br.fallback;
  override = [];
})

abbrev pub loaded : Option (List (List ℕ) → List ℕ) → Option Strategy
loaded none = none
loaded (some pick) = some (other_strategy pick)

-- `BalancingRule.Build`, with `strings.ToLower` and the strategies that are functions.
unfoldable pub build_balancer :
    (List ℕ → List ℕ)
    → (List (List ℕ) → List ℕ)
    → (List (List ℕ) → List ℕ)
    → BalancingRule
    → Option Balancer
build_balancer lower least_ping random br =
    let name = lower br.strategy_name in
    balancer_with br (
      if same_bytes name least_ping_name
      then some (other_strategy least_ping)
      else if same_bytes name round_robin_name
      then some (round_robin 0)
      else if same_bytes name least_load_name
      then loaded br.least_load
      else if same_bytes name random_name
      then some (other_strategy random)
      else if length name == 0
      then some (other_strategy random)
      else none)
