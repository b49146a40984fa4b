-- ===== src/CircuitBreaker/Manager.antt =====
-- circuit_breaker.go: the breakers by name. The Go map holds pointers; a holder of a breaker is
-- modelled by its name, and reads and writes the breaker in the manager's table. The order in
-- which Go ranges over the map does not matter to `reset`, and decides the order of `get_stats`.
use webtracker.Shared.{
  ◌≡◌, refl, List, [], ◌∷◌, map, String, false, Option, none, some, arith, str_eq, str_eq_refl,
}
use webtracker.Shared.Dict.{lookup, store, lookup-store}
use webtracker.Shared.Int.{ℤ}
use webtracker.Shared.Clock.{Instant, Duration}
use webtracker.CircuitBreaker.{
  CircuitBreaker, CircuitState, state_closed, state_open, state_half_open, new_circuit_breaker,
  reset_breaker,
}

pub record CircuitBreakerManager : Type 0 where
  pub breakers : List (String × CircuitBreaker)

pub record CircuitBreakerStats : Type 0 where
  pub name : String
  pub state : String
  pub failure_count : ℤ
  pub success_count : ℤ
  pub last_failure_time : Instant
  pub last_success_time : Instant

-- `GetOrCreate`: the breaker found or made, and the table. Both tests of the double check see
-- the same table when nobody writes between the locks; if somebody does, the second one decides.
get_or_create_in :
    Option CircuitBreaker
    → CircuitBreakerManager
    → String
    → ℤ
    → Duration
    → ℤ
    → CircuitBreaker × CircuitBreakerManager
get_or_create_in (some cb) cbm name max_failures timeout success_threshold = (cb, cbm)
get_or_create_in none cbm name max_failures timeout success_threshold =
    let cb = new_circuit_breaker name max_failures timeout success_threshold in
    (cb, record cbm { breakers = store name cb cbm.breakers })

unfoldable pub get_or_create :
    CircuitBreakerManager → String → ℤ → Duration → ℤ → CircuitBreaker × CircuitBreakerManager
unfolding get_or_create_in
get_or_create cbm name max_failures timeout success_threshold =
    get_or_create_in (lookup name cbm.breakers) cbm name max_failures timeout success_threshold

unfoldable pub get_state_string : CircuitState → String
get_state_string state_closed = "closed"
get_state_string state_open = "open"
get_state_string state_half_open = "half-open"

unfoldable pub breaker_stats : CircuitBreaker → CircuitBreakerStats
breaker_stats cb = record {
  name = cb.name;
  state = get_state_string cb.state;
  failure_count = cb.failure_count;
  success_count = cb.success_count;
  last_failure_time = cb.last_failure_time;
  last_success_time = cb.last_success_time;
}

unfoldable pub get_stats : CircuitBreakerManager → List CircuitBreakerStats
get_stats cbm = map (λ e. breaker_stats e.1) cbm.breakers

unfoldable pub reset_all : List (String × CircuitBreaker) → List (String × CircuitBreaker)
reset_all [] = []
reset_all ((name, cb) ∷ m) = (name, reset_breaker cb) ∷ reset_all m

unfoldable pub reset : CircuitBreakerManager → CircuitBreakerManager
unfolding reset_all
reset cbm = record cbm { breakers = reset_all cbm.breakers }

abbrev pub map_breaker :
    (CircuitBreaker → CircuitBreaker) → Option CircuitBreaker → Option CircuitBreaker
map_breaker f none = none
map_breaker f (some cb) = some (f cb)

lookup-reset_all :
    (k : String) (m : List (String × CircuitBreaker))
    → lookup k (reset_all m) ≡ map_breaker reset_breaker (lookup k m)
unfolding lookup reset_all
lookup-reset_all k [] = refl
lookup-reset_all k ((j, cb) ∷ m) = ground (arith, lookup-reset_all k m)

-- A name keeps the breaker that its first `GetOrCreate` made, whatever limits a later call asks
-- for, and no other name's breaker is touched; a new breaker has the limits asked for.
pub get_or_create_lem :
    (cbm : CircuitBreakerManager) (name other : String) (m s : ℤ) (d : Duration)
    → let (cb, cbm') = get_or_create cbm name m d s in
      (lookup name cbm'.breakers ≡ some cb)
      × (lookup name cbm.breakers ≡ none → cb ≡ new_circuit_breaker name m d s)
      × ((old : CircuitBreaker) → lookup name cbm.breakers ≡ some old → (cb ≡ old) × (cbm' ≡ cbm))
      × (str_eq name other ≡ false → lookup other cbm'.breakers ≡ lookup other cbm.breakers)
unfolding get_or_create
get_or_create_lem cbm name other m s d = ground (
  arith,
  str_eq_refl name,
  lookup-store name name (new_circuit_breaker name m d s) cbm.breakers,
  lookup-store name other (new_circuit_breaker name m d s) cbm.breakers,
)

-- `Reset` closes every breaker with its counts at 0 and keeps its limits and name, and neither
-- adds nor removes a breaker.
pub reset_lem :
    (cbm : CircuitBreakerManager) (name : String)
    → lookup name (reset cbm).breakers ≡ map_breaker reset_breaker (lookup name cbm.breakers)
unfolding reset
reset_lem cbm name = lookup-reset_all name cbm.breakers
