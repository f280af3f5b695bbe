-- ===== src/Relay/Breaker.antt =====
-- pkg/relay/relay_bid_trace.go, `RelayClient`: the circuit breaker of a relay. Times are numbers of
-- nanoseconds, read by `time.Now()`; `mu` makes each operation atomic.
use goteth.Common.{
  ℕ, suc, ◌+◌, ◌-◌, ◌≡◌, Bool, true, false, Option, none, some, List, leb, ltb, if◌then◌else◌,
  arith,
}
use goteth.Relay.Bids.{BidTrace}

abbrev pub cb_failure_threshold : ℕ
cb_failure_threshold = 3

abbrev pub cb_cooldown : ℕ
cb_cooldown = 120000000000

pub record RelayClient : Type 0 where
  pub address : ℕ
  pub consecutive_fail : ℕ
  pub open_until : ℕ

unfoldable pub is_open : ℕ → RelayClient → RelayClient × Bool
is_open now r =
    if ltb r.consecutive_fail cb_failure_threshold
    then (r, false)
    else if ltb r.open_until now
    then (record r { consecutive_fail = cb_failure_threshold - 1 }, false)
    else (r, true)

unfoldable pub record_result : ℕ → RelayClient → Bool → RelayClient
record_result now r true =
    if leb cb_failure_threshold (suc r.consecutive_fail)
    then (record r { consecutive_fail = suc r.consecutive_fail; open_until = now + cb_cooldown })
    else (record r { consecutive_fail = suc r.consecutive_fail })
record_result now r false = record r { consecutive_fail = 0 }

-- What comes after the test of the breaker; `none` is an answer that failed or is nil.
unfoldable pub record_answer :
    ℕ → RelayClient → Option (List BidTrace) → RelayClient × Option (List BidTrace)
unfolding record_result
record_answer later r none = (record_result later r true, none)
record_answer later r (some bids) = (record_result later r false, some bids)

-- The breaker is tested at `now`, the answer comes at `later`; `none` is an error.
unfoldable pub get_delivered_bids :
    ℕ → ℕ → RelayClient → Option (List BidTrace) → RelayClient × Option (List BidTrace)
unfolding is_open record_answer
get_delivered_bids now later r answer =
    let (r', open') = is_open now r in if open' then (r', none) else record_answer later r' answer

-- What a breaker promises: closed after some failures in a row, or open up to a time.
pub data Breaker : Type 0 where
  closed : ℕ → Breaker
  open_up_to : ℕ → Breaker

abbrev pub breaker_of : RelayClient → Breaker
breaker_of r =
    if ltb r.consecutive_fail cb_failure_threshold
    then closed r.consecutive_fail
    else open_up_to r.open_until

-- A closed breaker counts failures and opens at the third in a row; an open one passes a query over
-- up to its time, and lets a single one through afterwards, which opens it again or closes it.
abbrev pub next_breaker : ℕ → ℕ → Breaker → Option (List BidTrace) → Breaker
next_breaker now later (closed n) (some _) = closed 0
next_breaker now later (closed n) none =
    if leb 2 n then open_up_to (later + cb_cooldown) else closed (suc n)
next_breaker now later (open_up_to t) (some _) = if leb now t then open_up_to t else closed 0
next_breaker now later (open_up_to t) none =
    if leb now t then open_up_to t else open_up_to (later + cb_cooldown)

abbrev pub passes : ℕ → Breaker → Bool
passes now (closed n) = true
passes now (open_up_to t) = ltb t now

-- A query moves the client as the breaker that it stands for moves, and gives the relay's answer
-- exactly where that breaker lets it pass; the address stays.
pub get_delivered_bids-next_breaker :
    (now later : ℕ) (r : RelayClient) (answer : Option (List BidTrace))
    → (breaker_of (get_delivered_bids now later r answer).0
        ≡ next_breaker now later (breaker_of r) answer)
      × ((get_delivered_bids now later r answer).1
          ≡ (if passes now (breaker_of r) then answer else none))
      × ((get_delivered_bids now later r answer).0.address ≡ r.address)
unfolding get_delivered_bids is_open record_answer record_result
get_delivered_bids-next_breaker now later r (some bids) = ground arith
get_delivered_bids-next_breaker now later r none = ground arith
