-- ===== src/Server/Policy.antt =====
-- server/policy.go: whether a program message expects a response. A byte is a number below 256.
pub mod Chunks
pub mod Strings
pub mod Skips
use hislip.Prelude.{
  ℕ, zero, suc, ◌+◌, ◌-◌, ◌*◌, ◌%◌, ◌^◌, min, Bool, true, false, not, ◌&&◌, ◌||◌, List, [], ◌∷◌,
  Bytes, length, drop, leb, ltb, ◌==◌, if◌then◌else◌,
}

pub data Disposition : Type 0 where
  no_response_expected response_expected unknown : Disposition

pub data ScpiState : Type 0 where
  scpi_normal scpi_string scpi_string_quote scpi_hash scpi_block_len scpi_block_data : ScpiState

pub record ScpiQueryPolicy : Type 0 where
  pub found : Bool
  pub state : ScpiState
  pub quote : ℕ
  pub digits : ℕ
  pub length : ℕ
  pub remain : ℕ

-- NewSCPIQueryPolicy and Reset.
abbrev pub new_policy : ScpiQueryPolicy
new_policy = record {
  found = false;
  state = scpi_normal;
  quote = 0;
  digits = 0;
  length = 0;
  remain = 0;
}

unfoldable pub disposition : ScpiQueryPolicy → Disposition
disposition p = if p.found then response_expected else no_response_expected

-- One round of the loop of Feed at a byte `c`, with the bytes from `c` on: the policy, and how many
-- bytes the round consumes.
abbrev pub Round : Type 0
Round = ScpiQueryPolicy × ℕ

unfoldable pub in_normal : ScpiQueryPolicy → ℕ → Round
in_normal p c =
    if c == b'?'
    then (record p { found = true }, 1)
    else if c == b'\'' || c == b'"'
    then (record p { quote = c; state = scpi_string }, 1)
    else if c == b'#'
    then (record p { state = scpi_hash }, 1)
    else (p, 1)

unfoldable pub in_string : ScpiQueryPolicy → ℕ → Round
in_string p c = if c == p.quote then (record p { state = scpi_string_quote }, 1) else (p, 1)

-- The byte behind a closing quote is not consumed here.
unfoldable pub in_string_quote : ScpiQueryPolicy → ℕ → Round
in_string_quote p c =
    if c == p.quote
    then (record p { state = scpi_string }, 1)
    else (record p { state = scpi_normal; quote = 0 }, 0)

unfoldable pub in_hash : ScpiQueryPolicy → ℕ → Round
in_hash p c =
    if leb b'1' c && leb c b'9'
    then (record p { digits = c - b'0'; length = 0; state = scpi_block_len }, 1)
    else (record p { state = scpi_normal }, 0)

-- `p.length` is a uint64, and `p.digits` an int that is positive here.
unfoldable pub in_block_len : ScpiQueryPolicy → ℕ → Round
in_block_len p c =
    if ltb c b'0' || ltb b'9' c
    then (record p { state = scpi_normal }, 0)
    else let length' = (p.length * 10 + (c - b'0')) % 2 ^ 64 in
      let digits' = p.digits - 1 in
      if digits' == 0
      then (
        record p {
          length = length';
          digits = digits';
          remain = length';
          state = if length' == 0 then scpi_normal else scpi_block_data;
        },
        1,
      )
      else (record p { length = length'; digits = digits' }, 1)

unfoldable pub in_block_data : ScpiQueryPolicy → ℕ → Round
in_block_data p available =
    let skip = min p.remain available in
    (
      record p {
        remain = p.remain - skip;
        state = if p.remain - skip == 0 then scpi_normal else scpi_block_data;
      },
      skip,
    )

abbrev round_in : ScpiState → ScpiQueryPolicy → ℕ → Bytes → Round
round_in scpi_normal p c rest = in_normal p c
round_in scpi_string p c rest = in_string p c
round_in scpi_string_quote p c rest = in_string_quote p c
round_in scpi_hash p c rest = in_hash p c
round_in scpi_block_len p c rest = in_block_len p c
round_in scpi_block_data p c rest = in_block_data p (suc (length rest))

unfoldable pub round : ScpiQueryPolicy → ℕ → Bytes → Round
unfolding in_normal in_string in_string_quote in_hash in_block_len in_block_data
round p c rest = round_in p.state p c rest

-- The loop of Feed on fuel. A round either consumes a byte or goes over to a state that does.
unfoldable pub feed_loop : ℕ → ScpiQueryPolicy → Bytes → ScpiQueryPolicy
unfolding round
feed_loop fuel p [] = p
feed_loop zero p (c ∷ rest) = p
feed_loop (suc fuel) p (c ∷ rest) =
    let (p', i) = round p c rest in
    let next = feed_loop fuel p' (drop i (c ∷ rest)) in if p.found then p else next

-- Two rounds for a byte are enough.
unfoldable pub feed : ScpiQueryPolicy → Bytes → ScpiQueryPolicy
unfolding feed_loop
feed p chunk = feed_loop (2 * length chunk) p chunk

-- AlwaysReadPolicy and NeverReadPolicy keep no state.
pub data Policy : Type 0 where
  scpi_query : ScpiQueryPolicy → Policy
  always_read never_read : Policy

unfoldable pub policy_feed : Policy → Bytes → Policy
unfolding feed
policy_feed (scpi_query p) chunk = scpi_query (feed p chunk)
policy_feed always_read chunk = always_read
policy_feed never_read chunk = never_read

unfoldable pub policy_disposition : Policy → Disposition
unfolding disposition
policy_disposition (scpi_query p) = disposition p
policy_disposition always_read = response_expected
policy_disposition never_read = no_response_expected

unfoldable pub policy_reset : Policy → Policy
policy_reset (scpi_query p) = scpi_query new_policy
policy_reset always_read = always_read
policy_reset never_read = never_read
